-- ===== src/Auth/ClientIp/Origin.antt =====
-- `resolve_client_ip` of backend/src/auth.rs against a reading of the hops in the header's order.
use arc_admin.Prelude.{
  nat_eq, string_eq, Bool, Bool-cases, List, Option, Option-cases, String, [], arith, false,
  if◌then◌else◌, inl, inr, none, refl, some, some_injective, sym, true, unwrap_or, ◌++◌, ◌∷◌, ◌≡◌,
}
use arc_admin.Auth.Http.{header}
use arc_admin.Auth.ClientIp.{
  IpAddr, canonical_ip, is_trusted_proxy, nearest_client, resolve_client_ip, client_of,
  forwarded_hops, rev, or_else,
}

module _ {Net : Type 0} (contains : Net → IpAddr → Bool) (trusted : List Net) where
  abbrev trusts : IpAddr → Bool
  trusts ip = is_trusted_proxy contains trusted ip

  -- The last address of the header that is no trusted proxy.
  unfoldable pub last_stranger : List IpAddr → Option IpAddr
  last_stranger [] = none
  last_stranger (hop ∷ hops) = or_else (last_stranger hops) (if trusts hop then none else some hop)

  abbrev pub first_of : IpAddr → List IpAddr → IpAddr
  first_of peer [] = peer
  first_of peer (hop ∷ hops) = hop

  -- The last stranger among the hops; the first hop where all are trusted, the peer where there is
  -- none.
  unfoldable pub origin : IpAddr → Option (List IpAddr) → IpAddr
  unfolding last_stranger
  origin peer none = peer
  origin peer (some hops) = unwrap_or (last_stranger hops) (first_of peer hops)

  nearest_client-last :
      (candidate : IpAddr) (near : List IpAddr) (hop : IpAddr)
      → nearest_client contains trusted candidate (near ++ hop ∷ []) ≡ (
          if trusts (nearest_client contains trusted candidate near)
          then hop
          else nearest_client contains trusted candidate near)
  unfolding nearest_client
  nearest_client-last candidate [] hop = elim (Bool-cases (trusts candidate)) [
    | inl proxy ↦ rw proxy
    | inr other ↦ rw other
  ]
  nearest_client-last candidate (next ∷ near) hop = elim (Bool-cases (trusts candidate)) [
    | inl proxy ↦ rw proxy (nearest_client-last next near hop)
    | inr other ↦ rw (other, other)
  ]

  last_stranger-untrusted :
      (hops : List IpAddr) {client : IpAddr}
      → last_stranger hops ≡ some client
      → trusts client ≡ false
  unfolding last_stranger
  last_stranger-untrusted [] h = cc
  last_stranger-untrusted (hop ∷ hops) {client} h = elim (Option-cases (last_stranger hops)) [
    | inr (later, found) ↦
        let same : later ≡ client = some_injective (rw found at h) in
        rw (sym same) (last_stranger-untrusted hops found)
    | inl nobody ↦ elim (Bool-cases (trusts hop)) [
      | inl proxy ↦ absurd (ground (arith, rw (nobody, proxy) at h))
      | inr other ↦
          let same : hop ≡ client = some_injective (rw (nobody, other) at h) in rw (sym same) other
    ]
  ]

  first_of-trusted :
      (peer : IpAddr) (hops : List IpAddr)
      → trusts peer ≡ true
      → last_stranger hops ≡ none
      → trusts (first_of peer hops) ≡ true
  unfolding last_stranger
  first_of-trusted peer [] proxy h = proxy
  first_of-trusted peer (hop ∷ hops) proxy h = elim (Option-cases (last_stranger hops)) [
    | inr (later, found) ↦ absurd (ground (arith, rw found at h))
    | inl nobody ↦ elim (Bool-cases (trusts hop)) [
      | inl trusted_hop ↦ trusted_hop
      | inr other ↦ absurd (ground (arith, rw (nobody, other) at h))
    ]
  ]

  nearest_client-origin :
      (peer : IpAddr) (hops : List IpAddr)
      → trusts peer ≡ true
      → nearest_client contains trusted peer (rev hops) ≡ origin peer (some hops)
  unfolding rev origin last_stranger nearest_client
  nearest_client-origin peer [] proxy = refl
  nearest_client-origin peer (hop ∷ hops) proxy =
      let rest = nearest_client-origin peer hops proxy in
      rw (nearest_client-last peer (rev hops) hop, rest)
        (elim (Option-cases (last_stranger hops)) [
          | inr (client, found) ↦ rw (found, last_stranger-untrusted hops found)
          | inl nobody ↦
              let first = first_of-trusted peer hops proxy nobody in
              elim (Bool-cases (trusts hop)) [
                | inl proxy_hop ↦ rw (nobody, first, proxy_hop)
                | inr other ↦ rw (nobody, first, other)
              ]
        ])

  -- Whatever the headers are: a peer that is no trusted proxy is the client itself. Behind a trusted
  -- peer the client is the last address of the header that is no trusted proxy; its first address
  -- where all are trusted; and the peer where the header is missing or cannot be used.
  pub resolve_client_ip-origin :
      (parse_ip parse_socket_ip : String → Option IpAddr) (peer_ip : IpAddr)
      (headers : List (String × Option String))
      → resolve_client_ip contains parse_ip parse_socket_ip peer_ip headers trusted ≡ (
          if trusts (canonical_ip peer_ip)
          then origin
              (canonical_ip peer_ip)
              (forwarded_hops parse_ip parse_socket_ip (header headers "x-forwarded-for"))
          else canonical_ip peer_ip)
  unfolding resolve_client_ip client_of origin
  resolve_client_ip-origin parse_ip parse_socket_ip peer_ip headers =
      elim (Bool-cases (trusts (canonical_ip peer_ip))) [
        | inr other ↦ rw other
        | inl proxy ↦
            elim (Option-cases
              (forwarded_hops parse_ip parse_socket_ip (header headers "x-forwarded-for"))) [
                | inl missing ↦ rw (proxy, missing)
                | inr (hops, read) ↦
                    rw (proxy, read) (nearest_client-origin (canonical_ip peer_ip) hops proxy)
              ]
      ]
