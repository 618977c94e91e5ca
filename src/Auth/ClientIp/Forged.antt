-- ===== src/Auth/ClientIp/Forged.antt =====
-- A forged X-Forwarded-For header before `resolve_client_ip` of backend/src/auth.rs.
use Prim.Native.Char.{code}
use arc_admin.Prelude.{
  nat_eq, string_eq, Bool, Bool-cases, List, Option, Option-cases, String, [], all, all_chars, ap,
  arith, concat, false, if◌then◌else◌, inl, inr, nat_beq, none, not, refl, some, split, sym, true,
  ℕ, ◌++◌, ◌∙◌, ◌∷◌, ◌≡◌, ◌⊎◌,
}
use arc_admin.Auth.Http.{header}
use arc_admin.Auth.ClientIp.{
  IpAddr, canonical_ip, is_trusted_proxy, resolve_client_ip, client_of, collect, and_prepend,
  forwarded_hops, parse_forwarded_ip,
}
use arc_admin.Auth.ClientIp.Hops.{resolve_client_ip-client}

split-whole :
    (sep : ℕ) (s : String) → all_chars (λ c. not (nat_beq c sep)) s ≡ true → split sep s ≡ s ∷ []
unfolding split all_chars
split-whole sep String.[] h = refl
split-whole sep (String.◌∷◌ c s) h =
    let rest = split-whole sep s (ground arith) in rw rest (ground arith)

split-cases :
    (sep : ℕ) (s : String)
    → (piece : String) × (pieces : List String) × (split sep s ≡ piece ∷ pieces)
unfolding split
split-cases sep String.[] = (String.[], [], refl)
split-cases sep (String.◌∷◌ c s) =
    let (piece, pieces, rest) = split-cases sep s in
    elim (Bool-cases (nat_beq (code c) sep)) [
      | inl here ↦ (String.[], piece ∷ pieces, rw (rest, here))
      | inr other ↦ (String.◌∷◌ c piece, pieces, rw (rest, other))
    ]

abbrev comma : ℕ → Bool
comma c = nat_beq c b','

-- a text in front of a comma and one more element splits into its own pieces and that element
split-concat :
    (forged own : String)
    → all_chars (λ c. not (comma c)) own ≡ true
    → split b',' (concat forged (concat "," own)) ≡ split b',' forged ++ own ∷ []
unfolding split concat
split-concat String.[] own h = rw (split-whole b',' own h)
split-concat (String.◌∷◌ c s) own h =
    let (piece, pieces, first) = split-cases b',' s in
    rw (split-concat s own h, first)
      (elim (Bool-cases (comma (code c))) [ inl here ↦ rw here | inr other ↦ rw other ])

and_prepend-some :
    {B : Type 0} (first : Option B) (rest : Option (List B)) {values : List B}
    → and_prepend first rest ≡ some values
    → (b : B) × (others : List B) × (first ≡ some b) × (rest ≡ some others) × (values ≡ b ∷ others)
and_prepend-some none rest h = cc
and_prepend-some (some b) none h = cc
and_prepend-some (some b) (some others) h = (b, others, refl, refl, ground arith)

collect-append :
    {A B : Type 0} (f : A → Option B) (xs : List A) (x : A) {y : B} {values : List B}
    → collect f (xs ++ x ∷ []) ≡ some values
    → f x ≡ some y
    → (before : List B) × (values ≡ before ++ y ∷ [])
unfolding collect
collect-append f [] x {y} h k = ([], ground (arith, k))
collect-append f (a ∷ xs) x h k =
    let (b, rest, first, others, whole) = and_prepend-some (f a) (collect f (xs ++ x ∷ [])) h in
    let (before, same) = collect-append f xs x others k in (b ∷ before, rw (whole, same))

-- what `filter` and the length let through
forwarded_hops-some :
    (parse_ip parse_socket_ip : String → Option IpAddr) (text : String) {values : List IpAddr}
    → forwarded_hops parse_ip parse_socket_ip (some text) ≡ some values
    → collect (parse_forwarded_ip parse_ip parse_socket_ip) (split b',' text) ≡ some values
unfolding forwarded_hops
forwarded_hops-some parse_ip parse_socket_ip text h =
    elim (Option-cases (collect (parse_forwarded_ip parse_ip parse_socket_ip) (split b',' text))) [
      | inl nothing ↦ ground (arith, nothing)
      | inr (values, found) ↦ ground (arith, found)
    ]

-- Behind a trusted proxy that appends the address it saw, a client that is no proxy itself is taken
-- for that address or, where the header cannot be used, for the proxy: nothing that the client wrote
-- into the header chooses any other.
pub resolve_client_ip-forged :
    {Net : Type 0} (contains : Net → IpAddr → Bool) (trusted : List Net)
    (parse_ip parse_socket_ip : String → Option IpAddr) (proxy : IpAddr)
    (headers : List (String × Option String)) (forged own : String) (client : IpAddr)
    → is_trusted_proxy contains trusted (canonical_ip proxy) ≡ true
    → header headers "x-forwarded-for" ≡ some (concat forged (concat "," own))
    → all_chars (λ c. not (comma c)) own ≡ true
    → parse_forwarded_ip parse_ip parse_socket_ip own ≡ some client
    → is_trusted_proxy contains trusted client ≡ false
    → (resolve_client_ip contains parse_ip parse_socket_ip proxy headers trusted ≡ client)
      ⊎ (resolve_client_ip contains parse_ip parse_socket_ip proxy headers trusted
          ≡ canonical_ip proxy)
unfolding resolve_client_ip client_of all
resolve_client_ip-forged contains trusted parse_ip parse_socket_ip proxy headers forged own client t
      h whole p u =
    let text = concat forged (concat "," own) in
    elim (Option-cases (forwarded_hops parse_ip parse_socket_ip (some text))) [
      | inl unusable ↦ inr (rw (t, h, unusable))
      | inr (values, usable) ↦
          let parsed = forwarded_hops-some parse_ip parse_socket_ip text usable in
          let (before, same) =
            collect-append (parse_forwarded_ip parse_ip parse_socket_ip) (split b',' forged) own
              {values = values} (rw (sym (split-concat forged own whole)) parsed) p in
          let found =
            resolve_client_ip-client contains trusted parse_ip parse_socket_ip proxy headers before
              [] client (rw (h, sym same) usable) refl u in
          inl (found ∙ ap (λ b. if b then client else canonical_ip proxy) t)
    ]
