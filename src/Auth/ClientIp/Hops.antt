-- ===== src/Auth/ClientIp/Hops.antt =====
-- Which address the loop over the hops of `resolve_client_ip` (backend/src/auth.rs) finds.
use arc_admin.Prelude.{
  nat_eq, string_eq, Bool, Bool-cases, List, Option, String, [], all, arith, false, if◌then◌else◌,
  inl, inr, refl, some, true, ◌++◌, ◌∷◌, ◌≡◌,
}
use arc_admin.Auth.Http.{header}
use arc_admin.Auth.ClientIp.{
  IpAddr, canonical_ip, is_trusted_proxy, nearest_client, resolve_client_ip, client_of,
  forwarded_hops, rev,
}

append_assoc : {A : Type 0} (xs ys zs : List A) → (xs ++ ys) ++ zs ≡ xs ++ (ys ++ zs)
append_assoc [] ys zs = refl
append_assoc (x ∷ xs) ys zs = rw (append_assoc xs ys zs)

append_nil : {A : Type 0} (xs : List A) → xs ++ [] ≡ xs
append_nil [] = refl
append_nil (x ∷ xs) = rw (append_nil xs)

pub rev-append : {A : Type 0} (xs ys : List A) → rev (xs ++ ys) ≡ rev ys ++ rev xs
unfolding rev
rev-append [] ys = rw (append_nil (rev ys))
rev-append (x ∷ xs) ys = rw (rev-append xs ys, append_assoc (rev ys) (rev xs) (x ∷ []))

all-append :
    {A : Type 0} (p : A → Bool) (xs ys : List A)
    → all p xs ≡ true
    → all p ys ≡ true
    → all p (xs ++ ys) ≡ true
unfolding all
all-append p [] ys h k = k
all-append p (x ∷ xs) ys h k = ground (arith, all-append p xs ys)

all-rev : {A : Type 0} (p : A → Bool) (xs : List A) → all p xs ≡ true → all p (rev xs) ≡ true
unfolding all rev
all-rev p [] h = refl
all-rev p (x ∷ xs) h = all-append p (rev xs) (x ∷ []) (all-rev p xs (ground arith)) (ground arith)

module _ {Net : Type 0} (contains : Net → IpAddr → Bool) (trusted : List Net) where
  abbrev trusts : IpAddr → Bool
  trusts ip = is_trusted_proxy contains trusted ip

  -- the loop passes the trusted hops and stops at the first other one
  pub nearest_client-stops :
      (candidate : IpAddr) (near far : List IpAddr) (client : IpAddr)
      → trusts candidate ≡ true
      → all trusts near ≡ true
      → trusts client ≡ false
      → nearest_client contains trusted candidate (near ++ client ∷ far) ≡ client
  unfolding nearest_client all
  nearest_client-stops candidate [] [] client t h u = rw t
  nearest_client-stops candidate [] (next ∷ far) client t h u = rw (t, u)
  nearest_client-stops candidate (hop ∷ near) far client t h u =
      rw t (nearest_client-stops hop near far client (ground arith) (ground arith) u)

  -- where the header can be used and names a client after which only trusted proxies stand
  pub resolve_client_ip-client :
      (parse_ip parse_socket_ip : String → Option IpAddr) (peer_ip : IpAddr)
      (headers : List (String × Option String)) (before after : List IpAddr) (client : IpAddr)
      → forwarded_hops parse_ip parse_socket_ip (header headers "x-forwarded-for")
        ≡ some (before ++ client ∷ after)
      → all trusts after ≡ true
      → trusts client ≡ false
      → resolve_client_ip contains parse_ip parse_socket_ip peer_ip headers trusted
        ≡ (if trusts (canonical_ip peer_ip) then client else canonical_ip peer_ip)
  unfolding resolve_client_ip client_of rev
  resolve_client_ip-client parse_ip parse_socket_ip peer_ip headers before after client h t u =
      elim (Bool-cases (trusts (canonical_ip peer_ip))) [
        | inr other ↦ rw other
        | inl proxy ↦
            let order : rev (before ++ client ∷ after) ≡ rev after ++ client ∷ rev before = rw (
              rev-append before (client ∷ after),
              append_assoc (rev after) (client ∷ []) (rev before),
            ) in
            let stops =
              nearest_client-stops (canonical_ip peer_ip) (rev after) (rev before) client proxy
                (all-rev trusts after t) u in
            rw (proxy, h, order, stops)
      ]
