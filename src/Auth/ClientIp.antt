-- ===== src/Auth/ClientIp.antt =====
-- `resolve_client_ip` of backend/src/auth.rs with its helpers: the client's address behind trusted
-- proxies. An address is the number of its bits. The networks of the crate `ipnet` and the reading
-- of an address or a socket address from a text are parameters.
pub mod Hops
pub mod Origin
pub mod Forged
use arc_admin.Prelude.{
  nat_eq, string_eq, Bool, List, Option, String, [], byte_len, exists, if◌then◌else◌, leb, length,
  ltb, none, some, split, trim, ℕ, ◌%◌, ◌&&◌, ◌++◌, ◌/◌, ◌==◌, ◌^◌, ◌∷◌,
}
use arc_admin.Auth.Http.{header, filter}

pub data IpAddr : Type 0 where
  v4 v6 : ℕ → IpAddr

-- `to_ipv4_mapped`: ::ffff:a.b.c.d
unfoldable pub canonical_ip : IpAddr → IpAddr
canonical_ip (v4 bits) = v4 bits
canonical_ip (v6 bits) = if bits / 2 ^ 32 == 65535 then v4 (bits % 2 ^ 32) else v6 bits

abbrev pub or_else : {A : Type 0} → Option A → Option A → Option A
or_else none other = other
or_else (some a) other = some a

abbrev pub map_option : {A B : Type 0} → (A → B) → Option A → Option B
map_option f none = none
map_option f (some a) = some (f a)

abbrev pub and_prepend : {A : Type 0} → Option A → Option (List A) → Option (List A)
and_prepend (some a) (some rest) = some (a ∷ rest)
and_prepend _ _ = none

-- `.collect::<Option<Vec<_>>>()`
unfoldable pub collect : {A B : Type 0} → (A → Option B) → List A → Option (List B)
collect f [] = some []
collect f (x ∷ xs) = and_prepend (f x) (collect f xs)

-- `.rev()`
unfoldable pub rev : {A : Type 0} → List A → List A
rev [] = []
rev (x ∷ xs) = rev xs ++ x ∷ []

abbrev pub max_forwarded_for_length : ℕ
max_forwarded_for_length = 1024

abbrev pub max_forwarded_for_hops : ℕ
max_forwarded_for_hops = 16

module _ (parse_ip parse_socket_ip : String → Option IpAddr) where
  unfoldable pub parse_forwarded_ip : String → Option IpAddr
  unfolding canonical_ip
  parse_forwarded_ip value =
      map_option canonical_ip (or_else (parse_ip (trim value)) (parse_socket_ip (trim value)))

  -- The addresses of the header, where all of it can be used.
  unfoldable pub forwarded_hops : Option String → Option (List IpAddr)
  unfolding parse_forwarded_ip collect
  forwarded_hops none = none
  forwarded_hops (some forwarded_for) =
      if leb (byte_len forwarded_for) max_forwarded_for_length
      then filter
          (λ (values : List IpAddr).
            ltb 0 (length values) && leb (length values) max_forwarded_for_hops)
          (collect parse_forwarded_ip (split b',' forwarded_for))
      else none

module _ {Net : Type 0} (contains : Net → IpAddr → Bool) where
  unfoldable pub is_trusted_proxy : List Net → IpAddr → Bool
  is_trusted_proxy trusted ip = exists (λ network. contains network ip) trusted

  -- The loop over the hops, the nearest first.
  unfoldable pub nearest_client : List Net → IpAddr → List IpAddr → IpAddr
  unfolding is_trusted_proxy
  nearest_client trusted candidate [] = candidate
  nearest_client trusted candidate (hop ∷ hops) =
      let rest = nearest_client trusted hop hops in
      if is_trusted_proxy trusted candidate then rest else candidate

  -- The hops of the header, or the peer where it cannot be used.
  unfoldable pub client_of : List Net → IpAddr → Option (List IpAddr) → IpAddr
  unfolding nearest_client rev
  client_of trusted peer none = peer
  client_of trusted peer (some forwarded) = nearest_client trusted peer (rev forwarded)

  unfoldable pub resolve_client_ip :
      (parse_ip parse_socket_ip : String → Option IpAddr)
      → IpAddr
      → List (String × Option String)
      → List Net
      → IpAddr
  unfolding is_trusted_proxy client_of canonical_ip header forwarded_hops
  resolve_client_ip parse_ip parse_socket_ip peer_ip headers trusted =
      let peer = canonical_ip peer_ip in
      if is_trusted_proxy trusted peer
      then client_of trusted peer
          (forwarded_hops parse_ip parse_socket_ip (header headers "x-forwarded-for"))
      else peer
