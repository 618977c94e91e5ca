-- ===== src/Tests/Addresses.antt =====
-- Examples of the client's address.
use arc_admin.Prelude.{
  nat_eq, string_eq, Bool, List, Option, String, [], all_chars, concat, exists, false,
  if◌then◌else◌, none, refl, some, trim, ℕ, ◌==◌, ◌∷◌, ◌≡◌, ◌⊎◌,
}
use arc_admin.Auth.Http.{header}
use arc_admin.Auth.ClientIp.{
  IpAddr, v4, canonical_ip, is_trusted_proxy, resolve_client_ip, parse_forwarded_ip, forwarded_hops,
}
use arc_admin.Auth.ClientIp.Origin.{origin, resolve_client_ip-origin}
use arc_admin.Auth.ClientIp.Forged.{resolve_client_ip-forged}

-- A network is an address, and three texts are addresses.
abbrev only : ℕ → IpAddr → Bool
only network (v4 bits) = network == bits
only network (IpAddr.v6 bits) = false

abbrev parse : String → Option IpAddr
parse text =
    if text == "10.0.0.1"
    then some (v4 1)
    else if text == "10.0.0.2"
    then some (v4 2)
    else if text == "1.2.3.4"
    then some (v4 99)
    else none

abbrev no_socket : String → Option IpAddr
no_socket text = none

abbrev forwarded : List (String × Option String)
forwarded = ("x-forwarded-for", some "10.0.0.1,1.2.3.4") ∷ []

abbrev through : List (String × Option String)
through = ("x-forwarded-for", some "10.0.0.2, 1.2.3.4 ,10.0.0.1") ∷ []

resolve_client_ip-forged_example :
    (resolve_client_ip only parse no_socket (v4 1) forwarded (1 ∷ []) ≡ v4 99)
    ⊎ (resolve_client_ip only parse no_socket (v4 1) forwarded (1 ∷ []) ≡ canonical_ip (v4 1))
unfolding is_trusted_proxy exists canonical_ip header concat all_chars parse_forwarded_ip trim
resolve_client_ip-forged_example =
    resolve_client_ip-forged only (1 ∷ []) parse no_socket (v4 1) forwarded "10.0.0.1" "1.2.3.4"
      (v4 99) refl refl refl refl refl

resolve_client_ip-origin_example :
    resolve_client_ip only parse no_socket (v4 1) through (1 ∷ []) ≡ (
      if is_trusted_proxy only (1 ∷ []) (canonical_ip (v4 1))
      then origin only
          (1 ∷ [])
          (canonical_ip (v4 1))
          (forwarded_hops parse no_socket (header through "x-forwarded-for"))
      else canonical_ip (v4 1))
resolve_client_ip-origin_example =
    resolve_client_ip-origin only (1 ∷ []) parse no_socket (v4 1) through
