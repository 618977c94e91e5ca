-- ===== src/Service/StepUp/Issue.antt =====
-- The whole of `issue` and `consume`: what the returned token opens.
use arc_admin.Prelude.{
  nat_eq, string_eq, List, String, arith, err, if◌then◌else◌, length, ok, some, true, ℕ, ◌≡◌,
}
use arc_admin.External.{External}
use arc_admin.Error.{Api, forbidden}
use arc_admin.Db.{Db}
use arc_admin.Auth.Token.{random_token}
use arc_admin.Auth.Token.Hex.{AllBytes, random_token-length}
use arc_admin.Service.Reauth.{verify_reauthentication}
use arc_admin.Service.StepUp.{
  StepUpRequest, StepUpResponse, is_valid_scope, issue, store_grant, consume, used_grant,
}
use arc_admin.Service.StepUp.OneUse.{use_grant_cases}
use arc_admin.Service.StepUp.Grants.{stored, opened-stored, covers}

module _ (ext : External) (step now utc_now session user : ℕ) (bytes : List ℕ)
    (req : StepUpRequest) where
  abbrev reauthenticated : Db → Api (Unit {0}) × Db
  reauthenticated = verify_reauthentication ext step now user req.current_password req.totp_code

  -- A token is returned only for one of the known scopes, after a re-authentication that succeeded,
  -- and its grant is stored in the database which that left.
  pub issue-stored :
      (db : Db) {response : StepUpResponse} {db' : Db}
      → issue ext step now utc_now bytes session user req db ≡ (ok response, db')
      → (is_valid_scope req.scope ≡ true)
        × ((reauthenticated db).0 ≡ ok tt)
        × (store_grant ext now utc_now bytes session user req.scope (reauthenticated db).1
            ≡ ok (response, db'))
  unfolding issue
  issue-stored db h = ground arith

  module _ (later session' user' : ℕ) (scope' : String) where
    -- The token that `issue` returned, of 32 random bytes, is accepted afterwards exactly in the same
    -- session, for the same user and scope, and before 300 seconds have passed since the server's
    -- clock at the issue; otherwise the answer is the refusal of a used grant.
    pub consume-issue :
        (db : Db) {response : StepUpResponse} {db' : Db}
        → AllBytes bytes
        → length bytes ≡ 32
        → issue ext step now utc_now bytes session user req db ≡ (ok response, db')
        → (consume ext later session' user' (some response.token) scope' db').0 ≡ (
            if covers ext now utc_now session user bytes req.scope later session' user' scope'
            then ok tt
            else err (forbidden used_grant))
    unfolding consume
    consume-issue db {db'} all_bytes size h =
        let (_, _, kept) = issue-stored db h in
        let (given, _, _) = stored ext now utc_now session user bytes req.scope _ kept in
        let rows =
          opened-stored ext now utc_now session user bytes req.scope later session' user' scope' _
            kept in
        let full = random_token-length bytes all_bytes size in
        rw (given, full)
          (ground
            (arith, rows, use_grant_cases ext later session' user' scope' (random_token bytes) db'))
