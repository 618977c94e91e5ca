-- ===== src/Service/Mfa/Settled.antt =====
-- How a check of a second factor ends (`settle` and `refuse`, of the calls of
-- backend/src/services/mfa.rs): what it commits is what follows, and a refusal is an error.
use arc_admin.Prelude.{nat_eq, string_eq, String, ap, ok, ℕ, ◌∙◌, ◌≡◌, ◌≢◌}
use arc_admin.Error.{Api}
use arc_admin.Db.{Db, ChallengeRow}
use arc_admin.Action.{Action, and_then-done}
use arc_admin.Service.Mfa.{settle, refuse}

pub settle-done :
    {A : Type 0} (m : Action (Api A)) (db : Db) {a : A} {left : Db}
    → settle m db ≡ (ok a, left)
    → m db ≡ (ok (ok a), left)
settle-done m db h =
    let (r, mid, first, rest) = and_then-done m (λ r d. (r, d)) db h in
    first ∙ ap (λ (p : Api _ × Db). (ok p.0, p.1)) rest

pub refuse-err :
    {A : Type 0} (now : ℕ) (db : Db) (challenge : ChallengeRow) (factor : String) {a : A}
    {left : Db}
    → refuse now db challenge factor ≢ (ok a, left)
unfolding refuse
refuse-err now db challenge factor h = cc
