-- ===== src/Action.antt =====
-- How a call of the backend meets the database. Its reads outside a transaction see the committed
-- database (`pool`); a transaction works on a copy that is committed at its end, or dropped by an
-- early return (sqlx rolls a dropped transaction back). A failure of the connection itself is not
-- modelled: it would end the call with an internal error, and the open transaction with it.
use arc_admin.Prelude.{nat_eq, ap, err, ok, refl, sym, ◌>>=◌, ◌≡◌}
use arc_admin.Error.{Api}
use arc_admin.Db.{Db}

-- The result of a call and the database that it leaves, on an error too.
abbrev pub Action {ℓ} : Type ℓ → Type ℓ
Action A = Db → Api A × Db

-- `transaction.commit()` at the end of the body.
abbrev pub committed {ℓ} : {A : Type ℓ} → Db → Api (A × Db) → Api A × Db
committed pool (ok (a, db)) = (ok a, db)
committed pool (err e) = (err e, pool)

abbrev pub transaction {ℓ} : {A : Type ℓ} → (Db → Api (A × Db)) → Action A
transaction body pool = committed pool (body pool)

abbrev continue {ℓ κ} : {A : Type ℓ} {B : Type κ} → Api A → (A → Action B) → Action B
continue (ok a) f db = f a db
continue (err e) f db = (err e, db)

-- `m.await?` and then the rest.
abbrev pub and_then {ℓ κ} : {A : Type ℓ} {B : Type κ} → Action A → (A → Action B) → Action B
and_then m f db = continue (m db).0 f (m db).1

-- A check that only reads.
abbrev pub check {ℓ} : {A : Type ℓ} → (Db → Api A) → Action A
check f db = (f db, db)

continue-eq-ok {ℓ κ} :
    {A : Type ℓ} {B : Type κ} (got : Api A) (rest : A → Action B) (db : Db) {b : B}
    → (continue got rest db).0 ≡ ok b
    → (a : A) × (got ≡ ok a) × ((rest a db).0 ≡ ok b)
continue-eq-ok (ok a) rest db h = (a, refl, h)
continue-eq-ok (err e) rest db h = cc

-- Inversion of a successful `?` between actions.
pub and_then-eq-ok {ℓ κ} :
    {A : Type ℓ} {B : Type κ} (first : Action A) (rest : A → Action B) (db : Db) {b : B}
    → (and_then first rest db).0 ≡ ok b
    → (a : A) × ((first db).0 ≡ ok a) × ((rest a (first db).1).0 ≡ ok b)
and_then-eq-ok first rest db h = continue-eq-ok (first db).0 rest (first db).1 h

continue-done {ℓ κ} :
    {A : Type ℓ} {B : Type κ} (first : Api A × Db) (rest : A → Action B) {b : B} {left : Db}
    → continue first.0 rest first.1 ≡ (ok b, left)
    → (a : A) × (mid : Db) × (first ≡ (ok a, mid)) × (rest a mid ≡ (ok b, left))
continue-done (ok a, mid) rest h = (a, mid, refl, h)
continue-done (err e, mid) rest h = cc

-- The same with the databases.
pub and_then-done {ℓ κ} :
    {A : Type ℓ} {B : Type κ} (first : Action A) (rest : A → Action B) (db : Db) {b : B} {left : Db}
    → and_then first rest db ≡ (ok b, left)
    → (a : A) × (mid : Db) × (first db ≡ (ok a, mid)) × (rest a mid ≡ (ok b, left))
and_then-done first rest db h = continue-done (first db) rest h

pub check-done {ℓ} :
    {A : Type ℓ} (f : Db → Api A) (db : Db) {a : A} {left : Db}
    → check f db ≡ (ok a, left)
    → (f db ≡ ok a) × (left ≡ db)
check-done f db h = (ap (λ r. r.0) h, sym (ap (λ r. r.1) h))

committed-done {ℓ} :
    {A : Type ℓ} (pool : Db) (r : Api (A × Db)) {a : A} {left : Db}
    → committed pool r ≡ (ok a, left)
    → r ≡ ok (a, left)
committed-done {A = A} pool (ok (a, db)) h = ap (λ (r : Api A × Db). r.0 >>= λ a. ok (a, r.1)) h
committed-done {A = A} pool (err e) h = cc

pub transaction-done {ℓ} :
    {A : Type ℓ} (body : Db → Api (A × Db)) (pool : Db) {a : A} {left : Db}
    → transaction body pool ≡ (ok a, left)
    → body pool ≡ ok (a, left)
transaction-done body pool h = committed-done pool (body pool) h
