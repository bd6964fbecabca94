-- ===== src/Db/Keeps.antt =====
-- Invariants of transactions: one rule for each way to build one.
use personal_cloud_ai_servic.Prelude.{
  ◌≡◌, refl, subst, Bool, true, false, Option, none, some, if◌then◌else◌,
}
use personal_cloud_ai_servic.Db.{
  Db, Error, Result, ok, err, Tx, ◌>>=◌, pure, fail, row_or, committed,
}

-- What holds of the result and the database that a transaction would commit.
abbrev pub Ends : {A : Type 0} → (A → Db → Type 0) → Result (A × Db) → Type 0
Ends Q (ok (a, db)) = Q a db
Ends Q (err e) = Unit

-- The database that a transaction would commit has the property.
abbrev pub After : {A : Type 0} → (Db → Type 0) → Result (A × Db) → Type 0
After P r = Ends (λ _ db. P db) r

-- A successful result is an end.
pub Ends-ok :
    {A : Type 0} (Q : A → Db → Type 0) (r : Result (A × Db)) {a : A} {db : Db}
    → Ends Q r
    → r ≡ ok (a, db)
    → Q a db
Ends-ok Q (ok (a, db)) {a = a'} {db = db'} h e = subst (λ s. Ends Q s) e h
Ends-ok Q (err x) h e = cc

-- The value of a success is one, and a success is no error.
pub first_result :
    {A : Type 0} {a b : A} {db db' : Db}
    → ◌≡◌ {A = Result (A × Db)} (ok (a, db)) (ok (b, db'))
    → a ≡ b
first_result e = cc

pub differ :
    {A : Type 0} {a : A} {db : Db} {x : Error} → ◌≡◌ {A = Result (A × Db)} (ok (a, db)) (err x) → ⊥
differ e = cc

-- What holds whatever the end.
pub Ends-any :
    {A : Type 0} (Q : A → Db → Type 0) (r : Result (A × Db))
    → ((a : A) (db : Db) → Q a db)
    → Ends Q r
Ends-any Q (ok (a, db)) h = h a db
Ends-any Q (err x) h = tt

pub Ends-imply :
    {A : Type 0} {P Q : A → Db → Type 0} (r : Result (A × Db))
    → Ends P r
    → ((a : A) (db : Db) → P a db → Q a db)
    → Ends Q r
Ends-imply (ok (a, db)) h k = k a db h
Ends-imply (err e) h k = tt

-- One step of a transaction whose outcome is known.
module _ {A B : Type 0} (m : Tx A) (f : A → Tx B) (db : Db) where
  pub bind-ok : {a : A} {db' : Db} → m db ≡ ok (a, db') → (m >>= f) db ≡ f a db'
  bind-ok e = rw (e, ◌>>=◌)

  pub bind-err : {x : Error} → m db ≡ err x → (m >>= f) db ≡ err x
  bind-err e = rw (e, ◌>>=◌)

module _ {A B : Type 0} (Q : B → Db → Type 0) (f : A → Tx B) where
  bound_end :
      (r : Result (A × Db))
      → ((a : A) (db : Db) → r ≡ ok (a, db) → Ends Q (f a db))
      → Ends Q (elim r [ ok (a, db') ↦ f a db' | err e ↦ err e ])
  bound_end (ok (a, db)) k = k a db refl
  bound_end (err e) k = tt

  pub Ends-bind :
      (m : Tx A) (db : Db)
      → ((a : A) (db' : Db) → m db ≡ ok (a, db') → Ends Q (f a db'))
      → Ends Q ((m >>= f) db)
  Ends-bind m db k = bound_end (m db) k

  found_end :
      (e : Error) (o : Option A) (db : Db)
      → ((a : A) → o ≡ some a → Ends Q (f a db))
      → Ends Q (elim (row_or e o db) [ ok (a, db') ↦ f a db' | err e ↦ err e ])
  found_end e none db k = tt
  found_end e (some a) db k = k a refl

  -- What follows a read that found its row.
  pub Ends-read :
      (e : Error) (query : Db → Option A) (db : Db)
      → ((a : A) → query db ≡ some a → Ends Q (f a db))
      → Ends Q (((λ db. row_or e (query db) db) >>= f) db)
  Ends-read e query db k = found_end e (query db) db k

pub record Keeps {A : Type 0} (P : Db → Type 0) (m : Tx A) : Type 0 where
  pub at : (db : Db) → P db → After P (m db)

module _ {A : Type 0} (P : Db → Type 0) where
  After-row_or : (e : Error) (o : Option A) (db : Db) → P db → After P (row_or e o db)
  After-row_or e none db h = tt
  After-row_or e (some a) db h = h

  pub after-committed : (db : Db) (r : Result (A × Db)) → P db → After P r → P (committed db r)
  after-committed db (ok (a, db')) h k = k
  after-committed db (err e) h k = h

module _ {A : Type 0} {P : Db → Type 0} where
  pub Keeps-pure : (a : A) → Keeps P (pure a)
  Keeps-pure a = record { at = λ db h. h }

  pub Keeps-fail : (e : Error) → Keeps P (fail {A = A} e)
  Keeps-fail e = record { at = λ db h. tt }

  -- A read: it leaves the database as it is, or fails.
  pub Keeps-row_or : (e : Error) (query : Db → Option A) → Keeps P (λ db. row_or e (query db) db)
  Keeps-row_or e query = record { at = λ db. After-row_or P e (query db) db }

  pub Keeps-if : (b : Bool) (m n : Tx A) → Keeps P m → Keeps P n → Keeps P (if b then m else n)
  Keeps-if true m n km kn = km
  Keeps-if false m n km kn = kn

  -- An invariant that a transaction keeps holds after the call, committed or rolled back.
  pub Keeps-committed : {m : Tx A} → Keeps P m → (db : Db) → P db → P (committed db (m db))
  Keeps-committed {m} k db h = after-committed P db (m db) h (k.at db h)

module _ {A B : Type 0} {P : Db → Type 0} where
  pub After-bind :
      (r : Result (A × Db)) (f : A → Tx B)
      → After P r
      → ((a : A) → Keeps P (f a))
      → After P (elim r [ ok (a, db') ↦ f a db' | err e ↦ err e ])
  After-bind (ok (a, db)) f h kf = (kf a).at db h
  After-bind (err e) f h kf = tt

  pub Keeps-bind :
      (m : Tx A) (f : A → Tx B) → Keeps P m → ((a : A) → Keeps P (f a)) → Keeps P (m >>= f)
  Keeps-bind m f km kf = record { at = λ db h. After-bind (m db) f (km.at db h) kf }

pub ruleset keeps_rules = (Keeps-pure, Keeps-fail, Keeps-row_or, Keeps-if, Keeps-bind)
