-- ===== src/App/Keeps.antt =====
-- Actions that respect a relation between the database before and after, whether they throw or not.
use waylo_app.Base.{Bool, true, false, Option, none, some, if◌then◌else◌}
use waylo_app.Base.{ℕ}
use waylo_app.Base.Table.{Table}
use waylo_app.Schema.Rows.{Mission}
use waylo_app.App.Store.{Db, World, AlertCode, StripeCall}
use waylo_app.App.Monad.{
  Fault, Result, ok, err, Action, ◌>>=◌, pure, throw, read, or_throw, throw_if, others, emit,
  stripe_call, transaction, catch, update_mission, modify,
}

-- The relation is reflexive and transitive.
pub record Order (R : Db → Db → Type 0) : Type 0 where
  pub here : (db : Db) → R db db
  pub along : (a b c : Db) → R a b → R b c → R a c

pub record Keeps {ℓ} (R : Db → Db → Type 0) {A : Type ℓ} (m : Action A) : Type 0 where
  pub keeps : (w : World) → R w.db (m w).1.db

module _ {R : Db → Db → Type 0} (o : Order R) where
  pub throw-Keeps {ℓ} : {A : Type ℓ} (e : Fault) → Keeps R (throw {A = A} e)
  throw-Keeps e = record { keeps = λ w. o.here w.db }

  module _ {ℓ} {A : Type ℓ} where
    pub pure-Keeps : (a : A) → Keeps R (pure a)
    pure-Keeps a = record { keeps = λ w. o.here w.db }

    pub read-Keeps : (f : Db → A) → Keeps R (read f)
    read-Keeps f = record { keeps = λ w. o.here w.db }

    pub or_throw-Keeps : (a : Option A) (e : Fault) → Keeps R (or_throw a e)
    or_throw-Keeps none e = record { keeps = λ w. o.here w.db }
    or_throw-Keeps (some a) e = record { keeps = λ w. o.here w.db }

    pub if-Keeps :
        (b : Bool) {m n : Action A} → Keeps R m → Keeps R n → Keeps R (if b then m else n)
    if-Keeps true p q = p
    if-Keeps false p q = q

  pub throw_if-Keeps : (b : Bool) (e : Fault) → Keeps R (throw_if b e)
  throw_if-Keeps true e = record { keeps = λ w. o.here w.db }
  throw_if-Keeps false e = record { keeps = λ w. o.here w.db }

  pub others-Keeps : (f : Db → Db) → ((db : Db) → R db (f db)) → Keeps R (others f)
  others-Keeps f h = record { keeps = λ w. h w.db }

  pub modify-Keeps : (f : Db → Db) → ((db : Db) → R db (f db)) → Keeps R (modify f)
  modify-Keeps f h = record { keeps = λ w. h w.db }

  pub emit-Keeps : (a : AlertCode) → Keeps R (emit a)
  emit-Keeps a = record { keeps = λ w. o.here w.db }

  pub stripe_call-Keeps : (c : StripeCall) → Keeps R (stripe_call c)
  stripe_call-Keeps c = record { keeps = λ w. o.here w.db }

  -- where the relation does not look at the missions
  pub update_mission-Keeps :
      (id : ℕ) (test : Mission → Bool) (f : Mission → Mission)
      → ((db : Db) (t : Table Mission) → R db (record db { missions = t }))
      → Keeps R (update_mission id test f)
  update_mission-Keeps id test f h = record { keeps = λ w. h w.db _ }

  module _ {ℓ} {A : Type ℓ} where
    rolled :
        (db : Db) (p : Result A × World)
        → R db p.1.db
        → R db
            (elim p.0 as (λ r. Result A × World) [
              | ok a ↦ (ok a, p.1)
              | err e ↦ (err e, record p.1 { db = db })
            ]).1.db
    rolled db (ok a, w') r = r
    rolled db (err e, w') r = o.here db

    pub transaction-Keeps : {m : Action A} → Keeps R m → Keeps R (transaction m)
    transaction-Keeps {m} p = record { keeps = λ w. rolled w.db (m w) (p.keeps w) }

    caught :
        (handle : Fault → Action A)
        → ((e : Fault) → Keeps R (handle e))
        → (db : Db) (p : Result A × World) → R db p.1.db
        → R db
            (elim p.0 as (λ r. Result A × World) [ ok a ↦ (ok a, p.1) | err e ↦ handle e p.1 ]).1.db
    caught handle q db (ok a, w') r = r
    caught handle q db (err e, w') r = o.along db w'.db (handle e w').1.db r ((q e).keeps w')

    pub catch-Keeps :
        {m : Action A} {handle : Fault → Action A}
        → Keeps R m
        → ((e : Fault) → Keeps R (handle e))
        → Keeps R (catch m handle)
    catch-Keeps {m} {handle} p q = record { keeps = λ w. caught handle q w.db (m w) (p.keeps w) }

  module _ {ℓ κ} {A : Type ℓ} {B : Type κ} where
    bound :
        (k : A → Action B)
        → ((a : A) → Keeps R (k a))
        → (db : Db) (p : Result A × World) → R db p.1.db
        → R db (elim p.0 as (λ r. Result B × World) [ ok a ↦ k a p.1 | err e ↦ (err e, p.1) ]).1.db
    bound k q db (ok a, w') r = o.along db w'.db (k a w').1.db r ((q a).keeps w')
    bound k q db (err e, w') r = r

    pub bind-Keeps :
        {m : Action A} {k : A → Action B}
        → Keeps R m
        → ((a : A) → Keeps R (k a))
        → Keeps R (m >>= k)
    bind-Keeps {m} {k} p q = record { keeps = λ w. bound k q w.db (m w) (p.keeps w) }
