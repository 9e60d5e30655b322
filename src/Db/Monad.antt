-- ===== src/Db/Monad.antt =====
-- A service function: it reads and writes the database, and returns or throws. What was written
-- before a throw stays written, outside a transaction.
use qpass_backend.Prelude.{Bool, true, false, Option, none, some, String, [], ◌∷◌, ◌++◌}
use qpass_backend.Fault.{Fault}
use qpass_backend.Db.Rows.{Db}

pub data Result {ℓ} (A : Type ℓ) : Type ℓ where
  ok : A → Result A
  err : Fault → Result A

abbrev pub M : Type 0 → Type 0
M A = Db → Result A × Db

module _ {A : Type 0} where
  unfoldable pub pure : A → M A
  pure a db = (ok a, db)

  unfoldable pub throw : Fault → M A
  throw e db = (err e, db)

  -- if (!o) throw e;
  unfoldable pub or_throw : Option A → Fault → M A
  or_throw (some a) e db = (ok a, db)
  or_throw none e db = (err e, db)

  -- if (!o) return m;
  unfoldable pub or_else : Option A → M A → M A
  or_else (some a) m db = (ok a, db)
  or_else none m db = m db

  unfoldable pub gets : (Db → A) → M A
  gets f db = (ok (f db), db)

  abbrev pub rolled_back : Result A × Db → Db → Result A × Db
  rolled_back (ok a, db') db = (ok a, db')
  rolled_back (err e, db') db = (err e, db)

  -- prisma.$transaction: a throw rolls the writes back.
  unfoldable pub transaction : M A → M A
  transaction m db = rolled_back (m db) db

  -- try { ... } catch (err) { ... }
  unfoldable pub attempt : M A → M (Result A)
  attempt m db = (ok (m db).0, (m db).1)

  -- try { m } finally { last }, where `last` throws nothing
  unfoldable pub try_finally : M A → (Db → Db) → M A
  try_finally m last db = ((m db).0, last (m db).1)

  unfoldable pub from_result : Result A → M A
  from_result r db = (r, db)

-- if (c) throw e;
unfoldable pub throw_if : Bool → Fault → M (Unit {0})
throw_if true e db = (err e, db)
throw_if false e db = (ok tt, db)

unfoldable pub when : Bool → M (Unit {0}) → M (Unit {0})
when true m db = m db
when false m db = (ok tt, db)

unfoldable pub modify : (Db → Db) → M (Unit {0})
modify f db = (ok tt, f db)

module _ {A B : Type 0} where
  -- The rest of a function after a part that gave `r` and left `db`.
  abbrev pub after : Result A → (A → M B) → M B
  after (ok a) f db = f a db
  after (err e) f db = (err e, db)

  infixl 5 ◌>>=◌
  -- Opening this opens the other operations too.
  unfoldable pub ◌>>=◌ : M A → (A → M B) → M B
  unfolding pure throw or_throw or_else gets transaction attempt try_finally from_result throw_if
      when modify
  ◌>>=◌ m f db = after (m db).0 f (m db).1

-- Opening this opens `>>=` too.
infixl 5 ◌>>◌
unfoldable pub ◌>>◌ : {B : Type 0} → M (Unit {0}) → M B → M B
unfolding ◌>>=◌
m >> k = m >>= λ _. k

-- utils/audit-log.js: a failed insert is logged and swallowed, so a caller cannot tell; modelled is
-- the insert that succeeds.
unfoldable pub write_audit_log : Option String → String → String → String → M (Unit {0})
unfolding modify
write_audit_log actor_id action entity entity_id = modify λ db. record db {
  audit_logs =
      db.audit_logs
      ++ record { actor_id = actor_id; action = action; entity = entity; entity_id = entity_id }
        ∷ [];
}
