-- ===== src/Db/Guarantee.antt =====
-- What a service function does to the database, whether it returns or throws: a relation between
-- the database before and after, with one rule for each way to build a function.
use qpass_backend.Prelude.{◌≡◌, refl, Bool, true, false, Option, none, some, if◌then◌else◌}
use qpass_backend.Fault.{Fault}
use qpass_backend.Db.Rows.{Db}
use qpass_backend.Db.Monad.{
  Result, ok, err, M, pure, throw, or_throw, or_else, gets, transaction, attempt, try_finally,
  from_result, throw_if, when, modify, after, rolled_back, ◌>>=◌, ◌>>◌,
}

-- `m` takes a database only to one that `R` allows.
pub record Guarantees {A : Type 0} (R : Db → Db → Type 0) (m : M A) : Type 0 where
  pub at : (db : Db) → R db (m db).1

-- A relation that may be made in several steps.
pub record IsPreorder (R : Db → Db → Type 0) : Type 0 where
  pub refl_at : (db : Db) → R db db
  pub trans_at : (a b c : Db) → R a b → R b c → R a c

module _ {R : Db → Db → Type 0} (pre : IsPreorder R) where
  module _ {A : Type 0} where
    pub Guarantees-pure : (a : A) → Guarantees R (pure a)
    unfolding pure
    Guarantees-pure a = record { at = pre.refl_at }

    pub Guarantees-throw : (e : Fault) → Guarantees R (throw {A = A} e)
    unfolding throw
    Guarantees-throw e = record { at = pre.refl_at }

    pub Guarantees-or_throw : (o : Option A) (e : Fault) → Guarantees R (or_throw o e)
    unfolding or_throw
    Guarantees-or_throw none e = record { at = pre.refl_at }
    Guarantees-or_throw (some a) e = record { at = pre.refl_at }

    pub Guarantees-or_else : (o : Option A) (m : M A) → Guarantees R m → Guarantees R (or_else o m)
    unfolding or_else
    Guarantees-or_else none m h = record { at = h.at }
    Guarantees-or_else (some a) m h = record { at = pre.refl_at }

    pub Guarantees-gets : (f : Db → A) → Guarantees R (gets f)
    unfolding gets
    Guarantees-gets f = record { at = pre.refl_at }

    pub Guarantees-from_result : (r : Result A) → Guarantees R (from_result r)
    unfolding from_result
    Guarantees-from_result r = record { at = pre.refl_at }

    pub Guarantees-attempt : (m : M A) → Guarantees R m → Guarantees R (attempt m)
    unfolding attempt
    Guarantees-attempt m h = record { at = h.at }

    rolled_back-R : (m : M A) (db : Db) → R db (m db).1 → R db (transaction m db).1
    unfolding transaction
    rolled_back-R m db h = go (m db) h
      where
        go : (p : Result A × Db) → R db p.1 → R db (rolled_back p db).1
        go (ok a, db') k = k
        go (err e, db') k = pre.refl_at db

    pub Guarantees-transaction : (m : M A) → Guarantees R m → Guarantees R (transaction m)
    Guarantees-transaction m h = record { at = λ db. rolled_back-R m db (h.at db) }

    pub Guarantees-try_finally :
        (m : M A) (last : Db → Db)
        → Guarantees R m
        → ((db : Db) → R db (last db))
        → Guarantees R (try_finally m last)
    unfolding try_finally
    Guarantees-try_finally m last h k = record {
      at = λ db. pre.trans_at db (m db).1 (last (m db).1) (h.at db) (k (m db).1);
    }

    pub Guarantees-if :
        (b : Bool) (m n : M A)
        → (b ≡ true → Guarantees R m)
        → (b ≡ false → Guarantees R n)
        → Guarantees R (if b then m else n)
    Guarantees-if true m n hm hn = hm refl
    Guarantees-if false m n hm hn = hn refl

  pub Guarantees-throw_if : (b : Bool) (e : Fault) → Guarantees R (throw_if b e)
  unfolding throw_if
  Guarantees-throw_if true e = record { at = pre.refl_at }
  Guarantees-throw_if false e = record { at = pre.refl_at }

  pub Guarantees-when : (b : Bool) (m : M (Unit {0})) → Guarantees R m → Guarantees R (when b m)
  unfolding when
  Guarantees-when true m h = record { at = h.at }
  Guarantees-when false m h = record { at = pre.refl_at }

  module _ {A B : Type 0} where
    -- The rest of a function after a part that gave `r`.
    pub Guarantees-after :
        (r : Result A) (f : A → M B)
        → ((a : A) → Guarantees R (f a))
        → (db : Db) → R db (after r f db).1
    Guarantees-after (ok a) f h db = (h a).at db
    Guarantees-after (err e) f h db = pre.refl_at db

    pub Guarantees-bind :
        (m : M A) (f : A → M B)
        → Guarantees R m
        → ((a : A) → Guarantees R (f a))
        → Guarantees R (m >>= f)
    unfolding ◌>>=◌
    Guarantees-bind m f hm hf = record {
      at = λ db.
          pre.trans_at db (m db).1 (after (m db).0 f (m db).1).1 (hm.at db)
            (Guarantees-after (m db).0 f hf (m db).1);
    }

  pub Guarantees-then :
      {B : Type 0} (m : M (Unit {0})) (k : M B)
      → Guarantees R m
      → Guarantees R k
      → Guarantees R (m >> k)
  unfolding ◌>>◌
  Guarantees-then m k hm hk = Guarantees-bind m (λ _. k) hm (λ _. hk)

pub Guarantees-modify :
    {R : Db → Db → Type 0} (f : Db → Db) → ((db : Db) → R db (f db)) → Guarantees R (modify f)
unfolding modify
Guarantees-modify f h = record { at = h }

pub ruleset guarantee_rules = (
  Guarantees-pure, Guarantees-throw, Guarantees-or_throw, Guarantees-or_else, Guarantees-gets,
  Guarantees-from_result, Guarantees-attempt, Guarantees-transaction, Guarantees-if,
  Guarantees-throw_if, Guarantees-when, Guarantees-bind, Guarantees-then,
)

-- What stays true.
abbrev pub Preserves : (Db → Type 0) → Db → Db → Type 0
Preserves P a b = P a → P b

pub Preserves-IsPreorder : (P : Db → Type 0) → IsPreorder (Preserves P)
Preserves-IsPreorder P = record { refl_at = λ db h. h; trans_at = λ a b c f g h. g (f h) }
