-- ===== src/Import/Accounts.antt =====
-- modules/registrations/import.service.js: what the counts of an import add up to.
use qpass_backend.Prelude.{ℕ, ◌+◌, ◌≤◌, ◌≡◌, Bool, true, List, length}
use qpass_backend.Db.{Db, Event, Registration, RowError, Result, ok}
use qpass_backend.Qr.{Crypto}
use qpass_backend.Import.Validate.{Entry}
use qpass_backend.Import.Resolve.{Claims}
use qpass_backend.Import.Process.{Upload, Tally}

abbrev Sorted : List Entry × List RowError → ℕ → Type 0
Sorted r n = length r.0 + length r.1 ≡ n

abbrev Created : {A : Type 0} → (A → Type 0) → Result A → Type 0
Created P r = (a : _) × (r ≡ ok a) × P a

-- The errors of the rows of a batch that does not commit are counted twice.
abbrev Counted : (commits : ℕ → Bool) (total entries : ℕ) → Tally → Type 0
Counted commits total entries t =
    (total ≤ t.success_rows + t.failed_rows)
    × (((k : ℕ) → commits k ≡ true) → t.success_rows + t.failed_rows ≡ total)
    × (t.entries ≡ entries)

module _ (crypto : Crypto) (up : Upload) (event : Event) (claims : Claims) where
  abbrev SameBatches : Db → Db → Type 0
  SameBatches a b = b.import_batches ≡ a.import_batches
