-- ===== src/Import/Process.antt =====
-- modules/registrations/import.service.js: `processImportFile`. The parsed file is an argument; its
-- notifications are left out.
use qpass_backend.Prelude.{
  ℕ, zero, suc, ◌+◌, String, Bool, true, false, not, Option, none, some, List, [], ◌∷◌, ◌++◌, ◌==◌,
  is_some, if◌then◌else◌, eqb, length, take, drop,
}
use qpass_backend.Prelude.Tables.{find_first, find_many, update_many}
use qpass_backend.Fault.{
  not_found, forbidden, unique_violation, record_missing, import_event_not_found, import_no_access,
  import_batch_not_found,
}
use qpass_backend.Db.{
  Db, Event, Registration, RowError, batch_failed, ImportBatch, ImportStatus, processing, failed,
  completed, Emission, registration_new, M, ◌>>=◌, ◌>>◌, pure, throw_if, or_throw, gets, modify,
  write_audit_log,
}
use qpass_backend.Qr.{Crypto}
use qpass_backend.Registration.Create.{has_id}
use qpass_backend.Import.Validate.{Row, Entry, validate_rows}
use qpass_backend.Import.Resolve.{
  Claims, existing_emails, drop_existing, active_type, resolve_entries,
}
use qpass_backend.Import.Create.{RowDraw, write_rows}

-- What the import brings besides the database: `commits k` says whether the k-th transaction
-- commits, `between k` what other requests do before it.
pub record Upload : Type 0 where
  pub now : ℕ
  pub batch_id : String
  pub event_id : String
  pub uploaded_by_id : String
  pub filename : String
  pub file_type : String
  pub draws : ℕ → RowDraw
  pub commits : ℕ → Bool
  pub between : ℕ → Db → Db
  pub io_up : Bool

-- successRows, failedRows and allErrors; `entries` counts the entries that were tried.
pub record Tally : Type 0 where
  pub success_rows : ℕ
  pub failed_rows : ℕ
  pub errors : List RowError
  pub entries : ℕ

-- prisma.$transaction: where it does not commit the writes are gone, but not the variables that its
-- callback assigned.
unfoldable pub committed : {A : Type 0} → Bool → M A → M A
committed b m db = ((m db).0, if b then (m db).1 else db)

abbrev pub entry_failed : Entry → RowError
entry_failed e = record { row = e.row; email = some e.email; error = batch_failed }

unfoldable pub all_failed : List Entry → List RowError
all_failed [] = []
all_failed (e ∷ es) = entry_failed e ∷ all_failed es

-- The tally after the transaction of `batch`, which gave `result`.
unfoldable pub tallied : Bool → List Entry → List Registration × List RowError → Tally → Tally
tallied true batch (done, errors) t = record {
  success_rows = t.success_rows + length done;
  failed_rows = t.failed_rows + length errors;
  errors = t.errors ++ errors;
  entries = t.entries + length batch;
}
tallied false batch (done, errors) t = record {
  success_rows = t.success_rows;
  failed_rows = t.failed_rows + length errors + length batch;
  errors = t.errors ++ errors ++ all_failed batch;
  entries = t.entries + length batch;
}

unfoldable pub announced : String → List Registration → List Emission → List Emission
announced event_id [] sent = sent
announced event_id (r ∷ rs) sent =
    announced event_id rs
      (registration_new event_id r.id r.attendee_name r.attendee_email r.ticket_type_id ∷ sent)

-- registration:new, of a batch that committed, where Socket.IO is up.
unfoldable pub announce : Bool → Bool → String → List Registration → Db → Db
announce true true event_id done db = record db { emitted = announced event_id done db.emitted }
announce true false event_id done db = db
announce false io_up event_id done db = db

module _ (crypto : Crypto) (up : Upload) (event : Event) (claims : Claims) where
  unfoldable pub run_batch : ℕ → List Entry → Tally → M Tally
  run_batch k batch t = do
    modify (up.between k)
    result ←
        committed (up.commits k) (write_rows crypto up.now event claims up.draws t.entries batch)
    modify (announce (up.commits k) up.io_up up.event_id result.0)
    pure (tallied (up.commits k) batch result t)

  -- BATCH_SIZE = 50. `fuel` bounds the number of batches.
  unfoldable pub run_batches : ℕ → ℕ → List Entry → Tally → M Tally
  run_batches zero k entries t = pure t
  run_batches (suc fuel) k [] t = pure t
  run_batches (suc fuel) k (e ∷ es) t = do
    t' ← run_batch k (take 50 (e ∷ es)) t
    run_batches fuel (k + 1) (drop 50 (e ∷ es)) t'

abbrev pub is_batch : String → ImportBatch → Bool
is_batch id b = b.id == id

-- prisma.importBatch.create
unfoldable pub insert_batch : ImportBatch → M (Unit {0})
insert_batch new = do
  clash ← gets (λ db. find_first (is_batch new.id) db.import_batches)
  throw_if (is_some clash) unique_violation
  modify (λ db. record db { import_batches = db.import_batches ++ new ∷ [] })

-- errors.length > 0 ? errors : null
abbrev pub report : List RowError → Option (List RowError)
report [] = none
report (e ∷ es) = some (e ∷ es)

abbrev pub new_batch : Upload → List Row → List RowError → ImportBatch
new_batch up rows parse_errors = record {
  id = up.batch_id;
  event_id = up.event_id;
  uploaded_by_id = up.uploaded_by_id;
  original_filename = up.filename;
  file_type = up.file_type;
  total_rows = length rows + length parse_errors;
  success_rows = 0;
  failed_rows = 0;
  status = processing;
  error_report = report parse_errors;
  completed_at = none;
}

abbrev pub final_status : ℕ → ImportStatus
final_status n = if eqb n 0 then failed else completed

abbrev pub finished : ℕ → Tally → ImportBatch → ImportBatch
finished now t b = record b {
  success_rows = t.success_rows;
  failed_rows = t.failed_rows;
  status = final_status t.success_rows;
  error_report = report t.errors;
  completed_at = some now;
}

unfoldable pub update_batch : String → (ImportBatch → ImportBatch) → M ImportBatch
update_batch id f = do
  found ← gets (λ db. find_first (is_batch id) db.import_batches)
  b ← or_throw found record_missing
  modify (λ db. record db { import_batches = update_many (is_batch id) f db.import_batches })
  pure (f b)

-- The loop over the rows, and what is left out before the first batch.
unfoldable pub prepare : String → List Row → Db → (List Entry × Claims) × List RowError
prepare event_id rows db =
    let valid = validate_rows 0 rows [] in
    let fresh = drop_existing (existing_emails event_id valid.0 db.registrations) valid.0 in
    let typed = resolve_entries (find_many (active_type event_id) db.ticket_types) [] fresh.0 in
    ((typed.0.0, typed.1), valid.1 ++ fresh.1 ++ typed.0.1)

-- !event || event.deletedAt
abbrev pub live : Option Event → Option Event
live none = none
live (some e) = if is_some e.deleted_at then none else some e

abbrev pub start : List RowError → List RowError → Tally
start parse_errors errors = record {
  success_rows = 0;
  failed_rows = length parse_errors + length errors;
  errors = parse_errors ++ errors;
  entries = 0;
}

-- The fuel is the number of entries: a batch has at least one of them.
unfoldable pub process_import_file : Crypto → Upload → List Row → List RowError → M ImportBatch
process_import_file crypto up rows parse_errors = do
  found ← gets (λ db. find_first (has_id up.event_id) db.events)
  event ← or_throw (live found) (not_found import_event_not_found)
  throw_if (not (event.owner_id == up.uploaded_by_id)) (forbidden import_no_access)
  insert_batch (new_batch up rows parse_errors)
  prepared ← gets (prepare up.event_id rows)
  let entries = prepared.0.0
  t ←
      run_batches crypto up event prepared.0.1 (length entries) 0 entries
        (start parse_errors prepared.1)
  b ← update_batch up.batch_id (finished up.now t)
  write_audit_log (some up.uploaded_by_id) "IMPORT" "ImportBatch" b.id
  pure b

-- getImportBatchById
unfoldable pub get_import_batch_by_id : String → M ImportBatch
get_import_batch_by_id id = do
  found ← gets (λ db. find_first (is_batch id) db.import_batches)
  or_throw found (not_found import_batch_not_found)
