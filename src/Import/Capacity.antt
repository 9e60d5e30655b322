-- ===== src/Import/Capacity.antt =====
-- modules/registrations/import.service.js: an import sells no more of a ticket type than there is.
use qpass_backend.Prelude.{
  ℕ, ◌+◌, ◌-◌, String, ◌≡◌, refl, Bool, true, false, ◌==◌, eq_iff, Option, none, some, List, [],
  ◌∷◌, All, arith, inl, inr, Bool-cases, Option-cases, sym,
}
use qpass_backend.Prelude.Tables.{
  find_first, update_many, All-update_many, Distinct, Distinct-update_many, find_first-test,
}
use qpass_backend.Db.{Db, TicketType, ImportBatch, AuditLog, write_audit_log, ◌>>◌}
use qpass_backend.Db.Guarantee.{
  Guarantees, Preserves, Preserves-IsPreorder, guarantee_rules, Guarantees-modify,
}
use qpass_backend.Qr.{Crypto}
use qpass_backend.Tickets.Types.{is_ticket_type}
use qpass_backend.Registration.Create.{sell}
use qpass_backend.Registration.Capacity.{Fits}
use qpass_backend.Import.Validate.{Row}
use qpass_backend.Db.{RowError}
use qpass_backend.Import.Resolve.{Claims}
use qpass_backend.Import.Create.{
  type_id, type_of_entry, has_room, claimable, claim_type, unsell, undo_claim,
}
use qpass_backend.Import.Process.{Upload, insert_batch, update_batch, process_import_file}
use qpass_backend.Import.Frame.{run_batches-kept}

abbrev pub same_type : TicketType → TicketType → Bool
same_type a b = a.id == b.id

abbrev pub FitsType : TicketType → Type 0
FitsType t = Fits t.capacity t.quantity_sold

-- The ids of the ticket types are distinct, and of none more are sold than its capacity.
pub record IsSold (db : Db) : Type 0 where
  pub distinct : Distinct same_type db.ticket_types
  pub fits : All FitsType db.ticket_types

-- A row with the id of a row that was found is that row.
abbrev Like : TicketType → TicketType → Type 0
Like seen t = FitsType t × (t.id ≡ seen.id → t.capacity ≡ seen.capacity)

others-Like :
    (seen : TicketType) (ts : List TicketType)
    → All (λ y. same_type y seen ≡ false) ts
    → All FitsType ts
    → All (Like seen) ts
others-Like seen [] h f = tt
others-Like seen (t ∷ ts) (h, hs) (f, fs) =
    ((f, λ e. ground (arith, h, (eq_iff t.id seen.id).1 e)), others-Like seen ts hs fs)

found-Like :
    (id : String) (seen : TicketType) (ts : List TicketType)
    → Distinct same_type ts
    → All FitsType ts
    → find_first (is_ticket_type id) ts ≡ some seen
    → All (Like seen) ts
unfolding find_first
found-Like id seen [] d f h = tt
found-Like id seen (t ∷ ts) (a, d) (f, fs) h = elim (Bool-cases (is_ticket_type id t)) [
  | inl e ↦
      let same : t ≡ seen = ground (arith, e, h) in
      ((f, λ k. rw same refl), others-Like seen ts (rw (sym same) a) fs)
  | inr e ↦
      let found : find_first (is_ticket_type id) ts ≡ some seen = ground (arith, e, h) in
      let test = find_first-test (is_ticket_type id) ts found in
      ((f, λ k. ground (arith, e, test, k)), found-Like id seen ts d fs found)
]

sell-Fits : (seen t : TicketType) → claimable seen t ≡ true → Like seen t → Like seen (sell t)
sell-Fits seen t h (f, same) =
    let cap = same ((eq_iff t.id seen.id).0 (ground (arith, h))) in
    (go t.capacity (ground (arith, h, cap)) f, same)
  where
    go :
        (limit : Option ℕ)
        → has_room limit (record t { capacity = limit }) ≡ true
        → Fits limit t.quantity_sold
        → Fits limit (t.quantity_sold + 1)
    go none r f = tt
    go (some c) r f = ground (arith, r)

Like-Fits : (seen : TicketType) (ts : List TicketType) → All (Like seen) ts → All FitsType ts
Like-Fits seen [] h = tt
Like-Fits seen (t ∷ ts) (h, hs) = (h.0, Like-Fits seen ts hs)

claim_seen-IsSold :
    (id : String) (seen : TicketType) (db : Db)
    → find_first (is_ticket_type id) db.ticket_types ≡ some seen
    → Preserves IsSold db (claim_type (some seen) db).1
unfolding claim_type ◌>>◌
claim_seen-IsSold id seen db found h =
    let sold : (claim_type (some seen) db).1.ticket_types
        ≡ update_many (claimable seen) sell db.ticket_types =
      ground arith in
    record {
      distinct = rw sold (
          Distinct-update_many same_type (claimable seen) sell db.ticket_types (λ a b. refl)
            (λ a b. refl) h.distinct);
      fits = rw sold (
          Like-Fits seen _ (
            All-update_many (Like seen) (claimable seen) sell db.ticket_types (sell-Fits seen)
              (found-Like id seen db.ticket_types h.distinct h.fits found)));
    }

type_of_entry-found :
    (claims : Claims) (o : Option String) (ts : List TicketType) (seen : TicketType)
    → type_of_entry claims o ts ≡ some seen
    → find_first (is_ticket_type (type_id o)) ts ≡ some seen
type_of_entry-found claims o ts seen h = ground (arith, h)

claim_type-IsSold :
    (claims : Claims) (o : Option String) (db : Db)
    → Preserves IsSold db (claim_type (type_of_entry claims o db.ticket_types) db).1
unfolding claim_type ◌>>◌
claim_type-IsSold claims o db h = elim (Option-cases (type_of_entry claims o db.ticket_types)) [
  | inl e ↦ rw e h
  | inr (seen, e) ↦
      rw e (claim_seen-IsSold (type_id o) seen db (type_of_entry-found claims o _ seen e) h)
]

unsell-Fits :
    (id : String) (t : TicketType) → is_ticket_type id t ≡ true → FitsType t → FitsType (unsell t)
unsell-Fits id t e f = go t.capacity f
  where
    go : (limit : Option ℕ) → Fits limit t.quantity_sold → Fits limit (t.quantity_sold - 1)
    go none f = tt
    go (some c) f = omega (arith, f)

undo_claim-IsSold : (o : Option TicketType) (db : Db) → Preserves IsSold db (undo_claim o db)
unfolding undo_claim
undo_claim-IsSold none db h = h
undo_claim-IsSold (some t) db h = record {
  distinct =
      Distinct-update_many same_type (is_ticket_type t.id) unsell db.ticket_types (λ a b. refl)
        (λ a b. refl) h.distinct;
  fits =
      All-update_many FitsType (is_ticket_type t.id) unsell db.ticket_types (unsell-Fits t.id)
        h.fits;
}

-- A write to another table.
abbrev elsewhere : {d e : Db} → e.ticket_types ≡ d.ticket_types → Preserves IsSold d e
elsewhere same h = record { distinct = rw same h.distinct; fits = rw same h.fits }

-- Ids of ticket types are distinct and none is sold beyond its capacity: so it stays through an
-- import, whether this returns or throws and its transactions commit or not, where the requests
-- that come between its transactions keep it.
pub process_import_file-IsSold :
    (crypto : Crypto) (up : Upload) (rows : List Row) (parse_errors : List RowError) (db : Db)
    → ((n : ℕ) (d : Db) → IsSold d → IsSold (up.between n d))
    → IsSold db
    → IsSold (process_import_file crypto up rows parse_errors db).1
unfolding process_import_file insert_batch update_batch write_audit_log
process_import_file-IsSold crypto up rows parse_errors db others =
    let pre = Preserves-IsPreorder IsSold in
    let batches =
      run_batches-kept pre (λ f d. elsewhere refl) (λ f d. elsewhere refl) (λ f d. elsewhere refl)
        (λ f d. elsewhere refl) claim_type-IsSold undo_claim-IsSold crypto up in
    let imports : (f : Db → List ImportBatch) (d : Db)
        → Preserves IsSold d (record d { import_batches = f d }) =
      λ f d. elsewhere refl in
    let logs : (f : Db → List AuditLog) (d : Db)
        → Preserves IsSold d (record d { audit_logs = f d }) =
      λ f d. elsewhere refl in
    let whole : Guarantees (Preserves IsSold) (process_import_file crypto up rows parse_errors) =
      search (guarantee_rules, Guarantees-modify, pre, batches, others, imports, logs) depth 20 in
    whole.at db
