-- ===== src/Import/Frame.antt =====
-- modules/registrations/import.service.js: the parts of an import that keep a relation between the
-- database before and after, and the table of imports, which only the import itself writes.
use qpass_backend.Prelude.{
  ℕ, zero, suc, ◌+◌, String, Bool, true, false, Option, List, [], ◌∷◌, Bool-cases, inl, inr,
  is_some,
}
use qpass_backend.Prelude.Tables.{find_first, delete_many}
use qpass_backend.Fault.{unique_violation}
use qpass_backend.Db.{
  Db, Event, TicketType, TicketCode, Registration, QrToken, Emission, Result, ok, err, M, ◌>>=◌,
  ◌>>◌,
}
use qpass_backend.Db.Guarantee.{
  Guarantees, Guarantees-after, Guarantees-bind, Guarantees-pure, IsPreorder, Guarantees-modify,
  guarantee_rules,
}
use qpass_backend.Qr.{Crypto, insert_token}
use qpass_backend.Registration.Create.{insert_ticket_code, insert_registration}
use qpass_backend.Import.Validate.{Entry}
use qpass_backend.Import.Resolve.{Claims}
use qpass_backend.Import.Create.{
  RowDraw, claim_type, undo_claim, uses_code, is_code, undo_code, on_error, again, create_code,
  register_row, type_of_entry, write_row, write_rows,
}
use qpass_backend.Import.Process.{
  Upload, Tally, committed, announced, announce, run_batch, run_batches,
}

module _ {R : Db → Db → Type 0} (pre : IsPreorder R) {A : Type 0} where
  pub Guarantees-on_error :
      (undo : Db → Db) (m : M A)
      → Guarantees R m
      → ((db : Db) → R db (undo db))
      → Guarantees R (on_error undo m)
  unfolding on_error
  Guarantees-on_error undo m h k = record { at = λ db. go db (m db) (h.at db) }
    where
      go :
          (db : Db) (p : Result A × Db)
          → R db p.1
          → R db (elim p.0 [ ok a ↦ p.1 | err e ↦ undo p.1 ])
      go db (ok a, d) r = r
      go db (err e, d) r = pre.trans_at db d (undo d) r (k d)

  pub Guarantees-committed : (b : Bool) (m : M A) → Guarantees R m → Guarantees R (committed b m)
  unfolding committed
  Guarantees-committed true m h = record { at = h.at }
  Guarantees-committed false m h = record { at = pre.refl_at }

pub ruleset import_rules = (guarantee_rules, Guarantees-on_error, Guarantees-committed)

-- A relation that the statements of an import keep.
module _ {R : Db → Db → Type 0} (pre : IsPreorder R)
    (codes : (f : Db → List TicketCode) (db : Db) → R db (record db { ticket_codes = f db }))
    (registrations : (f : Db → List Registration) (db : Db)
      → R db (record db { registrations = f db }))
    (tokens : (f : Db → List QrToken) (db : Db) → R db (record db { qr_tokens = f db }))
    (sent : (f : Db → List Emission) (db : Db) → R db (record db { emitted = f db }))
    (claim : (claims : Claims) (o : Option String) (db : Db)
      → R db (claim_type (type_of_entry claims o db.ticket_types) db).1)
    (unclaim : (t : Option TicketType) (db : Db) → R db (undo_claim t db)) where
  undo_code-kept : (id : String) (db : Db) → R db (undo_code id db)
  unfolding undo_code
  undo_code-kept id db = elim (Bool-cases (is_some (find_first (uses_code id) db.registrations))) [
    | inl e ↦ rw e (pre.refl_at db)
    | inr e ↦ rw e (codes (λ d. delete_many (is_code id) d.ticket_codes) db)
  ]

  announce-kept :
      (b io : Bool) (id : String) (done : List Registration) (db : Db)
      → R db (announce b io id done db)
  unfolding announce
  announce-kept true true id done db = sent (λ d. announced id done d.emitted) db
  announce-kept true false id done db = pre.refl_at db
  announce-kept false io id done db = pre.refl_at db

  both-kept :
      (id : String) (t : Option TicketType) (db : Db) → R db (undo_code id (undo_claim t db))
  both-kept id t db = pre.trans_at _ _ _ (unclaim t db) (undo_code-kept id (undo_claim t db))

  again-kept :
      (r : Result (Unit {0})) (id : String) (rest : M String)
      → Guarantees R rest
      → Guarantees R (again r id rest)
  unfolding again
  again-kept (ok u) id rest h = search (import_rules, Guarantees-modify)
  again-kept (err unique_violation) id rest h = h
  again-kept (err e) id rest h = search (import_rules, Guarantees-modify)

  create_code-kept :
      (event : Event) (e : Entry) (d : RowDraw) (left n : ℕ)
      → Guarantees R (create_code event e d left n)
  unfolding create_code insert_ticket_code
  create_code-kept event e d zero n = search (import_rules, Guarantees-modify) depth 12
  create_code-kept event e d (suc left) n =
      let ih = create_code-kept event e d left (n + 1) in
      search (import_rules, Guarantees-modify, again-kept) depth 12

  module _ (crypto : Crypto) (now : ℕ) (event : Event) (claims : Claims) where
    -- The type is the one that was read.
    write_row-kept :
        (o : Option String) (e : Entry) (d : RowDraw) (db : Db)
        → R db (write_row crypto now event claims (type_of_entry claims o db.ticket_types) e d db).1
    unfolding write_row register_row insert_registration insert_token ◌>>◌
    write_row-kept o e d db =
        let t = type_of_entry claims o db.ticket_types in
        pre.trans_at _ _ _ (claim claims o db) (
          Guarantees-after pre (claim_type t db).0 _
            (λ _. search (import_rules, Guarantees-modify, create_code-kept, both-kept) depth 15)
            (claim_type t db).1)

    write_rows-kept :
        (draws : ℕ → RowDraw) (n : ℕ) (es : List Entry)
        → Guarantees R (write_rows crypto now event claims draws n es)
    unfolding write_rows ◌>>=◌
    write_rows-kept draws n [] = record { at = pre.refl_at }
    write_rows-kept draws n (e ∷ es) = record {
      at = λ db.
          let row = write_row-kept e.ticket_type_id e (draws n) db in
          pre.trans_at _ _ _ row (
            (Guarantees-bind pre (write_rows crypto now event claims draws (n + 1) es) _
                (write_rows-kept draws (n + 1) es) (λ rest. Guarantees-pure pre _)).at
              _);
    }

  module _ (crypto : Crypto) (up : Upload) (event : Event) (claims : Claims)
      (others : (n : ℕ) (db : Db) → R db (up.between n db)) where
    run_batch-kept :
        (n : ℕ) (es : List Entry) (t : Tally)
        → Guarantees R (run_batch crypto up event claims n es t)
    unfolding run_batch
    run_batch-kept n es t =
        search (import_rules, Guarantees-modify, write_rows-kept, announce-kept) depth 12

    pub run_batches-kept :
        (fuel n : ℕ) (es : List Entry) (t : Tally)
        → Guarantees R (run_batches crypto up event claims fuel n es t)
    unfolding run_batches
    run_batches-kept zero n es t = search (import_rules, Guarantees-modify)
    run_batches-kept (suc fuel) n [] t = search (import_rules, Guarantees-modify)
    run_batches-kept (suc fuel) n (e ∷ es) t =
        search (import_rules, Guarantees-modify, run_batch-kept, run_batches-kept fuel (n + 1))
          depth 8
