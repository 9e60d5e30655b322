-- ===== src/Import/Stored.antt =====
-- modules/registrations/import.service.js: the rows that an import counts as imported are stored.
use qpass_backend.Prelude.{
  ℕ, zero, suc, ◌+◌, ◌≤◌, String, ◌≡◌, refl, sym, ◌∙◌, Bool, true, false, Option, none, some, List,
  [], ◌∷◌, length, take, drop, arith, inl, inr, Bool-cases, is_some,
}
use qpass_backend.Prelude.Tables.{find_first, count, count-append}
use qpass_backend.Fault.{unique_violation}
use qpass_backend.Db.{
  Db, Event, TicketType, Registration, RowError, Result, ok, err, M, after, ◌>>=◌, ◌>>◌,
}
use qpass_backend.Db.Guarantee.{Guarantees, IsPreorder, Guarantees-modify, guarantee_rules}
use qpass_backend.Qr.{Crypto, insert_token}
use qpass_backend.Registration.Create.{insert_ticket_code, insert_registration}
use qpass_backend.Import.Validate.{Entry}
use qpass_backend.Import.Resolve.{Claims}
use qpass_backend.Import.Create.{
  RowDraw, claim_type, undo_claim, uses_code, undo_code, on_error, again, create_code, register_row,
  type_of_entry, imported, write_row, collect, write_rows,
}
use qpass_backend.Import.Frame.{Guarantees-on_error}
use qpass_backend.Import.Process.{
  Upload, Tally, committed, tallied, announce, run_batch, run_batches,
}

abbrev Same : Db → Db → Type 0
Same a b = b.registrations ≡ a.registrations

Same-IsPreorder : IsPreorder Same
Same-IsPreorder = record { refl_at = λ db. refl; trans_at = λ a b c p q. q ∙ p }

claim_type-Same : (t : Option TicketType) (db : Db) → Same db (claim_type t db).1
unfolding claim_type ◌>>◌
claim_type-Same none db = refl
claim_type-Same (some t) db = ground arith

undo_claim-Same : (t : Option TicketType) (db : Db) → Same db (undo_claim t db)
unfolding undo_claim
undo_claim-Same none db = refl
undo_claim-Same (some t) db = refl

undo_code-Same : (id : String) (db : Db) → Same db (undo_code id db)
unfolding undo_code
undo_code-Same id db = elim (Bool-cases (is_some (find_first (uses_code id) db.registrations))) [
  | inl e ↦ rw e refl
  | inr e ↦ rw e refl
]

again-Same :
    (r : Result (Unit {0})) (id : String) (rest : M String)
    → Guarantees Same rest
    → Guarantees Same (again r id rest)
unfolding again
again-Same (ok u) id rest h = search (guarantee_rules, Same-IsPreorder)
again-Same (err unique_violation) id rest h = h
again-Same (err e) id rest h = search (guarantee_rules, Same-IsPreorder)

create_code-Same :
    (event : Event) (e : Entry) (d : RowDraw) (left n : ℕ)
    → Guarantees Same (create_code event e d left n)
unfolding create_code insert_ticket_code
create_code-Same event e d zero n =
    search (guarantee_rules, Same-IsPreorder, Guarantees-modify) depth 12
create_code-Same event e d (suc left) n =
    let ih = create_code-Same event e d left (n + 1) in
    search (guarantee_rules, Same-IsPreorder, Guarantees-modify, again-Same) depth 12

announce-Same :
    (b io : Bool) (id : String) (done : List Registration) (db : Db)
    → Same db (announce b io id done db)
unfolding announce
announce-Same true true id done db = refl
announce-Same true false id done db = refl
announce-Same false io id done db = refl

-- `own` holds of the ids that the import draws.
module _ (own : String → Bool) where
  abbrev pub stored : Db → ℕ
  stored db = count (λ (r : Registration). own r.id) db.registrations

  abbrev gain : {A : Type 0} → Result A → ℕ
  gain (ok a) = 1
  gain (err e) = 0

  -- A row is stored where the run succeeds.
  abbrev Adds : {A : Type 0} → Db → Result A × Db → Type 0
  Adds db p = stored db + gain p.0 ≤ stored p.1

  Adds-after :
      {A B : Type 0} (db : Db) (p : Result A × Db) (f : A → M B)
      → Same db p.1
      → ((a : A) → Adds p.1 (f a p.1))
      → Adds db (after p.0 f p.1)
  Adds-after db (ok a, d) f s h = rw (sym s) (h a)
  Adds-after db (err e, d) f s h = rw s (omega arith)

  Adds-on_error :
      {A : Type 0} (undo : Db → Db) (m : M A) (db : Db)
      → ((d : Db) → Same d (undo d))
      → Adds db (m db)
      → Adds db (on_error undo m db)
  unfolding on_error
  Adds-on_error {A = A} undo m db s h = go (m db) h
    where
      go :
          (p : Result A × Db)
          → Adds db p
          → Adds db (p.0, elim p.0 [ ok a ↦ p.1 | err e ↦ undo p.1 ])
      go (ok a, d) k = k
      go (err e, d) k = rw (s d) k

  module _ (crypto : Crypto) (now : ℕ) (event : Event) (claims : Claims) where
    register_row-Adds :
        (e : Entry) (d : RowDraw) (id : String) (db : Db)
        → own d.registration_id ≡ true
        → Adds db (register_row crypto now event claims e d id db)
    unfolding register_row insert_registration insert_token count ◌>>◌
    register_row-Adds e d id db h =
        let more =
          count-append (λ (r : Registration). own r.id) db.registrations
            (imported now event e d id ∷ []) in
        ground (arith, h, more)

    write_row-Adds :
        (t : Option TicketType) (e : Entry) (d : RowDraw) (db : Db)
        → own d.registration_id ≡ true
        → Adds db (write_row crypto now event claims t e d db)
    unfolding write_row ◌>>◌
    write_row-Adds t e d db h = Adds-after db (claim_type t db) _ (claim_type-Same t db) (λ _.
        let c = (claim_type t db).1 in
        Adds-after c (on_error (undo_claim t) (create_code event e d 2 0) c) _
          ((Guarantees-on_error Same-IsPreorder (undo_claim t) (create_code event e d 2 0)
              (create_code-Same event e d 2 0) (undo_claim-Same t)).at
            c)
          (λ id.
            Adds-on_error _ (register_row crypto now event claims e d id) _
              (λ x. undo_code-Same id (undo_claim t x) ∙ undo_claim-Same t x)
              (register_row-Adds e d id _ h)))

    collect-gain :
        (r : Result Registration) (e : Entry) (rest : List Registration × List RowError)
        → length (collect crypto now event claims r e rest).0 ≡ gain r + length rest.0
    collect-gain (ok r) e rest = omega arith
    collect-gain (err x) e rest = omega arith

    -- The callback of a transaction: as many rows as it gives back are stored.
    write_rows-stored :
        (draws : ℕ → RowDraw)
        → ((k : ℕ) → own (draws k).registration_id ≡ true)
        → (k : ℕ) (es : List Entry) (db : Db)
        → (a : _) × ((write_rows crypto now event claims draws k es db).0 ≡ ok a)
          × (stored db + length a.0 ≤ stored (write_rows crypto now event claims draws k es db).1)
    unfolding write_rows ◌>>=◌
    write_rows-stored draws fresh k [] db = (([], []), refl, omega arith)
    write_rows-stored draws fresh k (e ∷ es) db =
        let t = type_of_entry claims e.ticket_type_id db.ticket_types in
        let w = write_row crypto now event claims t e (draws k) db in
        let (a, h, l) = write_rows-stored draws fresh (k + 1) es w.1 in
        let row = write_row-Adds t e (draws k) db (fresh k) in
        (
          collect crypto now event claims w.0 e a,
          rw h refl,
          rw h (omega (arith, collect-gain w.0 e a, l, row)),
        )

  module _ (crypto : Crypto) (up : Upload) (event : Event) (claims : Claims)
      (fresh : (k : ℕ) → own (up.draws k).registration_id ≡ true)
      (others : (n : ℕ) (db : Db) → stored (up.between n db) ≡ stored db) where
    run_batch-stored :
        (k : ℕ) (batch : List Entry) (t : Tally) (db : Db)
        → (t' : Tally) × ((run_batch crypto up event claims k batch t db).0 ≡ ok t')
          × (stored db + t'.success_rows
              ≤ stored (run_batch crypto up event claims k batch t db).1 + t.success_rows)
    unfolding run_batch committed tallied ◌>>◌
    run_batch-stored k batch t db =
        let d = up.between k db in
        let w = write_rows-stored crypto up.now event claims up.draws fresh t.entries batch d in
        let (r, h, l) = w in
        let o = others k db in
        (
          tallied (up.commits k) batch r t,
          rw h refl,
          elim (Bool-cases (up.commits k)) [
            | inl e ↦
                let ann =
                  announce-Same true up.io_up up.event_id r.0
                    (write_rows crypto up.now event claims up.draws t.entries batch d).1 in
                ground (arith, e, h, l, o, ann)
            | inr e ↦
                let ann = announce-Same false up.io_up up.event_id r.0 d in
                ground (arith, e, h, l, o, ann)
          ],
        )

    pub run_batches-stored :
        (fuel k : ℕ) (es : List Entry) (t : Tally) (db : Db) (t' : Tally)
        → (run_batches crypto up event claims fuel k es t db).0 ≡ ok t'
        → stored db + t'.success_rows
          ≤ stored (run_batches crypto up event claims fuel k es t db).1 + t.success_rows
    unfolding run_batches ◌>>=◌
    run_batches-stored zero k es t db t' h = ground (arith, h)
    run_batches-stored (suc fuel) k [] t db t' h = ground (arith, h)
    run_batches-stored (suc fuel) k (e ∷ es) t db t' h =
        let p = run_batch crypto up event claims k (take 50 (e ∷ es)) t db in
        let (s, r, l) = run_batch-stored k (take 50 (e ∷ es)) t db in
        let rest = run_batches-stored fuel (k + 1) (drop 50 (e ∷ es)) s p.1 t' in
        ground (arith, r, h, l, rest)
