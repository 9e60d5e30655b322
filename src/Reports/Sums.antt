-- ===== src/Reports/Sums.antt =====
-- modules/reports: the numbers of the reports against the tables.
use qpass_backend.Prelude.{
  ℕ, ◌+◌, ◌≤◌, String, ◌≡◌, refl, Bool, true, false, not, ◌&&◌, Option, none, some, List, [], ◌∷◌,
  arith, length, map, All, ◌==◌, eq_iff, sym, ◌∙◌, if◌then◌else◌, inl, inr, Bool-cases,
}
use qpass_backend.Prelude.Tables.{find_many, count, Distinct}
use qpass_backend.Db.{Db, Event, Registration, RegistrationStatus, TicketType}
use qpass_backend.Registration.Lists.{same_status}
use qpass_backend.Reports.Dashboard.{
  at_event, with_status, has_type, sold_of, Breakdown, breakdown, dashboard,
}

statuses :
    (event_id : String) (rs : List Registration)
    → count (at_event event_id) rs
      ≡ count (with_status event_id RegistrationStatus.confirmed) rs
        + count (with_status event_id RegistrationStatus.pending) rs
        + count (with_status event_id RegistrationStatus.cancelled) rs
unfolding count
statuses event_id [] = refl
statuses event_id (r ∷ rs) = ground (arith, statuses event_id rs)

count-le_length : {A : Type 0} (p : A → Bool) (xs : List A) → count p xs ≤ length xs
unfolding count
count-le_length p [] = omega arith
count-le_length p (x ∷ xs) = ground (arith, count-le_length p xs)

abbrev pub same_type : TicketType → TicketType → Bool
same_type a b = a.id == b.id

unfoldable pub sum_sold : List Breakdown → ℕ
sum_sold [] = 0
sum_sold (b ∷ bs) = b.sold + sum_sold bs

-- One row's share of what the types have sold.
abbrev share : String → TicketType → Registration → ℕ
share event_id t r = if sold_of event_id t.id r then 1 else 0

shares : String → List TicketType → Registration → ℕ
shares event_id [] r = 0
shares event_id (t ∷ ts) r = share event_id t r + shares event_id ts r

shares_none :
    (event_id id : String) (ts : List TicketType) (r : Registration)
    → All (λ t. (t.id == id) ≡ false) ts
    → has_type id r.ticket_type_id ≡ true
    → shares event_id ts r ≡ 0
unfolding shares
shares_none event_id id [] r h k = refl
shares_none event_id id (t ∷ ts) r (h, hs) k =
    let ih = shares_none event_id id ts r hs k in
    let away = other_type id t.id r.ticket_type_id k h in ground (arith, ih, away)
  where
    other_type :
        (a b : String) (o : Option String)
        → has_type a o ≡ true
        → (b == a) ≡ false
        → has_type b o ≡ false
    other_type a b none k h = refl
    other_type a b (some t) k h = elim (Bool-cases (t == b)) [
      | inl e ↦
          let same : b ≡ a = sym ((eq_iff t b).0 e) ∙ (eq_iff t a).0 k in
          ground (arith, h, (eq_iff b a).1 same)
      | inr e ↦ e
    ]

abbrev not_cancelled : String → Registration → Bool
not_cancelled event_id r =
    at_event event_id r && not (same_status r.status RegistrationStatus.cancelled)

shares_one :
    (event_id : String) (ts : List TicketType) (r : Registration)
    → Distinct same_type ts
    → shares event_id ts r ≤ (if not_cancelled event_id r then 1 else 0)
unfolding shares
shares_one event_id [] r d = ground arith
shares_one event_id (t ∷ ts) r (d, ds) = elim (Bool-cases (sold_of event_id t.id r)) [
  | inl e ↦ let z = shares_none event_id t.id ts r d (ground (arith, e)) in ground (arith, e, z)
  | inr e ↦ let ih = shares_one event_id ts r ds in ground (arith, e, ih)
]

sold_all : String → List TicketType → List Registration → ℕ
sold_all event_id [] rs = 0
sold_all event_id (t ∷ ts) rs = count (sold_of event_id t.id) rs + sold_all event_id ts rs

sold_all_cons :
    (event_id : String) (ts : List TicketType) (r : Registration) (rs : List Registration)
    → sold_all event_id ts (r ∷ rs) ≡ shares event_id ts r + sold_all event_id ts rs
unfolding sold_all shares count
sold_all_cons event_id [] r rs = refl
sold_all_cons event_id (t ∷ ts) r rs = omega (arith, sold_all_cons event_id ts r rs)

sold_all_nil : (event_id : String) (ts : List TicketType) → sold_all event_id ts [] ≡ 0
unfolding sold_all count
sold_all_nil event_id [] = refl
sold_all_nil event_id (t ∷ ts) = omega (arith, sold_all_nil event_id ts)

sold_all-le :
    (event_id : String) (ts : List TicketType) (rs : List Registration)
    → Distinct same_type ts
    → sold_all event_id ts rs ≤ count (not_cancelled event_id) rs
unfolding count
sold_all-le event_id ts [] d = omega (arith, sold_all_nil event_id ts)
sold_all-le event_id ts (r ∷ rs) d = omega (
  arith,
  sold_all_cons event_id ts r rs,
  shares_one event_id ts r d,
  sold_all-le event_id ts rs d,
)

All-find_many :
    {A : Type 0} (P : A → Type 0) (p : A → Bool) (xs : List A) → All P xs → All P (find_many p xs)
unfolding find_many
All-find_many P p [] h = tt
All-find_many P p (x ∷ xs) (h, hs) = elim (Bool-cases (p x)) [
  | inl e ↦ rw e (h, All-find_many P p xs hs)
  | inr e ↦ rw e (All-find_many P p xs hs)
]

Distinct-find_many :
    (p : TicketType → Bool) (ts : List TicketType)
    → Distinct same_type ts
    → Distinct same_type (find_many p ts)
unfolding find_many
Distinct-find_many p [] d = tt
Distinct-find_many p (t ∷ ts) (d, ds) = elim (Bool-cases (p t)) [
  | inl e ↦ rw e (All-find_many _ p ts d, Distinct-find_many p ts ds)
  | inr e ↦ rw e (Distinct-find_many p ts ds)
]

sum_sold-map :
    (event_id : String) (db : Db) (ts : List TicketType)
    → sum_sold (map (breakdown event_id db) ts) ≡ sold_all event_id ts db.registrations
unfolding sum_sold sold_all
sum_sold-map event_id db [] = refl
sum_sold-map event_id db (t ∷ ts) = omega (arith, sum_sold-map event_id db ts)

live_statuses :
    (event_id : String) (rs : List Registration)
    → count (not_cancelled event_id) rs
      ≡ count (with_status event_id RegistrationStatus.confirmed) rs
        + count (with_status event_id RegistrationStatus.pending) rs
unfolding count
live_statuses event_id [] = refl
live_statuses event_id (r ∷ rs) = ground (arith, live_statuses event_id rs)

-- The registrations of an event are the confirmed, the pending and the cancelled ones; its valid
-- check-ins are among its check-ins; the confirmed ones are at most those who did not show up and the
-- valid check-ins together; and where the ids of ticket types are distinct, what the types have sold
-- is together at most the confirmed and the pending ones.
pub dashboard-sums :
    (percent : ℕ → ℕ → ℕ) (event : Event) (event_id : String) (db : Db)
    → Distinct same_type db.ticket_types
    → let d = dashboard percent event event_id db in
      (d.total ≡ d.confirmed + d.pending + d.cancelled)
      × (d.valid ≤ d.check_ins)
      × (d.confirmed ≤ d.no_shows + d.valid)
      × (sum_sold d.ticket_breakdown ≤ d.confirmed + d.pending)
unfolding dashboard
dashboard-sums percent event event_id db distinct =
    let types = find_many (λ (t : TicketType). t.event_id == event_id) db.ticket_types in
    let sold =
      sold_all-le event_id types db.registrations (Distinct-find_many _ db.ticket_types distinct) in
    (
      statuses event_id db.registrations,
      count-le_length _ _,
      omega arith,
      omega (arith, sum_sold-map event_id db types, sold, live_statuses event_id db.registrations),
    )
