-- ===== src/Paging/Services.antt =====
-- The listing services page through what they select: registration.service.js, checkins.service.js,
-- tickets.service.js, event.service.js, admin-users.service.js and audit.service.js.
use qpass_backend.Prelude.{
  ℕ, zero, suc, ◌+◌, ◌*◌, ◌<◌, ◌≤◌, String, ◌≡◌, refl, Bool, true, false, Option, none, some, List,
  [], ◌∷◌, arith, length, take,
}
use qpass_backend.Prelude.Tables.{find_many}
use qpass_backend.Db.{Db, ℤ, pos, negsuc, UserRole, EventStatus}
use qpass_backend.Paging.{
  Listing, at_least_one, page_size, given_or, checked_size, newest_first, listed,
}
use qpass_backend.Paging.Pages.{collect, collect-listed, ceil_div-enough, ceil_div-least}
use qpass_backend.Registration.Lists.{Filters, selected, take_of, list_registrations_by_event}
use qpass_backend.CheckIn.Gate.{Query, attendee_selected, attendees_of}
use qpass_backend.Tickets.View.{mine, my_tickets}
use qpass_backend.Event.Lists.{list_events}
use qpass_backend.Admin.Users.{list_users}
use qpass_backend.Admin.AuditLogs.{AuditQuery, list_audit_logs}

at_least_one-pos : (n : ℕ) (o : Option ℤ) → 0 < n → 0 < at_least_one n o
at_least_one-pos n none h = h
at_least_one-pos n (some (pos zero)) h = h
at_least_one-pos n (some (pos (suc m))) h = omega arith
at_least_one-pos n (some (negsuc m)) h = omega arith

page_size-pos : (o : Option ℤ) → 0 < page_size o
page_size-pos o = let h = at_least_one-pos 20 o (omega arith) in ground (arith, h)

take_of-pos : (b : Bool) (o : Option ℤ) → 0 < take_of b o
take_of-pos true o = at_least_one-pos 20 o (omega arith)
take_of-pos false o = page_size-pos o

-- Whatever page size is asked for, the pages of the listing of an event's registrations, of its
-- attendees and of a user's tickets, read while nothing is written, are together all that was
-- selected, newest first, each once.
pub listings-pages :
    (event_id email : String) (limit : Option ℤ) (filters : Filters) (unbounded : Bool)
    (query : Query) (db : Db)
    → (collect
          (λ p. list_registrations_by_event event_id (some (pos p)) limit filters unbounded db)
          (list_registrations_by_event event_id none limit filters unbounded db).total_pages
        ≡ newest_first (find_many (selected event_id filters) db.registrations))
      × (collect
            (λ p. attendees_of event_id (record query { page = some (pos p) }) db)
            (attendees_of event_id query db).total_pages
          ≡ newest_first (find_many (attendee_selected event_id query) db.registrations))
      × (collect
            (λ p. my_tickets email (some (pos p)) limit db)
            (my_tickets email none limit db).total_pages
          ≡ newest_first (find_many (mine email db.events) db.registrations))
unfolding list_registrations_by_event attendees_of my_tickets listed
listings-pages event_id email limit filters unbounded query db = (
  collect-listed (selected event_id filters) db.registrations (take_of unbounded limit)
      (take_of-pos unbounded limit) _ (λ k. refl),
  collect-listed (attendee_selected event_id query) db.registrations (page_size query.limit)
      (page_size-pos query.limit) _ (λ k. refl),
  collect-listed (mine email db.events) db.registrations (page_size limit) (page_size-pos limit) _
      (λ k. refl),
)

-- A page of at most 100 rows, and as many pages as the rows need.
abbrev pub IsBounded : {A : Type 0} → Listing A → Type 0
IsBounded l =
    (0 < l.limit)
    × (l.limit ≤ 100)
    × (length l.items ≤ l.limit)
    × (l.total ≤ l.total_pages * l.limit)
    × (l.total_pages * l.limit < l.total + l.limit)

length-take_le : {A : Type 0} (n : ℕ) (xs : List A) → length (take n xs) ≤ n
unfolding take
length-take_le zero xs = omega arith
length-take_le (suc n) [] = omega arith
length-take_le (suc n) (x ∷ xs) = omega (arith, length-take_le n xs)

listed-IsBounded :
    {A : Type 0} (page size total : ℕ) (xs : List A)
    → 0 < size
    → size ≤ 100
    → IsBounded (listed page size total xs)
unfolding listed
listed-IsBounded page size total xs h k =
    (h, k, length-take_le size _, ceil_div-enough total size h, ceil_div-least total size h)

page_size-le : (o : Option ℤ) → page_size o ≤ 100
page_size-le o = ground arith

checked_size-pos : (o : Option ℕ) → 0 < given_or 20 o → 0 < checked_size o
checked_size-pos o h = ground (arith, h)

checked_size-le : (o : Option ℕ) → checked_size o ≤ 100
checked_size-le o = ground arith

module _ (db : Db) where
  -- Whatever page and page size a client asks for, an answer of the listings of registrations, of
  -- attendees and of a user's tickets holds at most as many rows as its `limit`, which is between 1
  -- and 100, and `totalPages` is the least number of such pages that hold all rows. So do the
  -- listings of events, users and audit logs, whose schemas let no page size of 0 through.
  pub listings-IsBounded :
      (id email : String) (page limit : Option ℤ) (filters : Filters) (query : Query)
      (role : UserRole) (status : Option EventStatus) (search : Option String)
      (number size : Option ℕ) (audit : AuditQuery)
      → 0 < given_or 20 size
      → 0 < given_or 20 audit.limit
      → IsBounded (list_registrations_by_event id page limit filters false db)
        × IsBounded (attendees_of id query db)
        × IsBounded (my_tickets email page limit db)
        × IsBounded (list_events id role number size status db)
        × IsBounded (list_users number size search db)
        × IsBounded (list_audit_logs audit db)
  unfolding list_registrations_by_event attendees_of my_tickets list_events list_users
      list_audit_logs
  listings-IsBounded id email page limit filters query role status search number size audit h k = (
    listed-IsBounded _ _ _ _ (page_size-pos limit) (page_size-le limit),
    listed-IsBounded _ _ _ _ (page_size-pos query.limit) (page_size-le query.limit),
    listed-IsBounded _ _ _ _ (page_size-pos limit) (page_size-le limit),
    listed-IsBounded _ _ _ _ (checked_size-pos size h) (checked_size-le size),
    listed-IsBounded _ _ _ _ (checked_size-pos size h) (checked_size-le size),
    listed-IsBounded _ _ _ _ (checked_size-pos audit.limit k) (checked_size-le audit.limit),
  )
