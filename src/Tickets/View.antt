-- ===== src/Tickets/View.antt =====
-- modules/tickets/tickets.service.js: who sees a ticket and its token, and the tickets of an event
-- and of an attendee. Images and PDF files are left out.
use qpass_backend.Prelude.{
  ℕ, String, Bool, true, false, ◌&&◌, ◌||◌, Option, none, some, List, [], ◌∷◌, is_some, is_none,
  if◌then◌else◌,
}
use qpass_backend.Prelude.Tables.{find_first, find_many, count}
use qpass_backend.Fault.{forbidden, not_found, event_unauthorized, general_not_found}
use qpass_backend.Text.Search.{equals}
use qpass_backend.Db.{
  Db, ℤ, User, UserRole, Event, EventStatus, Registration, QrToken, M, ◌>>=◌, ◌>>◌, pure, or_throw,
  gets,
}
use qpass_backend.Db.Users.{is_user}
use qpass_backend.Paging.{Listing, page_size, page_number, newest_first, listed}
use qpass_backend.Event.Handlers.{Interleaving, is_admin}
use qpass_backend.Qr.{Crypto, Draw, token_of, recover_raw_token}
use qpass_backend.Registration.Lists.{Filters, get_registration_by_id, list_registrations_by_event}
use qpass_backend.CheckIn.Gate.{on_staff, of_registration}
use qpass_backend.Tickets.Types.{is_event, owned, check_event_ownership}

-- !user || user.email.toLowerCase() !== registration.attendeeEmail.toLowerCase()
abbrev pub is_holder : Option User → Registration → Bool
is_holder none r = false
is_holder (some u) r = equals u.email r.attendee_email

-- canViewToken: `none` where the code throws.
unfoldable pub viewing : (owner admin staff holder : Bool) → Option Bool
viewing owner admin staff holder =
    if owner || admin
    then some true
    else if staff
    then some false
    else if holder
    then some true
    else none

-- event?.endTime
abbrev pub end_of : Option Event → Option ℕ
end_of none = none
end_of (some e) = some e.end_time

unfoldable pub recover_if :
    Crypto → Interleaving → Draw → ℕ → Option Event → Bool → Option QrToken → M (Option String)
recover_if crypto env draw now event false t = pure none
recover_if crypto env draw now event true none = pure none
recover_if crypto env draw now event true (some t) =
    recover_raw_token crypto env draw now (end_of event) t

-- The registration and its token.
unfoldable pub get_ticket_details :
    Crypto → Interleaving → Draw → ℕ → String → String → UserRole → M (Registration × Option String)
get_ticket_details crypto env draw now ticket_id user_id role = do
  r ← get_registration_by_id ticket_id
  event ← gets (λ db. find_first (is_event r.event_id) db.events)
  staff ← gets (on_staff r.event_id user_id)
  user ← gets (λ db. find_first (is_user user_id) db.users)
  view ←
      or_throw (viewing (owned event user_id) (is_admin role) staff (is_holder user r))
        (forbidden event_unauthorized)
  t ← gets (λ db. find_first (token_of r.id) db.qr_tokens)
  raw ← recover_if crypto env draw now event view t
  pure (r, raw)

-- filters.page, filters.limit and filters
unfoldable pub list_event_tickets :
    String → String → UserRole → Option ℤ → Option ℤ → Filters → M (Listing Registration)
list_event_tickets event_id user_id role page limit filters = do
  check_event_ownership event_id user_id role
  gets (list_registrations_by_event event_id page limit filters false)

-- event: { deletedAt: null, status: { not: CANCELLED } }
abbrev pub is_current : String → Event → Bool
is_current id e =
    is_event id e
    && is_none e.deleted_at
    && (elim e.status [ EventStatus.cancelled ↦ false | _ ↦ true ])

abbrev pub mine : String → List Event → Registration → Bool
mine email events r =
    equals r.attendee_email email && is_some (find_first (is_current r.event_id) events)

-- The rows of a page before their tokens are recovered.
unfoldable pub my_tickets : String → Option ℤ → Option ℤ → Db → Listing Registration
my_tickets email page limit db =
    listed (page_number page) (page_size limit) (count (mine email db.events) db.registrations)
      (newest_first (find_many (mine email db.events) db.registrations))

pub record Ticket : Type 0 where
  pub registration : Registration
  pub scan_token : Option String
  pub checked_in : Bool

abbrev pub ticket : Db → Registration → Option String → Ticket
ticket db r token = record {
  registration = r;
  scan_token = token;
  checked_in = is_some (find_first (of_registration r.id) db.check_ins);
}

-- The loop over the rows of a page; `draws` are the random values of each.
unfoldable pub recover_tickets :
    Crypto → Interleaving → List Draw → ℕ → List Registration → M (List Ticket)
recover_tickets crypto env [] now rs = pure []
recover_tickets crypto env (d ∷ ds) now [] = pure []
recover_tickets crypto env (d ∷ ds) now (r ∷ rs) = do
  event ← gets (λ db. find_first (is_event r.event_id) db.events)
  t ← gets (λ db. find_first (token_of r.id) db.qr_tokens)
  token ← recover_if crypto env d now event true t
  shown ← gets (λ db. ticket db r token)
  rest ← recover_tickets crypto env ds now rs
  pure (shown ∷ rest)

abbrev pub with_items : Listing Registration → List Ticket → Listing Ticket
with_items l ts = record {
  items = ts;
  page = l.page;
  limit = l.limit;
  total = l.total;
  total_pages = l.total_pages;
}

unfoldable pub list_my_tickets :
    Crypto → Interleaving → List Draw → ℕ → String → Option ℤ → Option ℤ → M (Listing Ticket)
list_my_tickets crypto env draws now user_id page limit = do
  found ← gets (λ db. find_first (is_user user_id) db.users)
  user ← or_throw found (not_found general_not_found)
  rows ← gets (my_tickets user.email page limit)
  ts ← recover_tickets crypto env draws now rows.items
  pure (with_items rows ts)
