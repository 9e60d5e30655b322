-- ===== src/Event/Lifecycle.antt =====
-- modules/events/event.service.js: the life cycle of an event, as the handlers may change it,
-- whatever the other requests do between their statements.
use qpass_backend.Prelude.{◌≡◌, refl, ◌∙◌, ◌≢◌, none, Grows, Grows-refl, Grows-trans}
use qpass_backend.Db.{Db, Event, EventStatus, draft, published, completed}
use qpass_backend.Db.Guarantee.{IsPreorder}

-- The moves between statuses that the service makes: never out of CANCELLED, and into it not from
-- DRAFT.
pub data Move : EventStatus → EventStatus → Type 0 where
  publishing : Move draft published
  unpublishing : Move published draft
  unpublishing_active : Move EventStatus.active draft
  cancelling : Move published EventStatus.cancelled
  cancelling_active : Move EventStatus.active EventStatus.cancelled
  cancelling_completed : Move completed EventStatus.cancelled

-- The moves of publishEvent, unpublishEvent and cancelEvent, and of the handlers that move no status.
pub data Publishing : EventStatus → EventStatus → Type 0 where
  publishes : Publishing draft published

pub data Unpublishing : EventStatus → EventStatus → Type 0 where
  unpublishes : Unpublishing published draft
  unpublishes_active : Unpublishing EventStatus.active draft

pub data Cancelling : EventStatus → EventStatus → Type 0 where
  cancels : Cancelling published EventStatus.cancelled
  cancels_active : Cancelling EventStatus.active EventStatus.cancelled
  cancels_completed : Cancelling completed EventStatus.cancelled

pub data Staying : EventStatus → EventStatus → Type 0 where

pub data Moves (s : EventStatus) : EventStatus → Type 0 where
  stays : Moves s s
  next : {t u : EventStatus} → Moves s t → Move t u → Moves s u

pub Moves-trans : {s t u : EventStatus} → Moves s t → Moves t u → Moves s u
Moves-trans p stays = p
Moves-trans p (next q m) = next (Moves-trans p q) m

-- CANCELLED is terminal.
pub Moves-cancelled : {s t : EventStatus} → s ≡ EventStatus.cancelled → Moves s t → t ≡ s
Moves-cancelled e stays = refl
Moves-cancelled e (next q m) = stuck m (Moves-cancelled e q ∙ e)
  where
    stuck : {u v w : EventStatus} → Move u v → u ≡ EventStatus.cancelled → v ≡ w
    stuck publishing h = cc
    stuck unpublishing h = cc
    stuck unpublishing_active h = cc
    stuck cancelling h = cc
    stuck cancelling_active h = cc
    stuck cancelling_completed h = cc

-- What may become of a row: it keeps its id, slug and owner, its status moves along the life cycle,
-- and once deleted it is frozen.
pub record Ages (a b : Event) : Type 0 where
  pub id : b.id ≡ a.id
  pub slug : b.slug ≡ a.slug
  pub owner : b.owner_id ≡ a.owner_id
  pub status : Moves a.status b.status
  pub frozen : a.deleted_at ≢ none → b ≡ a

Ages-refl : (a : Event) → Ages a a
Ages-refl a = record { id = refl; slug = refl; owner = refl; status = stays; frozen = λ _. refl }

Ages-trans : (a b c : Event) → Ages a b → Ages b c → Ages a c
Ages-trans a b c p q = record {
  id = q.id ∙ p.id;
  slug = q.slug ∙ p.slug;
  owner = q.owner ∙ p.owner;
  status = Moves-trans p.status q.status;
  frozen = λ d. let e = p.frozen d in q.frozen (λ n. d (cc)) ∙ e;
}

-- The events of a later database: the old rows have aged, and rows may have been added.
abbrev pub Evolves : Db → Db → Type 0
Evolves a b = Grows Ages a.events b.events

pub Evolves-IsPreorder : IsPreorder Evolves
Evolves-IsPreorder = record {
  refl_at = λ db. Grows-refl Ages Ages-refl db.events;
  trans_at = λ a b c. Grows-trans Ages Ages-trans a.events b.events c.events;
}
