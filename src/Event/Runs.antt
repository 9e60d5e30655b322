-- ===== src/Event/Runs.antt =====
-- modules/events/event.service.js: what a handler writes, among the changes of the other requests.
use qpass_backend.Prelude.{
  ℕ, String, ◌≡◌, refl, Bool, true, ◌≢◌, Option, none, some, arith, Grows, Grows-refl, Grows-map,
  ◌⊎◌, inl, inr,
}
use qpass_backend.Prelude.Tables.{Grows-update_many}
use qpass_backend.Db.{
  Db, Event, EventStatus, draft, published, completed, UserRole, ◌>>◌, write_audit_log,
}
use qpass_backend.Db.Guarantee.{Guarantees, IsPreorder, Guarantees-gets}
use qpass_backend.Event.Handlers.{
  Interleaving, editable, find_event, update_events, is_draft, is_published_or_active,
  is_cancellable, EventData, apply_data, publish, publishable, unpublish, unpublishable, cancel,
  cancellable,
}
use qpass_backend.Event.Lifecycle.{
  Move, Moves, stays, next, Publishing, publishes, Unpublishing, unpublishes, unpublishes_active,
  Cancelling, cancels, cancels_active, cancels_completed, Staying, Ages, Evolves,
  Evolves-IsPreorder,
}

-- What one write may do to a row: it keeps its id, slug and owner, its status stays or makes one move
-- of `K`, and it is not deleted.
pub record Step (K : EventStatus → EventStatus → Type 0) (a b : Event) : Type 0 where
  pub id : b.id ≡ a.id
  pub slug : b.slug ≡ a.slug
  pub owner : b.owner_id ≡ a.owner_id
  pub status : (b.status ≡ a.status) ⊎ K a.status b.status
  pub frozen : a.deleted_at ≢ none → b ≡ a

Step-refl : (K : EventStatus → EventStatus → Type 0) (a : Event) → Step K a a
Step-refl K a = record {
  id = refl;
  slug = refl;
  owner = refl;
  status = inl refl;
  frozen = λ _. refl;
}

-- What a handler and the other requests do to the database: theirs is any change that `env` makes,
-- and ours are writes of which each takes every row at most one move of `K` further.
pub data Runs (K : EventStatus → EventStatus → Type 0) (env : Interleaving) (a : Db)
    : Db → Type 0 where
  here : Runs K env a a
  theirs_before : {b : Db} → Runs K env a b → Runs K env a (env.before_write b)
  theirs_after : {b : Db} → Runs K env a b → Runs K env a (env.after_write b)
  ours : {b c : Db} → Runs K env a b → Grows (Step K) b.events c.events → Runs K env a c

-- The other requests evolve the events too.
pub record IsEvolving (env : Interleaving) : Type 0 where
  pub before : (db : Db) → Evolves db (env.before_write db)
  pub after : (db : Db) → Evolves db (env.after_write db)

module _ (K : EventStatus → EventStatus → Type 0) (env : Interleaving) where
  Runs-trans : {a b c : Db} → Runs K env a b → Runs K env b c → Runs K env a c
  Runs-trans p here = p
  Runs-trans p (theirs_before q) = theirs_before (Runs-trans p q)
  Runs-trans p (theirs_after q) = theirs_after (Runs-trans p q)
  Runs-trans p (ours q g) = ours (Runs-trans p q) g

  pub Runs-IsPreorder : IsPreorder (Runs K env)
  Runs-IsPreorder = record { refl_at = λ db. here; trans_at = λ a b c p q. Runs-trans p q }

  pub update_events-Runs :
      (p : Event → Bool) (f : Event → Event)
      → ((a : Event) → p a ≡ true → Step K a (f a))
      → Guarantees (Runs K env) (update_events p f)
  unfolding update_events ◌>>◌
  update_events-Runs p f h = record {
    at = λ db. ours here (Grows-update_many (Step K) p f db.events (Step-refl K) h);
  }

  pub find_event-Runs : (p : Event → Bool) → Guarantees (Runs K env) (find_event p)
  unfolding find_event
  find_event-Runs p = Guarantees-gets Runs-IsPreorder _

  pub write_audit_log-Runs :
      (actor : Option String) (action entity entity_id : String)
      → Guarantees (Runs K env) (write_audit_log actor action entity entity_id)
  unfolding write_audit_log
  write_audit_log-Runs actor action entity entity_id = record {
    at = λ db. ours here (Grows-refl (Step K) (Step-refl K) db.events);
  }

  module _ (moves : (s t : EventStatus) → K s t → Move s t) (others : IsEvolving env) where
    Step-Ages : (a b : Event) → Step K a b → Ages a b
    Step-Ages a b h = record {
      id = h.id;
      slug = h.slug;
      owner = h.owner;
      status = go h.status;
      frozen = h.frozen;
    }
      where
        go : (b.status ≡ a.status) ⊎ K a.status b.status → Moves a.status b.status
        go (inl e) = rw e stays
        go (inr k) = next stays (moves a.status b.status k)

    pub Runs-Evolves : {a b : Db} → Runs K env a b → Evolves a b
    Runs-Evolves {a} here = Evolves-IsPreorder.refl_at a
    Runs-Evolves {a} (theirs_before {b} q) =
        Evolves-IsPreorder.trans_at a b (env.before_write b) (Runs-Evolves q) (others.before b)
    Runs-Evolves {a} (theirs_after {b} q) =
        Evolves-IsPreorder.trans_at a b (env.after_write b) (Runs-Evolves q) (others.after b)
    Runs-Evolves {a} (ours {b} {c} q g) =
        Evolves-IsPreorder.trans_at a b c (Runs-Evolves q)
          (Grows-map (Step K) Ages Step-Ages b.events c.events g)

Moves-published : (s : EventStatus) → is_draft s ≡ true → Publishing s published
Moves-published draft h = publishes
Moves-published _ h = cc

Moves-draft : (s : EventStatus) → is_published_or_active s ≡ true → Unpublishing s draft
Moves-draft published h = unpublishes
Moves-draft EventStatus.active h = unpublishes_active
Moves-draft _ h = cc

Moves-cancel : (s : EventStatus) → is_cancellable s ≡ true → Cancelling s EventStatus.cancelled
Moves-cancel published h = cancels
Moves-cancel EventStatus.active h = cancels_active
Moves-cancel completed h = cancels_completed
Moves-cancel _ h = cc

module _ (event_id owner_id : String) (role : UserRole) (e : Event) where
  pub Step-publish :
      (now : ℕ) → publishable event_id owner_id role e ≡ true → Step Publishing e (publish now e)
  Step-publish now h = record {
    id = refl;
    slug = refl;
    owner = refl;
    status = inr (Moves-published e.status (ground arith));
    frozen = λ d. absurd (d (ground arith));
  }

  pub Step-unpublish :
      unpublishable event_id owner_id role e ≡ true → Step Unpublishing e (unpublish e)
  Step-unpublish h = record {
    id = refl;
    slug = refl;
    owner = refl;
    status = inr (Moves-draft e.status (ground arith));
    frozen = λ d. absurd (d (ground arith));
  }

  pub Step-cancel : cancellable event_id owner_id role e ≡ true → Step Cancelling e (cancel e)
  Step-cancel h = record {
    id = refl;
    slug = refl;
    owner = refl;
    status = inr (Moves-cancel e.status (ground arith));
    frozen = λ d. absurd (d (ground arith));
  }

  pub Step-apply_data :
      (d : EventData) → editable event_id owner_id role e ≡ true → Step Staying e (apply_data d e)
  Step-apply_data d h = record {
    id = refl;
    slug = refl;
    owner = refl;
    status = inl refl;
    frozen = λ dead. absurd (dead (ground arith));
  }

  pub Step-delete :
      (now : ℕ)
      → editable event_id owner_id role e ≡ true
      → Step Staying e (record e { deleted_at = some now })
  Step-delete now h = record {
    id = refl;
    slug = refl;
    owner = refl;
    status = inl refl;
    frozen = λ dead. absurd (dead (ground arith));
  }
