-- ===== src/Httpapi/History/Keys.antt =====
-- What a store must promise of the keys of events, (source, event_id), for the handler's lookup of
-- earlier events to serve.
use webhook_event_route.Prelude.{ℕ, ◌≡◌, Text}
use webhook_event_route.Domain.{Event}
use webhook_event_route.Store.{ok, Assigned, Store}
use webhook_event_route.Store.Resources.{Resources}
use webhook_event_route.Store.Kept.{IsAlwaysKept, IsConfigKept}

-- The key is found, as the event with the identifier `id`.
abbrev pub Knows : {S : Type 0} (st : Store S) → ℕ → Text → ℕ → S → Type 0
Knows st source_id event_id id db =
    (e : Event) × (st.get_by_key source_id event_id db ≡ ok e) × (e.id ≡ id)

pub record KeyLaws {S : Type 0} (st : Store S) (rs : Resources S) : Type 0 where
  pub known_kept :
      (source_id : ℕ) (event_id : Text) (id : ℕ) → IsAlwaysKept st (Knows st source_id event_id id)
  pub known_configured :
      (source_id : ℕ) (event_id : Text) (id : ℕ) → IsConfigKept rs (Knows st source_id event_id id)
  pub created_known :
      (now : ℕ) (e : Event) (db : S) (x : Assigned)
      → (st.create_event now e db).1 ≡ ok x
      → Knows st e.source_id e.event_id x.id (st.create_event now e db).0
