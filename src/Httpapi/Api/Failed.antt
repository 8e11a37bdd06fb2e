-- ===== src/Httpapi/Api/Failed.antt =====
-- An answer with an error status means that nothing happened.
pub mod Resources
pub mod Traffic
pub mod Calls
use webhook_event_route.Prelude.{
  ◌⊎◌, ◌++◌, ◌∷◌, [], ◌+◌, ℕ, ℤ, ◌≡◌, ◌≤◌, refl, Option, none, some, arith, Text, inl, inr, List,
}
use webhook_event_route.Errs.{Error}
use webhook_event_route.Domain.{Event, EventStatus}
use webhook_event_route.Sqlite.Conn.{Conn}
use webhook_event_route.Store.{Failure, Result, Result-cases, ok, err, Assigned}
use webhook_event_route.Sqlite.Tables.{Db}
use webhook_event_route.Sqlite.Audit.Trail.{IsRecorded}
use webhook_event_route.Httpapi.Events.{Check, pass, refuse, Server, Answer}
use webhook_event_route.Httpapi.Resources.{
  Outcome, failed, in_db, after_create, after_update, after_delete,
}
use webhook_event_route.Httpapi.Api.Status.{outcome_status, check_status, answer_status}

-- The rows and the requests sent are those of before.
pub record IsLeft (s t : Server Db) : Type 0 where
  pub same_db : t.world.db ≡ s.world.db
  pub same_requests : t.world.requests ≡ s.world.requests

-- After a POST of an event: the new row is all that has changed, and the rules could not be read.
pub record IsUnrouted (conn : Conn) (row : Event) (s t : Server Db) : Type 0 where
  pub appended : t.world.db ≡ record s.world.db {
    events = s.world.db.events ++ row ∷ [];
    last_event = s.world.db.last_event + 1;
  }
  pub kept_accepted : row.status ≡ EventStatus.accepted
  pub unread : (f : Failure) × (conn.rules_error t.world.db ≡ some f)
  pub same_requests : t.world.requests ≡ s.world.requests

-- An answer of a status from 400 on leaves the state alone, or the event unrouted with a 500.
abbrev pub IsPosted : Conn → Server Db → Server Db × Answer → Type 0
IsPosted conn s o =
    (n : ℕ)
    → answer_status o.1 ≡ some n
    → 400 ≤ n
    → IsLeft s o.0 ⊎ ((n ≡ 500) × ((row : Event) × IsUnrouted conn row s o.0))

pub left : (s : Server Db) → IsLeft s s
left s = record { same_db = refl; same_requests = refl }

-- An answer of a status from 400 on leaves the state alone.
abbrev pub IsQuiet : {A : Type 0} → (A → Option ℕ) → Server Db → Server Db × A → Type 0
IsQuiet status s o = (n : ℕ) → status o.1 ≡ some n → 400 ≤ n → IsLeft s o.0

-- A write that fails leaves the rows alone.
abbrev pub Fails : {A : Type 0} → Db → Db × Result A → Type 0
Fails db o = (e : Failure) → o.1 ≡ err e → o.0 ≡ db

pub IsRecorded-Fails :
    {A : Type 0} (entity action : Text) (id : A → ℤ) (db : Db) (o : Db × Result A)
    → IsRecorded entity action id db o
    → Fails db o
IsRecorded-Fails entity action id db (db', ok a) h e q = absurd (ground arith)
IsRecorded-Fails entity action id db (db', err f) h e q = h

module _ {A : Type 0} (s : Server Db) where
  abbrev pub outcome : Outcome A → Option ℕ
  outcome o = some (outcome_status o)

  pub after_create-IsQuiet :
      (assign : Assigned → A) (msg : Text) (o : Db × Result Assigned)
      → Fails s.world.db o
      → IsQuiet outcome s (after_create s assign msg o)
  after_create-IsQuiet assign msg (db, ok x) h n q high = absurd (ground arith)
  after_create-IsQuiet assign msg (db, err e) h n q high = record {
    same_db = h e refl;
    same_requests = refl;
  }

  pub after_update-IsQuiet :
      (assign : ℕ → A) (msg : Text) (o : Db × Result ℕ)
      → Fails s.world.db o
      → IsQuiet outcome s (after_update s assign msg o)
  after_update-IsQuiet assign msg (db, ok x) h n q high = absurd (ground arith)
  after_update-IsQuiet assign msg (db, err e) h n q high = record {
    same_db = h e refl;
    same_requests = refl;
  }

  -- The checks before the write.
  pub checked-IsQuiet :
      {R : Type 0} (c : Check R) (go : R → Server Db × Outcome A)
      → ((r : R) → IsQuiet outcome s (go r))
      → IsQuiet outcome s (elim c [ refuse e ↦ (s, failed e) | pass r ↦ go r ])
  checked-IsQuiet (refuse e) go h = λ n q high. left s
  checked-IsQuiet (pass r) go h = h r

pub after_delete-IsQuiet :
    (B : Type 0) (s : Server Db) (msg : Text) (o : Db × Result (Unit {0}))
    → Fails s.world.db o
    → IsQuiet (λ (a : Outcome B). some (outcome_status a)) s (after_delete {A = B} s msg o)
after_delete-IsQuiet B s msg (db, ok x) h n q high = absurd (ground arith)
after_delete-IsQuiet B s msg (db, err e) h n q high = record {
  same_db = h e refl;
  same_requests = refl;
}
