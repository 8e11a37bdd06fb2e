-- ===== src/Httpapi/Resources.antt =====
-- internal/httpapi: what the handlers of sources, targets and rules share.
pub mod Sources
pub mod Targets
pub mod Rules
pub mod Readback
use webhook_event_route.Prelude.{ℕ, ℤ, Option, none, some, List, [], ◌∷◌, ◌++◌, Text, codes}
use webhook_event_route.Errs.{Code, Error, new}
use webhook_event_route.Strconv.{atoi}
use webhook_event_route.Store.{Failure, not_found, Result, ok, err, Assigned}
use webhook_event_route.Dispatcher.World.{World, with_db}
use webhook_event_route.Httpapi.Events.{Check, pass, refuse, Server}

-- What such a handler answers: an error, 201 with the new entity, or 200.
pub data Outcome (A : Type 0) : Type 0 where
  failed : Error → Outcome A
  created : A → Outcome A
  fetched : A → Outcome A
  listed : List A → Outcome A
  updated : A → Outcome A
  deleted : Outcome A

-- The member of a request that replaces an old value where it is given.
abbrev pub or_else : {A : Type 0} → Option A → A → A
or_else none a = a
or_else (some b) a = b

abbrev pub or_text : Text → Text → Text
or_text [] old = old
or_text (c ∷ s) old = c ∷ s

abbrev pub parsed_id : Option ℤ → Check ℤ
parsed_id none = refuse (new Code.invalid_input (codes "invalid id"))
parsed_id (some id) = pass id

-- strconv.ParseInt(r.PathValue("id"), 10, 64)
unfoldable pub parse_id : Text → Check ℤ
unfolding atoi
parse_id path_id = parsed_id (atoi path_id)

-- `respondNotFound`
abbrev pub not_found_error : Text → Failure → Error
not_found_error entity not_found = new Code.not_found (entity ++ codes " not found")
not_found_error entity _ = new Code.internal (codes "internal error")

abbrev pub found : {A : Type 0} → Text → Result A → Check A
found entity (ok a) = pass a
found entity (err e) = refuse (not_found_error entity e)

abbrev pub in_db : {S : Type 0} → Server S → S → Server S
in_db s db = record s { world = with_db s.world db }

module _ {S A : Type 0} (s : Server S) where
  abbrev pub after_create : (Assigned → A) → Text → S × Result Assigned → Server S × Outcome A
  after_create assign msg (db, ok x) = (in_db s db, created (assign x))
  after_create assign msg (db, err e) = (in_db s db, failed (new Code.internal msg))

  abbrev pub after_update : (ℕ → A) → Text → S × Result ℕ → Server S × Outcome A
  after_update assign msg (db, ok at) = (in_db s db, updated (assign at))
  after_update assign msg (db, err e) = (in_db s db, failed (new Code.internal msg))

  abbrev pub after_delete : Text → S × Result (Unit {0}) → Server S × Outcome A
  after_delete msg (db, ok x) = (in_db s db, deleted)
  after_delete msg (db, err e) = (in_db s db, failed (new Code.internal msg))

  abbrev pub answer_list : Result (List A) → Server S × Outcome A
  answer_list (ok as') = (s, listed as')
  answer_list (err e) = (s, failed (new Code.internal (codes "internal error")))

  abbrev pub answer_get : Check A → Server S × Outcome A
  answer_get (pass a) = (s, fetched a)
  answer_get (refuse e) = (s, failed e)
