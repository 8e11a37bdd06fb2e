-- ===== src/Dispatcher/World.antt =====
-- The state that a dispatcher acts on: the database, and what the outside world is asked and answers.
use webhook_event_route.Prelude.{ℕ, ◌+◌, ◌-◌, Option, List, [], ◌∷◌, ◌++◌, ltb, if◌then◌else◌, Text}
use webhook_event_route.Dispatcher.Allow.{Net}

pub record Request : Type 0 where
  pub url : Text
  pub body : Text

-- What `client.Do` returns: an error, or a status and a body.
pub data Reply : Type 0 where
  transport_error : Text → Reply
  response : (status : ℕ) (body : Text) → Reply

-- The clock, the random numbers and the network, by how often they were asked.
pub record Env : Type 0 where
  -- time.Now
  pub now : ℕ → ℕ
  -- rng.Int63n
  pub int63n : ℕ → ℕ → ℕ
  -- The error of http.NewRequestWithContext for a URL, if any.
  pub new_request : Text → Option Text
  -- client.Do, with the redirects that it follows by itself.
  pub perform : ℕ → Request → Reply
  -- http.StatusText
  pub status_text : ℕ → Text
  pub net : Net

pub record World (S : Type 0) : Type 0 where
  pub db : S
  pub ticks : ℕ
  -- The requests that were handed to client.Do so far, in order. Those that the client makes to follow a
  -- redirect are not among them.
  pub requests : List Request

module _ {S : Type 0} where
  abbrev pub ticked : World S → World S
  ticked w = record w { ticks = w.ticks + 1 }

  abbrev pub with_db : World S → S → World S
  with_db w db = record w { db = db; ticks = w.ticks + 1 }

  abbrev pub requested : World S → Request → World S
  requested w r = record w { ticks = w.ticks + 1; requests = w.requests ++ r ∷ [] }

-- `t.Add(d)` for the bit pattern of a Duration.
unfoldable pub add_time : ℕ → ℕ → ℕ
add_time t d = if ltb d 9223372036854775808 then t + d else t - (18446744073709551616 - d)
