-- ===== src/Httpapi/History.antt =====
-- The running service as a relation between its states: the calls of its interface and the turns of
-- the background worker, one after the other, in any order.
pub mod Keys
pub mod Duplicates
pub mod Formed
pub mod Sound
use webhook_event_route.Prelude.{ℕ}
use webhook_event_route.Runtime.{Runtime}
use webhook_event_route.Config.{Config}
use webhook_event_route.Store.{Store}
use webhook_event_route.Store.Resources.{Resources}
use webhook_event_route.Store.Kept.{IsAlwaysKept, IsConfigKept}
use webhook_event_route.Dispatcher.Operated.{IsOperated}
use webhook_event_route.Dispatcher.World.{Env, World}
use webhook_event_route.Dispatcher.Send.Kept.{retry_kept}
use webhook_event_route.Dispatcher.Worker.{retry}
use webhook_event_route.Httpapi.Events.{Server}
use webhook_event_route.Httpapi.Api.{Decoders, Call, serve}
use webhook_event_route.Httpapi.Api.Kept.{serve_kept}

module _ {S : Type 0} (lib : Runtime) (dec : Decoders) (st : Store S) (rs : Resources S)
    (cfg : Config) (env : Env) where
  -- The state `t` comes after `s`.
  pub data Later : Server S → Server S → Type 0 where
    still : {s : Server S} → Later s s
    served :
        {s t : Server S} (call : Call) → Later (serve lib dec st rs cfg env s call).0 t → Later s t
    turn : {s t : Server S} → Later (record s { world = retry st cfg env s.world }) t → Later s t

  pub Later_kept :
      (P : S → Type 0)
      → IsOperated st cfg env P
      → IsConfigKept rs P
      → (s t : Server S) → Later s t
      → P s.world.db
      → P t.world.db
  Later_kept P k c s t still p = p
  Later_kept P k c s t (served call l) p =
      Later_kept P k c _ t l (serve_kept lib dec st rs cfg env P k c s call p)
  Later_kept P k c s t (turn l) p = Later_kept P k c _ t l (k.by_retry s.world p)
