-- ===== src/Sqlite/Sound.antt =====
-- The deliveries of the table at rest: the columns that the dispatcher writes fit together.
pub mod Operations
use webhook_event_route.Sqlite.Conn.{Conn}
use webhook_event_route.Prelude.{
  ℕ, ◌⊎◌, ◌==◌, sym, none, some, codes, zero, ◌+◌, ◌<◌, ◌≡◌, refl, true, List, [], ◌∷◌, ◌++◌, inl,
  inr, In, In-append, Bool, Bool-cases, Text, arith, not,
}
use mathlib.Core.Path.{subst}
use webhook_event_route.Domain.{Event, Rule, Target, Delivery, dead}
use webhook_event_route.Config.{Config}
use webhook_event_route.Store.{Result, Result-cases, ok, err}
use webhook_event_route.Store.Kept.{both_branches}
use webhook_event_route.Dispatcher.Allow.{allowed}
use webhook_event_route.Dispatcher.Operated.{IsOperated}
use webhook_event_route.Dispatcher.World.{Env, World, ticked, with_db}
use webhook_event_route.Dispatcher.Send.{
  save, send, new_delivery, assign, deliver_created, deliver, is_dead, requeue_read, requeue,
}
use webhook_event_route.Dispatcher.Send.Sound.{IsSound, send-IsSound, save-IsSound}
use webhook_event_route.Dispatcher.Worker.{retry_one, retry_all, retry, unix_seconds, batch}
use webhook_event_route.Sqlite.Tables.{Db, update_where}
use webhook_event_route.Sqlite.Events.{get_event, get_target, create_event, update_status}
use webhook_event_route.Sqlite.Deliveries.{
  may_retry, set_columns, may_insert_delivery, create_delivery, update_delivery, get_delivery,
  due_deliveries,
}
use webhook_event_route.Sqlite.Instance.{sqlite_store}
use webhook_event_route.Sqlite.Settled.{due-In}
use webhook_event_route.Sqlite.Budget.{updated}
use webhook_event_route.Sqlite.Budget.Sends.{Rewrites, save_row, send_row}

-- A row of an updated table is an old one, or one that is written.
In-update_where :
    {A : Type 0} (q : A → Bool) (g : A → A) (xs : List A) (x : A)
    → In x (update_where q g xs)
    → In x xs ⊎ ((y : A) × (x ≡ g y))
unfolding update_where
In-update_where q g [] x m = elim m [ ]
In-update_where q g (y ∷ ys) x (inl e) = elim (Bool-cases (q y)) [
  | inl t ↦ inr (y, rw t at e)
  | inr f ↦ inl (inl (rw f at e))
]
In-update_where q g (y ∷ ys) x (inr m) = elim (In-update_where q g ys x m) [
  | inl n ↦ inl (inr n)
  | inr w ↦ inr w
]

-- All deliveries of the table are sound.
abbrev pub AreSound : ℕ → List Delivery → Type 0
AreSound max ds = (x : Delivery) → In x ds → IsSound max x

module _ (max : ℕ) where
  -- Soundness is about the columns that an UPDATE sets.
  set_columns-IsSound :
      (now : ℕ) (d old : Delivery) → IsSound max d → IsSound max (set_columns now d old)
  set_columns-IsSound now d old h = record {
    dead_marked = h.dead_marked;
    retry_planned = h.retry_planned;
    alive = h.alive;
    proper = h.proper;
  }

  pub updated-AreSound :
      (now id : ℕ) (d : Delivery) (ds : List Delivery)
      → IsSound max d
      → AreSound max ds
      → AreSound max (updated 0 now d id ds)
  updated-AreSound now id d ds h all x m =
      elim (In-update_where (λ r. r.id == id) (set_columns now d) ds x m) [
        | inl n ↦ all x n
        | inr (y, e) ↦ subst (IsSound max) (sym e) (set_columns-IsSound now d y h)
      ]

  pub create_delivery-AreSound :
      (conn : Conn) (now : ℕ) (d : Delivery) (db : Db)
      → ((id created updated : ℕ)
          → IsSound max (record d { id = id; created_at = created; updated_at = updated }))
      → AreSound max db.deliveries
      → AreSound max (create_delivery conn now d db).0.deliveries
  unfolding create_delivery
  create_delivery-AreSound conn now d db h all =
      let new = record d {
        id = db.last_delivery + 1;
        created_at = now;
        updated_at = conn.next_reading now;
      } in
      elim (Bool-cases (may_insert_delivery d db)) [
        | inr bad ↦ rw (bad, create_delivery) all
        | inl fits ↦
            let both : AreSound max (db.deliveries ++ new ∷ []) = λ x m.
              elim (In-append x db.deliveries (new ∷ []) m) [
                | inl n ↦ all x n
                | inr (inl e) ↦
                    subst (IsSound max) (sym e)
                      (h (db.last_delivery + 1) now (conn.next_reading now))
                | inr (inr n) ↦ elim n [ ]
              ] in
            rw (fits, create_delivery) both
      ]

module _ (conn : Conn) (cfg : Config) (env : Env) where
  rewritten-AreSound :
      (ds : List Delivery) (d : Delivery) (r : World Db × Delivery)
      → Rewrites conn cfg env ds d r
      → IsSound cfg.max_retries r.1
      → AreSound cfg.max_retries ds
      → AreSound cfg.max_retries r.0.db.deliveries
  rewritten-AreSound ds d r (now, e) h all =
      subst (AreSound cfg.max_retries) (sym e)
        (updated-AreSound cfg.max_retries now d.id r.1 ds h all)

  pub send-AreSound :
      (w : World Db) (d : Delivery) (target : Target) (body : Text)
      → d.dead_at ≡ none
      → AreSound cfg.max_retries w.db.deliveries
      → AreSound cfg.max_retries (send (sqlite_store conn) cfg env w d target body).0.db.deliveries
  send-AreSound w d target body alive all =
      rewritten-AreSound w.db.deliveries d (send (sqlite_store conn) cfg env w d target body)
        (send_row conn cfg env w d target body)
        (send-IsSound (sqlite_store conn) cfg env w d target body alive).1 all

  pub deliver_created-AreSound :
      (w : World Db) (d : Delivery) (event : Event) (target : Target)
      → d.dead_at ≡ none
      → d.next_retry_at ≡ none
      → AreSound cfg.max_retries w.db.deliveries
      → AreSound cfg.max_retries
          (deliver_created (sqlite_store conn) cfg env w d event target).0.db.deliveries
  unfolding deliver_created
  deliver_created-AreSound w d event target alive unplanned all =
      let st = sqlite_store conn in
      let blocked = record d {
        status = dead;
        last_error = codes "target not whitelisted";
        dead_at = some (env.now w.ticks);
      } in
      let sound : IsSound cfg.max_retries blocked = ground (arith, unplanned) in
      both_branches (λ (r : World Db × Delivery). AreSound cfg.max_retries r.0.db.deliveries)
        (not (allowed env.net target.url cfg.allow_private cfg.allow_loopback)) _ _
        (rewritten-AreSound w.db.deliveries blocked (save st cfg env (ticked w) blocked)
          (save_row conn cfg env (ticked w) blocked)
          (save-IsSound st cfg env (ticked w) blocked sound) all)
        (send-AreSound w d target event.payload alive all)
