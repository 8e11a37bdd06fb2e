-- ===== src/Sqlite/Tx/Aside.antt =====
-- The statements on sources, targets and rules leave the rows of the traffic and the log alone.
use webhook_event_route.Prelude.{ℕ, ℤ, ◌≡◌, refl, ◌∙◌, List, [], ◌∷◌, arith}
use webhook_event_route.Domain.{Source, Target, Rule}
use webhook_event_route.Sqlite.Tables.{Db}
use webhook_event_route.Sqlite.Tx.{exec}
use webhook_event_route.Sqlite.Tx.Effects.{
  IsPreorder, Relates, Effect, exec-Relates, bind-Relates, pure-Relates,
}
use webhook_event_route.Sqlite.Sources.{insert_source, change_source, remove_source}
use webhook_event_route.Sqlite.Targets.{insert_target, change_target, remove_target}
use webhook_event_route.Sqlite.Rules.Writes.{
  insert_rule, change_rule, remove_rule, insert_rule_target, add_targets, persist_targets,
  clear_targets, target_list,
}

-- Events, deliveries and attempts are the same.
pub record SameTraffic (d d' : Db) : Type 0 where
  pub events : d'.events ≡ d.events
  pub last_event : d'.last_event ≡ d.last_event
  pub deliveries : d'.deliveries ≡ d.deliveries
  pub last_delivery : d'.last_delivery ≡ d.last_delivery
  pub attempts : d'.attempts ≡ d.attempts

-- So is the change log.
pub record IsAside (d d' : Db) : Type 0 where
  pub traffic : SameTraffic d d'
  pub logs : d'.change_logs ≡ d.change_logs

pub traffic_order : IsPreorder SameTraffic
traffic_order = record {
  same = λ db. record {
    events = refl;
    last_event = refl;
    deliveries = refl;
    last_delivery = refl;
    attempts = refl;
  };
  join = λ a b c p q. record {
    events = q.events ∙ p.events;
    last_event = q.last_event ∙ p.last_event;
    deliveries = q.deliveries ∙ p.deliveries;
    last_delivery = q.last_delivery ∙ p.last_delivery;
    attempts = q.attempts ∙ p.attempts;
  };
}

pub IsAside-order : IsPreorder IsAside
IsAside-order = record {
  same = λ db. record { traffic = traffic_order.same db; logs = refl };
  join = λ a b c p q. record {
    traffic = traffic_order.join a b c p.traffic q.traffic;
    logs = q.logs ∙ p.logs;
  };
}

pub insert_source-IsAside : (now : ℕ) (src : Source) → Effect IsAside (insert_source now src)
unfolding insert_source
insert_source-IsAside now src db db' a h = ground arith

pub change_source-IsAside : (now : ℕ) (src : Source) → Effect IsAside (change_source now src)
unfolding change_source
change_source-IsAside now src db db' a h = ground arith

pub remove_source-IsAside : (id : ℤ) → Effect IsAside (remove_source id)
unfolding remove_source
remove_source-IsAside id db db' a h = ground arith

pub insert_target-IsAside : (now : ℕ) (t : Target) → Effect IsAside (insert_target now t)
unfolding insert_target
insert_target-IsAside now t db db' a h = ground arith

pub change_target-IsAside : (now : ℕ) (t : Target) → Effect IsAside (change_target now t)
unfolding change_target
change_target-IsAside now t db db' a h = ground arith

pub remove_target-IsAside : (id : ℤ) → Effect IsAside (remove_target id)
unfolding remove_target
remove_target-IsAside id db db' a h = ground arith

pub insert_rule-IsAside : (now : ℕ) (r : Rule) → Effect IsAside (insert_rule now r)
unfolding insert_rule
insert_rule-IsAside now r db db' a h = ground arith

pub change_rule-IsAside : (now : ℕ) (r : Rule) → Effect IsAside (change_rule now r)
unfolding change_rule
change_rule-IsAside now r db db' a h = ground arith

pub remove_rule-IsAside : (id : ℤ) → Effect IsAside (remove_rule id)
unfolding remove_rule
remove_rule-IsAside id db db' a h = ground arith

pub clear_targets-IsAside : (id : ℤ) → Effect IsAside (clear_targets id)
unfolding clear_targets
clear_targets-IsAside id db db' a h = ground arith

pub insert_rule_target-IsAside : (rule_id tid : ℕ) → Effect IsAside (insert_rule_target rule_id tid)
unfolding insert_rule_target
insert_rule_target-IsAside rule_id tid db db' a h = ground arith

pub add_targets-IsAside : (rule_id : ℕ) (tids : List ℕ) → Relates IsAside (add_targets rule_id tids)
unfolding add_targets
add_targets-IsAside rule_id [] = pure-Relates IsAside IsAside-order tt
add_targets-IsAside rule_id (tid ∷ tids) =
    bind-Relates IsAside IsAside-order (exec (insert_rule_target rule_id tid))
      (λ _. add_targets rule_id tids)
      (exec-Relates IsAside _ (insert_rule_target-IsAside rule_id tid))
      (λ _. add_targets-IsAside rule_id tids)

pub persist_targets-IsAside : (r : Rule) → Relates IsAside (persist_targets r)
unfolding persist_targets
persist_targets-IsAside r = add_targets-IsAside r.id (target_list r)
