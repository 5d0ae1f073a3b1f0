-- ===== src/Coordinator/Examples.antt =====
-- Runs of the coordinator.
use cautious_crypto_bro.Prelude.{◌≡◌, none, some, []}
use cautious_crypto_bro.Text.{text, same_text}
use cautious_crypto_bro.Decimal.{dec}
use cautious_crypto_bro.Domain.Enums.{ApprovalMode}
use cautious_crypto_bro.Domain.Account.{AccountStateSummary}
use cautious_crypto_bro.Planner.Samples.{intent}
use cautious_crypto_bro.Coordinator.Ports.{Deployment}
use cautious_crypto_bro.Coordinator.Preflight.{auto_open_safety_reason}
use cautious_crypto_bro.Coordinator.Exposure.{has_no_reason, is_admissible, auto_open-MayOpen}
use cautious_crypto_bro.Coordinator.Actions.{run_position_action}
use cautious_crypto_bro.Coordinator.Opens.{execute_locked_intent}
use cautious_crypto_bro.Coordinator.Ledger.{Ruled, untouched}
use cautious_crypto_bro.Coordinator.Settled.{Anything, IsSettled, run_position_action-IsSettled}
use cautious_crypto_bro.Coordinator.Stages.{NoMatter, IsConcluded}
use cautious_crypto_bro.Coordinator.Opened.{execute_locked_intent-IsConcluded}

abbrev deployment : Deployment
deployment = record {
  max_age_seconds = 300;
  portfolio_stop_risk_cap_usdt = some (dec 500);
  zone_group_id = λ symbol side. symbol;
  same_plan = λ p q. same_text p.intent_id q.intent_id;
}

run_position_action-IsSettled_example :
    Ruled IsSettled Anything untouched
      (run_position_action deployment (text "0a1b") ApprovalMode.manual none)
run_position_action-IsSettled_example =
    run_position_action-IsSettled deployment (text "0a1b") ApprovalMode.manual none

execute_locked_intent-IsConcluded_example :
    Ruled IsConcluded NoMatter untouched
      (execute_locked_intent deployment (text "0a1b") ApprovalMode.auto none)
execute_locked_intent-IsConcluded_example =
    execute_locked_intent-IsConcluded deployment (text "0a1b") ApprovalMode.auto none

abbrev flat : AccountStateSummary
flat = record { as_of = 1000; positions = []; open_orders = [] }

auto_open-MayOpen_example :
    has_no_reason (auto_open_safety_reason intent flat) ≡ is_admissible intent flat
auto_open-MayOpen_example = auto_open-MayOpen intent flat
