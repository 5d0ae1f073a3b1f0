-- ===== src/Store/Failure.antt =====
-- storage/intent.py: the outcome of `record_entry_failure`.
use cautious_crypto_bro.Prelude.{Bool, false, not, ◌&&◌, Option, none, some}
use cautious_crypto_bro.Text.{Text, prefix, same_text}
use cautious_crypto_bro.Domain.Enums.{IntentStatus, status_is, StrategyStatus, strategy_is}
use cautious_crypto_bro.Domain.Signal.{TradingIntent}
use cautious_crypto_bro.Domain.Strategy.{PositionStrategy}
use cautious_crypto_bro.Store.Tables.{Row, Store}
use cautious_crypto_bro.Store.Shared.{has_id}
use cautious_crypto_bro.Store.Intents.{strategy_of}

abbrev pub with_other_status : Text → StrategyStatus → PositionStrategy → Bool
with_other_status id status p = strategy_of id p && not (strategy_is p.status status)

abbrev says : Text → Option Text → Bool
says error none = false
says error (some e) = same_text e error

-- A row of the intent that is FAILED with the first 2000 characters of the error.
abbrev pub is_failed_with : Text → Text → Row TradingIntent → Bool
is_failed_with id error r =
    has_id id r && status_is r.status IntentStatus.failed && says (prefix 2000 error) r.error
