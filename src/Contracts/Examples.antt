-- ===== src/Contracts/Examples.antt =====
-- The resolution of a sample intent.
use cautious_crypto_bro.Prelude.{some}
use cautious_crypto_bro.Text.{text}
use cautious_crypto_bro.Decimal.{decimal}
use cautious_crypto_bro.Program.Safe.{Safe}
use cautious_crypto_bro.Domain.Signal.{TradingIntent}
use cautious_crypto_bro.Planner.Samples.{intent}
use cautious_crypto_bro.Contracts.Defs.{resolve_open_contract}
use cautious_crypto_bro.Contracts.Resolved.{
  no_quotes, after, AsksAbout, IsResolved, resolve_open_contract-IsResolved,
}

abbrev pepe : TradingIntent
pepe = record intent { symbol = text "PEPEUSDT"; stop_loss = some (decimal 9 6) }

resolve_open_contract-IsResolved_example :
    Safe
      (AsksAbout pepe)
      after
      (IsResolved pepe)
      (λ g e. Unit)
      no_quotes
      (resolve_open_contract pepe)
resolve_open_contract-IsResolved_example = resolve_open_contract-IsResolved pepe
