-- ===== src/Engine/Run.antt =====
-- engine.py `_apply_fill`: what holds of a run, and that a fill keeps it.
use trading_system_v.Prelude.{ℕ, ◌≡◌, ◌≢◌, Option}
use trading_system_v.Prelude.Int.{ℤ, pos, ◌+ℤ◌, ◌≤ℤ◌}
use trading_system_v.Prelude.Result.{ok}
use trading_system_v.Types.Enums.{both}
use trading_system_v.Types.Position.{Position}
use trading_system_v.Types.Fill
use trading_system_v.Types.Fill.{Fill}
use trading_system_v.Types.Signal.{TradingSignal}
use trading_system_v.Costs.Model.{CostModel}
use trading_system_v.Execution.Book.Holdings.{IsSound, apply-IsSound}
use trading_system_v.Execution.Book.Keyed.{IsKeyed, apply-IsKeyed}
use trading_system_v.Engine.{RunConfig, Engine}
use trading_system_v.Engine.Fills.{apply_fill}
use trading_system_v.Engine.Ledger.{
  IsBalanced, realized_pnl, IsOwnFill, apply_fill-IsBalanced, apply_fill_cases, Applied, enters,
  leaves,
}

-- What holds of the engine between two events of a run.
pub record IsRun (config : RunConfig) (e : Engine) (total : ℤ) : Type 0 where
  pub sound : IsSound e.book
  pub keyed : IsKeyed e.book
  pub cash_nonneg : pos 0 ≤ℤ e.cash
  pub balanced : IsBalanced config e total

book-Applied :
    (config : RunConfig) (fill : Fill) (before : Option Position) (e e' : Engine)
    → Fill.IsValid fill
    → IsSound e.book
    → IsKeyed e.book
    → Applied config fill before e e'
    → IsSound e'.book × IsKeyed e'.book
book-Applied config fill before e e' valid sound keyed (enters k x) = (
  apply-IsSound fill x.opening e.book e'.book tt valid sound x.applied,
  apply-IsKeyed fill x.opening e.book e'.book tt keyed x.applied,
)
book-Applied config fill before e e' valid sound keyed (leaves p a k at active x) = (
  apply-IsSound fill x.opening e.book e'.book tt valid sound x.applied,
  apply-IsKeyed fill x.opening e.book e'.book tt keyed x.applied,
)

-- A well-formed fill of the run's symbol and one direction that the engine applies keeps the run
-- sound: the book, the cash that is not negative, and the ledger with the PnL of the fill.
pub apply_fill-IsRun :
    (config : RunConfig) (model : CostModel) (fill : Fill) (d : Option ℕ)
    (signal : Option TradingSignal) (c : Option ℕ) (e e' : Engine) (u : Unit {0}) (total : ℤ)
    → Fill.IsValid fill
    → fill.symbol ≡ config.symbol
    → fill.position_side ≢ both
    → IsRun config e total
    → apply_fill config model fill d signal c e ≡ (ok u, e')
    → IsRun config e' (total +ℤ realized_pnl config e fill)
apply_fill-IsRun config model fill d signal c e e' u total valid symbol direction run h =
    let own : IsOwnFill config e fill = record {
      symbol = symbol;
      direction = direction;
      sound = run.sound;
    } in
    let (before, held, step) = apply_fill_cases config model fill d signal c e e' u own h in
    let (sound, keyed) = book-Applied config fill before e e' valid run.sound run.keyed step in
    let (nonneg, balanced) =
      apply_fill-IsBalanced config model fill d signal c e e' u total own run.balanced h in
    record { sound = sound; keyed = keyed; cash_nonneg = nonneg; balanced = balanced }
