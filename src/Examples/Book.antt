-- ===== src/Examples/Book.antt =====
-- The properties of the position book, of normalized orders and of the accounting at concrete inputs.
use trading_system_v.Prelude.{String, some, none, ◌≡◌, ◌↔◌, refl, true, false, arith, if◌then◌else◌}
use trading_system_v.Prelude.Int.{ℤ, pos, ◌*ℤ◌, ◌-ℤ◌, ◌≤ℤ◌, ◌<ℤ◌}
use trading_system_v.Prelude.Result.{ok, err, value_error}
use trading_system_v.Money.{quantize, mul_units, to_decimal}
use trading_system_v.Money.Half.{round_half_even}
use trading_system_v.Types.Enums.{OrderType, buy, futures, long}
use trading_system_v.Types.Order.Validation
use trading_system_v.Types.Position
use trading_system_v.Types.Position.{Position, reduced}
use trading_system_v.Types.Fill
use trading_system_v.Execution.Book.{Book, same_key, apply, open_position, applied_cost, fund}
use trading_system_v.Execution.Book.Holdings.{amount, net, IsSound, apply-amount, apply-IsSound}
use trading_system_v.Execution.Book.Reducing.{IsLeft, apply_reduction}
use trading_system_v.Types.Order.{Order}
use trading_system_v.Types.Enums.{PositionSide}
use trading_system_v.Execution.Book.{same_key}
use trading_system_v.Execution.Book.FundingMargin.{funded, funding_result, fund_total}
use trading_system_v.Execution.Normalizer.{
  OrderRequest, Ids, validate_request, normalize_order, IsNormalized, normalize_order_lem,
}
use trading_system_v.Examples.Data.{long_position, entry_fill, exit_fill, ten_times, maintenance}
use trading_system_v.Examples.Types.{long_position-IsValid}

abbrev pub empty_book : Book
empty_book symbol side = none

pub empty_book-IsSound : IsSound empty_book
empty_book-IsSound s d p h = cc

pub entry_fill-IsValid : Fill.IsValid entry_fill
entry_fill-IsValid = record {
  reference_positive = omega arith;
  price_positive = omega arith;
  quantity_positive = omega arith;
  fee_nonneg = omega arith;
  slippage_nonneg = omega arith;
}

entered : (b : Book) × (apply entry_fill ten_times empty_book ≡ (ok tt, b))
unfolding apply open_position Position.post_init mul_units quantize round_half_even ◌*ℤ◌ ◌-ℤ◌
entered = (_, refl)

apply-amount_example :
    amount (entered.0 "BTCUSDT" long)
    ≡ (if same_key "BTCUSDT" long "BTCUSDT" long then net entry_fill (pos 0) else pos 0)
apply-amount_example =
    apply-amount entry_fill ten_times empty_book entered.0 tt entry_fill-IsValid empty_book-IsSound
      entered.1 "BTCUSDT" long

apply-IsSound_example : IsSound entered.0
apply-IsSound_example =
    apply-IsSound entry_fill ten_times empty_book entered.0 tt entry_fill-IsValid empty_book-IsSound
      entered.1

abbrev long_book : Book
long_book symbol side = some long_position

-- Half of the long is sold.
apply_reduction_example :
    (b' : Book) × (apply exit_fill ten_times long_book ≡ (ok tt, b'))
    × IsLeft long_position (pos 100000000) (b' "BTCUSDT" long)
    × ((s : String) (d : PositionSide)
        → same_key "BTCUSDT" long s d ≡ false
        → b' s d ≡ long_book s d)
apply_reduction_example =
    apply_reduction exit_fill ten_times long_book long_position long_position-IsValid refl refl
      (omega arith) (omega arith)

-- A funding cost of 25 meets a margin of 20.
fund_total_example :
    let a = applied_cost (pos 2500000000) (pos 2000000000) in
    (level : ℤ) × (fund (pos 2500000000) maintenance long_position
      ≡ (ok (funding_result long_position (pos 2500000000)), funded long_position a level))
    × (pos 0 ≤ℤ level)
    × (a ≤ℤ pos 2500000000)
    × (pos 0 ≤ℤ (pos 2000000000 -ℤ a))
    × (((funding_result long_position (pos 2500000000)).exhausted ≡ true)
        ↔ ((pos 0 <ℤ pos 2500000000) × (pos 2000000000 ≤ℤ pos 2500000000)))
fund_total_example =
    fund_total long_position (pos 2500000000) maintenance refl refl (omega arith) (omega arith)
      (omega arith) (λ h. cc) (omega arith) (omega arith)

abbrev request : OrderRequest
request = record {
  symbol = "BTCUSDT";
  side = buy;
  order_type = OrderType.market;
  quantity = record { digits = pos 15; places = 1 };
  price = none;
  stop_price = some (record { digits = pos 95; places = 0 });
  market_type = futures;
  position_side = long;
  reduce_only = false;
  close_position = false;
  time_in_force = "GTC";
}

abbrev no_ids : Ids
no_ids = record { order_id = none; client_order_id = none; wallet_id = none; signal_id = none }

abbrev symbol_id : OrderRequest → String
symbol_id r = r.symbol

normalize_order_lem_example :
    (pos 0 <ℤ to_decimal request.quantity
      → (o : Order) × (normalize_order symbol_id request no_ids ≡ ok o)
        × IsNormalized symbol_id request no_ids o
        × Validation.IsValid o)
    × (to_decimal request.quantity ≤ℤ pos 0
        → normalize_order symbol_id request no_ids ≡ err (value_error "quantity must be positive"))
unfolding validate_request
normalize_order_lem_example = normalize_order_lem symbol_id request no_ids refl
