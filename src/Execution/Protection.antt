-- ===== src/Execution/Protection.antt =====
-- execution/matcher.py: `resolve_triggers`, which exits a position at its stop, its target or its
-- liquidation level, and `liquidation_fill`.
pub mod Precedence
pub mod Bars
pub mod Calls
pub mod Rounds
pub mod Exits
use trading_system_v.Prelude.{
  ℕ, String, Bool, true, false, not, ◌&&◌, leb, if◌then◌else◌, Option, none, some, List, [], ◌∷◌,
}
use trading_system_v.Prelude.Int.{ℤ, pos, leb_ℤ, ltb_ℤ, min_ℤ, max_ℤ}
use trading_system_v.Prelude.Result.{
  Result, ok, err, value_error, type_error, ◌>>=◌, ◌>>◌, raise_if,
}
use trading_system_v.Prelude.Sort.{sort}
use trading_system_v.Money.{Rate, to_decimal}
use trading_system_v.Types.Enums.{
  OrderType, OrderSide, buy, sell, new, PositionSide, both, ExitReason, stop_loss, take_profit,
  liquidation, is_long, side_eq,
}
use Prim.Native.String.{◌++◌}
use trading_system_v.Types.Order
use trading_system_v.Types.Order.{Order}
use trading_system_v.Types.Position
use trading_system_v.Types.Position.{Position}
use trading_system_v.Types.Candle.{Candle}
use trading_system_v.Types.Fill.{Fill}
use trading_system_v.Costs.Model.{CostModel}
use trading_system_v.Costs.Liquidation
use trading_system_v.Execution.Pricing.{fill, FillRequest}

-- `_protection_reference`: the price that an exit at the level fills at, and whether the bar opened
-- beyond the level.
unfoldable pub protection_reference : PositionSide → ℤ → ℤ → ExitReason → ℤ × Bool
protection_reference side open_price level liquidation =
    (level, if is_long side then ltb_ℤ open_price level else ltb_ℤ level open_price)
protection_reference side open_price level take_profit =
    if is_long side
    then (max_ℤ level open_price, ltb_ℤ level open_price)
    else (min_ℤ level open_price, ltb_ℤ open_price level)
protection_reference side open_price level _ =
    if is_long side
    then (min_ℤ level open_price, ltb_ℤ open_price level)
    else (max_ℤ level open_price, ltb_ℤ level open_price)

-- What a bar hits.
pub record Hits : Type 0 where
  pub stop : Bool
  pub liquidation : Bool
  pub take : Bool
  pub invalid_stop : Bool

-- A test on a price that may be absent.
abbrev tested : Option ℤ → (ℤ → Bool) → Bool
tested none test = false
tested (some level) test = test level

unfoldable pub hits : PositionSide → ℤ → ℤ → ℤ → Option ℤ → Option ℤ → Bool → Hits
hits side low high liquidation_level stop_price take_profit_price liquidation_hit = record {
  stop = tested stop_price (λ s. if is_long side then leb_ℤ low s else leb_ℤ s high);
  liquidation = liquidation_hit;
  take = tested take_profit_price (λ t. if is_long side then leb_ℤ t high else leb_ℤ low t);
  invalid_stop =
      tested stop_price
        (λ s. if is_long side then ltb_ℤ s liquidation_level else ltb_ℤ liquidation_level s);
}

at_level : ExitReason → Option ℤ → Option (ExitReason × ℤ)
at_level reason none = none
at_level reason (some level) = some (reason, level)

-- The reason and the level of the exit, by precedence.
unfoldable pub choose : Hits → ℤ → Option ℤ → Option ℤ → Option (ExitReason × ℤ)
unfolding at_level
choose h liquidation_level stop_price take_profit_price =
    if h.stop && h.liquidation && h.invalid_stop
    then some (liquidation, liquidation_level)
    else if h.stop
    then at_level stop_loss stop_price
    else if h.liquidation
    then some (liquidation, liquidation_level)
    else if h.take
    then at_level take_profit take_profit_price
    else none

abbrev given_rate : Option Rate → Result Rate
given_rate none = err (type_error "liq_params.maintenance_margin_rate must be Decimal")
given_rate (some rate) = ok rate

-- The position's own liquidation level, or the one of its entry price when it has none.
unfoldable pub liquidation_level : Position → CostModel → Result ℤ
liquidation_level p model =
    if leb_ℤ p.liquidation_price (pos 0)
    then (given_rate model.maintenance_margin_rate >>= λ rate.
        Liquidation.price p.entry_price p.leverage rate p.side)
    else ok p.liquidation_price

-- `replace(position, ...)`, which checks the new position.
replaced : Position → Result Position
replaced p = let (result, q) = Position.post_init p in elim result [ ok u ↦ ok q | err e ↦ err e ]

-- The position with the liquidation level, as `is_triggered` is asked.
unfoldable pub liquidation_position : Position → ℤ → Result Position
unfolding replaced
liquidation_position p level =
    if ltb_ℤ (pos 0) p.liquidation_price
    then ok p
    else replaced (record p { liquidation_price = level })

-- The exit that one bar calls for.
unfoldable pub exit_of :
    Position → CostModel → Option ℤ → Option ℤ → Candle → Result (Option (ExitReason × ℤ))
exit_of p model stop_price take_profit_price candle = do
  let low = to_decimal candle.low
  let high = to_decimal candle.high
  level ← liquidation_level p model
  q ← liquidation_position p level
  liquidation_hit ← Liquidation.is_triggered q (if is_long p.side then low else high)
  ok (
      choose (hits p.side low high level stop_price take_profit_price liquidation_hit) level
        stop_price take_profit_price)

-- A bar that opened at or before the entry does not count: `skip_first_sl_check` is set.
abbrev pub is_skipped : Option ℕ → Candle → Bool
is_skipped none candle = false
is_skipped (some entry_time) candle = leb candle.open_time entry_time

pub some_fill : Result Fill → Result (Option Fill)
some_fill r = r >>= λ f. ok (some f)

-- `_synthetic_exit_order`. `exit_id symbol timestamp reason` is the text of uuid5 over the three.
module _ (exit_id : String → ℕ → ExitReason → String) where
  unfoldable pub synthetic_exit_order : Position → ℕ → ExitReason → Result Order
  synthetic_exit_order p timestamp reason =
      let client_id = exit_id p.symbol timestamp reason in
      Order.post_init (record {
        id = "synthetic-" ++ client_id;
        wallet_id = p.wallet_id;
        signal_id = none;
        order_type = OrderType.market;
        side = if is_long p.side then sell else buy;
        symbol = p.symbol;
        quantity = p.quantity;
        price = none;
        filled_quantity = pos 0;
        average_filled_price = none;
        status = new;
        fee = pos 0;
        client_order_id = client_id;
        market_type = p.market_type;
        position_side = p.side;
        reduce_only = true;
        close_position = false;
        stop_price = none;
        time_in_force = "GTC";
      })

  -- The fill of the whole position; the synthetic order is dropped.
  exit_fill : Position → ℤ → Bool → ℕ → ℕ → ExitReason → CostModel → Result Fill
  unfolding synthetic_exit_order
  exit_fill p reference gap_filled order_time fill_time reason model = do
    order ← synthetic_exit_order p order_time reason
    (f, _) ←
        fill order
          (record {
            reference = reference;
            quantity = p.quantity;
            timestamp = fill_time;
            gap_filled = gap_filled;
            qty_truncated = false;
            exit_reason = some reason;
          })
          model
    ok f

  -- The exit in one bar, at the reason and the level that it calls for.
  unfoldable pub exit_at : Position → CostModel → Candle → ExitReason × ℤ → Result Fill
  unfolding exit_fill
  exit_at p model candle (reason, level) =
      let (reference, gap_filled) =
        protection_reference p.side (to_decimal candle.opening) level reason in
      exit_fill p reference gap_filled candle.open_time candle.close_time reason model

  -- The loop over the sorted candles that are left.
  unfoldable pub resolve_candles :
      Position → CostModel → Option ℤ → Option ℤ → Option ℕ → List Candle → Result (Option Fill)
  unfolding some_fill
  resolve_candles p model stop_price take_profit_price entry_time [] = ok none
  resolve_candles p model stop_price take_profit_price entry_time (candle ∷ candles) =
      let rest = resolve_candles p model stop_price take_profit_price entry_time candles in
      if is_skipped entry_time candle then rest else (do
        exit ← exit_of p model stop_price take_profit_price candle
        (elim exit [ none ↦ rest | some chosen ↦ some_fill (exit_at p model candle chosen) ]))

  -- `resolve_triggers`.
  unfoldable pub resolve_triggers :
      Position → List Candle → CostModel → Option ℤ → Option ℤ → Option ℕ → Result (Option Fill)
  resolve_triggers p candles model stop_price take_profit_price entry_time = do
    raise_if (side_eq p.side both) "trigger direction is ambiguous for PositionSide.BOTH"
    resolve_candles p model stop_price take_profit_price entry_time
        (sort (λ c. c.open_time) candles)

  -- `liquidation_fill`.
  unfoldable pub liquidation_fill : Position → ℤ → ℕ → CostModel → Result Fill
  unfolding exit_fill
  liquidation_fill p reference_price timestamp model = do
    raise_if (leb_ℤ reference_price (pos 0))
        "liquidation reference_price must be a positive Decimal"
    exit_fill p reference_price false timestamp timestamp liquidation model
