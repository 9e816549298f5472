-- ===== src/Costs/Liquidation.antt =====
-- services/core-lib/core_lib/costs/liquidation.py. The formulas are over one exact fraction, which is
-- quantized once.
pub mod Levels
use trading_system_v.Prelude.{◌||◌, ◌&&◌, ℕ, suc, ◌*◌, ◌≡◌, ◌<◌, Bool, not, true, false, arith, ltb}
use trading_system_v.Prelude.Int.{ℤ, pos, ◌+ℤ◌, ◌-ℤ◌, ◌*ℤ◌, ltb_ℤ, leb_ℤ, pos_part, max_ℤ}
use trading_system_v.Prelude.Result.{Result, ok, err, value_error, ◌>>=◌, ◌>>◌, raise_if}
use trading_system_v.Money.{Rate, den, scale, quantize}
use trading_system_v.Types.Enums.{PositionSide, long, short, both}
use trading_system_v.Types.Position.{Position}

abbrev pub ambiguous {ℓ} : {A : Type ℓ} → Result A
ambiguous = err (value_error "liquidation direction is ambiguous for PositionSide.BOTH")

-- entry * (1 - 1 / leverage + mmr) for a long, entry * (1 + 1 / leverage - mmr) for a short.
side_price : ℤ → ℕ → Rate → PositionSide → Result ℤ
side_price entry leverage mmr long = ok (
    quantize (entry *ℤ (pos (leverage * den mmr) -ℤ pos (den mmr) +ℤ pos leverage *ℤ mmr.num))
      (leverage * den mmr))
side_price entry leverage mmr short = ok (
    quantize (entry *ℤ (pos (leverage * den mmr) +ℤ pos (den mmr) -ℤ pos leverage *ℤ mmr.num))
      (leverage * den mmr))
side_price entry leverage mmr both = ambiguous

-- `price`.
unfoldable pub price : ℤ → ℕ → Rate → PositionSide → Result ℤ
unfolding side_price
price entry leverage mmr side = do
  raise_if (leb_ℤ entry (pos 0)) "entry must be positive"
  raise_if (not (ltb 0 leverage)) "leverage must be positive"
  raise_if (not (leb_ℤ (pos 0) mmr.num && ltb_ℤ mmr.num (pos (den mmr))))
      "mmr must be between zero and one"
  side_price entry leverage mmr side

-- The comparison of `is_triggered`.
triggered : PositionSide → ℤ → ℤ → Result Bool
triggered long level market_price = ok (leb_ℤ market_price level)
triggered short level market_price = ok (leb_ℤ level market_price)
triggered both level market_price = ambiguous

-- `is_triggered`.
unfoldable pub is_triggered : Position → ℤ → Result Bool
unfolding triggered
is_triggered p market_price = triggered p.side p.liquidation_price market_price

-- entry * (1 - margin / notional + mmr), over notional * den mmr, where the notional is
-- quantity * entry in units of 1e-16; the result is not below zero.
margin_price : Position → Rate → PositionSide → Result ℤ
margin_price p mmr long =
    let n = p.quantity *ℤ p.entry_price in
    let m = p.margin *ℤ pos scale in
    ok (
      quantize
        (max_ℤ (pos 0)
          (p.entry_price *ℤ (n *ℤ pos (den mmr) -ℤ m *ℤ pos (den mmr) +ℤ n *ℤ mmr.num)))
        (pos_part n * den mmr))
margin_price p mmr short =
    let n = p.quantity *ℤ p.entry_price in
    let m = p.margin *ℤ pos scale in
    ok (
      quantize
        (max_ℤ (pos 0)
          (p.entry_price *ℤ (n *ℤ pos (den mmr) +ℤ m *ℤ pos (den mmr) -ℤ n *ℤ mmr.num)))
        (pos_part n * den mmr))
margin_price p mmr both = ambiguous

-- `price_from_margin`.
unfoldable pub price_from_margin : Position → Rate → Result ℤ
unfolding margin_price
price_from_margin p mmr = do
  raise_if (not (leb_ℤ (pos 0) mmr.num && ltb_ℤ mmr.num (pos (den mmr))))
      "mmr must be between zero and one"
  raise_if (leb_ℤ p.quantity (pos 0) || leb_ℤ p.entry_price (pos 0)) "an open position is required"
  raise_if (ltb_ℤ p.margin (pos 0)) "isolated margin must not be negative"
  margin_price p mmr p.side
