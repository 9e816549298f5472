-- ===== src/Types/Fill.antt =====
-- services/core-lib/core_lib/types/fill.py.
use trading_system_v.Prelude.{ℕ, String, ◌≡◌, Bool, not, ◌||◌, Option, arith}
use trading_system_v.Prelude.Int.{ℤ, pos, ltb_ℤ, leb_ℤ, ◌≤ℤ◌, ◌<ℤ◌}
use trading_system_v.Prelude.Result.{Result, ok, ◌>>◌, raise_if}
use trading_system_v.Types.Enums.{OrderSide, PositionSide, ExitReason}
use text.Mathlib.Text.{◌==◌}

-- The timestamp counts microseconds of UTC.
pub record Fill : Type 0 where
  pub order_id : String
  pub symbol : String
  pub side : OrderSide
  pub position_side : PositionSide
  pub reference_price : ℤ
  pub price : ℤ
  pub quantity : ℤ
  pub fee : ℤ
  pub slippage : ℤ
  pub liquidity : String
  pub timestamp : ℕ
  pub reduce_only : Bool
  pub exit_reason : Option ExitReason
  pub gap_filled : Bool
  pub qty_truncated : Bool

-- `__post_init__`.
unfoldable pub post_init : Fill → Result Fill
post_init f = do
  raise_if (f.order_id == "") "order_id must not be empty"
  raise_if (leb_ℤ f.reference_price (pos 0) || leb_ℤ f.price (pos 0)) "fill prices must be positive"
  raise_if (leb_ℤ f.quantity (pos 0)) "fill quantity must be positive"
  raise_if (ltb_ℤ f.fee (pos 0) || ltb_ℤ f.slippage (pos 0)) "fee and slippage must be non-negative"
  raise_if (not (f.liquidity == "maker" || f.liquidity == "taker"))
      "liquidity must be 'maker' or 'taker'"
  ok f

-- The amounts of a well-formed fill.
pub record IsValid (f : Fill) : Type 0 where
  pub reference_positive : pos 0 <ℤ f.reference_price
  pub price_positive : pos 0 <ℤ f.price
  pub quantity_positive : pos 0 <ℤ f.quantity
  pub fee_nonneg : pos 0 ≤ℤ f.fee
  pub slippage_nonneg : pos 0 ≤ℤ f.slippage

pub post_init-IsValid : (f g : Fill) → post_init f ≡ ok g → (g ≡ f) × IsValid g
unfolding post_init
post_init-IsValid f g h = (
  ground arith,
  record {
    reference_positive = ground arith;
    price_positive = ground arith;
    quantity_positive = ground arith;
    fee_nonneg = ground arith;
    slippage_nonneg = ground arith;
  },
)
