-- ===== src/Costs/Liquidation/Levels.antt =====
-- Where the liquidation price of a new position lies, and the level of a position with its margin.
use trading_system_v.Prelude.{refl, ◌≢◌, ℕ, ◌*◌, ◌≡◌, ◌<◌, arith, subst}
use trading_system_v.Prelude.Int.{
  ℤ, pos, ◌+ℤ◌, ◌-ℤ◌, ◌*ℤ◌, ◌≤ℤ◌, ◌<ℤ◌, int_laws, *ℤ_comm, *ℤ-mono_right,
}
use trading_system_v.Prelude.Result.{ok}
use trading_system_v.Money.{Rate, den, quantize}
use trading_system_v.Money.Rounding.{quantize_nonneg, quantize-mono_num, quantize-whole}
use trading_system_v.Types.Enums.{long, short}
use trading_system_v.Costs.Liquidation.{
  both, PositionSide, Position, margin_price, price_from_margin, price,
}

-- entry * x / d, below or above the entry as x is below or above d.
below_entry : (e x : ℤ) (d : ℕ) → 0 < d → pos 0 ≤ℤ e → x ≤ℤ pos d → quantize (e *ℤ x) d ≤ℤ e
below_entry e x d hd he h =
    subst (λ t. quantize (e *ℤ x) d ≤ℤ t) (quantize-whole e d hd)
      (quantize-mono_num (e *ℤ x) (e *ℤ pos d) d hd
        (rw (*ℤ_comm e x, *ℤ_comm e (pos d)) (*ℤ-mono_right x (pos d) e he h)))

above_entry : (e x : ℤ) (d : ℕ) → 0 < d → pos 0 ≤ℤ e → pos d ≤ℤ x → e ≤ℤ quantize (e *ℤ x) d
above_entry e x d hd he h =
    subst (λ t. t ≤ℤ quantize (e *ℤ x) d) (quantize-whole e d hd)
      (quantize-mono_num (e *ℤ pos d) (e *ℤ x) d hd
        (rw (*ℤ_comm e x, *ℤ_comm e (pos d)) (*ℤ-mono_right (pos d) x e he h)))

module _ (entry : ℤ) (leverage : ℕ) (mmr : Rate) (entry_positive : pos 0 <ℤ entry)
    (mmr_nonneg : pos 0 ≤ℤ mmr.num) where
  -- For a positive entry and leverage, and a maintenance rate that is not negative, below one
  -- and at most one over the leverage, both sides have a liquidation price: a long's is at or
  -- below its entry, a short's at or above it.
  pub price_sides :
      0 < leverage
      → (pos leverage *ℤ mmr.num) ≤ℤ pos (den mmr)
      → mmr.num <ℤ pos (den mmr)
      → (l s : ℤ) × (price entry leverage mmr long ≡ ok l)
        × (price entry leverage mmr short ≡ ok s)
        × (l ≤ℤ entry)
        × (entry ≤ℤ s)
  unfolding price
  price_sides hl margin small = (
    quantize (entry *ℤ (pos (leverage * den mmr) -ℤ pos (den mmr) +ℤ pos leverage *ℤ mmr.num))
        (leverage * den mmr),
    quantize (entry *ℤ (pos (leverage * den mmr) +ℤ pos (den mmr) -ℤ pos leverage *ℤ mmr.num))
        (leverage * den mmr),
    ground arith,
    ground arith,
    below_entry entry _ (leverage * den mmr) (omega arith) (omega arith) (omega int_laws),
    above_entry entry _ (leverage * den mmr) (omega arith) (omega arith) (omega int_laws),
  )

margin_price_exists :
    (p : Position) (mmr : Rate) (side : PositionSide)
    → side ≢ both
    → (level : ℤ) × (margin_price p mmr side ≡ ok level) × (pos 0 ≤ℤ level)
unfolding margin_price
margin_price_exists p mmr long h = (_, refl, quantize_nonneg _ _ (ground arith))
margin_price_exists p mmr short h = (_, refl, quantize_nonneg _ _ (ground arith))
margin_price_exists p mmr both h = absurd (h refl)

-- An open isolated position has a liquidation level, and it is not below zero.
pub price_from_margin_exists :
    (p : Position) (mmr : Rate)
    → pos 0 ≤ℤ mmr.num
    → mmr.num <ℤ pos (den mmr)
    → pos 0 <ℤ p.quantity
    → pos 0 <ℤ p.entry_price
    → pos 0 ≤ℤ p.margin
    → p.side ≢ both
    → (level : ℤ) × (price_from_margin p mmr ≡ ok level) × (pos 0 ≤ℤ level)
unfolding price_from_margin
price_from_margin_exists p mmr a b c d e f =
    let (level, h, k) = margin_price_exists p mmr p.side f in (level, ground arith, k)
