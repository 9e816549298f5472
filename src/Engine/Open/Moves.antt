-- ===== src/Engine/Open/Moves.antt =====
-- engine.py: what moves the accounts of a run, and by how much their total.
use trading_system_v.Engine.Run.{IsRun, apply_fill-IsRun}
use trading_system_v.Prelude.{ℕ, String, Option, List, [], ◌∷◌, ◌≡◌, ◌≢◌, ◌∙◌, refl, sym, ap, subst}
use trading_system_v.Prelude.Int.{ℤ, pos, ◌+ℤ◌}
use trading_system_v.Prelude.Result.{Result, ok}
use trading_system_v.Prelude.Exec.{step_ok}
use trading_system_v.Types.Enums.{PositionSide, both}
use trading_system_v.Types.Fill.{Fill}
use trading_system_v.Types.Signal.{TradingSignal}
use trading_system_v.Costs.Model.{CostModel}
use trading_system_v.Engine.{Environment, RunConfig, Engine, current_position}
use trading_system_v.Engine.Fills.{apply_fill}
use trading_system_v.Engine.{one_position}
use trading_system_v.Prelude.Int.{◌≤ℤ◌}
use trading_system_v.Types.Enums.{long, short}
use trading_system_v.Execution.Book.{Book, get}
use trading_system_v.Execution.Book.Holdings.{IsSound}
use trading_system_v.Execution.Book.Keyed.{IsKeyed}
use trading_system_v.Engine.Entries.{costs_of}
use trading_system_v.Engine.Ledger.{realized_pnl}
use trading_system_v.Engine.Funding.{settle_at_boundary}
use trading_system_v.Engine.Settled.{settle-SettledRun}
use trading_system_v.Engine.Liquidated.{idle, charged, liquidated, decided, same_pnl}
use trading_system_v.Engine.Charged.{Charge}
use trading_system_v.Prelude.Int.{int_laws, eq_of_parts}
use trading_system_v.Engine.Open.{settle_all}
use trading_system_v.Engine.Open.Filled.{IsFor}

-- The accounts are the same in both.
pub IsRun-same :
    (config : RunConfig) (e e' : Engine) (total : ℤ)
    → e'.book ≡ e.book
    → e'.cash ≡ e.cash
    → costs_of e'.active_trade ≡ costs_of e.active_trade
    → e'.trades ≡ e.trades
    → IsRun config e total
    → IsRun config e' total
unfolding current_position get
IsRun-same config e e' total book cash costs trades run = record {
  sound = subst IsSound (sym book) run.sound;
  keyed = subst IsKeyed (sym book) run.keyed;
  cash_nonneg = subst (λ x. pos 0 ≤ℤ x) (sym cash) run.cash_nonneg;
  balanced = record {
    position = run.balanced.position;
    held =
        ap (λ (b : Book). one_position (b config.symbol long) (b config.symbol short)) book
        ∙ run.balanced.held;
    sum = cc;
  };
}

-- Nothing that the accounts count differs.
pub record IsSame (e e' : Engine) : Type 0 where
  pub book : e'.book ≡ e.book
  pub cash : e'.cash ≡ e.cash
  pub costs : costs_of e'.active_trade ≡ costs_of e.active_trade
  pub trades : e'.trades ≡ e.trades

sum_assoc : (a b c : ℤ) → (a +ℤ b) +ℤ c ≡ a +ℤ (b +ℤ c)
sum_assoc a b c = eq_of_parts _ _ (omega int_laws)

sum_none : (a : ℤ) → a +ℤ pos 0 ≡ a
sum_none a = eq_of_parts _ _ (omega int_laws)

liquidated_sum : (n : ℤ) → pos 0 +ℤ (pos 0 +ℤ n) ≡ n
liquidated_sum n = eq_of_parts _ _ (omega int_laws)

module _ (environment : Environment) (config : RunConfig) (model : CostModel) where
  -- What moves the accounts from one engine to another, and the sum of the PnL that its fills
  -- realize: nothing, the charge of a due boundary, or a fill that the engine applies.
  pub data Moves : Engine → Engine → ℤ → Type 0 where
    same : {e e' : Engine} → IsSame e e' → Moves e e' (pos 0)
    charge :
        {e e' : Engine} (boundary : ℕ) (cost : ℤ)
        → Charge environment config model boundary e e' cost
        → Moves e e' (pos 0)
    applied :
        {e e' : Engine} (fill : Fill) (d : Option ℕ) (signal : Option TradingSignal) (c : Option ℕ)
        → apply_fill config model fill d signal c e ≡ (ok tt, e')
        → Moves e e' (realized_pnl config e fill)
    chain : {e mid e' : Engine} {n k : ℤ} → Moves e mid n → Moves mid e' k → Moves e e' (n +ℤ k)

  -- The accounts moved, and their total with them by the PnL that was realized.
  pub record Advances (e : Engine) (total : ℤ) (e' : Engine) : Type 0 where
    pub pnl : ℤ
    pub moves : Moves e e' pnl
    pub run : IsRun config e' (total +ℤ pnl)

  pub stays : (e e' : Engine) (total : ℤ) → IsSame e e' → IsRun config e total → Advances e total e'
  stays e e' total x run = record {
    pnl = pos 0;
    moves = same x;
    run =
        subst (IsRun config e') (sym (sum_none total))
          (IsRun-same config e e' total x.book x.cash x.costs x.trades run);
  }

  pub returns :
      (e e' : Engine) (u : Unit {0}) (total : ℤ)
      → IsRun config e total
      → ◌≡◌ {A = Result (Unit {0}) × Engine} (ok tt, e) (ok u, e')
      → Advances e total e'
  returns e e' u total run h =
      subst (Advances e total) (ap (λ (x : Result (Unit {0}) × Engine). x.1) h)
        (stays e e total (record { book = refl; cash = refl; costs = refl; trades = refl }) run)

  pub onward :
      (e mid e' : Engine) (total : ℤ) (x : Advances e total mid)
      → Advances mid (total +ℤ x.pnl) e'
      → Advances e total e'
  onward e mid e' total x y = record {
    pnl = x.pnl +ℤ y.pnl;
    moves = chain x.moves y.moves;
    run = subst (IsRun config e') (sum_assoc total x.pnl y.pnl) y.run;
  }

  pub settle-Advances :
      (boundary : ℕ) (e e' : Engine) (u : Unit {0}) (total : ℤ)
      → IsRun config e total
      → settle_at_boundary environment config model boundary e ≡ (ok u, e')
      → Advances e total e'
  settle-Advances boundary e e' u total ready h =
      elim (settle-SettledRun environment config model boundary e e' u total ready h) [
        | idle alike nothing run ↦ subst (Advances e total) (sym alike) (
            stays e e total (record { book = refl; cash = refl; costs = refl; trades = refl })
              ready)
        | charged cost c left run ↦ record {
          pnl = pos 0;
          moves = charge boundary cost c;
          run = subst (IsRun config e') (sym (sum_none total)) run;
        }
        | liquidated mid cost c fill spent before exit call run ↦ record {
          pnl = _;
          moves = chain (charge boundary cost c) (
              chain
                (same {e' = decided environment boundary c.after mid}
                  (record { book = refl; cash = refl; costs = refl; trades = refl }))
                (applied fill _ _ _ call));
          run =
              subst (λ n. IsRun config e' (total +ℤ n))
                (sym (same_pnl environment config model boundary c.after mid fill)
                  ∙ sym (liquidated_sum _))
                run;
        }
      ]

  pub settle_all-Advances :
      (boundaries : List ℕ) (e e' : Engine) (u : Unit {0}) (total : ℤ)
      → IsRun config e total
      → settle_all environment config model boundaries e ≡ (ok u, e')
      → Advances e total e'
  unfolding settle_all
  settle_all-Advances [] e e' u total run h = returns e e' u total run h
  settle_all-Advances (boundary ∷ rest) e e' u total run h =
      let s = settle_at_boundary environment config model boundary e in
      let (v, done, h1) = step_ok s.0 s.1 _ h in
      let x = settle-Advances boundary e s.1 v total run (λ i. (done i, s.1)) in
      onward e s.1 e' total x (settle_all-Advances rest s.1 e' u (total +ℤ x.pnl) x.run h1)

  fill-Advances :
      (fill : Fill) (symbol : String) (side : PositionSide) (d : Option ℕ)
      (signal : Option TradingSignal) (c : Option ℕ) (e e' : Engine) (u : Unit {0}) (total : ℤ)
      → IsFor symbol side fill
      → symbol ≡ config.symbol
      → side ≢ both
      → IsRun config e total
      → apply_fill config model fill d signal c e ≡ (ok u, e')
      → Advances e total e'
  fill-Advances fill symbol side d signal c e e' u total own s directed run h = record {
    pnl = realized_pnl config e fill;
    moves = applied fill d signal c h;
    run =
        apply_fill-IsRun config model fill d signal c e e' u total own.valid (own.symbol_of ∙ s)
          (λ k. directed (sym own.side_of ∙ k)) run h;
  }

  -- A fill that is applied to an engine of the same accounts.
  pub fill-onward :
      (fill : Fill) (symbol : String) (side : PositionSide) (d : Option ℕ)
      (signal : Option TradingSignal) (c : Option ℕ) (e mid e' : Engine) (u : Unit {0}) (total : ℤ)
      → IsFor symbol side fill
      → symbol ≡ config.symbol
      → side ≢ both
      → IsSame e mid
      → IsRun config e total
      → apply_fill config model fill d signal c mid ≡ (ok u, e')
      → Advances e total e'
  fill-onward fill symbol side d signal c e mid e' u total own s directed alike run h =
      let x = stays e mid total alike run in
      onward e mid e' total x
        (fill-Advances fill symbol side d signal c mid e' u (total +ℤ x.pnl) own s directed x.run h)
