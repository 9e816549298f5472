-- ===== src/Engine/Liquidated.antt =====
-- engine.py `_settle_at_boundary`: what a settlement can come to, and the liquidation after a charge.
use trading_system_v.Engine.Charged.{IsDue, Exhausts, Charge}
use trading_system_v.Prelude.{◌↔◌}
use trading_system_v.Engine.Run.{IsRun, apply_fill-IsRun}
use trading_system_v.Prelude.{
  ℕ, suc, ◌≡◌, ◌≢◌, ◌∙◌, refl, sym, ap, subst, Bool, true, false, none, some,
}
use trading_system_v.Prelude.Int.{ℤ, ◌+ℤ◌}
use trading_system_v.Prelude.Result.{Result, ok}
use trading_system_v.Prelude.Exec.{step_ok}
use trading_system_v.Types.Enums.{both}
use trading_system_v.Types.Position.{Position}
use trading_system_v.Types.Fill.{Fill}
use trading_system_v.Costs.Model.{CostModel}
use trading_system_v.Types.Enums.{liquidation}
use trading_system_v.Prelude.{◌+◌, [], ◌∷◌}
use mathlib.Core.List.{◌++◌}
use trading_system_v.Engine.{action_decision}
use trading_system_v.Execution.Protection.{liquidation_fill}
use trading_system_v.Execution.Protection.Exits.{IsExit, liquidation_fill-IsExit}
use trading_system_v.Engine.{RunConfig, Environment, ActiveTrade, Engine, current_position}
use trading_system_v.Engine.Fills.{apply_fill}
use trading_system_v.Engine.Ledger.{realized_pnl}
use trading_system_v.Engine.Funding.{liquidate, after_charge}

-- The engine that has recorded the decision to liquidate the position.
abbrev pub decided : Environment → ℕ → Position → Engine → Engine
decided environment boundary q e = record e {
  sequence = record e.sequence { decision = suc e.sequence.decision };
  evidence =
      e.evidence
      ++ action_decision (suc e.sequence.decision) none boundary "exit" q.side
          (environment.float_of q.quantity) (some (boundary + 1000))
        ∷ [];
}

module _ (environment : Environment) (config : RunConfig) (model : CostModel) where
  -- A settlement found nothing due and changed nothing; or it charged the position, and its ledger
  -- has the same total; or the charge took the whole margin, and the engine then applied the fill
  -- that liquidates the position, whose PnL the total then has on top.
  pub data SettledRun (boundary : ℕ) (e : Engine) (total : ℤ) (e' : Engine) : Type 0 where
    idle :
        e' ≡ e
        → ((p : Position) (a : ActiveTrade) → IsDue config boundary e p a → ⊥)
        → IsRun config e' total
        → SettledRun boundary e total e'
    charged :
        (cost : ℤ) (c : Charge environment config model boundary e e' cost)
        → (Exhausts c.before cost → ⊥)
        → IsRun config e' total
        → SettledRun boundary e total e'
    liquidated :
        (mid : Engine) (cost : ℤ) (c : Charge environment config model boundary e mid cost)
        (fill : Fill)
        → Exhausts c.before cost
        → IsRun config mid total
        → IsExit c.after (boundary + 1000) liquidation c.price.0 fill
        → apply_fill config model fill
            (some (suc mid.sequence.decision))
            none
            none
            (decided environment boundary c.after mid)
          ≡ (ok tt, e')
        → IsRun config e' (total +ℤ realized_pnl config mid fill)
        → SettledRun boundary e total e'

  pub same_pnl :
      (boundary : ℕ) (q : Position) (e : Engine) (fill : Fill)
      → realized_pnl config (decided environment boundary q e) fill ≡ realized_pnl config e fill
  unfolding realized_pnl current_position
  same_pnl boundary q e fill = refl

  decided-IsRun :
      (boundary : ℕ) (q : Position) (e : Engine) (total : ℤ)
      → IsRun config e total
      → IsRun config (decided environment boundary q e) total
  unfolding current_position
  decided-IsRun boundary q e total run = record {
    sound = run.sound;
    keyed = run.keyed;
    cash_nonneg = run.cash_nonneg;
    balanced = record {
      position = run.balanced.position;
      held = run.balanced.held;
      sum = run.balanced.sum;
    };
  }

  liquidated_run :
      (boundary : ℕ) (e mid e' : Engine) (u : Unit {0}) (total cost : ℤ)
      (c : Charge environment config model boundary e mid cost)
      → c.after.symbol ≡ config.symbol
      → c.after.side ≢ both
      → Exhausts c.before cost
      → IsRun config mid total
      → liquidate environment config model c.after c.price.0 boundary mid ≡ (ok u, e')
      → SettledRun boundary e total e'
  unfolding liquidate
  liquidated_run boundary e mid e' u total cost c symbol direction spent run h =
      let (fill, made, h1) =
        step_ok (liquidation_fill environment.exit_id c.after c.price.0 (boundary + 1000) model) _ _
          h in
      let x =
        liquidation_fill-IsExit environment.exit_id c.after c.price.0 (boundary + 1000) model fill
          made in
      let d = decided environment boundary c.after mid in
      liquidated mid cost c fill spent run x h1 (
        subst (λ n. IsRun config e' (total +ℤ n)) (same_pnl boundary c.after mid fill)
          (apply_fill-IsRun config model fill (some (suc mid.sequence.decision)) none none d e' u
            total x.valid (x.symbol ∙ symbol) (λ k. direction (sym x.position_side ∙ k))
            (decided-IsRun boundary c.after mid total run) h1))

  pub after_run :
      (spent : Bool) (boundary : ℕ) (e mid e' : Engine) (u : Unit {0}) (total cost : ℤ)
      (c : Charge environment config model boundary e mid cost)
      → c.after.symbol ≡ config.symbol
      → c.after.side ≢ both
      → (spent ≡ true) ↔ Exhausts c.before cost
      → IsRun config mid total
      → after_charge environment config model spent c.after c.price.0 boundary mid ≡ (ok u, e')
      → SettledRun boundary e total e'
  unfolding after_charge
  after_run true boundary e mid e' u total cost c symbol direction test run h =
      liquidated_run boundary e mid e' u total cost c symbol direction (test.0 refl) run h
  after_run false boundary e mid e' u total cost c symbol direction test run h =
      subst (SettledRun boundary e total) (ap (λ (x : Result (Unit {0}) × Engine). x.1) h)
        (charged cost c (λ k. let true_there = test.1 k in cc) run)
