-- ===== src/Types/Enums.antt =====
-- services/core-lib/core_lib/types/enums.py.
use trading_system_v.Prelude.{Bool, true, false, [], ◌∷◌, any}

pub data OrderType : Type 0 where
  market limit stop_market take_profit_market trailing_stop_market : OrderType

pub data OrderSide : Type 0 where
  buy sell : OrderSide

pub data OrderStatus : Type 0 where
  new partially_filled pending_cancel filled cancelled expired rejected failed : OrderStatus

pub data PositionSide : Type 0 where
  long short both : PositionSide

pub data MarginType : Type 0 where
  cross isolated : MarginType

pub data MarketType : Type 0 where
  spot futures : MarketType

pub data ExitReason : Type 0 where
  stop_loss take_profit trailing_stop liquidation signal_exit reversal data_gap end_of_data :
      ExitReason

-- `a is b` on two members of the enum.
abbrev pub status_eq : OrderStatus → OrderStatus → Bool
status_eq new new = true
status_eq partially_filled partially_filled = true
status_eq pending_cancel pending_cancel = true
status_eq filled filled = true
status_eq cancelled cancelled = true
status_eq expired expired = true
status_eq rejected rejected = true
status_eq failed failed = true
status_eq _ _ = false

abbrev pub side_eq : PositionSide → PositionSide → Bool
side_eq long long = true
side_eq short short = true
side_eq both both = true
side_eq _ _ = false

abbrev pub is_long : PositionSide → Bool
is_long side = side_eq side long

-- `OrderStatus.is_terminal`.
unfoldable pub is_terminal : OrderStatus → Bool
is_terminal s = any (status_eq s) (filled ∷ cancelled ∷ expired ∷ rejected ∷ failed ∷ [])

-- `OrderStatus.is_active`.
unfoldable pub is_active : OrderStatus → Bool
is_active s = any (status_eq s) (new ∷ partially_filled ∷ pending_cancel ∷ [])
