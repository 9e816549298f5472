-- ===== src/Execution/Normalizer.antt =====
-- execution/normalizer.py `normalize_order` and the `OrderRequest` of types/order.py that it reads.
use trading_system_v.Prelude.{
  inr, inl, Bool-cases, ◌≢◌, ◌⊎◌, String, Bool, false, ◌&&◌, if◌then◌else◌, Option, none, some, ◌≡◌,
  refl, arith,
}
use trading_system_v.Prelude.Int.{ℤ, pos, leb_ℤ, ◌≤ℤ◌, ◌<ℤ◌}
use trading_system_v.Prelude.Result.{Result, ok, err, value_error, ◌>>◌, raise_if}
use trading_system_v.Money.{Float, to_decimal}
use trading_system_v.Types.Enums.{OrderType, OrderSide, MarketType, PositionSide, new}
use trading_system_v.Types.Order
use trading_system_v.Types.Order.{Order}
use trading_system_v.Types.Order.Validation
use text.Mathlib.Text.{◌==◌}
use text.Mathlib.TextEquality.{eq_iff}

pub record OrderRequest : Type 0 where
  pub symbol : String
  pub side : OrderSide
  pub order_type : OrderType
  pub quantity : Float
  pub price : Option Float
  pub stop_price : Option Float
  pub market_type : MarketType
  pub position_side : PositionSide
  pub reduce_only : Bool
  pub close_position : Bool
  pub time_in_force : String

abbrev non_positive : Option Float → Bool
non_positive none = false
non_positive (some x) = leb_ℤ x.digits (pos 0)

-- `OrderRequest.__post_init__`.
unfoldable pub validate_request : OrderRequest → Result (Unit {0})
validate_request r = do
  raise_if (leb_ℤ r.quantity.digits (pos 0)) "quantity must be positive"
  raise_if (non_positive r.price) "price must be positive"
  raise_if (non_positive r.stop_price) "stop_price must be positive"
  raise_if (r.reduce_only && r.close_position)
      "reduce_only and close_position are mutually exclusive"

abbrev optional_decimal : Option Float → Option ℤ
optional_decimal none = none
optional_decimal (some x) = some (to_decimal x)

-- `order_id or default`: an empty text counts as none.
abbrev text_or : Option String → String → String
text_or none default = default
text_or (some t) default = if t == "" then default else t

-- `client_order_id or default`: an id is never empty.
abbrev id_or : Option String → String → String
id_or none default = default
id_or (some t) default = t

-- The keyword arguments of `normalize_order`.
pub record Ids : Type 0 where
  pub order_id : Option String
  pub client_order_id : Option String
  pub wallet_id : Option String
  pub signal_id : Option String

-- An absent float gives no decimal, and a given one its decimal.
abbrev pub IsDecimal : Option Float → Option ℤ → Type 0
IsDecimal none none = Unit {0}
IsDecimal (some x) (some d) = d ≡ to_decimal x
IsDecimal _ _ = ⊥

optional_decimal-IsDecimal : (x : Option Float) → IsDecimal x (optional_decimal x)
optional_decimal-IsDecimal none = tt
optional_decimal-IsDecimal (some x) = refl

-- The given name, or the default where none is given.
abbrev pub Named : Option String → String → String → Type 0
Named none default name = name ≡ default
Named (some given) default name = name ≡ given

id_or-Named : (given : Option String) (default : String) → Named given default (id_or given default)
id_or-Named none default = refl
id_or-Named (some t) default = refl

-- The given name, or the default where none or an empty one is given.
abbrev pub NamedBy : Option String → String → String → Type 0
NamedBy none default name = name ≡ default
NamedBy (some given) default name =
    ((given ≡ "") × (name ≡ default)) ⊎ ((given ≢ "") × (name ≡ given))

cannot_be : (t : String) → t ≡ "" → (t == "") ≡ false → ⊥
cannot_be t e given = let empty = (eq_iff t "").1 e in cc

text_or-NamedBy :
    (given : Option String) (default : String) → NamedBy given default (text_or given default)
text_or-NamedBy none default = refl
text_or-NamedBy (some t) default = elim (Bool-cases (t == "")) [
  | inl empty ↦ inl ((eq_iff t "").0 empty, rw empty refl)
  | inr given ↦ inr (λ e. cannot_be t e given, rw given refl)
]

-- `canonical_id request` is the text of uuid5 over the request's fields.
module _ (canonical_id : OrderRequest → String) where
  abbrev pub normalized : OrderRequest → Ids → Order
  normalized r ids =
      let client_id = id_or ids.client_order_id (canonical_id r) in
      record {
        id = text_or ids.order_id client_id;
        wallet_id = ids.wallet_id;
        signal_id = ids.signal_id;
        order_type = r.order_type;
        side = r.side;
        symbol = r.symbol;
        quantity = to_decimal r.quantity;
        price = optional_decimal r.price;
        filled_quantity = pos 0;
        average_filled_price = none;
        status = new;
        fee = pos 0;
        client_order_id = client_id;
        market_type = r.market_type;
        position_side = r.position_side;
        reduce_only = r.reduce_only;
        close_position = r.close_position;
        stop_price = optional_decimal r.stop_price;
        time_in_force = r.time_in_force;
      }

  -- `normalize_order`.
  unfoldable pub normalize_order : OrderRequest → Ids → Result Order
  normalize_order r ids = Order.post_init (normalized r ids)

  refused :
      (r : OrderRequest) (ids : Ids)
      → to_decimal r.quantity ≤ℤ pos 0
      → Order.post_init (normalized r ids) ≡ err (value_error "quantity must be positive")
  unfolding Order.post_init
  refused r ids h = ground arith

  exclusive :
      (r : OrderRequest) → validate_request r ≡ ok tt → (r.reduce_only && r.close_position) ≡ false
  unfolding validate_request
  exclusive r h = ground arith

  normalized-IsValid :
      (r : OrderRequest) (ids : Ids)
      → validate_request r ≡ ok tt
      → pos 0 <ℤ to_decimal r.quantity
      → Validation.IsValid (normalized r ids)
  normalized-IsValid r ids h positive = record {
    quantity_positive = positive;
    filled_nonneg = omega arith;
    filled_within = omega arith;
    fee_nonneg = omega arith;
    exclusive = exclusive r h;
    average = refl;
    fill = refl;
  }

  -- The order has the fields of the request, the floats as decimals, is new and unfilled, and is
  -- named by the given ids or else by the canonical one.
  pub record IsNormalized (r : OrderRequest) (ids : Ids) (o : Order) : Type 0 where
    pub client_id : Named ids.client_order_id (canonical_id r) o.client_order_id
    pub id : NamedBy ids.order_id o.client_order_id o.id
    pub wallet : o.wallet_id ≡ ids.wallet_id
    pub signal : o.signal_id ≡ ids.signal_id
    pub order_type : o.order_type ≡ r.order_type
    pub side : o.side ≡ r.side
    pub symbol : o.symbol ≡ r.symbol
    pub quantity : o.quantity ≡ to_decimal r.quantity
    pub price : IsDecimal r.price o.price
    pub stop_price : IsDecimal r.stop_price o.stop_price
    pub unfilled : o.filled_quantity ≡ pos 0
    pub no_average : o.average_filled_price ≡ none
    pub status : o.status ≡ new
    pub fee : o.fee ≡ pos 0
    pub market_type : o.market_type ≡ r.market_type
    pub position_side : o.position_side ≡ r.position_side
    pub reduce_only : o.reduce_only ≡ r.reduce_only
    pub close_position : o.close_position ≡ r.close_position
    pub time_in_force : o.time_in_force ≡ r.time_in_force

  normalized-IsNormalized : (r : OrderRequest) (ids : Ids) → IsNormalized r ids (normalized r ids)
  normalized-IsNormalized r ids = record {
    client_id = id_or-Named ids.client_order_id (canonical_id r);
    id = text_or-NamedBy ids.order_id (id_or ids.client_order_id (canonical_id r));
    wallet = refl;
    signal = refl;
    order_type = refl;
    side = refl;
    symbol = refl;
    quantity = refl;
    price = optional_decimal-IsDecimal r.price;
    stop_price = optional_decimal-IsDecimal r.stop_price;
    unfilled = refl;
    no_average = refl;
    status = refl;
    fee = refl;
    market_type = refl;
    position_side = refl;
    reduce_only = refl;
    close_position = refl;
    time_in_force = refl;
  }

  -- A valid request whose quantity does not round to zero becomes a well-formed new order with
  -- each field of the request in its place, floats as decimals, and the given ids or the
  -- canonical one; one whose quantity rounds to zero is refused for its quantity.
  pub normalize_order_lem :
      (r : OrderRequest) (ids : Ids)
      → validate_request r ≡ ok tt
      → (pos 0 <ℤ to_decimal r.quantity
          → (o : Order) × (normalize_order r ids ≡ ok o)
            × IsNormalized r ids o
            × Validation.IsValid o)
        × (to_decimal r.quantity ≤ℤ pos 0
            → normalize_order r ids ≡ err (value_error "quantity must be positive"))
  unfolding normalize_order
  normalize_order_lem r ids valid = (
    λ positive.
        let v = normalized-IsValid r ids valid positive in
        (
          normalized r ids,
          (Validation.order_post_init_iff (normalized r ids)).1 v,
          normalized-IsNormalized r ids,
          v,
        ),
    λ zero. refused r ids zero,
  )
