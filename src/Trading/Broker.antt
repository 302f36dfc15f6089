-- ===== src/Trading/Broker.antt =====
-- The data of src/atp/brokers/base.py, with the instrument of src/atp/core/events.py and the enumerations of
-- src/atp/core/enums.py.
use aitrading.Common.{ℕ, Bool, true, false, Option, String}
use aitrading.Common.Dict.{Dict}
use aitrading.Common.Floats.{Floats}

pub data Side : Type 0 where
  buy sell : Side

pub data OrderType : Type 0 where
  market limit stop stop_limit : OrderType

pub data OrderStatus : Type 0 where
  new_order filled partially_filled rejected cancelled : OrderStatus

-- An instrument with the key that its fields spell, and its other fields as one object.
pub record Instrument (fl : Floats) : Type 0 where
  pub key : String
  pub multiplier : fl.Float
  pub terms : ℕ

-- `Side.sign`
abbrev pub sign : (fl : Floats) → Side → fl.Float
sign fl buy = fl.whole 1
sign fl sell = fl.negative (fl.whole 1)

-- An order, with the identity of the object.
pub record Order (fl : Floats) : Type 0 where
  pub object : ℕ
  pub instrument : Instrument fl
  pub side : Side
  pub quantity : fl.Float
  pub order_type : OrderType
  pub limit_price : Option fl.Float
  pub stop_price : Option fl.Float
  pub reduce_only : Bool
  pub client_id : Option String

-- `Order.signed_quantity`
abbrev pub order_quantity : {fl : Floats} → Order fl → fl.Float
order_quantity {fl} o = fl.times (sign fl o.side) o.quantity

pub record Fill (fl : Floats) : Type 0 where
  pub instrument : Instrument fl
  pub side : Side
  pub quantity : fl.Float
  pub price : fl.Float
  pub commission : fl.Float
  pub ts : ℕ

pub record OrderResult (fl : Floats) : Type 0 where
  pub order : Order fl
  pub status : OrderStatus
  pub fill : Option (Fill fl)
  pub reason : String

-- `OrderResult.filled`
abbrev pub is_filled : OrderStatus → Bool
is_filled filled = true
is_filled partially_filled = true
is_filled _ = false

pub record Position (fl : Floats) : Type 0 where
  pub instrument : Instrument fl
  pub quantity : fl.Float
  pub avg_price : fl.Float
  pub market_price : fl.Float

-- `Position.notional`
abbrev pub notional : {fl : Floats} → Position fl → fl.Float
notional {fl} p =
    fl.times (fl.times (fl.absolute p.quantity) p.market_price) p.instrument.multiplier

pub record Account (fl : Floats) : Type 0 where
  pub cash : fl.Float
  pub equity : fl.Float
  pub realized_pnl : fl.Float
  pub unrealized_pnl : fl.Float
  pub gross_exposure : fl.Float
  pub net_exposure : fl.Float
  pub positions : Dict (Position fl)
