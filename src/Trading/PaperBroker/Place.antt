-- ===== src/Trading/PaperBroker/Place.antt =====
-- `place_order` of src/atp/brokers/paper.py: the fill of an order at the latest quote, and the books it writes.
use aitrading.Common.{Bool, true, false, not, ◌||◌, Option, none, some, String, if◌then◌else◌}
use aitrading.Common.Dict.{Dict, lookup, insert}
use aitrading.Common.Floats.{Floats, max_float, min_float, is_above_zero}
use aitrading.Trading.Broker.{
  Side, buy, sell, OrderType, limit, stop_limit, OrderStatus, new_order, filled, rejected, Order,
  Fill, OrderResult, order_quantity,
}
use aitrading.Trading.PaperBroker.{
  PaperBroker, QuoteEvent, Pos, MarketImpactModel, impact_bps, spread_bps,
}

-- `_commission`
abbrev pub commission :
    {fl : Floats} → PaperBroker fl → (quantity price multiplier : fl.Float) → fl.Float
commission {fl} b q price mult = elim b.commission_model [
  | some f ↦ f q price mult
  | none ↦ max_float fl b.min_commission (fl.times b.commission_per_unit q)
]

-- The side's own end of the quote.
abbrev pub base_price : {fl : Floats} → Side → QuoteEvent fl → fl.Float
base_price buy q = q.ask
base_price sell q = q.bid

abbrev pub base_cost :
    {fl : Floats} → PaperBroker fl → Order fl → QuoteEvent fl → Option fl.Float → fl.Float
base_cost b o q adv = elim b.slippage_model [
  | some f ↦ f o.quantity (base_price o.side q) adv (spread_bps q)
  | none ↦ b.slippage_bps
]

abbrev pub impact_cost :
    {fl : Floats}
    → Option (MarketImpactModel fl)
    → Option fl.Float
    → (quantity cost : fl.Float) → fl.Float
impact_cost {fl} (some m) (some adv) q cost =
    if fl.equal adv (fl.whole 0) then cost else fl.plus cost (impact_bps m q adv)
impact_cost _ _ q cost = cost

abbrev pub worse : (fl : Floats) → Side → (price by : fl.Float) → fl.Float
worse fl buy price by = fl.plus price by
worse fl sell price by = fl.minus price by

-- `_fill_price`
unfoldable pub fill_price : {fl : Floats} → PaperBroker fl → Order fl → QuoteEvent fl → fl.Float
unfolding impact_bps
fill_price {fl} b o q =
    let base = base_price o.side q in
    let adv = lookup o.instrument.key b.liquidity in
    let cost_bps = impact_cost b.impact_model adv o.quantity (base_cost b o q adv) in
    worse fl o.side base (fl.times base (fl.over cost_bps (fl.whole 10_000)))

-- Not finite, or negative.
abbrev pub is_invalid : (fl : Floats) → fl.Float → Bool
is_invalid fl x = not (fl.is_finite x) || fl.less x (fl.whole 0)

abbrev pub is_limited : OrderType → Bool
is_limited limit = true
is_limited stop_limit = true
is_limited _ = false

-- A limit that the price of the fill is worse than.
abbrev pub is_beyond : (fl : Floats) → Side → (price limit_price : fl.Float) → Bool
is_beyond fl buy price limit_price = fl.less limit_price price
is_beyond fl sell price limit_price = fl.less price limit_price

-- The price that an order fills at, or nothing where it is not marketable; the constructor of an order sees to it
-- that a limit order has a limit.
unfoldable pub marketable : {fl : Floats} → Order fl → (price : fl.Float) → Option fl.Float
marketable {fl} o price = elim o.limit_price [
  | none ↦ some price
  | some l ↦
      if not (is_limited o.order_type)
      then some price
      else if is_beyond fl o.side price l
      then none
      else some l
]

abbrev pub pos_or_flat : {fl : Floats} → Option (Pos fl) → Pos fl
pos_or_flat {fl} none = record { qty = fl.whole 0; avg = fl.whole 0 }
pos_or_flat (some p) = p

abbrev pub pos_of : {fl : Floats} → String → PaperBroker fl → Pos fl
pos_of key b = pos_or_flat (lookup key b.positions)

-- `d.setdefault(key, v)`
abbrev pub set_default : {A : Type 0} → String → A → Dict A → Dict A
set_default key v d = elim (lookup key d) [ some _ ↦ d | none ↦ insert key v d ]

abbrev pub same_bool : Bool → Bool → Bool
same_bool true b = b
same_bool false b = not b

module _ {fl : Floats} where
  -- Opening, or adding in the same direction.
  abbrev pub is_adding : Pos fl → (qd : fl.Float) → Bool
  is_adding p qd =
      fl.equal p.qty (fl.whole 0) || same_bool (is_above_zero fl p.qty) (is_above_zero fl qd)

  -- The position after a fill.
  unfoldable pub moved : Pos fl → (qd price : fl.Float) → Pos fl
  moved p qd price =
      let new_qty = fl.plus p.qty qd in
      if is_adding p qd
      then record {
        qty = new_qty;
        avg =
            fl.over (fl.plus (fl.times p.avg (fl.absolute p.qty)) (fl.times price (fl.absolute qd)))
              (fl.plus (fl.absolute p.qty) (fl.absolute qd));
      }
      else record {
        qty = new_qty;
        avg =
            if fl.equal new_qty (fl.whole 0)
            then fl.whole 0
            else if same_bool (is_above_zero fl new_qty) (is_above_zero fl p.qty)
            then p.avg
            else price;
      }

  -- What a fill realizes: nothing where it opens or adds, else the gain on the closed part less the commission.
  unfoldable pub realized : Pos fl → (qd price mult commission realized : fl.Float) → fl.Float
  realized p qd price mult comm r =
      let closing = min_float fl (fl.absolute p.qty) (fl.absolute qd) in
      let gain = if is_above_zero fl p.qty then fl.minus price p.avg else fl.minus p.avg price in
      if is_adding p qd
      then r
      else fl.plus r (fl.minus (fl.times (fl.times gain closing) mult) comm)

  abbrev pub result_of : Order fl → OrderStatus → String → OrderResult fl
  result_of o status reason = record { order = o; status = status; fill = none; reason = reason }

  abbrev pub paper_fill : Order fl → (price comm : fl.Float) → QuoteEvent fl → Fill fl
  paper_fill o price comm q = record {
    instrument = o.instrument;
    side = o.side;
    quantity = o.quantity;
    price = price;
    commission = comm;
    ts = q.ts;
  }

  -- The books with the instrument and a position for the order.
  abbrev pub with_slot : Order fl → PaperBroker fl → PaperBroker fl
  with_slot o b = record b {
    instruments = set_default o.instrument.key o.instrument b.instruments;
    positions = set_default o.instrument.key (pos_or_flat none) b.positions;
  }

  -- The books after the fill.
  unfoldable pub book : Order fl → (price comm : fl.Float) → PaperBroker fl → PaperBroker fl
  unfolding moved realized
  book o price comm b =
      let qd = order_quantity o in
      let p = pos_of o.instrument.key b in
      let mult = o.instrument.multiplier in
      record b {
        positions = insert o.instrument.key (moved p qd price) b.positions;
        realized_pnl = realized p qd price mult comm b.realized_pnl;
        cash = fl.minus (fl.minus b.cash (fl.times (fl.times price qd) mult)) comm;
      }

  -- The order at a price: what is left of `_place_order_locked`.
  unfoldable pub fill_at :
      Order fl
      → (price : fl.Float) → QuoteEvent fl
      → PaperBroker fl
      → OrderResult fl × PaperBroker fl
  unfolding book
  fill_at o price q b =
      let b' = with_slot o b in
      let comm = commission b' o.quantity price o.instrument.multiplier in
      if is_invalid fl comm then (result_of o rejected "invalid commission", b') else (
        record { order = o; status = filled; fill = some (paper_fill o price comm q); reason = "" },
        book o price comm b',
      )

  abbrev pub fill_if_marketable :
      Order fl → Option fl.Float → QuoteEvent fl → PaperBroker fl → OrderResult fl × PaperBroker fl
  fill_if_marketable o none q b = (result_of o new_order "limit not marketable", b)
  fill_if_marketable o (some price) q b = fill_at o price q b

  unfoldable pub place_at :
      Order fl → Option (QuoteEvent fl) → PaperBroker fl → OrderResult fl × PaperBroker fl
  unfolding fill_price marketable fill_at
  place_at o none b = (result_of o rejected "no market data", b)
  place_at o (some q) b =
      if is_invalid fl q.bid || is_invalid fl q.ask
      then (result_of o rejected "invalid market data", b)
      else if is_invalid fl (fill_price b o q)
      then (result_of o rejected "invalid fill price", b)
      else fill_if_marketable o (marketable o (fill_price b o q)) q b

  -- `_place_order_locked`
  unfoldable pub place_order_locked : Order fl → PaperBroker fl → OrderResult fl × PaperBroker fl
  unfolding place_at
  place_order_locked o b =
      if not b.connected
      then (result_of o rejected "paper broker disconnected", b)
      else if not (fl.is_finite o.quantity) || fl.less_or_equal o.quantity (fl.whole 0)
      then (result_of o rejected "invalid order quantity", b)
      else place_at o (lookup o.instrument.key b.quotes) b
