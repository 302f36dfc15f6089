-- ===== src/Trading/PaperBroker.antt =====
-- PaperBroker of src/atp/brokers/paper.py, with the impact model of src/atp/execution/impact.py. The lock makes
-- each method one step.
pub mod Place
pub mod Replay
use aitrading.Common.{
  ℕ, Bool, true, false, not, ◌&&◌, ◌||◌, List, [], ◌∷◌, Option, none, some, String, if◌then◌else◌,
}
use aitrading.Common.Dict.{Dict, lookup, insert, contains_key}
use aitrading.Common.Maybe.{◌>>=◌}
use aitrading.Common.Floats.{Floats, max_float, min_float, is_above_zero}
use aitrading.Trading.Broker.{
  Side, buy, sell, OrderType, limit, stop_limit, OrderStatus, new_order, filled, rejected,
  Instrument, Order, Fill, OrderResult, Position, Account, order_quantity,
}

pub record QuoteEvent (fl : Floats) : Type 0 where
  pub instrument : Instrument fl
  pub bid : fl.Float
  pub ask : fl.Float
  pub ts : ℕ

-- `_Pos`
pub record Pos (fl : Floats) : Type 0 where
  pub qty : fl.Float
  pub avg : fl.Float

pub record MarketImpactModel (fl : Floats) : Type 0 where
  pub eta_bps : fl.Float
  pub exponent : fl.Float

-- The cost models that may be plugged in are functions of what they are called with.
pub record PaperBroker (fl : Floats) : Type 0 where
  pub cash : fl.Float
  pub commission_per_unit : fl.Float
  pub min_commission : fl.Float
  pub slippage_bps : fl.Float
  pub impact_model : Option (MarketImpactModel fl)
  pub commission_model : Option ((quantity price multiplier : fl.Float) → fl.Float)
  pub slippage_model :
      Option ((quantity price : fl.Float) → Option fl.Float → (spread_bps : fl.Float) → fl.Float)
  pub positions : Dict (Pos fl)
  pub quotes : Dict (QuoteEvent fl)
  pub instruments : Dict (Instrument fl)
  pub liquidity : Dict fl.Float
  pub realized_pnl : fl.Float
  pub connected : Bool

-- `QuoteEvent.mid`
abbrev pub mid : {fl : Floats} → QuoteEvent fl → fl.Float
mid {fl} q = fl.over (fl.plus q.bid q.ask) (fl.whole 2)

-- `QuoteEvent.spread_bps`
abbrev pub spread_bps : {fl : Floats} → QuoteEvent fl → fl.Float
spread_bps {fl} q =
    if fl.equal (mid q) (fl.whole 0)
    then fl.whole 0
    else fl.times (fl.over (fl.minus q.ask q.bid) (mid q)) (fl.whole 10_000)

-- `impact_bps`, with no volatility
unfoldable pub impact_bps :
    {fl : Floats} → MarketImpactModel fl → (quantity adv : fl.Float) → fl.Float
impact_bps {fl} m quantity adv =
    if fl.less_or_equal adv (fl.whole 0) || fl.less_or_equal quantity (fl.whole 0)
    then fl.whole 0
    else fl.times m.eta_bps (fl.power (fl.over quantity adv) m.exponent)

unfoldable pub connect : {fl : Floats} → PaperBroker fl → PaperBroker fl
connect b = record b { connected = true }

unfoldable pub disconnect : {fl : Floats} → PaperBroker fl → PaperBroker fl
disconnect b = record b { connected = false }

unfoldable pub set_liquidity :
    {fl : Floats} → String → (adv : fl.Float) → PaperBroker fl → PaperBroker fl
set_liquidity key adv b = record b { liquidity = insert key adv b.liquidity }

unfoldable pub credit_cash : {fl : Floats} → fl.Float → PaperBroker fl → PaperBroker fl
credit_cash {fl} amount b = record b { cash = fl.plus b.cash amount }

unfoldable pub adjust_position :
    {fl : Floats}
    → Instrument fl
    → (new_quantity new_avg_price : fl.Float) → PaperBroker fl
    → PaperBroker fl
adjust_position i q avg b = record b {
  instruments = insert i.key i b.instruments;
  positions = insert i.key (record { qty = q; avg = avg }) b.positions;
}

unfoldable pub set_quote : {fl : Floats} → QuoteEvent fl → PaperBroker fl → PaperBroker fl
set_quote q b = record b {
  quotes = insert q.instrument.key q b.quotes;
  instruments = insert q.instrument.key q.instrument b.instruments;
}

abbrev average_or : {fl : Floats} → fl.Float → Option (Pos fl) → fl.Float
average_or d none = d
average_or d (some p) = p.avg

-- `_mark`
unfoldable pub mark : {fl : Floats} → String → PaperBroker fl → fl.Float
mark {fl} key b = elim (lookup key b.quotes) [
  | some q ↦ mid q
  | none ↦ average_or (fl.whole 0) (lookup key b.positions)
]

-- The loop of `_get_positions_locked`; nothing where an instrument is not known, which is a KeyError.
unfoldable pub get_positions_over :
    {fl : Floats} → PaperBroker fl → Dict (Pos fl) → Option (Dict (Position fl))
get_positions_over b [] = some []
get_positions_over {fl} b ((key, p) ∷ rest) =
    let out = get_positions_over b rest in
    if fl.equal p.qty (fl.whole 0) then out else do
      i ← lookup key b.instruments
      positions ← out
      some (
          (
            key,
            record {
              instrument = i;
              quantity = p.qty;
              avg_price = p.avg;
              market_price = mark key b;
            },
          )
          ∷ positions)

-- `get_positions`
unfoldable pub get_positions : {fl : Floats} → PaperBroker fl → Option (Dict (Position fl))
get_positions b = get_positions_over b b.positions

pub record Exposure (fl : Floats) : Type 0 where
  pub unrealized : fl.Float
  pub gross : fl.Float
  pub net : fl.Float

abbrev exposed : {fl : Floats} → (mark multiplier : fl.Float) → Pos fl → Exposure fl → Exposure fl
exposed {fl} price mult p x = record {
  unrealized = fl.plus x.unrealized (fl.times (fl.times (fl.minus price p.avg) p.qty) mult);
  gross = fl.plus x.gross (fl.times (fl.times (fl.absolute p.qty) price) mult);
  net = fl.plus x.net (fl.times (fl.times p.qty price) mult);
}

-- The loop of `_get_account_locked`
unfoldable pub exposure_over :
    {fl : Floats} → PaperBroker fl → Dict (Pos fl) → Exposure fl → Option (Exposure fl)
exposure_over b [] x = some x
exposure_over {fl} b ((key, p) ∷ rest) x =
    if fl.equal p.qty (fl.whole 0) then exposure_over b rest x else do
      i ← lookup key b.instruments
      exposure_over b rest (exposed (mark key b) i.multiplier p x)

-- `get_account`
unfoldable pub get_account : {fl : Floats} → PaperBroker fl → Option (Account fl)
get_account {fl} b = do
  x ←
      exposure_over b b.positions
        (record { unrealized = fl.whole 0; gross = fl.whole 0; net = fl.whole 0 })
  positions ← get_positions b
  some (record {
    cash = b.cash;
    equity = fl.plus b.cash x.net;
    realized_pnl = b.realized_pnl;
    unrealized_pnl = x.unrealized;
    gross_exposure = x.gross;
    net_exposure = x.net;
    positions = positions;
  })
