-- ===== src/Trading/Execution.antt =====
-- The data of src/atp/execution/engine.py, and its two checks: of the plan of an algorithm and of the broker's account.
pub mod Submit
use text.Mathlib.Text.{◌==◌ as str_eq}
use aitrading.Common.{
  ℕ, ◌+◌, Bool, true, false, not, ◌&&◌, ◌||◌, List, [], ◌∷◌, map, Option, none, some, String,
  if◌then◌else◌, ◌==◌,
}
use aitrading.Common.Dict.{Dict}
use aitrading.Common.Floats.{Floats}
use aitrading.Trading.Broker.{
  Side, buy, sell, OrderType, market, limit, stop, stop_limit, OrderStatus, filled,
  partially_filled, rejected, Instrument, Order, Fill, OrderResult, Position, Account,
}
use aitrading.Trading.Risk.{RiskEngine, RiskDecision, Reason}
use aitrading.Trading.PaperBroker.{PaperBroker}

-- The authority that a boundary grants, with the identity of the object; its broker is the one of the world.
pub record ExecutionAuthority (fl : Floats) : Type 0 where
  pub object : ℕ
  pub risk : RiskEngine fl
  pub plan : Order fl → (adv : Option fl.Float) → (urgency : String) → List (Order fl)
  pub autonomous : Bool

-- A one-shot lease: of the desk for a submission, or of the engine for a send, where it names the authority.
pub record SubmitLease : Type 0 where
  pub task : Option ℕ
  pub order : ℕ
  pub consumed : Bool

pub record SendLease : Type 0 where
  pub authority : ℕ
  pub task : Option ℕ
  pub order : ℕ
  pub consumed : Bool

-- What the guard yields.
pub data Boundary : Type 0 where
  blocked : RiskDecision → Boundary
  granted : (authority : ℕ) → Boundary
  unknown : Boundary

-- The engine: what its guard answers to its n-th call, where one is bound, its authority, and how a reason reads.
pub record ExecutionEngine (fl : Floats) : Type 0 where
  pub order_guard : Option (ℕ → Boundary)
  pub authority : ExecutionAuthority fl
  pub wording : Reason → String

-- The state that calls write to: the broker, with whether it holds the engine's guard, the two leases of the context,
-- and the number of calls of the guard.
pub record World (fl : Floats) : Type 0 where
  pub broker : PaperBroker fl
  pub is_guarded : Bool
  pub submit_lease : Option SubmitLease
  pub send_lease : Option SendLease
  pub guard_calls : ℕ

pub record ExecutionResult (fl : Floats) : Type 0 where
  pub order : Order fl
  pub decision : RiskDecision
  pub result : Option (OrderResult fl)

-- `ExecutionResult.filled`
abbrev pub was_filled : {fl : Floats} → Option (OrderResult fl) → Bool
was_filled none = false
was_filled (some r) = elim r.status [ filled ↦ true | partially_filled ↦ true | _ ↦ false ]

abbrev same_side : Side → Side → Bool
same_side buy buy = true
same_side sell sell = true
same_side _ _ = false

abbrev same_type : OrderType → OrderType → Bool
same_type market market = true
same_type limit limit = true
same_type stop stop = true
same_type stop_limit stop_limit = true
same_type _ _ = false

abbrev same_flag : Bool → Bool → Bool
same_flag true b = b
same_flag false b = not b

abbrev same_option : {A : Type 0} → (A → A → Bool) → Option A → Option A → Bool
same_option eq none none = true
same_option eq (some a) (some b) = eq a b
same_option eq _ _ = false

abbrev pub same_instrument : {fl : Floats} → Instrument fl → Instrument fl → Bool
same_instrument {fl} i j =
    str_eq i.key j.key && fl.equal i.multiplier j.multiplier && i.terms == j.terms

-- A child that keeps every field of its parent but the quantity, which is finite and positive.
abbrev pub is_child : {fl : Floats} → Order fl → Order fl → Bool
is_child {fl} parent child =
    same_instrument child.instrument parent.instrument
    && same_side child.side parent.side
    && same_type child.order_type parent.order_type
    && same_option fl.equal child.limit_price parent.limit_price
    && same_option fl.equal child.stop_price parent.stop_price
    && same_flag child.reduce_only parent.reduce_only
    && same_option str_eq child.client_id parent.client_id
    && fl.is_finite child.quantity
    && not (fl.less_or_equal child.quantity (fl.whole 0))

unfoldable pub all_children : {fl : Floats} → Order fl → List (Order fl) → (total : fl.Float) → Bool
all_children {fl} parent [] total = fl.is_close total parent.quantity 12 9
all_children {fl} parent (child ∷ children) total =
    let rest = all_children parent children (fl.plus total child.quantity) in
    is_child parent child && rest

-- `_children_conserve_parent`
abbrev pub conserves : {fl : Floats} → Order fl → List (Order fl) → Bool
conserves parent [] = false
conserves {fl} parent (child ∷ children) = all_children parent (child ∷ children) (fl.whole 0)

pub record Totals (fl : Floats) : Type 0 where
  pub gross : fl.Float
  pub net : fl.Float
  pub unrealized : fl.Float
  pub current_qty : fl.Float

module _ {fl : Floats} (order : Order fl) where
  abbrev is_valid_position : String → Position fl → Bool
  is_valid_position key p =
      str_eq key p.instrument.key
      && fl.is_finite p.quantity
      && fl.is_finite p.avg_price
      && fl.is_finite p.market_price
      && fl.is_finite p.instrument.multiplier
      && not (fl.less p.avg_price (fl.whole 0))
      && not (fl.less p.market_price (fl.whole 0))
      && not (fl.less_or_equal p.instrument.multiplier (fl.whole 0))
      && (not (str_eq key order.instrument.key) || same_instrument p.instrument order.instrument)

  abbrev counted : String → Position fl → Totals fl → Totals fl
  counted key p t =
      let notional = fl.times (fl.times p.quantity p.market_price) p.instrument.multiplier in
      record {
        gross = fl.plus t.gross (fl.absolute notional);
        net = fl.plus t.net notional;
        unrealized = fl.plus t.unrealized (
            fl.times (fl.times (fl.minus p.market_price p.avg_price) p.quantity)
              p.instrument.multiplier);
        current_qty = if str_eq key order.instrument.key then p.quantity else t.current_qty;
      }

  -- The loop over the positions of the snapshot.
  unfoldable pub totals_over : Dict (Position fl) → Totals fl → Option (Totals fl)
  totals_over [] t = some t
  totals_over ((key, p) ∷ positions) t =
      let rest = totals_over positions (counted key p t) in
      if is_valid_position key p then rest else none

  abbrev is_finite_account : Account fl → Bool
  is_finite_account a =
      fl.is_finite a.cash
      && fl.is_finite a.equity
      && fl.is_finite a.realized_pnl
      && fl.is_finite a.unrealized_pnl
      && fl.is_finite a.gross_exposure
      && fl.is_finite a.net_exposure
      && not (fl.less a.gross_exposure (fl.whole 0))

  abbrev is_consistent_account : Account fl → Totals fl → Bool
  is_consistent_account a t =
      fl.is_close a.gross_exposure t.gross 12 6
      && fl.is_close a.net_exposure t.net 12 6
      && fl.is_close a.unrealized_pnl t.unrealized 12 6
      && fl.is_close a.equity (fl.plus a.cash t.net) 12 6

  abbrev pub checked_totals : Account fl → Option (Totals fl) → Option (Account fl × fl.Float)
  checked_totals a none = none
  checked_totals a (some t) = if is_consistent_account a t then some (a, t.current_qty) else none

  -- `_canonical_paper_account`, of a snapshot of the right types
  unfoldable pub canonical_paper_account : Account fl → Option (Account fl × fl.Float)
  unfolding totals_over
  canonical_paper_account a =
      if is_finite_account a
      then checked_totals a (
          totals_over a.positions (record {
            gross = fl.whole 0;
            net = fl.whole 0;
            unrealized = fl.whole 0;
            current_qty = fl.whole 0;
          }))
      else none

  abbrev fills_of : List (OrderResult fl) → List (Fill fl)
  fills_of [] = []
  fills_of (r ∷ results) =
      let rest = fills_of results in elim r.fill [ none ↦ rest | some f ↦ f ∷ rest ]

  abbrev last_reason : List (OrderResult fl) → String
  last_reason [] = "no fill"
  last_reason (r ∷ []) = r.reason
  last_reason (_ ∷ r ∷ results) = last_reason (r ∷ results)

  abbrev last_ts : List (Fill fl) → ℕ
  last_ts [] = 0
  last_ts (f ∷ []) = f.ts
  last_ts (_ ∷ f ∷ fills) = last_ts (f ∷ fills)

  -- `_aggregate`
  unfoldable pub aggregate : List (OrderResult fl) → OrderResult fl
  aggregate results =
      let fills = fills_of results in
      let total = fl.sum (map (λ (f : Fill fl). f.quantity) fills) in
      if fl.less_or_equal total (fl.whole 0)
      then record { order = order; status = rejected; fill = none; reason = last_reason results }
      else record {
        order = order;
        status =
            if fl.less (fl.absolute (fl.minus total order.quantity)) (fl.decimal_place 9)
            then filled
            else partially_filled;
        fill = some (record {
          instrument = order.instrument;
          side = order.side;
          quantity = total;
          price = fl.over (fl.sum (map (λ (f : Fill fl). fl.times f.price f.quantity) fills)) total;
          commission = fl.sum (map (λ (f : Fill fl). f.commission) fills);
          ts = last_ts fills;
        });
        reason = "";
      }
