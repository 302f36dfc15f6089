-- ===== src/Trading/Reconciler.antt =====
-- src/atp/brokers/reconcile.py: the desk's view of its account against the broker's, and the halt on a break.
pub mod Agreement
use aitrading.Common.{
  Bool, true, false, not, ◌&&◌, List, [], ◌∷◌, Option, none, some, String, if◌then◌else◌, ◌≡◌, refl,
  sym, ap, ◌∙◌, subst, ◌↔◌, inl, inr, Bool-cases, arith,
}
use aitrading.Common.Dict.{Dict, lookup, insert}
use aitrading.Common.SortedKeys.{insert_keys, All, All-lookup, everywhere-All}
use aitrading.Common.Floats.{Floats}
use aitrading.Trading.Risk.{RiskEngine, Proposal, force_halt}
use aitrading.Trading.Risk.Check.{check_order, is_reducing}
use aitrading.Trading.Risk.Latch.{RiskCall, call_all, is_new_day, has_none, halted_stays}

-- A break of a position or of an order by its key, or of an amount.
pub record ReconciliationBreak (fl : Floats) : Type 0 where
  pub key : String
  pub internal : fl.Float
  pub broker : fl.Float

-- The desk's view of its account.
pub record InternalState (fl : Floats) : Type 0 where
  pub positions : Dict fl.Float
  pub cash : Option fl.Float
  pub realized_pnl : Option fl.Float
  pub open_orders : Dict fl.Float

-- An open order as the broker lists it; a buy has an action that starts with B, in upper case.
pub record OpenOrder (fl : Floats) : Type 0 where
  pub instrument_key : String
  pub quantity : fl.Float
  pub is_buy : Bool

-- What the broker shows: the signed quantities of its positions and, where it lists them, its open orders.
pub record BrokerView (fl : Floats) : Type 0 where
  pub positions : Dict fl.Float
  pub cash : fl.Float
  pub realized_pnl : fl.Float
  pub open_orders : Option (List (OpenOrder fl))

pub record FullReconciliationReport (fl : Floats) : Type 0 where
  pub position_breaks : List (ReconciliationBreak fl)
  pub cash_break : Option (ReconciliationBreak fl)
  pub pnl_break : Option (ReconciliationBreak fl)
  pub order_breaks : List (ReconciliationBreak fl)

module _ (fl : Floats) where
  abbrev pub or_zero : Option fl.Float → fl.Float
  or_zero none = fl.whole 0
  or_zero (some q) = q

  -- `d.get(key, 0.0)`
  abbrev pub quantity_at : String → Dict fl.Float → fl.Float
  quantity_at key book = or_zero (lookup key book)

  abbrev pub is_apart : (tol internal broker : fl.Float) → Bool
  is_apart tol a b = fl.less tol (fl.absolute (fl.minus b a))

  abbrev pub is_off_at : (tol : fl.Float) → (internal broker : Dict fl.Float) → String → Bool
  is_off_at tol internal broker key =
      is_apart tol (quantity_at key internal) (quantity_at key broker)

  pub breaks_over :
      (tol : fl.Float)
      → (internal broker : Dict fl.Float) → List String
      → List (ReconciliationBreak fl)
  breaks_over tol internal broker [] = []
  breaks_over tol internal broker (key ∷ keys) =
      let rest = breaks_over tol internal broker keys in
      if is_off_at tol internal broker key
      then record {
        key = key;
        internal = quantity_at key internal;
        broker = quantity_at key broker;
      }
        ∷ rest
      else rest

  -- `diff_positions`: its breaks, sorted by their keys. The order of those of the open orders, which the source takes
  -- from a set, is the same here.
  unfoldable pub diff_positions :
      (tol : fl.Float) → (internal broker : Dict fl.Float) → List (ReconciliationBreak fl)
  unfolding breaks_over
  diff_positions tol internal broker =
      breaks_over tol internal broker (insert_keys internal (insert_keys broker []))

  abbrev pub amount_break :
      (name : String)
      → (tol : fl.Float) → Option fl.Float
      → fl.Float
      → Option (ReconciliationBreak fl)
  amount_break name tol none b = none
  amount_break name tol (some a) b =
      if is_apart tol a b then some (record { key = name; internal = a; broker = b }) else none

  -- The signed quantities of the open orders by key, a later order in the place of an earlier one.
  unfoldable pub signed_orders : (seen : Dict fl.Float) → List (OpenOrder fl) → Dict fl.Float
  signed_orders seen [] = seen
  signed_orders seen (o ∷ orders) =
      signed_orders
        (insert o.instrument_key (if o.is_buy then o.quantity else fl.negative o.quantity) seen)
        orders

  abbrev pub order_breaks_of :
      (tol : fl.Float)
      → Dict fl.Float
      → Option (List (OpenOrder fl))
      → List (ReconciliationBreak fl)
  order_breaks_of tol [] orders = []
  order_breaks_of tol (o ∷ internal) none = []
  order_breaks_of tol (o ∷ internal) (some orders) =
      diff_positions tol (o ∷ internal) (signed_orders [] orders)

  -- `reconcile_full`
  unfoldable pub reconcile_full :
      (tol cash_tol : fl.Float) → InternalState fl → BrokerView fl → FullReconciliationReport fl
  unfolding diff_positions
  reconcile_full tol cash_tol s b = record {
    position_breaks = diff_positions tol s.positions b.positions;
    cash_break = amount_break "cash" cash_tol s.cash b.cash;
    pnl_break = amount_break "realized_pnl" cash_tol s.realized_pnl b.realized_pnl;
    order_breaks = order_breaks_of tol s.open_orders b.open_orders;
  }

  abbrev pub has_no_breaks : List (ReconciliationBreak fl) → Bool
  has_no_breaks [] = true
  has_no_breaks (_ ∷ _) = false

  abbrev pub has_no_break : Option (ReconciliationBreak fl) → Bool
  has_no_break none = true
  has_no_break (some _) = false

  -- `is_consistent`
  abbrev pub is_consistent_report : FullReconciliationReport fl → Bool
  is_consistent_report r =
      has_no_breaks r.position_breaks
      && has_no_break r.cash_break
      && has_no_break r.pnl_break
      && has_no_breaks r.order_breaks

  -- `Reconciler.run`, with a risk engine; `wording` is the text of the report.
  unfoldable pub run :
      (wording : List (ReconciliationBreak fl) → String)
      → (tol : fl.Float) → (internal broker : Dict fl.Float) → RiskEngine fl
      → List (ReconciliationBreak fl) × RiskEngine fl
  unfolding diff_positions force_halt
  run wording tol internal broker e =
      let breaks = diff_positions tol internal broker in
      (breaks, if has_no_breaks breaks then e else force_halt (wording breaks) e)

  -- `Reconciler.run_full`
  unfoldable pub run_full :
      (wording : FullReconciliationReport fl → String)
      → (tol cash_tol : fl.Float) → InternalState fl
      → BrokerView fl
      → RiskEngine fl
      → FullReconciliationReport fl × RiskEngine fl
  unfolding reconcile_full force_halt
  run_full wording tol cash_tol s b e =
      let report = reconcile_full tol cash_tol s b in
      (report, if is_consistent_report report then e else force_halt (wording report) e)

  abbrev pub is_off_amount : (tol : fl.Float) → Option fl.Float → fl.Float → Bool
  is_off_amount tol none b = false
  is_off_amount tol (some a) b = is_apart tol a b

  abbrev pub has_no_orders : Dict fl.Float → Bool
  has_no_orders [] = true
  has_no_orders (_ ∷ _) = false

  -- The desk's view and the broker's are the same within the tolerances: the quantity of every key whatever, the cash and
  -- the realized amount where the desk tracks them, and the open orders where the desk has any and the broker lists
  -- them.
  pub record IsAgreed (tol cash_tol : fl.Float) (s : InternalState fl) (b : BrokerView fl)
      : Type 0 where
    pub positions_agree : (key : String) → is_off_at tol s.positions b.positions key ≡ false
    pub cash_agrees : is_off_amount cash_tol s.cash b.cash ≡ false
    pub pnl_agrees : is_off_amount cash_tol s.realized_pnl b.realized_pnl ≡ false
    pub orders_agree :
        (orders : List (OpenOrder fl))
        → has_no_orders s.open_orders ≡ false
        → b.open_orders ≡ some orders
        → (key : String) → is_off_at tol s.open_orders (signed_orders [] orders) key ≡ false
