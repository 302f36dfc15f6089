-- ===== src/Runtime/Orders/ExactlyOnce.antt =====
-- What a run of `place` of src/atp/runtime/orders.py leaves behind, from an empty database and a broker that
-- has executed nothing.
use aitrading.Common.{ℕ, ◌≤◌, Bool, List, [], Option, none, some, String, ◌≡◌, refl, arith}
use aitrading.Common.Int.{ℤ}
use aitrading.Runtime.OrderStore.{OrderState, filled, OrderRow, Broker, Ledger, PlaceRequest}
use aitrading.Runtime.Orders.Invariant.{fills_for, Accounted, IsConsistent, StateAccounted}
use aitrading.Runtime.Orders.Restarts.{place_all, place_all-IsConsistent}

-- The database of a new installation.
unfoldable pub opened : (b : Broker) → b.State → (now : ℕ) → Ledger b.State
opened b s now = record {
  orders = λ _. none;
  by_key = λ _. none;
  fills = [];
  positions = [];
  clock = now;
  drawn = 0;
  broker = s;
}

opened-IsConsistent :
    (b : Broker) (s : b.State) (now : ℕ)
    → ((c : ℕ) → b.executions c s ≡ 0)
    → IsConsistent b (opened b s now)
unfolding opened Accounted fills_for
opened-IsConsistent b s now untouched = record {
  accounted = λ c. (untouched c, refl);
  indexed = λ c o e. ground arith;
  keyed = λ key c e. ground arith;
  fresh = λ c h. refl;
}

accounts_of_state :
    (st : OrderState) (e n : ℕ)
    → StateAccounted st e n
    → (e ≤ 1) × (n ≤ e) × (st ≡ filled → (e ≡ 1) × (n ≡ 1))
unfolding StateAccounted
accounts_of_state st e n a = ground arith

accounts_of :
    (row : Option OrderRow) (e n : ℕ)
    → Accounted row e n
    → (e ≤ 1) × (n ≤ e) × ((o : OrderRow) → row ≡ some o → o.state ≡ filled → (e ≡ 1) × (n ≡ 1))
unfolding Accounted StateAccounted
accounts_of none e n (x, y) = (ground arith, ground arith, λ o p s. ground arith)
accounts_of (some r) e n a =
    let (once, executed, exact) = accounts_of_state r.state e n a in
    (once, executed, λ o p s. exact (ground arith))

-- The tables after a run of calls of `place` on a new installation.
abbrev pub ended :
    (b : Broker) (divide : ℤ → ℤ → ℤ)
    → List (PlaceRequest × (Bool × String) × ℕ)
    → b.State
    → (now : ℕ) → Ledger b.State
ended b divide calls s now = place_all b divide calls (opened b s now)

pub ended-IsConsistent :
    (b : Broker) (divide : ℤ → ℤ → ℤ) (calls : List (PlaceRequest × (Bool × String) × ℕ))
    (s : b.State) (now : ℕ)
    → ((d : ℕ) → b.executions d s ≡ 0)
    → IsConsistent b (ended b divide calls s now)
ended-IsConsistent b divide calls s now untouched =
    place_all-IsConsistent b divide calls (opened b s now) (opened-IsConsistent b s now untouched)

-- From an empty database and a broker that has executed nothing, over any calls of `place` made one
-- after the other, each of which may die between any two effects: the broker executes an order at most once, and records of
-- fills never outnumber executions.
pub executed_at_most_once :
    (b : Broker) (divide : ℤ → ℤ → ℤ) (calls : List (PlaceRequest × (Bool × String) × ℕ))
    (s : b.State) (now c : ℕ)
    → ((d : ℕ) → b.executions d s ≡ 0)
    → let w = ended b divide calls s now in
      (b.executions c w.broker ≤ 1) × (fills_for c w.fills ≤ b.executions c w.broker)
executed_at_most_once b divide calls s now c untouched =
    let wf = ended-IsConsistent b divide calls s now untouched in
    let (once, executed, _) = accounts_of _ _ _ (wf.accounted c) in (once, executed)

-- From an empty database and a broker that has executed nothing, over any calls of `place` made one
-- after the other, each of which may die between any two effects: an order that is stored as FILLED has been executed exactly
-- once and has exactly one fill.
pub filled_exactly_once :
    (b : Broker) (divide : ℤ → ℤ → ℤ) (calls : List (PlaceRequest × (Bool × String) × ℕ))
    (s : b.State) (now c : ℕ) (o : OrderRow)
    → ((d : ℕ) → b.executions d s ≡ 0)
    → (ended b divide calls s now).orders c ≡ some o
    → o.state ≡ filled
    → let w = ended b divide calls s now in
      (b.executions c w.broker ≡ 1) × (fills_for c w.fills ≡ 1)
filled_exactly_once b divide calls s now c o untouched found st =
    let wf = ended-IsConsistent b divide calls s now untouched in
    let (_, _, exact) = accounts_of _ _ _ (wf.accounted c) in exact o found st

-- From an empty database and a broker that has executed nothing, and over any calls of `place` made one
-- after the other, each of which may die between any two effects: two orders with the same idempotency key are the same order.
pub one_order_per_key :
    (b : Broker) (divide : ℤ → ℤ → ℤ) (calls : List (PlaceRequest × (Bool × String) × ℕ))
    (s : b.State) (now c d : ℕ) (o p : OrderRow)
    → ((e : ℕ) → b.executions e s ≡ 0)
    → (ended b divide calls s now).orders c ≡ some o
    → (ended b divide calls s now).orders d ≡ some p
    → o.idempotency_key ≡ p.idempotency_key
    → c ≡ d
one_order_per_key b divide calls s now c d o p untouched found_o found_p same =
    let wf = ended-IsConsistent b divide calls s now untouched in
    grind (arith, wf.indexed c o found_o, wf.indexed d p found_p, same)
