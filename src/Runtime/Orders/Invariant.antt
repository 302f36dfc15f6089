-- ===== src/Runtime/Orders/Invariant.antt =====
-- The relation between the order rows, the fills and what the broker has executed, which every
-- transaction of src/atp/runtime/orders.py keeps.
use aitrading.Common.{
  ℕ, zero, suc, ◌+◌, ◌≤◌, true, ◌||◌, List, [], ◌∷◌, ◌++◌, Option, none, some, String, ◌≡◌, ◌≢◌,
  refl, sym, subst, if◌then◌else◌, ◌==◌, ==_iff, Bool-cases, arith, ◌⊎◌, inl, inr,
}
use aitrading.Runtime.Positions.{FillRow, PositionRow, apply_fill_to_position}
use aitrading.Common.Dict.{Dict, lookup, insert}
use text.Mathlib.TextEquality.{eq_iff}
use aitrading.Common.Int.{ℤ}
use aitrading.Runtime.OrderStore.{
  OrderState, intent, authorized, rejected, filled, OrderRow, Broker, Ledger, put, put_key,
  or_zero_position, stored_position, insert_order_intent, update_order_state, apply_fill_atomic,
  PlaceRequest, intent_row, is_some,
}
use aitrading.Runtime.Orders.{broker_fill}

-- How many fills belong to an order.
unfoldable pub fills_for : ℕ → List FillRow → ℕ
fills_for c [] = 0
fills_for c (f ∷ fills) = (if f.client_order_id == c then 1 else 0) + fills_for c fills

unfoldable pub StateAccounted : OrderState → (executions fills : ℕ) → Type 0
StateAccounted filled e n = (e ≡ 1) × (n ≡ 1)
StateAccounted authorized e n = (e ≤ 1) × (n ≡ 0)
StateAccounted _ e n = (e ≡ 0) × (n ≡ 0)

-- What the state of an order says of the executions of the broker and of the fills.
unfoldable pub Accounted : Option OrderRow → (executions fills : ℕ) → Type 0
unfolding StateAccounted
Accounted none e n = (e ≡ 0) × (n ≡ 0)
Accounted (some o) e n = StateAccounted o.state e n

pub record IsConsistent (b : Broker) (w : Ledger b.State) : Type 0 where
  -- Each order is executed and filled as its state says.
  pub accounted : (c : ℕ) → Accounted (w.orders c) (b.executions c w.broker) (fills_for c w.fills)
  -- A row stands under its primary key, and the index has it under its idempotency key.
  pub indexed :
      (c : ℕ) (o : OrderRow)
      → w.orders c ≡ some o
      → (o.client_order_id ≡ c) × (w.by_key o.idempotency_key ≡ some c)
  -- The index names rows that exist.
  pub keyed : (key : String) (c : ℕ) → w.by_key key ≡ some c → is_some (w.orders c) ≡ true
  -- Identifiers not drawn yet are unused.
  pub fresh : (c : ℕ) → w.drawn ≤ c → w.orders c ≡ none

fills_for-++ :
    (c : ℕ) (fs : List FillRow) (f : FillRow)
    → fills_for c (fs ++ f ∷ []) ≡ (if f.client_order_id == c then 1 else 0) + fills_for c fs
unfolding fills_for
fills_for-++ c [] f = refl
fills_for-++ c (g ∷ fs) f = omega (arith, fills_for-++ c fs f)

-- The account of a row at a key, when the row is known.
pub account_at :
    (b : Broker) (w : Ledger b.State)
    → IsConsistent b w
    → (c : ℕ) (o : OrderRow) (st : OrderState) → w.orders c ≡ some o
    → o.state ≡ st
    → StateAccounted st (b.executions c w.broker) (fills_for c w.fills)
unfolding Accounted
account_at b w wf c o st e s =
    subst (λ t. StateAccounted t (b.executions c w.broker) (fills_for c w.fills)) s
      (subst (λ r. Accounted r (b.executions c w.broker) (fills_for c w.fills)) e (wf.accounted c))

account_of :
    (row : Option OrderRow) (o : OrderRow) (st : OrderState) (e n : ℕ)
    → row ≡ some o
    → o.state ≡ st
    → StateAccounted st e n
    → Accounted row e n
unfolding Accounted
account_of row o st e n p s a =
    subst (λ r. Accounted r e n) (sym p) (subst (λ t. StateAccounted t e n) (sym s) a)

zero_or_one : (n : ℕ) → n ≤ 1 → (n ≡ 0) ⊎ (n ≡ 1)
zero_or_one n h = ground arith

-- A statement of every number, from the statement at one and at every other.
pub everywhere : {P : ℕ → Type 0} (c : ℕ) → P c → ((d : ℕ) → c ≢ d → P d) → (d : ℕ) → P d
everywhere {P} c here other d = elim (Bool-cases (c == d)) [
  | inl same ↦ subst P ((==_iff c d).0 same) here
  | inr differs ↦ other d (ground arith)
]

pub put_here : (f : ℕ → Option OrderRow) (c : ℕ) (r : Option OrderRow) → put f c r c ≡ r
put_here f c r = ground arith

pub put_other :
    (f : ℕ → Option OrderRow) (c d : ℕ) (r : Option OrderRow) → c ≢ d → put f c r d ≡ f d
put_other f c d r h = ground arith

pub executed_once :
    (b : Broker) (c : ℕ) (s : b.State) → b.executions c s ≤ 1 → b.executions c (b.submit c s).1 ≡ 1
executed_once b c s h = elim (zero_or_one (b.executions c s) h) [
  | inl z ↦ b.submit_first c s z
  | inr o ↦ b.submit_again c s o
]

pub broker_fill-IsConsistent :
    (b : Broker) (c : ℕ) (o : OrderRow) (k : ℕ) (w : Ledger b.State)
    → IsConsistent b w
    → w.orders c ≡ some o
    → o.state ≡ authorized
    → IsConsistent b (broker_fill b c k w).2
unfolding broker_fill StateAccounted
broker_fill-IsConsistent b c o zero w wf e s = wf
broker_fill-IsConsistent b c o (suc k) w wf e s = record {
  accounted = λ d.
      everywhere
        {P = λ d.
          Accounted (w.orders d) (b.executions d (b.submit c w.broker).1) (fills_for d w.fills)}
        c
        (account_of (w.orders c) o authorized _ _ e s (
          let (le, none_yet) = account_at b w wf c o authorized e s in
          (omega (arith, executed_once b c w.broker le), none_yet)))
        (λ d ne.
          subst (λ n. Accounted (w.orders d) n (fills_for d w.fills))
            (sym (b.submit_other c d w.broker ne)) (wf.accounted d))
        d;
  indexed = wf.indexed;
  keyed = wf.keyed;
  fresh = wf.fresh;
}

-- A row rewritten in place: its identifiers stay, and its account is the one of its new state.
rewritten :
    (b : Broker) (w : Ledger b.State) (c : ℕ) (o o' : OrderRow) (fills : List FillRow)
    (positions : Dict PositionRow)
    → IsConsistent b w
    → w.orders c ≡ some o
    → o'.client_order_id ≡ o.client_order_id
    → o'.idempotency_key ≡ o.idempotency_key
    → StateAccounted o'.state (b.executions c w.broker) (fills_for c fills)
    → ((d : ℕ) → c ≢ d → fills_for d fills ≡ fills_for d w.fills)
    → IsConsistent b
        (record w { orders = put w.orders c (some o'); fills = fills; positions = positions })
unfolding Accounted
rewritten b w c o o' fills positions wf e same_id same_key account others = record {
  accounted =
      everywhere
        {P = λ d.
          Accounted (put w.orders c (some o') d) (b.executions d w.broker) (fills_for d fills)}
        c
        (subst (λ r. Accounted r (b.executions c w.broker) (fills_for c fills))
          (sym (put_here w.orders c (some o'))) account)
        (λ d ne.
          subst (λ r. Accounted r (b.executions d w.broker) (fills_for d fills))
            (sym (put_other w.orders c d (some o') ne))
            (subst (λ n. Accounted (w.orders d) (b.executions d w.broker) n) (sym (others d ne))
              (wf.accounted d)));
  indexed = λ d x h. ground (arith, wf.indexed c o e, wf.indexed d x, ==_iff c d);
  keyed = λ key d h. ground (arith, wf.keyed key d h, ==_iff c d);
  fresh = λ d h. ground (arith, wf.fresh d h, ==_iff c d, e);
}

pub inserted :
    (b : Broker) (r : PlaceRequest) (c : ℕ) (w : Ledger b.State)
    → IsConsistent b w
    → suc c ≤ w.drawn
    → w.orders c ≡ none
    → w.by_key r.idempotency_key ≡ none
    → IsConsistent b (record w {
      orders = put w.orders c (some (intent_row r c w.clock));
      by_key = put_key w.by_key r.idempotency_key c;
    })
unfolding Accounted StateAccounted
inserted b r c w wf h absent unkeyed = record {
  accounted =
      everywhere
        {P = λ d.
          Accounted (put w.orders c (some (intent_row r c w.clock)) d) (b.executions d w.broker)
            (fills_for d w.fills)}
        c
        (subst (λ x. Accounted x (b.executions c w.broker) (fills_for c w.fills))
          (sym (put_here w.orders c (some (intent_row r c w.clock))))
          (subst (λ x. Accounted x (b.executions c w.broker) (fills_for c w.fills)) absent
            (wf.accounted c)))
        (λ d ne.
          subst (λ x. Accounted x (b.executions d w.broker) (fills_for d w.fills))
            (sym (put_other w.orders c d (some (intent_row r c w.clock)) ne)) (wf.accounted d));
  indexed = λ d x e. ground (
    arith,
    wf.indexed d x,
    ==_iff c d,
    eq_iff r.idempotency_key x.idempotency_key,
    eq_iff r.idempotency_key r.idempotency_key,
  );
  keyed = λ key d e. ground (arith, wf.keyed key d, ==_iff c d);
  fresh = λ d e. ground (arith, wf.fresh d e, ==_iff c d);
}

pub insert_order_intent-IsConsistent :
    (b : Broker) (r : PlaceRequest) (c k : ℕ) (w : Ledger b.State)
    → IsConsistent b w
    → suc c ≤ w.drawn
    → IsConsistent b (insert_order_intent r c k w).2
unfolding insert_order_intent
insert_order_intent-IsConsistent b r c zero w wf h = wf
insert_order_intent-IsConsistent b r c (suc k) w wf h =
    elim (Bool-cases (is_some (w.orders c) || is_some (w.by_key r.idempotency_key))) [
      | inl taken ↦ rw taken wf
      | inr new ↦ rw new (inserted b r c w wf h (ground arith) (ground arith))
    ]

authorized_or_rejected :
    (st : OrderState) (e n : ℕ)
    → (st ≡ authorized) ⊎ (st ≡ rejected)
    → StateAccounted intent e n
    → StateAccounted st e n
unfolding StateAccounted
authorized_or_rejected st e n (inl p) (x, y) =
    subst (λ t. StateAccounted t e n) (sym p) (omega (arith, x), y)
authorized_or_rejected st e n (inr p) (x, y) = subst (λ t. StateAccounted t e n) (sym p) (x, y)

pub update_order_state-IsConsistent :
    (b : Broker) (c k : ℕ) (o : OrderRow) (st : OrderState) (reason : String) (w : Ledger b.State)
    → IsConsistent b w
    → w.orders c ≡ some o
    → o.state ≡ intent
    → (st ≡ authorized) ⊎ (st ≡ rejected)
    → IsConsistent b (update_order_state c st reason k w).2
unfolding update_order_state StateAccounted
update_order_state-IsConsistent b c zero o st reason w wf e s t = wf
update_order_state-IsConsistent b c (suc k) o st reason w wf e s t = rw e (
    rewritten b w c o (record o { state = st; reason = some reason; updated_at = w.clock }) w.fills
      w.positions wf e refl refl
      (authorized_or_rejected st _ _ t (account_at b w wf c o intent e s)) (λ d ne. refl))

pub apply_fill_atomic-IsConsistent :
    (b : Broker) (divide : ℤ → ℤ → ℤ) (f : FillRow) (bid : String) (k : ℕ) (o : OrderRow)
    (w : Ledger b.State)
    → IsConsistent b w
    → w.orders f.client_order_id ≡ some o
    → o.state ≡ authorized
    → b.executions f.client_order_id w.broker ≡ 1
    → IsConsistent b (apply_fill_atomic divide f bid k w).2
unfolding apply_fill_atomic StateAccounted
apply_fill_atomic-IsConsistent b divide f bid zero o w wf e s x = wf
apply_fill_atomic-IsConsistent b divide f bid (suc k) o w wf e s x =
    let c = f.client_order_id in
    let current = or_zero_position f.instrument w.clock (lookup f.instrument w.positions) in
    let (le, none_filled) = account_at b w wf c o authorized e s in
    rw e (
      rewritten b w c o
        (record o { state = filled; broker_order_id = some bid; updated_at = w.clock })
        (w.fills ++ f ∷ [])
        (insert f.instrument
          (stored_position (apply_fill_to_position divide w.clock (some current) f)) w.positions)
        wf e refl refl (x, ground (arith, fills_for-++ c w.fills f, none_filled))
        (λ d ne. ground (arith, fills_for-++ d w.fills f, ne)))
