-- ===== src/Runtime/OrderStore.antt =====
-- The order, fill and position tables of src/atp/store/base.py, and the transactions on them. A process
-- may die between any two effects: an action is given the number of effects (a committed
-- transaction, or a call of the broker) that it lives to make.
use aitrading.Common.{
  ℕ, zero, suc, ◌+◌, Bool, true, false, ◌||◌, List, [], ◌∷◌, ◌++◌, Option, none, some, String, ◌≡◌,
  ◌≢◌, if◌then◌else◌, ◌==◌,
}
use text.Mathlib.Text.{◌==◌ as str_eq}
use aitrading.Common.Int.{ℤ, pos, ◌*ℤ◌}
use aitrading.Paper.Money.{half_even}
use aitrading.Common.Dict.{Dict, lookup, insert}
use aitrading.Runtime.Positions.{Side, FillRow, PositionRow, unit, apply_fill_to_position}

pub data OrderState : Type 0 where
  intent authorized rejected submitted filled cancelled : OrderState

pub record OrderRow : Type 0 where
  pub client_order_id : ℕ
  pub idempotency_key : String
  pub instrument : String
  pub side : Side
  pub quantity : ℤ
  pub order_type : String
  pub state : OrderState
  pub broker_order_id : Option String
  pub correlation_id : String
  pub reason : Option String
  pub created_at : ℕ
  pub updated_at : ℕ

-- What `fill(client_order_id)` returns.
pub record Ack : Type 0 where
  pub broker_order_id : String
  pub price : ℤ
  pub commission : Option ℤ
  pub filled_qty : Option ℤ

-- The broker behind the callback `fill`. It is not part of these files; what they rely on is that a
-- submission is keyed by the client order id, so that submitting again executes nothing more.
pub record Broker : Type 1 where
  pub State : Type 0
  pub submit : ℕ → State → Ack × State
  pub executions : ℕ → State → ℕ
  pub submit_first : (c : ℕ) (s : State) → executions c s ≡ 0 → executions c (submit c s).1 ≡ 1
  pub submit_again : (c : ℕ) (s : State) → executions c s ≡ 1 → executions c (submit c s).1 ≡ 1
  pub submit_other : (c d : ℕ) (s : State) → c ≢ d → executions d (submit c s).1 ≡ executions d s

-- The tables, each a function of its key: `orders` of its primary key, with its UNIQUE index on the
-- idempotency key; beside them the clock, the identifiers drawn so far and the broker.
pub record Ledger (S : Type 0) : Type 0 where
  pub orders : ℕ → Option OrderRow
  pub by_key : String → Option ℕ
  pub fills : List FillRow
  pub positions : Dict PositionRow
  pub clock : ℕ
  pub drawn : ℕ
  pub broker : S

pub data Failure : Type 0 where
  -- IntegrityError of the database, and AttributeError on a missing row
  integrity_error attribute_error : Failure

pub data Outcome {ℓ} (A : Type ℓ) : Type ℓ where
  returned : A → Outcome A
  failed : Failure → Outcome A
  crashed : Outcome A

abbrev pub Action : Type 0 → Type 0 → Type 0
Action S A = ℕ → Ledger S → Outcome A × ℕ × Ledger S

abbrev pub pure : {S A : Type 0} → A → Action S A
pure a k w = (returned a, k, w)

abbrev pub reads : {S A : Type 0} → (Ledger S → A) → Action S A
reads f k w = (returned (f w), k, w)

abbrev pub or_attribute_error : {S A : Type 0} → Option A → Action S A
or_attribute_error none k w = (failed attribute_error, k, w)
or_attribute_error (some a) k w = (returned a, k, w)

-- One effect, which the process may not live to make.
abbrev pub effect : {S A : Type 0} → (Ledger S → Outcome A × Ledger S) → Action S A
effect f zero w = (crashed, 0, w)
effect f (suc k) w = let (r, w') = f w in (r, k, w')

-- What follows a result: an exception and the death of the process end the action.
abbrev pub continue :
    {S A B : Type 0} → (A → Action S B) → Outcome A × ℕ × Ledger S → Outcome B × ℕ × Ledger S
continue f (returned a, k, w) = f a k w
continue f (failed e, k, w) = (failed e, k, w)
continue f (crashed, k, w) = (crashed, k, w)

infixl 5 ◌>>=◌ ◌>>◌
abbrev pub ◌>>=◌ : {S A B : Type 0} → Action S A → (A → Action S B) → Action S B
◌>>=◌ m f k w = continue f (m k w)

abbrev pub ◌>>◌ : {S B : Type 0} → Action S (Unit {0}) → Action S B → Action S B
m >> k = m >>= λ _. k

abbrev pub new_id : {S : Type 0} → Action S ℕ
new_id k w = (returned w.drawn, k, record w { drawn = w.drawn + 1 })

-- `get_order_by_idempotency`
abbrev pub find_by_idempotency : {S : Type 0} → String → Ledger S → Option OrderRow
find_by_idempotency key w = elim (w.by_key key) [ none ↦ none | some c ↦ w.orders c ]

-- A read of a row that the code goes on to use.
abbrev pub get_order : {S : Type 0} → ℕ → Action S OrderRow
get_order c k w = or_attribute_error (w.orders c) k w

abbrev pub put : (ℕ → Option OrderRow) → ℕ → Option OrderRow → ℕ → Option OrderRow
put orders c row d = if c == d then row else orders d

abbrev pub put_key : (String → Option ℕ) → String → ℕ → String → Option ℕ
put_key by_key key c j = if str_eq key j then some c else by_key j

pub record PlaceRequest : Type 0 where
  pub idempotency_key : String
  pub instrument : String
  pub side : Side
  pub quantity : ℤ
  pub order_type : String
  pub correlation_id : String

abbrev pub is_some {ℓ} : {A : Type ℓ} → Option A → Bool
is_some none = false
is_some (some _) = true

abbrev pub intent_row : PlaceRequest → ℕ → ℕ → OrderRow
intent_row r c now = record {
  client_order_id = c;
  idempotency_key = r.idempotency_key;
  instrument = r.instrument;
  side = r.side;
  quantity = r.quantity;
  order_type = r.order_type;
  state = intent;
  broker_order_id = none;
  correlation_id = r.correlation_id;
  reason = none;
  created_at = now;
  updated_at = now;
}

abbrev pub with_state : OrderState → Option String → ℕ → Option OrderRow → Option OrderRow
with_state st reason now none = none
with_state st reason now (some o) =
    some (record o { state = st; reason = reason; updated_at = now })

abbrev pub with_fill : String → ℕ → Option OrderRow → Option OrderRow
with_fill broker_id now none = none
with_fill broker_id now (some o) =
    some (record o { state = filled; broker_order_id = some broker_id; updated_at = now })

abbrev pub or_default : Option ℤ → ℤ → ℤ
or_default none d = d
or_default (some x) d = x

-- A position row of zeroes, inserted where the instrument has none.
abbrev pub zero_position : String → ℕ → PositionRow
zero_position instrument now = record {
  instrument = instrument;
  quantity = pos 0;
  avg_price = pos 0;
  realized_pnl = pos 0;
  updated_at = now;
}

abbrev pub or_zero_position : String → ℕ → Option PositionRow → PositionRow
or_zero_position instrument now none = zero_position instrument now
or_zero_position instrument now (some p) = p

-- `order.state in TERMINAL or order.state == "SUBMITTED"`
abbrev pub is_handled : OrderState → Bool
is_handled intent = false
is_handled authorized = false
is_handled _ = true

abbrev pub is_intent : OrderState → Bool
is_intent intent = true
is_intent _ = false

abbrev pub is_authorized : OrderState → Bool
is_authorized authorized = true
is_authorized _ = false

-- `insert_order_intent`: the primary key and the UNIQUE index both refuse a second row.
unfoldable pub insert_order_intent : {S : Type 0} → PlaceRequest → ℕ → Action S (Unit {0})
insert_order_intent r c = effect (λ w.
    if is_some (w.orders c) || is_some (w.by_key r.idempotency_key)
    then (failed integrity_error, w)
    else (
      returned tt,
      record w {
        orders = put w.orders c (some (intent_row r c w.clock));
        by_key = put_key w.by_key r.idempotency_key c;
      },
    ))

-- `update_order_state`, with no broker order id
unfoldable pub update_order_state :
    {S : Type 0} → ℕ → OrderState → (reason : String) → Action S (Unit {0})
update_order_state c st reason = effect (λ w. (
  returned tt,
  record w { orders = put w.orders c (with_state st (some reason) w.clock (w.orders c)) },
))

-- A position as `_m` of the SQLite store keeps it: the realized P&L rounded to 8 decimals, half to even. The average
-- price is a whole number of units of 10^-8 already.
abbrev pub stored_position : PositionRow → PositionRow
stored_position p = record p { realized_pnl = half_even p.realized_pnl 100000000 *ℤ unit }

-- `apply_fill_atomic`, its `compute` the fold of the fill into the position
unfoldable pub apply_fill_atomic :
    {S : Type 0} → (divide : ℤ → ℤ → ℤ) → FillRow → (broker_order_id : String) → Action S (Unit {0})
apply_fill_atomic divide f broker_id = effect (λ w.
    let current = or_zero_position f.instrument w.clock (lookup f.instrument w.positions) in
    (
      returned tt,
      record w {
        fills = w.fills ++ f ∷ [];
        positions =
            insert f.instrument
              (stored_position (apply_fill_to_position divide w.clock (some current) f))
              w.positions;
        orders =
            put w.orders f.client_order_id
              (with_fill broker_id w.clock (w.orders f.client_order_id));
      },
    ))
