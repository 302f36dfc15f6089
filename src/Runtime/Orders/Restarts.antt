-- ===== src/Runtime/Orders/Restarts.antt =====
-- `place` of src/atp/runtime/orders.py over a run in which the process may die between any two effects
-- and come back.
use aitrading.Common.{
  ℕ, zero, suc, ◌+◌, Bool, true, ◌||◌, List, [], ◌∷◌, Option, none, some, String, ◌≡◌, refl, sym,
  ap, ◌∙◌, subst, Bool-cases, Option-cases, arith, inl, inr,
}
use aitrading.Common.Int.{ℤ}
use aitrading.Runtime.OrderStore.{
  OrderState, intent, authorized, rejected, OrderRow, Broker, Ledger, put, put_key, Action,
  insert_order_intent, update_order_state, apply_fill_atomic, PlaceRequest, intent_row, is_some,
  is_handled, is_authorized, is_intent, Outcome, returned, failed, crashed, get_order, ◌>>◌,
  continue, find_by_idempotency, with_state,
}
use aitrading.Runtime.Orders.{
  fill_row, broker_fill, submit_once, authorize_then_submit, begin, place,
}
use aitrading.Runtime.Orders.Invariant.{
  IsConsistent, broker_fill-IsConsistent, update_order_state-IsConsistent,
  apply_fill_atomic-IsConsistent, account_at, put_here, inserted, executed_once, StateAccounted,
}

pub drawn_more :
    (b : Broker) (w : Ledger b.State)
    → IsConsistent b w
    → IsConsistent b (record w { drawn = w.drawn + 1 })
drawn_more b w wf = record {
  accounted = wf.accounted;
  indexed = wf.indexed;
  keyed = wf.keyed;
  fresh = λ c h. wf.fresh c (omega (arith, h));
}

pub authorized_of : (st : OrderState) → is_authorized st ≡ true → st ≡ authorized
authorized_of st h = ground arith

pub intent_of : (st : OrderState) → is_intent st ≡ true → st ≡ intent
intent_of st h = ground arith

get_order_reads : {S : Type 0} (c k : ℕ) (w : Ledger S) → (get_order c k w).2 ≡ w
get_order_reads c k w = elim (Option-cases (w.orders c)) [
  | inl absent ↦ rw absent refl
  | inr (o, e) ↦ rw e refl
]

pub get_order_found :
    {S : Type 0} (c k : ℕ) (o : OrderRow) (w : Ledger S)
    → w.orders c ≡ some o
    → get_order c k w ≡ (returned o, k, w)
get_order_found c k o w e = rw e refl

-- A read after an action changes no table.
then_reads :
    {S : Type 0} (m : Action S (Unit {0})) (c k : ℕ) (w : Ledger S)
    → ((m >> get_order c) k w).2 ≡ (m k w).2
then_reads m c k w = read_after c (m k w)
  where
    read_after :
        {S : Type 0} (c : ℕ) (x : Outcome (Unit {0}) × ℕ × Ledger S)
        → (continue (λ _. get_order c) x).2 ≡ x.2
    read_after c (returned u, k, w) = get_order_reads c k w
    read_after c (failed e, k, w) = refl
    read_after c (crashed, k, w) = refl

module _ (b : Broker) (divide : ℤ → ℤ → ℤ) (r : PlaceRequest) (authorize : Bool × String) where
  filled_after_submit :
      (c : ℕ) (o : OrderRow) (k : ℕ) (w : Ledger b.State)
      → IsConsistent b w
      → w.orders c ≡ some o
      → is_authorized o.state ≡ true
      → IsConsistent b (submit_once b divide r authorize c o k w).2
  unfolding submit_once broker_fill StateAccounted
  filled_after_submit c o zero w wf e auth = rw auth wf
  filled_after_submit c o (suc k) w wf e auth = rw auth (
      let s = authorized_of o.state auth in
      let wf' = drawn_more b (broker_fill b c 1 w).2 (broker_fill-IsConsistent b c o 1 w wf e s) in
      let (once, unfilled) = account_at b w wf c o authorized e s in
      let w' = record w { drawn = w.drawn + 1; broker = (b.submit c w.broker).1 } in
      let f = fill_row b divide r authorize c w.drawn w.clock (b.submit c w.broker).0 in
      let bid = (b.submit c w.broker).0.broker_order_id in
      subst (λ x. IsConsistent b x) (sym (then_reads (apply_fill_atomic divide f bid) c k w'))
        (apply_fill_atomic-IsConsistent b divide f bid k o w' wf' e s
          (executed_once b c w.broker once)))

  submit_once-IsConsistent :
      (c : ℕ) (o : OrderRow) (k : ℕ) (w : Ledger b.State)
      → IsConsistent b w
      → w.orders c ≡ some o
      → IsConsistent b (submit_once b divide r authorize c o k w).2
  unfolding submit_once broker_fill
  submit_once-IsConsistent c o k w wf e = elim (Bool-cases (is_authorized o.state)) [
    | inl auth ↦ filled_after_submit c o k w wf e auth
    | inr other ↦ rw other (rw (get_order_reads c k w) wf)
  ]

  approving_keeps :
      (c : ℕ) (o : OrderRow) (k : ℕ) (w : Ledger b.State)
      → IsConsistent b w
      → w.orders c ≡ some o
      → is_intent o.state ≡ true
      → authorize.0 ≡ true
      → IsConsistent b (authorize_then_submit b divide r authorize c o k w).2
  unfolding authorize_then_submit update_order_state
  approving_keeps c o zero w wf e asked approved = rw asked (rw approved wf)
  approving_keeps c o (suc k) w wf e asked approved = rw asked (
      rw approved (
        let w' = (update_order_state c authorized "risk approved" 1 w).2 in
        let o' = record o {
          state = authorized;
          reason = some "risk approved";
          updated_at = w.clock;
        } in
        let wf' =
          update_order_state-IsConsistent b c 1 o authorized "risk approved" w wf e
            (intent_of o.state asked) (inl refl) in
        let e' =
          put_here w.orders c (with_state authorized (some "risk approved") w.clock (w.orders c))
          ∙ ap (with_state authorized (some "risk approved") w.clock) e in
        subst (λ x. IsConsistent b (continue (submit_once b divide r authorize c) x).2)
          (sym (get_order_found c k o' w' e')) (submit_once-IsConsistent c o' k w' wf' e')))

  authorize_then_submit-IsConsistent :
      (c : ℕ) (o : OrderRow) (k : ℕ) (w : Ledger b.State)
      → IsConsistent b w
      → w.orders c ≡ some o
      → IsConsistent b (authorize_then_submit b divide r authorize c o k w).2
  unfolding authorize_then_submit update_order_state
  authorize_then_submit-IsConsistent c o k w wf e = elim (Bool-cases (is_intent o.state)) [
    | inl asked ↦ elim (Bool-cases authorize.0) [
      | inl approved ↦ approving_keeps c o k w wf e asked approved
      | inr vetoed ↦ rw asked (
          rw vetoed (
            subst (λ x. IsConsistent b x)
              (sym (then_reads (update_order_state c rejected authorize.1) c k w))
              (update_order_state-IsConsistent b c k o rejected authorize.1 w wf e
                (intent_of o.state asked) (inr refl))))
    ]
    | inr other ↦ rw other (submit_once-IsConsistent c o k w wf e)
  ]

  resumed_keeps :
      (c k : ℕ) (w : Ledger b.State)
      → IsConsistent b w
      → IsConsistent b (continue (authorize_then_submit b divide r authorize c) (get_order c k w)).2
  resumed_keeps c k w wf = elim (Option-cases (w.orders c)) [
    | inl absent ↦ rw absent wf
    | inr (o, e) ↦
        subst (λ x. IsConsistent b (continue (authorize_then_submit b divide r authorize c) x).2)
          (sym (get_order_found c k o w e)) (authorize_then_submit-IsConsistent c o k w wf e)
  ]

  begin-IsConsistent :
      (existing : Option OrderRow) (k : ℕ) (w : Ledger b.State)
      → IsConsistent b w
      → IsConsistent b (begin b divide r authorize existing k w).2
  unfolding begin insert_order_intent
  begin-IsConsistent none zero w wf = drawn_more b w wf
  begin-IsConsistent none (suc k) w wf =
      let w' = record w { drawn = w.drawn + 1 } in
      elim (Bool-cases (is_some (w.orders w.drawn) || is_some (w.by_key r.idempotency_key))) [
        | inl taken ↦ rw taken (drawn_more b w wf)
        | inr new ↦ rw new (
            resumed_keeps w.drawn k
              (record w' {
                orders = put w.orders w.drawn (some (intent_row r w.drawn w.clock));
                by_key = put_key w.by_key r.idempotency_key w.drawn;
              })
              (inserted b r w.drawn w' (drawn_more b w wf) (omega arith) (ground arith)
                (ground arith)))
      ]
  begin-IsConsistent (some existing) k w wf = elim (Bool-cases (is_handled existing.state)) [
    | inl handled ↦ rw handled wf
    | inr unhandled ↦ rw unhandled (resumed_keeps existing.client_order_id k w wf)
  ]

  -- Whatever number of effects it lives to make, `place` keeps the relation between orders, fills and
  -- executions.
  pub place-IsConsistent :
      (k : ℕ) (w : Ledger b.State)
      → IsConsistent b w
      → IsConsistent b (place b divide r authorize k w).2
  unfolding place
  place-IsConsistent k w wf = begin-IsConsistent (find_by_idempotency r.idempotency_key w) k w wf

-- A run: each entry is a call of `place` and the number of effects that its process lives to make.
unfoldable pub place_all :
    (b : Broker) (divide : ℤ → ℤ → ℤ)
    → List (PlaceRequest × (Bool × String) × ℕ)
    → Ledger b.State
    → Ledger b.State
place_all b divide [] w = w
place_all b divide ((r, authorize, k) ∷ calls) w =
    place_all b divide calls (place b divide r authorize k w).2

pub place_all-IsConsistent :
    (b : Broker) (divide : ℤ → ℤ → ℤ) (calls : List (PlaceRequest × (Bool × String) × ℕ))
    (w : Ledger b.State)
    → IsConsistent b w
    → IsConsistent b (place_all b divide calls w)
unfolding place_all
place_all-IsConsistent b divide [] w wf = wf
place_all-IsConsistent b divide ((r, authorize, k) ∷ calls) w wf =
    place_all-IsConsistent b divide calls (place b divide r authorize k w).2
      (place-IsConsistent b divide r authorize k w wf)
