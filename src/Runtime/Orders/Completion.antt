-- ===== src/Runtime/Orders/Completion.antt =====
-- That `place` of src/atp/runtime/orders.py, left to run, brings its order to an end.
use aitrading.Common.{
  List, ℕ, zero, suc, ◌+◌, ◌≤◌, Bool, true, false, List, Option, none, some, String, ◌≡◌, refl, sym,
  ap, ◌∙◌, subst, ◌==◌, Bool-cases, Option-cases, arith, inl, inr,
}
use aitrading.Common.Int.{ℤ}
use aitrading.Runtime.OrderStore.{
  OrderState, authorized, OrderRow, Broker, Ledger, put, put_key, insert_order_intent,
  update_order_state, apply_fill_atomic, PlaceRequest, intent_row, is_handled, is_authorized,
  is_intent, Outcome, returned, continue, find_by_idempotency, with_state,
}
use aitrading.Runtime.Orders.{broker_fill, submit_once, authorize_then_submit, begin, place}
use aitrading.Runtime.Orders.Invariant.{IsConsistent, put_here}
use aitrading.Runtime.Orders.ExactlyOnce.{ended, ended-IsConsistent}
use aitrading.Runtime.Orders.Restarts.{get_order_found}

-- A result that is an order the code has nothing more to do about.
unfoldable pub Completes : {S : Type 0} → Outcome OrderRow × ℕ × Ledger S → Type 0
Completes x = (o : OrderRow) × (x.0 ≡ returned o) × (is_handled o.state ≡ true)

same_number : (c : ℕ) → (c == c) ≡ true
same_number c = ground arith

closed_of :
    (st : OrderState) → is_intent st ≡ false → is_authorized st ≡ false → is_handled st ≡ true
closed_of st h g = ground arith

unindexed :
    (b : Broker) (key : String) (w : Ledger b.State)
    → IsConsistent b w
    → find_by_idempotency key w ≡ none
    → w.by_key key ≡ none
unindexed b key w wf e = elim (Option-cases (w.by_key key)) [
  | inl absent ↦ absent
  | inr (c, found) ↦ ground (arith, wf.keyed key c found, found, e)
]

own_row :
    (b : Broker) (key : String) (o : OrderRow) (w : Ledger b.State)
    → IsConsistent b w
    → find_by_idempotency key w ≡ some o
    → w.orders o.client_order_id ≡ some o
own_row b key o w wf e = elim (Option-cases (w.by_key key)) [
  | inl absent ↦ ground (arith, absent, e)
  | inr (c, found) ↦
      let at_c = subst (λ x. elim x [ none ↦ none | some d ↦ w.orders d ] ≡ some o) found e in
      subst (λ d. w.orders d ≡ some o) (sym (wf.indexed c o at_c).0) at_c
]

module _ (b : Broker) (divide : ℤ → ℤ → ℤ) (r : PlaceRequest) (authorize : Bool × String) where
  submit_authorized-Completes :
      (c : ℕ) (o : OrderRow) (k : ℕ) (w : Ledger b.State)
      → 2 ≤ k
      → w.orders c ≡ some o
      → is_authorized o.state ≡ true
      → Completes (submit_once b divide r authorize c o k w)
  unfolding submit_once broker_fill apply_fill_atomic Completes
  submit_authorized-Completes c o zero w h e auth = ground arith
  submit_authorized-Completes c o (suc zero) w h e auth = ground arith
  submit_authorized-Completes c o (suc (suc k)) w h e auth =
      rw auth (rw e (rw (same_number c) (_, refl, refl)))

  submit_once-Completes :
      (c : ℕ) (o : OrderRow) (k : ℕ) (w : Ledger b.State)
      → 2 ≤ k
      → w.orders c ≡ some o
      → is_intent o.state ≡ false
      → Completes (submit_once b divide r authorize c o k w)
  unfolding submit_once Completes
  submit_once-Completes c o k w h e asked = elim (Bool-cases (is_authorized o.state)) [
    | inl auth ↦ submit_authorized-Completes c o k w h e auth
    | inr other ↦ rw other (rw e (o, refl, closed_of o.state asked other))
  ]

  authorize_then_submit-Completes :
      (c : ℕ) (o : OrderRow) (k : ℕ) (w : Ledger b.State)
      → 3 ≤ k
      → w.orders c ≡ some o
      → Completes (authorize_then_submit b divide r authorize c o k w)
  unfolding authorize_then_submit update_order_state Completes
  authorize_then_submit-Completes c o zero w h e = ground arith
  authorize_then_submit-Completes c o (suc k) w h e = elim (Bool-cases (is_intent o.state)) [
    | inl asked ↦ elim (Bool-cases authorize.0) [
      | inl approved ↦ rw asked (
          rw approved (
            let w' = (update_order_state c authorized "risk approved" 1 w).2 in
            let o' = record o {
              state = authorized;
              reason = some "risk approved";
              updated_at = w.clock;
            } in
            let e' =
              put_here w.orders c
                (with_state authorized (some "risk approved") w.clock (w.orders c))
              ∙ ap (with_state authorized (some "risk approved") w.clock) e in
            subst (λ x. Completes (continue (submit_once b divide r authorize c) x))
              (sym (get_order_found c k o' w' e'))
              (submit_once-Completes c o' k w' (omega (arith, h)) e' refl)))
      | inr vetoed ↦ rw asked (rw vetoed (rw e (rw (same_number c) (_, refl, refl))))
    ]
    | inr other ↦ rw other (submit_once-Completes c o (suc k) w (omega (arith, h)) e other)
  ]

  begin_anew :
      (k : ℕ) (w : Ledger b.State)
      → IsConsistent b w
      → 4 ≤ k
      → w.by_key r.idempotency_key ≡ none
      → Completes (begin b divide r authorize none k w)
  unfolding begin insert_order_intent Completes
  begin_anew zero w wf h e = ground arith
  begin_anew (suc k) w wf h e =
      let c = w.drawn in
      let row = intent_row r c w.clock in
      let w' = record w {
        orders = put w.orders c (some row);
        by_key = put_key w.by_key r.idempotency_key c;
        drawn = w.drawn + 1;
      } in
      let e' = put_here w.orders c (some row) in
      rw (wf.fresh c (omega arith)) (
        rw e (
          subst (λ x. Completes (continue (authorize_then_submit b divide r authorize c) x))
            (sym (get_order_found c k row w' e'))
            (authorize_then_submit-Completes c row k w' (omega (arith, h)) e')))

  resumed-Completes :
      (existing : OrderRow) (k : ℕ) (w : Ledger b.State)
      → 4 ≤ k
      → w.orders existing.client_order_id ≡ some existing
      → Completes (begin b divide r authorize (some existing) k w)
  unfolding begin Completes
  resumed-Completes existing k w h e =
      let c = existing.client_order_id in
      elim (Bool-cases (is_handled existing.state)) [
        | inl handled ↦ rw handled (existing, refl, handled)
        | inr unhandled ↦ rw unhandled (
            subst (λ x. Completes (continue (authorize_then_submit b divide r authorize c) x))
              (sym (get_order_found c k existing w e))
              (authorize_then_submit-Completes c existing k w (omega (arith, h)) e))
      ]

  place-Completes :
      (k : ℕ) (w : Ledger b.State)
      → IsConsistent b w
      → 4 ≤ k
      → Completes (place b divide r authorize k w)
  unfolding place
  place-Completes k w wf h = begun_completes (find_by_idempotency r.idempotency_key w) refl
    where
      begun_completes :
          (existing : Option OrderRow)
          → find_by_idempotency r.idempotency_key w ≡ existing
          → Completes (begin b divide r authorize existing k w)
      begun_completes none e = begin_anew k w wf h (unindexed b r.idempotency_key w wf e)
      begun_completes (some existing) e =
          resumed-Completes existing k w h (own_row b r.idempotency_key existing w wf e)

-- After any calls of `place` made one after the other from an empty database and a broker that has executed nothing, each of which may have
-- died between any two effects, one more call that lives to make four effects returns an order that is FILLED,
-- REJECTED, CANCELLED or SUBMITTED: it neither fails nor leaves the order open.
pub place_after_run-Completes :
    (b : Broker) (divide : ℤ → ℤ → ℤ) (calls : List (PlaceRequest × (Bool × String) × ℕ))
    (s : b.State) (now k : ℕ) (r : PlaceRequest) (authorize : Bool × String)
    → ((d : ℕ) → b.executions d s ≡ 0)
    → 4 ≤ k
    → Completes (place b divide r authorize k (ended b divide calls s now))
place_after_run-Completes b divide calls s now k r authorize untouched h =
    place-Completes b divide r authorize k (ended b divide calls s now)
      (ended-IsConsistent b divide calls s now untouched) h
