-- ===== src/Trading/Execution/Submit/Transparent.antt =====
-- The boundary of src/atp/execution/engine.py for a submission that it lets through: the leases and the guard change
-- nothing of what the submission does.
use aitrading.Common.{
  ℕ, ◌+◌, true, false, not, List, [], ◌∷◌, Option, none, some, ◌==◌, ==_iff, ◌≡◌, refl, sym, ap,
  ◌∙◌, subst, if-cases, if-cases_two,
}
use aitrading.Common.Floats.{Floats}
use aitrading.Trading.Broker.{rejected, Order, OrderResult, Account}
use aitrading.Trading.Risk.{Reason}
use aitrading.Trading.Risk.Check.{check_order}
use aitrading.Trading.PaperBroker.{PaperBroker, get_account}
use aitrading.Trading.PaperBroker.Place.{place_order_locked, result_of}
use aitrading.Trading.Execution.{
  ExecutionEngine, Boundary, granted, World, ExecutionResult, conserves, canonical_paper_account,
  aggregate,
}
use aitrading.Trading.Execution.Submit.{
  Submission, same_task, broker_send_permit, place_permitted, place_order, place_leased,
  place_children, send, proposal_of, decide, decide_on, decide_canonical, within_boundary,
  is_desk_authorized, submit_under, submit, is_send_authorized, lease_for, refusal_of,
  consumed_send, consumed_submit,
}
use aitrading.Trading.Execution.Submit.Frames.{place_order-guarded, absurd_bool}

-- The orders at the broker itself, one after the other.
pub place_all :
    {fl : Floats} → List (Order fl) → PaperBroker fl → List (OrderResult fl) × PaperBroker fl
place_all [] b = ([], b)
place_all (o ∷ orders) b =
    let (r, b') = place_order_locked o b in let (rest, b'') = place_all orders b' in (r ∷ rest, b'')

-- A guard that grants the authority of the engine at each call, and a task.
pub record IsGranting {fl : Floats} (e : ExecutionEngine fl) (task : Option ℕ) : Type 0 where
  pub guard : ℕ → Boundary
  pub guard_bound : e.order_guard ≡ some guard
  pub granting : (n : ℕ) → guard n ≡ granted e.authority.object
  pub current : ℕ
  pub in_task : task ≡ some current

==_refl : (n : ℕ) → (n == n) ≡ true
==_refl n = (==_iff n n).1 refl

same_task_refl : (task : Option ℕ) (t : ℕ) → task ≡ some t → same_task task task ≡ true
same_task_refl task t h = subst (λ u. same_task u u ≡ true) (sym h) (==_refl t)

module _ {fl : Floats} (e : ExecutionEngine fl) (task : Option ℕ) where
  -- The order as the broker alone takes it.
  abbrev IsPlaced : Order fl → PaperBroker fl → OrderResult fl × World fl → Type 0
  IsPlaced o b r = (r.0 ≡ (place_order_locked o b).0) × (r.1.broker ≡ (place_order_locked o b).1)

  lease_for-authorized :
      IsGranting e task
      → (o : Order fl) → is_send_authorized e task o (some (lease_for e task o)) ≡ true
  lease_for-authorized g o =
      rw (==_refl e.authority.object, same_task_refl task g.current g.in_task, ==_refl o.object)
        refl

  refusal_of-granted : (y : Boundary) → y ≡ granted e.authority.object → refusal_of e y ≡ none
  refusal_of-granted y h =
      subst (λ z. refusal_of e z ≡ none) (sym h) (rw (==_refl e.authority.object) refl)

  permit-IsPlaced :
      (g : IsGranting e task) (o : Order fl) (w : World fl)
      → w.send_lease ≡ some (lease_for e task o)
      → IsPlaced o w.broker (
          let (refusal, w') = broker_send_permit e (some g.guard) task o w in
          place_permitted e o refusal w')
  unfolding broker_send_permit
  permit-IsPlaced g o w l =
      if-cases (λ (r : Option Reason × World fl). IsPlaced o w.broker (place_permitted e o r.0 r.1))
        (is_send_authorized e task o w.send_lease) _ _
        (λ _.
          subst
            (λ r. IsPlaced o w.broker (
              place_permitted e o r (record w {
                send_lease = consumed_send e w.send_lease;
                guard_calls = w.guard_calls + 1;
              })))
            (sym (refusal_of-granted (g.guard w.guard_calls) (g.granting w.guard_calls)))
            (refl, refl))
        (λ n. absurd_bool (ap (is_send_authorized e task o) l ∙ lease_for-authorized g o) n)

  place_order_locked-disconnected :
      (o : Order fl) (b : PaperBroker fl)
      → not b.connected ≡ true
      → place_order_locked o b ≡ (result_of o rejected "paper broker disconnected", b)
  unfolding place_order_locked
  place_order_locked-disconnected o b h = rw h refl

  place_order-IsPlaced :
      (o : Order fl) (w : World fl)
      → (w.is_guarded ≡ true → IsGranting e task)
      → w.send_lease ≡ some (lease_for e task o)
      → IsPlaced o w.broker (place_order e task o w)
  unfolding place_order
  place_order-IsPlaced o w h l =
      let P : OrderResult fl × World fl → Type 0 = IsPlaced o w.broker in
      if-cases P (not w.broker.connected) _ _
        (λ y.
          let d = sym (place_order_locked-disconnected o w.broker y) in
          (
            ap (λ (r : OrderResult fl × PaperBroker fl). r.0) d,
            ap (λ (r : OrderResult fl × PaperBroker fl). r.1) d,
          ))
        (λ _.
          if-cases P w.is_guarded _ _
            (λ y.
              subst
                (λ g. P (
                  let (refusal, w') = broker_send_permit e g task o w in
                  place_permitted e o refusal w'))
                (sym (h y).guard_bound) (permit-IsPlaced (h y) o w l))
            (λ _. (refl, refl)))

  place_children-place_all :
      (children : List (Order fl)) (w : World fl)
      → (w.is_guarded ≡ true → IsGranting e task)
      → ((place_children e task children w).0 ≡ (place_all children w.broker).0)
        × ((place_children e task children w).1.broker ≡ (place_all children w.broker).1)
  unfolding place_children place_all
  place_children-place_all [] w h = (refl, refl)
  place_children-place_all (o ∷ children) w h =
      let leased : World fl = record w { send_lease = some (lease_for e task o) } in
      let w' = (place_leased e task o w).1 in
      let (r, b) = place_order-IsPlaced o leased h refl in
      let (rs, bs) =
        place_children-place_all children w'
          (λ y. h (sym (place_order-guarded e task o leased) ∙ y)) in
      (
        ap (λ x. x ∷ (place_children e task children w').0) r
            ∙ ap (λ xs. (place_order_locked o w.broker).0 ∷ xs)
                (rs ∙ ap (λ c. (place_all children c).0) b),
        bs ∙ ap (λ c. (place_all children c).1) b,
      )

-- The same result and the same broker.
pub record IsSameOutcome {fl : Floats} (r r' : ExecutionResult fl × World fl) : Type 0 where
  pub same_result : r.0 ≡ r'.0
  pub same_broker : r.1.broker ≡ r'.1.broker

-- The engine with no guard and the broker without one, asked with the account and the position given.
abbrev pub unguarded : {fl : Floats} → ExecutionEngine fl → ExecutionEngine fl
unguarded e = record e { order_guard = none }

abbrev pub unguarded_world : {fl : Floats} → World fl → World fl
unguarded_world w = record w { is_guarded = false }

abbrev pub asked_with : {fl : Floats} → Account fl → fl.Float → Submission fl → Submission fl
asked_with a q s = record s { account = a; current_qty = q }

module _ {fl : Floats} (e : ExecutionEngine fl) (s : Submission fl) (a : Account fl)
    (q : fl.Float) where
  decide-IsSameOutcome :
      (w w' : World fl)
      → IsGranting e s.task
      → w.broker ≡ w'.broker
      → w'.is_guarded ≡ false
      → IsSameOutcome (decide e s (a, q) w) (decide (unguarded e) (asked_with a q s) (a, q) w')
  unfolding decide send
  decide-IsSameOutcome w w' g b n =
      let P : ExecutionResult fl × World fl → ExecutionResult fl × World fl → Type 0 =
        λ r r'. IsSameOutcome r r' in
      let d = check_order (proposal_of e s a q) e.authority.risk in
      let children = e.authority.plan s.order s.adv s.urgency in
      if-cases_two P (not d.approved) _ _ _ _ (λ _. record { same_result = refl; same_broker = b })
        (λ _.
          if-cases_two P (not e.authority.autonomous) _ _ _ _
            (λ _. record { same_result = refl; same_broker = b })
            (λ _.
              if-cases_two P (conserves s.order children) _ _ _ _
                (λ _.
                  let (r, c) = place_children-place_all e s.task children w (λ _. g) in
                  let (r', c') =
                    place_children-place_all (unguarded e) s.task children w'
                      (λ y. absurd_bool y n) in
                  record {
                    same_result =
                        ap
                          (λ (rs : List (OrderResult fl)). record {
                            order = s.order;
                            decision = d;
                            result = some (aggregate s.order rs);
                          })
                          (r ∙ ap (λ b. (place_all children b).0) b ∙ sym r');
                    same_broker = c ∙ ap (λ b. (place_all children b).1) b ∙ sym c';
                  })
                (λ _. record { same_result = refl; same_broker = b })))

  -- For a submission with the desk's lease, of a task whose guard grants the authority at each call, on an account that
  -- the broker shows and that is consistent: result and broker are those of the engine and the broker without a
  -- guard, asked with that account and the position held there. The leases refuse no send of the engine's own.
  pub submit-IsSameOutcome :
      (snapshot : Account fl) (w : World fl)
      → IsGranting e s.task
      → is_desk_authorized e s w.submit_lease ≡ true
      → get_account w.broker ≡ some snapshot
      → canonical_paper_account s.order snapshot ≡ some (a, q)
      → IsSameOutcome (submit e s w) (submit (unguarded e) (asked_with a q s) (unguarded_world w))
  unfolding submit submit_under
  submit-IsSameOutcome snapshot w g d r c =
      let Q : ExecutionResult fl × World fl → Type 0 =
        λ x. IsSameOutcome x (decide (unguarded e) (asked_with a q s) (a, q) (unguarded_world w)) in
      let w' : World fl = record w {
        submit_lease = consumed_submit e w.submit_lease;
        guard_calls = w.guard_calls + 1;
      } in
      let decided = decide-IsSameOutcome w' (unguarded_world w) g refl refl in
      let on_account =
        subst (λ y. Q (decide_on e s y w')) (sym r)
          (subst (λ y. Q (decide_canonical e s y w')) (sym c) decided) in
      subst (λ y. Q (submit_under e y s w)) (sym g.guard_bound)
        (if-cases Q (is_desk_authorized e s w.submit_lease) _ _
          (λ _.
            subst (λ y. Q (within_boundary e s y w')) (sym (g.granting w.guard_calls))
              (if-cases Q (e.authority.object == e.authority.object) _ _ (λ _. on_account)
                (λ n. absurd_bool (==_refl e.authority.object) n)))
          (λ n. absurd_bool d n))
