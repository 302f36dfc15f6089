-- ===== src/Trading/Execution/Submit/Controlled.antt =====
-- What reaches the broker through `submit` and `place_order` of src/atp/execution/engine.py and
-- src/atp/brokers/paper.py once the guard is bound.
use aitrading.Common.{
  ℕ, true, not, Option, none, some, ◌==◌, ◌≡◌, refl, sym, subst, ◌⊎◌, inl, inr, Bool-cases,
  if-cases, not-false,
}
use aitrading.Common.Floats.{Floats}
use aitrading.Trading.Broker.{Account}
use aitrading.Trading.Risk.{RiskDecision}
use aitrading.Trading.Risk.Check.{check_order}
use aitrading.Trading.PaperBroker.{PaperBroker, get_account}
use aitrading.Trading.Execution.{
  ExecutionEngine, Boundary, blocked, granted, unknown, World, ExecutionResult, conserves,
  canonical_paper_account,
}
use aitrading.Trading.Execution.Submit.{
  Submission, send, proposal_of, decide, decide_on, decide_canonical, within_boundary,
  is_desk_authorized, submit_under, submit,
}

-- A submission that may reach the broker in a world: the order is decided on the account that the broker shows, which
-- is consistent, and on its position there.
pub record IsApproved {fl : Floats} (e : ExecutionEngine fl) (s : Submission fl)
    (b : PaperBroker fl) : Type 0 where
  pub snapshot : Account fl
  pub account : Account fl
  pub current_qty : fl.Float
  pub read : get_account b ≡ some snapshot
  pub canonical : canonical_paper_account s.order snapshot ≡ some (account, current_qty)
  pub approved :
      (check_order (proposal_of e s account current_qty) e.authority.risk).approved ≡ true
  pub autonomous : e.authority.autonomous ≡ true
  pub conserving : conserves s.order (e.authority.plan s.order s.adv s.urgency) ≡ true

module _ {fl : Floats} (e : ExecutionEngine fl) (s : Submission fl) where
  -- What makes `decide` send.
  record IsSent (a : Account fl) (q : fl.Float) : Type 0 where
    approved : (check_order (proposal_of e s a q) e.authority.risk).approved ≡ true
    autonomous : e.authority.autonomous ≡ true
    conserving : conserves s.order (e.authority.plan s.order s.adv s.urgency) ≡ true

  send-unsent :
      (d : RiskDecision) (w : World fl)
      → ((send e d s w).1.broker ≡ w.broker)
        ⊎ (conserves s.order (e.authority.plan s.order s.adv s.urgency) ≡ true)
  unfolding send
  send-unsent d w =
      elim (Bool-cases (conserves s.order (e.authority.plan s.order s.adv s.urgency))) [
        | inl y ↦ inr y
        | inr n ↦ inl (rw n refl)
      ]

  decide-unsent :
      (a : Account fl) (q : fl.Float) (w : World fl)
      → ((decide e s (a, q) w).1.broker ≡ w.broker) ⊎ IsSent a q
  unfolding decide
  decide-unsent a q w =
      let d = check_order (proposal_of e s a q) e.authority.risk in
      let P : ExecutionResult fl × World fl → Type 0 = λ r. (r.1.broker ≡ w.broker) ⊎ IsSent a q in
      if-cases P (not d.approved) _ _ (λ _. inl refl)
        (λ y.
          if-cases P (not e.authority.autonomous) _ _ (λ _. inl refl)
            (λ z. elim (send-unsent d w) [
              | inl same ↦ inl same
              | inr c ↦
                  inr (record {
                    approved = not-false _ y;
                    autonomous = not-false _ z;
                    conserving = c;
                  })
            ]))

  abbrev Outcome : PaperBroker fl → PaperBroker fl → Type 0
  Outcome b b' = (b' ≡ b) ⊎ IsApproved e s b

  decide_canonical-Outcome :
      (a : Account fl) (t : Option (Account fl × fl.Float)) (w : World fl)
      → get_account w.broker ≡ some a
      → canonical_paper_account s.order a ≡ t
      → Outcome w.broker (decide_canonical e s t w).1.broker
  decide_canonical-Outcome a none w r h = inl refl
  decide_canonical-Outcome a (some (b, q)) w r h = elim (decide-unsent b q w) [
    | inl same ↦ inl same
    | inr x ↦ inr (record {
      snapshot = a;
      account = b;
      current_qty = q;
      read = r;
      canonical = h;
      approved = x.approved;
      autonomous = x.autonomous;
      conserving = x.conserving;
    })
  ]

  decide_on-Outcome :
      (a : Option (Account fl)) (w : World fl)
      → get_account w.broker ≡ a
      → Outcome w.broker (decide_on e s a w).1.broker
  decide_on-Outcome none w r = inl refl
  decide_on-Outcome (some a) w r =
      decide_canonical-Outcome a (canonical_paper_account s.order a) w r refl

  within_boundary-Outcome :
      (y : Boundary) (w : World fl) → Outcome w.broker (within_boundary e s y w).1.broker
  within_boundary-Outcome (blocked d) w = inl refl
  within_boundary-Outcome unknown w = inl refl
  within_boundary-Outcome (granted a) w = elim (Bool-cases (a == e.authority.object)) [
    | inl y ↦ rw y (decide_on-Outcome (get_account w.broker) w refl)
    | inr n ↦ inl (rw n refl)
  ]

  submit_under-Outcome :
      (guard : ℕ → Boundary) (w : World fl)
      → Outcome w.broker (submit_under e (some guard) s w).1.broker
  unfolding submit_under
  submit_under-Outcome guard w =
      if-cases (λ (r : ExecutionResult fl × World fl). Outcome w.broker r.1.broker)
        (is_desk_authorized e s w.submit_lease) _ _
        (λ _. within_boundary-Outcome (guard w.guard_calls) _) (λ _. inl refl)

  -- Once a guard is bound, a submission leaves the broker as it is, or the account that the broker shows is consistent,
  -- the risk engine approves the order on it at the position held there, the authority is autonomous, and the plan
  -- conserves the order.
  pub submit-IsApproved :
      (guard : ℕ → Boundary) (w : World fl)
      → e.order_guard ≡ some guard
      → ((submit e s w).1.broker ≡ w.broker) ⊎ IsApproved e s w.broker
  unfolding submit
  submit-IsApproved guard w h =
      subst (λ g. Outcome w.broker (submit_under e g s w).1.broker) (sym h)
        (submit_under-Outcome guard w)
