-- ===== src/Trading/Execution/Submit/Frames.antt =====
-- What `submit` of src/atp/execution/engine.py and `place_order` of src/atp/brokers/paper.py leave of the leases and the
-- guard, and the orders that come outside of a send.
use aitrading.Common.{
  ℕ, Bool, true, false, not, ◌&&◌, List, [], ◌∷◌, Option, none, some, ◌==◌, ◌≡◌, refl, ap, ◌∙◌,
  arith, if-cases,
}
use aitrading.Common.Floats.{Floats}
use aitrading.Trading.Broker.{Order, OrderResult, Account}
use aitrading.Trading.Risk.{Reason}
use aitrading.Trading.Risk.Check.{check_order}
use aitrading.Trading.PaperBroker.{get_account}
use aitrading.Trading.Execution.{
  ExecutionEngine, Boundary, blocked, granted, unknown, World, ExecutionResult, conserves,
  canonical_paper_account,
}
use aitrading.Trading.Execution.Submit.{
  Submission, broker_send_permit, place_permitted, place_order, place_leased, place_children, send,
  proposal_of, decide, decide_on, decide_canonical, within_boundary, is_desk_authorized,
  submit_under, submit, is_send_authorized, lease_for,
}

pub absurd_bool : {A : Type 0} {b : Bool} → b ≡ true → b ≡ false → A
absurd_bool h k = ground arith

pub both_true : (a b : Bool) → (not a && b) ≡ true → (a ≡ false) × (b ≡ true)
both_true a b h = ground arith

-- The lease of the send and the guard at the broker are as they were.
pub record IsFramed {fl : Floats} (w w' : World fl) : Type 0 where
  pub leased : w'.send_lease ≡ w.send_lease
  pub guarded : w'.is_guarded ≡ w.is_guarded

module _ {fl : Floats} (e : ExecutionEngine fl) where
  abbrev framed : (w : World fl) → IsFramed w w
  framed w = record { leased = refl; guarded = refl }

  permit-guarded :
      (g : Option (ℕ → Boundary)) (task : Option ℕ) (o : Order fl) (w : World fl)
      → (broker_send_permit e g task o w).1.is_guarded ≡ w.is_guarded
  unfolding broker_send_permit
  permit-guarded none task o w = refl
  permit-guarded (some guard) task o w =
      if-cases (λ (r : Option Reason × World fl). r.1.is_guarded ≡ w.is_guarded)
        (is_send_authorized e task o w.send_lease) _ _ (λ _. refl) (λ _. refl)

  place_permitted-guarded :
      (o : Order fl) (r : Option Reason) (w : World fl)
      → (place_permitted e o r w).1.is_guarded ≡ w.is_guarded
  place_permitted-guarded o none w = refl
  place_permitted-guarded o (some r) w = refl

  pub place_order-guarded :
      (task : Option ℕ) (o : Order fl) (w : World fl)
      → (place_order e task o w).1.is_guarded ≡ w.is_guarded
  unfolding place_order
  place_order-guarded task o w =
      let P : OrderResult fl × World fl → Type 0 = λ r. r.1.is_guarded ≡ w.is_guarded in
      let (refusal, w') = broker_send_permit e e.order_guard task o w in
      if-cases P (not w.broker.connected) _ _ (λ _. refl)
        (λ _.
          if-cases P w.is_guarded _ _
            (λ _. place_permitted-guarded o refusal w' ∙ permit-guarded e.order_guard task o w)
            (λ _. refl))

  place_children-IsFramed :
      (task : Option ℕ) (children : List (Order fl)) (w : World fl)
      → IsFramed w (place_children e task children w).1
  unfolding place_children
  place_children-IsFramed task [] w = framed w
  place_children-IsFramed task (o ∷ children) w =
      let w' = (place_leased e task o w).1 in
      let rest = place_children-IsFramed task children w' in
      record {
        leased = rest.leased;
        guarded =
            rest.guarded
            ∙ place_order-guarded task o (record w { send_lease = some (lease_for e task o) });
      }

  module _ (s : Submission fl) where
    decide-IsFramed : (t : Account fl × fl.Float) (w : World fl) → IsFramed w (decide e s t w).1
    unfolding decide send
    decide-IsFramed (a, q) w =
        let P : ExecutionResult fl × World fl → Type 0 = λ r. IsFramed w r.1 in
        let d = check_order (proposal_of e s a q) e.authority.risk in
        let children = e.authority.plan s.order s.adv s.urgency in
        if-cases P (not d.approved) _ _ (λ _. framed w)
          (λ _.
            if-cases P (not e.authority.autonomous) _ _ (λ _. framed w)
              (λ _.
                if-cases P (conserves s.order children) _ _
                  (λ _. place_children-IsFramed s.task children w) (λ _. framed w)))

    decide_canonical-IsFramed :
        (t : Option (Account fl × fl.Float)) (w : World fl)
        → IsFramed w (decide_canonical e s t w).1
    decide_canonical-IsFramed none w = framed w
    decide_canonical-IsFramed (some t) w = decide-IsFramed t w

    decide_on-IsFramed : (a : Option (Account fl)) (w : World fl) → IsFramed w (decide_on e s a w).1
    decide_on-IsFramed none w = framed w
    decide_on-IsFramed (some a) w = decide_canonical-IsFramed (canonical_paper_account s.order a) w

    within_boundary-IsFramed :
        (y : Boundary) (w : World fl) → IsFramed w (within_boundary e s y w).1
    within_boundary-IsFramed (blocked d) w = framed w
    within_boundary-IsFramed unknown w = framed w
    within_boundary-IsFramed (granted a) w =
        if-cases (λ (r : ExecutionResult fl × World fl). IsFramed w r.1) (a == e.authority.object) _
          _ (λ _. decide_on-IsFramed (get_account w.broker) w) (λ _. framed w)

    submit_under-IsFramed :
        (g : Option (ℕ → Boundary)) (w : World fl) → IsFramed w (submit_under e g s w).1
    unfolding submit_under
    submit_under-IsFramed none w = decide-IsFramed (s.account, s.current_qty) w
    submit_under-IsFramed (some guard) w =
        if-cases (λ (r : ExecutionResult fl × World fl). IsFramed w r.1)
          (is_desk_authorized e s w.submit_lease) _ _
          (λ _.
            let f = within_boundary-IsFramed (guard w.guard_calls) _ in
            record { leased = f.leased; guarded = f.guarded })
          (λ _. framed w)

    pub submit-IsFramed : (w : World fl) → IsFramed w (submit e s w).1
    unfolding submit
    submit-IsFramed w = submit_under-IsFramed e.order_guard w

  permit-unleased :
      (g : Option (ℕ → Boundary)) (task : Option ℕ) (o : Order fl) (w : World fl)
      → w.send_lease ≡ none
      → (let (refusal, w') = broker_send_permit e g task o w in (place_permitted e o refusal w').1)
        ≡ w
  unfolding broker_send_permit
  permit-unleased none task o w n = refl
  permit-unleased (some guard) task o w n =
      if-cases (λ (r : Option Reason × World fl). (place_permitted e o r.0 r.1).1 ≡ w)
        (is_send_authorized e task o w.send_lease) _ _
        (λ y. absurd_bool y (ap (is_send_authorized e task o) n)) (λ _. refl)

  -- Outside a send of the engine the guard refuses every order, and nothing changes.
  pub place_order-unleased :
      (task : Option ℕ) (o : Order fl) (w : World fl)
      → w.is_guarded ≡ true
      → w.send_lease ≡ none
      → (place_order e task o w).1 ≡ w
  unfolding place_order
  place_order-unleased task o w g n =
      let P : OrderResult fl × World fl → Type 0 = λ r. r.1 ≡ w in
      if-cases P (not w.broker.connected) _ _ (λ _. refl)
        (λ _.
          if-cases P w.is_guarded _ _ (λ _. permit-unleased e.order_guard task o w n)
            (λ y. absurd_bool g y))
