-- ===== src/Trading/Reconciler/Agreement.antt =====
-- When `reconcile_full` of src/atp/brokers/reconcile.py finds no break, and what `run_full` does to the risk engine.
use aitrading.Common.{
  Bool, true, false, ◌&&◌, List, [], ◌∷◌, Option, none, some, String, ◌≡◌, refl, sym, subst, ◌↔◌,
  arith,
}
use aitrading.Common.Dict.{Dict, lookup}
use aitrading.Common.Maybe.{some-injective}
use aitrading.Common.SortedKeys.{insert_keys, All, All-lookup, everywhere-All}
use aitrading.Common.Floats.{Floats}
use aitrading.Trading.Risk.{RiskEngine, Proposal, force_halt, set_halt}
use aitrading.Trading.Risk.Check.{check_order, is_reducing}
use aitrading.Trading.Risk.Latch.{RiskCall, call_all, is_new_day, has_none, halted_stays}
use aitrading.Trading.Reconciler.{
  InternalState, OpenOrder, BrokerView, signed_orders, FullReconciliationReport, or_zero,
  quantity_at, is_apart, is_off_at, breaks_over, diff_positions, amount_break, order_breaks_of,
  reconcile_full, has_no_breaks, has_no_break, is_consistent_report, run_full, is_off_amount,
  has_no_orders, IsAgreed,
}

module _ (fl : Floats) where
  module _ (tol : fl.Float) (sound : is_apart fl tol (fl.whole 0) (fl.whole 0) ≡ false) where
    breaks_over-empty :
        (internal broker : Dict fl.Float) (keys : List String)
        → (has_no_breaks fl (breaks_over fl tol internal broker keys) ≡ true)
          ↔ All (λ key. is_off_at fl tol internal broker key ≡ false) keys
    unfolding breaks_over
    breaks_over-empty internal broker [] = ((λ _. tt), (λ _. refl))
    breaks_over-empty internal broker (key ∷ keys) =
        ground (arith, breaks_over-empty internal broker keys)

    agrees_at :
        (internal broker : Dict fl.Float) (key : String)
        → All
            (λ key. is_off_at fl tol internal broker key ≡ false)
            (insert_keys internal (insert_keys broker []))
        → (d b : Option fl.Float) → lookup key internal ≡ d
        → lookup key broker ≡ b
        → is_off_at fl tol internal broker key ≡ false
    agrees_at internal broker key h (some d) b ed eb =
        (All-lookup (λ key. is_off_at fl tol internal broker key ≡ false) key d internal
            (insert_keys broker []) h).0
          ed
    agrees_at internal broker key h none (some b) ed eb =
        let P : String → Type 0 = λ key. is_off_at fl tol internal broker key ≡ false in
        let below = (All-lookup P key (fl.whole 0) internal (insert_keys broker []) h).1 in
        (All-lookup P key b broker [] below).0 eb
    agrees_at internal broker key h none none ed eb =
        subst (λ d. is_apart fl tol (or_zero fl d) (quantity_at fl key broker) ≡ false) (sym ed)
          (subst (λ b. is_apart fl tol (fl.whole 0) (or_zero fl b) ≡ false) (sym eb) sound)

    diff_positions-empty :
        (internal broker : Dict fl.Float)
        → (has_no_breaks fl (diff_positions fl tol internal broker) ≡ true)
          ↔ ((key : String) → is_off_at fl tol internal broker key ≡ false)
    unfolding diff_positions
    diff_positions-empty internal broker =
        let keys = insert_keys internal (insert_keys broker []) in
        (
          (λ h key.
              agrees_at internal broker key ((breaks_over-empty internal broker keys).0 h)
                (lookup key internal) (lookup key broker) refl refl),
          (λ h. (breaks_over-empty internal broker keys).1 (everywhere-All _ h keys)),
        )

    order_breaks_of-empty :
        (internal : Dict fl.Float) (orders : Option (List (OpenOrder fl)))
        → (has_no_breaks fl (order_breaks_of fl tol internal orders) ≡ true) ↔ (
            (shown : List (OpenOrder fl))
            → has_no_orders fl internal ≡ false
            → orders ≡ some shown
            → (key : String) → is_off_at fl tol internal (signed_orders fl [] shown) key ≡ false)
    order_breaks_of-empty [] orders = ((λ _ shown n. ground arith), (λ _. refl))
    order_breaks_of-empty (o ∷ internal) none = ((λ _ shown n e. ground arith), (λ _. refl))
    order_breaks_of-empty (o ∷ internal) (some orders) = (
      (λ h shown n e.
          subst
            (λ b.
              (key : String) → is_off_at fl tol (o ∷ internal) (signed_orders fl [] b) key ≡ false)
            (some-injective e)
            ((diff_positions-empty (o ∷ internal) (signed_orders fl [] orders)).0 h)),
      (λ h.
          (diff_positions-empty (o ∷ internal) (signed_orders fl [] orders)).1
            (h orders refl refl)),
    )

  amount_break-none :
      (tol : fl.Float) (name : String) (a : Option fl.Float) (b : fl.Float)
      → (has_no_break fl (amount_break fl name tol a b) ≡ true) ↔ (is_off_amount fl tol a b ≡ false)
  amount_break-none tol name none b = ((λ _. refl), (λ _. refl))
  amount_break-none tol name (some a) b = ground arith

  four_true :
      (a b c d : Bool)
      → ((a && b && c && d) ≡ true) ↔ ((a ≡ true) × (b ≡ true) × (c ≡ true) × (d ≡ true))
  four_true a b c d = ground arith

  -- With tolerances that take zero and zero for the same, the report is consistent exactly if the two views agree: on the
  -- quantity of every key whatever, on the cash and the realized amount where the desk tracks them, and on the open
  -- orders where the desk has any and the broker lists them.
  pub reconcile_full-IsAgreed :
      (tol cash_tol : fl.Float) (s : InternalState fl) (b : BrokerView fl)
      → is_apart fl tol (fl.whole 0) (fl.whole 0) ≡ false
      → (is_consistent_report fl (reconcile_full fl tol cash_tol s b) ≡ true)
        ↔ IsAgreed fl tol cash_tol s b
  unfolding reconcile_full
  reconcile_full-IsAgreed tol cash_tol s b sound =
      let (p, p') = diff_positions-empty tol sound s.positions b.positions in
      let (o, o') = order_breaks_of-empty tol sound s.open_orders b.open_orders in
      let (c, c') = amount_break-none cash_tol "cash" s.cash b.cash in
      let (r, r') = amount_break-none cash_tol "realized_pnl" s.realized_pnl b.realized_pnl in
      (
        (λ h.
            let (hp, hc, hr, ho) = (four_true _ _ _ _).0 h in
            record {
              positions_agree = p hp;
              cash_agrees = c hc;
              pnl_agrees = r hr;
              orders_agree = o ho;
            }),
        (λ t.
            (four_true _ _ _ _).1
              (p' t.positions_agree, c' t.cash_agrees, r' t.pnl_agrees, o' t.orders_agree)),
      )

  run_full-halted :
      (wording : FullReconciliationReport fl → String) (tol cash_tol : fl.Float)
      (s : InternalState fl) (b : BrokerView fl) (e : RiskEngine fl)
      → is_consistent_report fl (reconcile_full fl tol cash_tol s b) ≡ false
      → (run_full fl wording tol cash_tol s b e).1.state.halted ≡ true
  unfolding run_full force_halt set_halt
  run_full-halted wording tol cash_tol s b e h = rw h refl

  -- After `run_full` finds a break, and until a new day starts, the risk engine approves only orders that reduce
  -- the position, whatever other calls come.
  pub check_order-run_full :
      (wording : FullReconciliationReport fl → String) (tol cash_tol : fl.Float)
      (s : InternalState fl) (b : BrokerView fl) (e : RiskEngine fl) (calls : List (RiskCall fl))
      (p : Proposal fl)
      → is_consistent_report fl (reconcile_full fl tol cash_tol s b) ≡ false
      → has_none is_new_day calls ≡ true
      → (check_order p (call_all calls (run_full fl wording tol cash_tol s b e).1)).approved ≡ true
      → is_reducing p ≡ true
  check_order-run_full wording tol cash_tol s b e calls p h n ok =
      halted_stays calls (run_full fl wording tol cash_tol s b e).1 p n
        (run_full-halted wording tol cash_tol s b e h) ok
