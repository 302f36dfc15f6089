-- ===== src/Trading/Risk/Admissible.antt =====
-- The controls of `check_order` of src/atp/risk/engine.py as one predicate.
use aitrading.Common.{Bool, true, false, not, ◌≡◌, refl, ◌↔◌, ◌⊎◌, inl, inr, if◌then◌else◌, arith}
use aitrading.Common.Floats.{Floats}
use aitrading.Trading.Risk.{
  RiskLimits, RiskState, RiskEngine, Proposal, RiskDecision, Reason, veto, approve, position_cap,
  leverage_cap, open_positions_cap, trade_risk_cap, daily_budget_cap, correlation_cap,
  within_limits, killed, disconnected, invalid_price, reducing, halted, no_equity,
}
use aitrading.Trading.Risk.Check.{
  check_caps, check_order, is_reducing, capital_of_order, IsWithinCaps, IsAdmissible,
}

-- A control with the decision that is left where it does not strike.
abbrev pub guarded : Bool → Reason → RiskDecision → RiskDecision
guarded bad r d = if bad then veto r else d

guarded-passed :
    (bad : Bool) (r : Reason) (d : RiskDecision)
    → (guarded bad r d).approved ≡ true
    → (bad ≡ false) × (d.approved ≡ true)
guarded-passed true r d h = ground arith
guarded-passed false r d h = (refl, h)

guarded-pass :
    (bad : Bool) (r : Reason) (d : RiskDecision)
    → bad ≡ false
    → d.approved ≡ true
    → (guarded bad r d).approved ≡ true
guarded-pass bad r d e h = rw e h

module _ {fl : Floats} (p : Proposal fl) (l : RiskLimits fl) (s : RiskState fl) where
  check_caps-IsWithinCaps : (check_caps p l s).approved ≡ true → IsWithinCaps p l s
  unfolding check_caps
  check_caps-IsWithinCaps h =
      let (a, h1) = guarded-passed _ position_cap _ h in
      let (b, h2) = guarded-passed _ leverage_cap _ h1 in
      let (c, h3) = guarded-passed _ open_positions_cap _ h2 in
      let (d, h4) = guarded-passed _ trade_risk_cap _ h3 in
      let (e, h5) = guarded-passed _ daily_budget_cap _ h4 in
      let (f, _) = guarded-passed _ correlation_cap _ h5 in
      record {
        position = a;
        leverage = b;
        open_positions = c;
        one_trade = d;
        budget = e;
        correlation = f;
      }

  IsWithinCaps-check_caps : IsWithinCaps p l s → (check_caps p l s).approved ≡ true
  unfolding check_caps
  IsWithinCaps-check_caps w = guarded-pass _ position_cap _ w.position (
      guarded-pass _ leverage_cap _ w.leverage (
        guarded-pass _ open_positions_cap _ w.open_positions (
          guarded-pass _ trade_risk_cap _ w.one_trade (
            guarded-pass _ daily_budget_cap _ w.budget
              (guarded-pass _ correlation_cap (approve within_limits) w.correlation refl)))))

module _ {fl : Floats} (p : Proposal fl) (e : RiskEngine fl) where
  abbrev rest : RiskDecision
  rest = guarded e.state.halted halted (
      guarded (fl.less_or_equal (capital_of_order p e.limits e.state) (fl.whole 0)) no_equity
        (check_caps p e.limits e.state))

  rest-approved : rest.approved ≡ true ↔ (
      (e.state.halted ≡ false)
      × (fl.less_or_equal (capital_of_order p e.limits e.state) (fl.whole 0) ≡ false)
      × IsWithinCaps p e.limits e.state)
  rest-approved = (
    (λ h.
        let (a, h1) = guarded-passed _ halted _ h in
        let (b, h2) = guarded-passed _ no_equity _ h1 in
        (a, b, check_caps-IsWithinCaps p e.limits e.state h2)),
    (λ t.
        guarded-pass _ halted _ t.0
          (guarded-pass _ no_equity _ t.1 (IsWithinCaps-check_caps p e.limits e.state t.2))),
  )

  either_approved :
      (b : Bool)
      → (if b then approve reducing else rest).approved ≡ true
      → (b ≡ true) ⊎ (rest.approved ≡ true)
  either_approved true h = inl refl
  either_approved false h = inr h

  approved_either :
      (b : Bool)
      → (b ≡ true) ⊎ (rest.approved ≡ true)
      → (if b then approve reducing else rest).approved ≡ true
  approved_either true h = refl
  approved_either false (inl h) = ground arith
  approved_either false (inr h) = h

  not_iff : (b : Bool) → not b ≡ false ↔ b ≡ true
  not_iff b = ground arith

  -- An order is approved exactly if the engine is not killed, the broker is connected, the price is finite and
  -- positive, and the order reduces the position or, with no halt and a positive capital, stays within the caps
  -- on the position, the leverage, the open positions, the risk of the trade, the rest of the day's loss budget and
  -- the correlated exposure.
  pub check_order-IsAdmissible : ((check_order p e).approved ≡ true) ↔ IsAdmissible p e
  unfolding check_order
  check_order-IsAdmissible = (
    (λ h.
        let (a, h1) = guarded-passed _ killed _ h in
        let (b, h2) = guarded-passed _ disconnected _ h1 in
        let (c, h3) = guarded-passed _ invalid_price _ h2 in
        record {
          alive = a;
          connected = (not_iff e.state.broker_connected).0 b;
          priced = c;
          risk = elim (either_approved (is_reducing p) h3) [
            | inl r ↦ inl r
            | inr r ↦ inr (rest-approved.0 r)
          ];
        }),
    (λ t. guarded-pass _ killed _ t.alive (
        guarded-pass _ disconnected _ ((not_iff e.state.broker_connected).1 t.connected) (
          guarded-pass _ invalid_price _ t.priced (
            approved_either (is_reducing p)
              (elim t.risk [ inl r ↦ inl r | inr r ↦ inr (rest-approved.1 r) ]))))),
  )
