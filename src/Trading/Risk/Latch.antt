-- ===== src/Trading/Risk/Latch.antt =====
-- The latches of the engine of src/atp/risk/engine.py over its calls: the kill switch holds until it is reset, a halt
-- until the next day starts.
use aitrading.Common.{
  Bool, true, false, not, ◌&&◌, ◌||◌, List, [], ◌∷◌, String, ◌≡◌, refl, sym, ◌∙◌, subst, Bool-cases,
  inl, inr, arith,
}
use aitrading.Common.Floats.{Floats, max_float}
use aitrading.Trading.Risk.{
  RiskLimits, RiskState, RiskEngine, Proposal, HaltReason, start_new_day, mark_equity, force_halt,
  set_broker_connected, kill_switch, release_kill, update_limits, halt_if_lost, has_lost, set_halt,
  daily_loss, drawdown,
}
use aitrading.Trading.Risk.Check.{check_order, is_reducing}
use aitrading.Trading.Risk.Admissible.{check_order-IsAdmissible}

-- A call of the engine that writes to it.
pub data RiskCall (fl : Floats) : Type 0 where
  start_new_day_call mark_equity_call : fl.Float → RiskCall fl
  force_halt_call kill_switch_call : String → RiskCall fl
  set_broker_connected_call : Bool → RiskCall fl
  reset_kill_call : RiskCall fl
  update_limits_call : List (String × fl.Float) → RiskCall fl

abbrev pub changed_limits : {fl : Floats} → List (String × fl.Float) → RiskEngine fl → RiskEngine fl
unfolding update_limits
changed_limits changes e = record e { limits = (update_limits changes e.limits).1 }

unfoldable pub call : {fl : Floats} → RiskCall fl → RiskEngine fl → RiskEngine fl
unfolding start_new_day mark_equity force_halt set_broker_connected kill_switch release_kill
    update_limits
call (start_new_day_call equity) e = start_new_day equity e
call (mark_equity_call equity) e = mark_equity equity e
call (force_halt_call reason) e = force_halt reason e
call (kill_switch_call reason) e = kill_switch reason e
call (set_broker_connected_call connected) e = set_broker_connected connected e
call reset_kill_call e = release_kill e
call (update_limits_call changes) e = changed_limits changes e

abbrev pub call_all : {fl : Floats} → List (RiskCall fl) → RiskEngine fl → RiskEngine fl
call_all [] e = e
call_all (c ∷ calls) e = call_all calls (call c e)

abbrev pub is_reset : {fl : Floats} → RiskCall fl → Bool
is_reset reset_kill_call = true
is_reset _ = false

abbrev pub is_new_day : {fl : Floats} → RiskCall fl → Bool
is_new_day (start_new_day_call _) = true
is_new_day _ = false

-- No call of the list passes the test.
abbrev pub has_none : {A : Type 0} → (A → Bool) → List A → Bool
has_none f [] = true
has_none f (a ∷ rest) = not (f a) && has_none f rest

halt_if_lost-killed :
    {fl : Floats} (l : RiskLimits fl) (r : fl.Float → fl.Float → HaltReason fl)
    (basis equity limit : fl.Float) (s : RiskState fl)
    → (halt_if_lost l r basis equity limit s).killed ≡ s.killed
unfolding set_halt
halt_if_lost-killed l r basis equity limit s = elim (Bool-cases (has_lost l basis equity limit)) [
  | inl y ↦ rw y refl
  | inr n ↦ rw n refl
]

halt_if_lost-halted :
    {fl : Floats} (l : RiskLimits fl) (r : fl.Float → fl.Float → HaltReason fl)
    (basis equity limit : fl.Float) (s : RiskState fl)
    → s.halted ≡ true
    → (halt_if_lost l r basis equity limit s).halted ≡ true
unfolding set_halt
halt_if_lost-halted l r basis equity limit s h = elim (Bool-cases (has_lost l basis equity limit)) [
  | inl y ↦ rw y refl
  | inr n ↦ rw n h
]

halt_if_lost-lost :
    {fl : Floats} (l : RiskLimits fl) (r : fl.Float → fl.Float → HaltReason fl)
    (basis equity limit : fl.Float) (s : RiskState fl)
    → has_lost l basis equity limit ≡ true
    → (halt_if_lost l r basis equity limit s).halted ≡ true
unfolding set_halt
halt_if_lost-lost l r basis equity limit s h = rw h refl

or_second : (a b : Bool) → (a || b) ≡ true → a ≡ false → b ≡ true
or_second a b h n = ground arith

module _ {fl : Floats} where
  pub call-killed :
      (c : RiskCall fl) (e : RiskEngine fl)
      → is_reset c ≡ false
      → e.state.killed ≡ true
      → (call c e).state.killed ≡ true
  unfolding call start_new_day mark_equity force_halt set_broker_connected kill_switch release_kill
      update_limits set_halt
  call-killed (start_new_day_call _) e n h = h
  call-killed (mark_equity_call equity) e n h =
      halt_if_lost-killed e.limits drawdown _ equity e.limits.max_drawdown_pct _
      ∙ halt_if_lost-killed e.limits daily_loss _ equity e.limits.max_daily_loss_pct _
      ∙ h
  call-killed (force_halt_call _) e n h = h
  call-killed (kill_switch_call _) e n h = refl
  call-killed (set_broker_connected_call _) e n h = h
  call-killed reset_kill_call e n h = ground arith
  call-killed (update_limits_call _) e n h = h

  call-halted :
      (c : RiskCall fl) (e : RiskEngine fl)
      → is_new_day c ≡ false
      → e.state.halted ≡ true
      → (call c e).state.halted ≡ true
  unfolding call start_new_day mark_equity force_halt set_broker_connected kill_switch release_kill
      update_limits set_halt
  call-halted (start_new_day_call _) e n h = ground arith
  call-halted (mark_equity_call equity) e n h =
      halt_if_lost-halted e.limits drawdown _ equity e.limits.max_drawdown_pct _
        (halt_if_lost-halted e.limits daily_loss _ equity e.limits.max_daily_loss_pct _ h)
  call-halted (force_halt_call _) e n h = refl
  call-halted (kill_switch_call _) e n h = h
  call-halted (set_broker_connected_call _) e n h = h
  call-halted reset_kill_call e n h = h
  call-halted (update_limits_call _) e n h = h

  -- A test of the state that each call of a kind keeps is kept by a list of them.
  call_all-kept :
      (f : RiskEngine fl → Bool) (bad : RiskCall fl → Bool)
      → ((c : RiskCall fl) (e : RiskEngine fl) → bad c ≡ false → f e ≡ true → f (call c e) ≡ true)
      → (calls : List (RiskCall fl)) (e : RiskEngine fl) → has_none bad calls ≡ true
      → f e ≡ true
      → f (call_all calls e) ≡ true
  call_all-kept f bad step [] e n h = h
  call_all-kept f bad step (c ∷ calls) e n h = elim (Bool-cases (bad c)) [
    | inl y ↦ ground arith
    | inr b ↦ call_all-kept f bad step calls (call c e) (ground arith) (step c e b h)
  ]

  pub killed-check_order :
      (p : Proposal fl) (e : RiskEngine fl)
      → e.state.killed ≡ true
      → (check_order p e).approved ≡ false
  unfolding check_order
  killed-check_order p e h = rw h refl

  pub halted-check_order :
      (p : Proposal fl) (e : RiskEngine fl)
      → e.state.halted ≡ true
      → (check_order p e).approved ≡ true
      → is_reducing p ≡ true
  halted-check_order p e h ok = elim ((check_order-IsAdmissible p e).0 ok).risk [
    | inl r ↦ r
    | inr t ↦ ground arith
  ]

  -- After `kill_switch` and any calls but `reset_kill`, the engine approves no order, not even one that reduces
  -- a position.
  pub check_order-kill_switch :
      (reason : String) (e : RiskEngine fl) (calls : List (RiskCall fl)) (p : Proposal fl)
      → has_none is_reset calls ≡ true
      → (check_order p (call_all calls (kill_switch reason e))).approved ≡ false
  unfolding kill_switch
  check_order-kill_switch reason e calls p n =
      killed-check_order p (call_all calls (kill_switch reason e)) (
        call_all-kept (λ e. e.state.killed) is_reset call-killed calls (kill_switch reason e) n
          refl)

  pub halted_stays :
      (calls : List (RiskCall fl)) (e : RiskEngine fl) (p : Proposal fl)
      → has_none is_new_day calls ≡ true
      → e.state.halted ≡ true
      → (check_order p (call_all calls e)).approved ≡ true
      → is_reducing p ≡ true
  halted_stays calls e p n h =
      halted-check_order p (call_all calls e)
        (call_all-kept (λ e. e.state.halted) is_new_day call-halted calls e n h)

  -- The equity is at or below the limit of the daily loss, or of the drawdown from the peak.
  abbrev pub is_at_limit_loss : RiskEngine fl → fl.Float → Bool
  is_at_limit_loss e equity =
      has_lost e.limits e.state.day_start_equity equity e.limits.max_daily_loss_pct
      || has_lost e.limits (max_float fl e.state.peak_equity equity) equity
          e.limits.max_drawdown_pct

  halt_if_lost-peak :
      (l : RiskLimits fl) (r : fl.Float → fl.Float → HaltReason fl) (basis equity limit : fl.Float)
      (s : RiskState fl)
      → (halt_if_lost l r basis equity limit s).peak_equity ≡ s.peak_equity
  unfolding set_halt
  halt_if_lost-peak l r basis equity limit s = elim (Bool-cases (has_lost l basis equity limit)) [
    | inl y ↦ rw y refl
    | inr n ↦ rw n refl
  ]

  mark_equity-halted :
      (equity : fl.Float) (e : RiskEngine fl)
      → is_at_limit_loss e equity ≡ true
      → (mark_equity equity e).state.halted ≡ true
  unfolding mark_equity
  mark_equity-halted equity e h =
      let s = record e.state { peak_equity = max_float fl e.state.peak_equity equity } in
      elim (Bool-cases
        (has_lost e.limits e.state.day_start_equity equity e.limits.max_daily_loss_pct)) [
          | inl y ↦
              halt_if_lost-halted e.limits drawdown _ equity e.limits.max_drawdown_pct _
                (halt_if_lost-lost e.limits daily_loss _ equity e.limits.max_daily_loss_pct _ y)
          | inr n ↦ halt_if_lost-lost e.limits drawdown _ equity e.limits.max_drawdown_pct _ (
              subst (λ b. has_lost e.limits b equity e.limits.max_drawdown_pct ≡ true)
                (sym (
                  halt_if_lost-peak e.limits daily_loss e.state.day_start_equity equity
                    e.limits.max_daily_loss_pct s))
                (or_second _ _ h n))
        ]

  -- Once `mark_equity` sees an equity whose loss against the day's start or the peak, as a share of a capital above zero,
  -- reaches its limit, and until a new day starts, the engine approves only orders that reduce the position, whatever
  -- other calls come.
  pub check_order-mark_equity :
      (equity : fl.Float) (e : RiskEngine fl) (calls : List (RiskCall fl)) (p : Proposal fl)
      → is_at_limit_loss e equity ≡ true
      → has_none is_new_day calls ≡ true
      → (check_order p (call_all calls (mark_equity equity e))).approved ≡ true
      → is_reducing p ≡ true
  check_order-mark_equity equity e calls p h n ok =
      halted_stays calls (mark_equity equity e) p n (mark_equity-halted equity e h) ok
