-- ===== src/Paper/Admission.antt =====
-- What holds of a fill that was admitted.
use text.Mathlib.Text.{◌==◌ as str_eq}
use text.Mathlib.TextEquality.{eq_iff}
use aitrading.Common.{
  ℕ, Bool, true, false, not, ◌||◌, ◌&&◌, some, String, ◌≡◌, refl, sym, ap, subst, arith,
}
use aitrading.Common.Int.{ℤ, eqb_ℤ, eq_of_parts, ltb_ℤ}
use aitrading.Runtime.Status.{same}
use aitrading.Runtime.Status.{running as runtime_running}
use aitrading.Runtime.Positions.{Side}
use aitrading.Paper.Orders.{PaperOrderRow, authorized, same_state}
use aitrading.Paper.Runs.{PaperRunRow, running, same_status}
use aitrading.Paper.Money.{ok, >>=-ok, raise_if-ok, ok-injective, or_fail-ok, or_fail, one}
use aitrading.Paper.Config.{Codec, PaperConfig, ParsedConfig, paper_config}
use aitrading.Paper.Tables.{PaperLedger, PaperAccountRow, RuntimeBinding, is_buy, holds, day_of}
use aitrading.Paper.Fill.{Extern, Clock, Gate, gate_fill, Admitted, admit_fill}
use aitrading.Paper.Fill.Request.{FillTerms}
use aitrading.Paper.Fill.Admit.{
  RiskBounds, admit_runtime, prepared_time, admit_order, bound_config, admit_terms, admit_risk,
  bound_account, kill_row, is_off,
}
use aitrading.Paper.Risk.{RiskTerms, risk_checksum, risk_capital, max_loss_pct, exact_positive}
use aitrading.Paper.Fill.Market.{TradingDay, trading_day, attest_market, lock_row, loss_row}

pub gate-stages :
    (codec : Codec) (r : FillTerms) (run : PaperRunRow) (order : PaperOrderRow) (l : PaperLedger)
    (g : Gate)
    → gate_fill codec r run order l ≡ ok g
    → (runtime : RuntimeBinding) × (admit_runtime r l ≡ ok runtime)
      × (prepared_time r.side runtime.prepared_at ≡ ok g.prepared)
      × (admit_order r run order ≡ ok tt)
      × (bound_config codec r.instrument run ≡ ok g.config)
      × (admit_terms r g.config order ≡ ok tt)
unfolding gate_fill
gate-stages codec r run order l g h =
    let (runtime, alive, h1) = >>=-ok (admit_runtime r l) _ g h in
    let (prepared, dated, h2) = >>=-ok (prepared_time r.side runtime.prepared_at) _ g h1 in
    let (_, ordered, h3) = >>=-ok (admit_order r run order) _ g h2 in
    let (c, bound, h4) = >>=-ok (bound_config codec r.instrument run) _ g h3 in
    let (_, terms, h5) = >>=-ok (admit_terms r c order) _ g h4 in
    let e = ok-injective h5 in
    (
      runtime,
      alive,
      subst (λ g. prepared_time r.side runtime.prepared_at ≡ ok g.prepared) e dated,
      ordered,
      subst (λ g. bound_config codec r.instrument run ≡ ok g.config) e bound,
      subst (λ g. admit_terms r g.config order ≡ ok tt) e terms,
    )

pub admit-stages :
    (x : Extern) (clock : Clock) (r : FillTerms) (run : PaperRunRow) (order : PaperOrderRow)
    (l : PaperLedger) (a : Admitted)
    → admit_fill x clock r run order l ≡ ok a
    → (g : Gate) × (gate_fill x.codec r run order l ≡ ok g)
      × (a.config ≡ g.config)
      × (admit_risk x.is_stripped x.token run order g.config l ≡ ok a.risk)
      × (bound_account r.run_id g.config l ≡ ok a.account)
      × (trading_day r.side a.risk.capital clock.candidate l ≡ ok a.day)
      × (attest_market r g.config g.prepared clock.candidate clock.commit l ≡ ok tt)
unfolding admit_fill
admit-stages x clock r run order l a h =
    let (g, gated, h1) = >>=-ok (gate_fill x.codec r run order l) _ a h in
    let (risk, limits, h2) =
      >>=-ok (admit_risk x.is_stripped x.token run order g.config l) _ a h1 in
    let (account, owned, h3) = >>=-ok (bound_account r.run_id g.config l) _ a h2 in
    let (day, opened, h4) = >>=-ok (trading_day r.side risk.capital clock.candidate l) _ a h3 in
    let (_, attested, h5) =
      >>=-ok (attest_market r g.config g.prepared clock.candidate clock.commit l) _ a h4 in
    let e = ok-injective h5 in
    (
      g,
      gated,
      sym (ap (λ a. a.config) e),
      subst (λ a. admit_risk x.is_stripped x.token run order g.config l ≡ ok a.risk) e limits,
      subst (λ a. bound_account r.run_id g.config l ≡ ok a.account) e owned,
      subst (λ a. trading_day r.side a.risk.capital clock.candidate l ≡ ok a.day) e opened,
      attested,
    )

-- The runtime is RUNNING for the run, with the kill switch off.
pub admit_runtime-ok :
    (r : FillTerms) (l : PaperLedger) (runtime : RuntimeBinding)
    → admit_runtime r l ≡ ok runtime
    → (l.runtime ≡ some runtime)
      × (same runtime.status runtime_running ≡ true)
      × (holds runtime.run_id r.run_id ≡ true)
      × (kill_row l.kill_switch ≡ false)
unfolding admit_runtime
admit_runtime-ok r l runtime h = ground arith

pub admit_order-ok :
    (r : FillTerms) (run : PaperRunRow) (order : PaperOrderRow)
    → admit_order r run order ≡ ok tt
    → (same_status run.status running ≡ true)
      × (str_eq order.run_id r.run_id ≡ true)
      × (same_state order.state authorized ≡ true)
      × (order.version ≡ r.expected_order_version)
unfolding admit_order
admit_order-ok r run order h = ground arith

-- The multiplier is one.
pub admit_terms-multiplier :
    (r : FillTerms) (c : PaperConfig) (order : PaperOrderRow)
    → admit_terms r c order ≡ ok tt
    → r.multiplier ≡ one
unfolding admit_terms
admit_terms-multiplier r c order h = eq_of_parts _ _ (ground arith)

same_name : (s t : String) → not (str_eq s t) ≡ false → s ≡ t
same_name s t h = ground (arith, eq_iff s t)

same_amount : (a b : ℤ) → not (eqb_ℤ a b) ≡ false → a ≡ b
same_amount a b h = eq_of_parts a b (ground arith)

-- The instrument is the one of the run's configuration.
pub bound_config-ok :
    (codec : Codec) (instrument : String) (run : PaperRunRow) (c : PaperConfig)
    → bound_config codec instrument run ≡ ok c
    → (p : ParsedConfig) × (paper_config codec run.config_json ≡ ok p)
      × (p.config ≡ c)
      × (instrument ≡ c.instrument)
unfolding bound_config
bound_config-ok codec instrument run c h =
    let (p, parsed, h1) = >>=-ok (paper_config codec run.config_json) _ c h in
    let (_, h2) = raise_if-ok _ _ _ c h1 in
    let (named, h3) =
      raise_if-ok (not (str_eq instrument p.config.instrument)) _ (ok p.config) c h2 in
    let e = ok-injective h3 in
    (
      p,
      parsed,
      e,
      subst (λ d. instrument ≡ d.instrument) e (same_name instrument p.config.instrument named),
    )

pub bound_account-ok :
    (run_id : String) (c : PaperConfig) (l : PaperLedger) (a : PaperAccountRow)
    → bound_account run_id c l ≡ ok a
    → (l.accounts run_id ≡ some a) × (a.starting_cash ≡ c.starting_cash)
unfolding bound_account
bound_account-ok run_id c l a h =
    let (b, found, h1) = >>=-ok (or_fail (l.accounts run_id) _) _ a h in
    let (capital, h2) = raise_if-ok (not (eqb_ℤ b.starting_cash c.starting_cash)) _ (ok b) a h1 in
    (
      subst (λ b. l.accounts run_id ≡ some b) (ok-injective h2) (or_fail-ok _ _ b found),
      subst (λ b. b.starting_cash ≡ c.starting_cash) (ok-injective h2)
          (same_amount b.starting_cash c.starting_cash capital),
    )

-- The rows of the day.
pub trading_day-ok :
    (side : Side) (capital : ℤ) (candidate : ℕ) (l : PaperLedger) (day : TradingDay)
    → trading_day side capital candidate l ≡ ok day
    → (day.date ≡ day_of candidate)
      × (day.lock ≡ lock_row candidate (l.loss_locks (day_of candidate)))
      × (day.losses ≡ loss_row capital candidate (l.daily_losses (day_of candidate)))
      × (day.losses.cumulative_equity_delta ≡ some day.equity_delta)
      × (day.capital ≡ capital)
      × ((day.lock.engaged && is_buy side) ≡ false)
unfolding trading_day
trading_day-ok side capital candidate l day h =
    let lock = lock_row candidate (l.loss_locks (day_of candidate)) in
    let losses = loss_row capital candidate (l.daily_losses (day_of candidate)) in
    let (open_lock, h1) = raise_if-ok (lock.engaged && is_buy side) _ _ day h in
    let (baseline, _, h2) = >>=-ok (exact_positive losses.risk_capital_baseline _) _ day h1 in
    let (delta, summed, h3) = >>=-ok (or_fail losses.cumulative_equity_delta _) _ day h2 in
    let (kept, h4) = raise_if-ok (not (eqb_ℤ baseline capital)) _ _ day h3 in
    subst
      (λ (day : TradingDay).
        (day.date ≡ day_of candidate)
        × (day.lock ≡ lock_row candidate (l.loss_locks (day_of candidate)))
        × (day.losses ≡ loss_row capital candidate (l.daily_losses (day_of candidate)))
        × (day.losses.cumulative_equity_delta ≡ some day.equity_delta)
        × (day.capital ≡ capital)
        × ((day.lock.engaged && is_buy side) ≡ false))
      (ok-injective h4)
      (refl, refl, refl, or_fail-ok _ _ delta summed, same_amount baseline capital kept, open_lock)

-- The limits are read from the risk configuration.
pub admit_risk-ok :
    (is_stripped : String → Bool) (token : RiskTerms → String) (run : PaperRunRow)
    (order : PaperOrderRow) (c : PaperConfig) (l : PaperLedger) (b : RiskBounds)
    → admit_risk is_stripped token run order c l ≡ ok b
    → (risk_capital l ≡ ok b.capital) × (max_loss_pct l ≡ ok b.loss_pct)
unfolding admit_risk
admit_risk-ok is_stripped token run order c l b h =
    let (state, _, h1) = >>=-ok (or_fail l.risk_state _) _ b h in
    let (_, h2) = raise_if-ok (is_off state) _ _ b h1 in
    let (current, _, h3) = >>=-ok (risk_checksum is_stripped token l) _ b h2 in
    let (_, h4) =
      raise_if-ok
        (not (str_eq current run.risk_config_checksum)
          || not (str_eq order.risk_config_checksum run.risk_config_checksum))
        _ _ b h3 in
    let (capital, c_eq, h5) = >>=-ok (risk_capital l) _ b h4 in
    let (_, h6) = raise_if-ok (ltb_ℤ capital c.starting_cash) _ _ b h5 in
    let (pct, p_eq, h7) = >>=-ok (max_loss_pct l) _ b h6 in
    (
      subst (λ (b : RiskBounds). risk_capital l ≡ ok b.capital) (ok-injective h7) c_eq,
      subst (λ (b : RiskBounds). max_loss_pct l ≡ ok b.loss_pct) (ok-injective h7) p_eq,
    )
