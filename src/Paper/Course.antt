-- ===== src/Paper/Course.antt =====
-- The course of a first commit of a fill that succeeded: what each of its stages returned.
use aitrading.Common.{false, Option, none, some, ◌≡◌, refl, sym, ap, ◌∙◌, subst, ◌⊎◌, inl, inr}
use aitrading.Paper.Orders.{PaperOrderRow}
use aitrading.Paper.Runs.{PaperRunRow}
use aitrading.Paper.Money.{ok, ok-injective, >>=-ok}
use aitrading.Paper.Config.{PaperConfig, ParsedConfig, paper_config}
use aitrading.Paper.Tables.{PaperLedger, PaperFillRow}
use aitrading.Paper.Fill.{
  Extern, Clock, Gate, gate_fill, Admitted, commit_paper_fill_atomic, settle_fill,
}
use aitrading.Paper.Fill.Request.{
  FillRequest, FillTerms, FillCommitResult, checked_fill, fill_of, existing_fill_result,
}
use aitrading.Paper.Fill.Admit.{kill_row, admit_risk, bound_account}
use aitrading.Paper.Fill.Market.{trading_day, attest_market}
use aitrading.Paper.Fill.Project.{
  Exposure, Books, DayOutcome, holding_of, check_books, exposure, day_fills, check_activity,
  books_after, day_after,
}
use aitrading.Paper.Fill.Write.{is_refused, committed_rows, written}
use aitrading.Paper.Commit.{commit-stages, fresh-stages, fresh_commit-stages}
use aitrading.Paper.Stages.{project-stages, decided}
use aitrading.Paper.Admission.{admit-stages, gate-stages, bound_config-ok}

pub record Course (x : Extern) (clock : Clock) (r : FillTerms) (l : PaperLedger)
    (rows : FillCommitResult) (l' : PaperLedger) : Type 0 where
  pub run : PaperRunRow
  pub order : PaperOrderRow
  pub gate : Gate
  pub parsed : ParsedConfig
  pub admitted : Admitted
  pub exposed : Exposure
  pub books : Books
  pub outcome : DayOutcome
  pub found : l.runs r.run_id ≡ some run
  pub stored : l.orders r.client_order_id ≡ some order
  pub gated : gate_fill x.codec r run order l ≡ ok gate
  pub config : paper_config x.codec run.config_json ≡ ok parsed
  pub gate_config : gate.config ≡ parsed.config
  pub same_config : admitted.config ≡ parsed.config
  pub named : r.instrument ≡ parsed.config.instrument
  pub risk : admit_risk x.is_stripped x.token run order gate.config l ≡ ok admitted.risk
  pub account : bound_account r.run_id gate.config l ≡ ok admitted.account
  pub day : trading_day r.side admitted.risk.capital clock.candidate l ≡ ok admitted.day
  pub market : attest_market r gate.config gate.prepared clock.candidate clock.commit l ≡ ok tt
  pub checked_books :
      check_books r admitted.account (holding_of (l.positions r.run_id r.instrument)) ≡ ok tt
  pub exposure_eq :
      exposure r admitted.config (holding_of (l.positions r.run_id r.instrument)) ≡ ok exposed
  pub active :
      check_activity r admitted.config exposed.notional
        (day_fills r.run_id admitted.day.date l.orders l.fills)
      ≡ ok tt
  pub books_eq :
      books_after r admitted.account (holding_of (l.positions r.run_id r.instrument)) exposed
      ≡ ok books
  pub outcome_eq : day_after r admitted.risk admitted.day admitted.account books ≡ ok outcome
  pub free : is_refused r l ≡ false
  pub rows_eq : rows ≡ committed_rows r clock.commit (decided r order admitted l books outcome) l
  pub written_eq :
      l'
      ≡ written x.event_hash x.reason_text r clock.commit
          (decided r order admitted l books outcome)
          l

pub first_commit :
    (x : Extern) (clock : Clock) (q : FillRequest) (r : FillTerms) (l : PaperLedger)
    (rows : FillCommitResult) (l' : PaperLedger)
    → checked_fill q ≡ ok r
    → fill_of r.client_order_id l.fills ≡ none
    → commit_paper_fill_atomic x clock q l ≡ ok (rows, l')
    → Course x clock r l rows l'
first_commit x clock q r l rows l' checked fresh h =
    let (run, order, found, stored, went) =
      fresh_commit-stages x clock q r l rows l' checked fresh h in
    let (a, d, admitted, projected, free, rows_eq, written_eq) =
      fresh-stages x clock r run order l rows l' went in
    let (e, books, o, booked, exposed, active, after, outcome, decided_eq) =
      project-stages r order a l d projected in
    let (g, gated, config, risk, owned, opened, market) =
      admit-stages x clock r run order l a admitted in
    let (_, _, _, _, bound, _) = gate-stages x.codec r run order l g gated in
    let (p, parsed, named, instrument) = bound_config-ok x.codec r.instrument run g.config bound in
    record {
      run = run;
      order = order;
      gate = g;
      parsed = p;
      admitted = a;
      exposed = e;
      books = books;
      outcome = o;
      found = found;
      stored = stored;
      gated = gated;
      config = parsed;
      gate_config = sym named;
      same_config = config ∙ sym named;
      named = instrument ∙ ap (λ (c : PaperConfig). c.instrument) (sym named);
      risk = risk;
      account = owned;
      day = opened;
      market = market;
      checked_books = booked;
      exposure_eq = exposed;
      active = active;
      books_eq = after;
      outcome_eq = outcome;
      free = free;
      rows_eq = rows_eq ∙ ap (λ d. committed_rows r clock.commit d l) decided_eq;
      written_eq =
          written_eq ∙ ap (λ d. written x.event_hash x.reason_text r clock.commit d l) decided_eq;
    }

-- Only the kill row is written, if it was missing.
abbrev pub with_kill_row : PaperLedger → PaperLedger
with_kill_row l = record l { kill_switch = some (kill_row l.kill_switch) }

settle-repeated :
    (x : Extern) (clock : Clock) (r : FillTerms) (run : PaperRunRow) (order : PaperOrderRow)
    (f : PaperFillRow) (l : PaperLedger) (rows : FillCommitResult) (l' : PaperLedger)
    → settle_fill x clock r run order (some f) l ≡ ok (rows, l')
    → l' ≡ with_kill_row l
unfolding settle_fill
settle-repeated x clock r run order f l rows l' h =
    let (_, _, e) = >>=-ok (existing_fill_result r order f l) _ (rows, l') h in
    sym (ap (λ p. p.1) (ok-injective e))

-- A commit that succeeds is a first one, or one that changes no table but the kill row's.
pub commit-cases :
    (x : Extern) (clock : Clock) (q : FillRequest) (l : PaperLedger) (rows : FillCommitResult)
    (l' : PaperLedger)
    → commit_paper_fill_atomic x clock q l ≡ ok (rows, l')
    → (r : FillTerms) × (checked_fill q ≡ ok r)
      × (Course x clock r l rows l' ⊎ (l' ≡ with_kill_row l))
commit-cases x clock q l rows l' h =
    let (r, run, order, checked, found, stored, settled) = commit-stages x clock q l rows l' h in
    (r, checked, by_fill r run order checked settled (fill_of r.client_order_id l.fills) refl)
  where
    by_fill :
        (r : FillTerms) (run : PaperRunRow) (order : PaperOrderRow)
        → checked_fill q ≡ ok r
        → settle_fill x clock r run order (fill_of r.client_order_id l.fills) l ≡ ok (rows, l')
        → (old : Option PaperFillRow) → fill_of r.client_order_id l.fills ≡ old
        → Course x clock r l rows l' ⊎ (l' ≡ with_kill_row l)
    by_fill r run order checked settled none fresh =
        inl (first_commit x clock q r l rows l' checked fresh h)
    by_fill r run order checked settled (some f) stored = inr (
        settle-repeated x clock r run order f l rows l'
          (subst (λ o. settle_fill x clock r run order o l ≡ ok (rows, l')) stored settled))
