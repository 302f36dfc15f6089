-- ===== src/Paper/Guards.antt =====
-- The state of the runtime, the run and the order that a first commit of a fill asks for.
use text.Mathlib.Text.{◌==◌ as str_eq}
use aitrading.Common.{◌+◌, true, false, none, some, ◌≡◌, ap, ◌∙◌}
use aitrading.Runtime.Status.{same}
use aitrading.Runtime.Status.{running as runtime_running}
use aitrading.Paper.Orders.{PaperOrderRow, authorized, filled, same_state}
use aitrading.Paper.Runs.{PaperRunRow, running, same_status}
use aitrading.Paper.Money.{ok}
use aitrading.Paper.Tables.{PaperLedger, RuntimeBinding, holds}
use aitrading.Paper.Fill.{Extern, Clock, commit_paper_fill_atomic}
use aitrading.Paper.Fill.Request.{FillRequest, FillTerms, FillCommitResult, checked_fill, fill_of}
use aitrading.Paper.Fill.Admit.{kill_row}
use aitrading.Paper.Fill.Write.{committed_rows, Decided}
use aitrading.Paper.Commit.{fresh-stages, fresh_commit-stages}
use aitrading.Paper.Stages.{project-stages}
use aitrading.Paper.Admission.{admit-stages, gate-stages, admit_runtime-ok, admit_order-ok}

-- A fill that is not stored is committed only while the runtime is RUNNING for its run with the kill switch off, the
-- run is RUNNING, and the order is the run's and AUTHORIZED at the version given. The order is then FILLED, at
-- the next version, with the broker's identifier and the fill's time.
pub commit-Guards :
    (x : Extern) (clock : Clock) (q : FillRequest) (r : FillTerms) (l : PaperLedger)
    (rows : FillCommitResult) (l' : PaperLedger)
    → checked_fill q ≡ ok r
    → fill_of r.client_order_id l.fills ≡ none
    → commit_paper_fill_atomic x clock q l ≡ ok (rows, l')
    → (runtime : RuntimeBinding) × (run : PaperRunRow) × (order : PaperOrderRow) × (l.runtime
        ≡ some runtime)
      × (same runtime.status runtime_running ≡ true)
      × (holds runtime.run_id r.run_id ≡ true)
      × (kill_row l.kill_switch ≡ false)
      × (l.runs r.run_id ≡ some run)
      × (same_status run.status running ≡ true)
      × (l.orders r.client_order_id ≡ some order)
      × (str_eq order.run_id r.run_id ≡ true)
      × (same_state order.state authorized ≡ true)
      × (order.version ≡ r.expected_order_version)
      × (rows.order.state ≡ filled)
      × (rows.order.version ≡ r.expected_order_version + 1)
      × (rows.order.broker_order_id ≡ some r.broker_order_id)
      × (rows.order.terminal_at ≡ some r.ts)
unfolding committed_rows
commit-Guards x clock q r l rows l' checked fresh h =
    let (run, order, found, stored, went) =
      fresh_commit-stages x clock q r l rows l' checked fresh h in
    let (a, d, admitted, projected, _, rows_eq, _) =
      fresh-stages x clock r run order l rows l' went in
    let (_, b, o, _, _, _, _, _, decided_eq) = project-stages r order a l d projected in
    let (g, gated, _, _, _, _, _) = admit-stages x clock r run order l a admitted in
    let (runtime, alive, _, ordered, _, _) = gate-stages x.codec r run order l g gated in
    let (bound, status, holder, off) = admit_runtime-ok r l runtime alive in
    let (active, owned, open_order, version) = admit_order-ok r run order ordered in
    let same_order = ap (λ (d : Decided). d.order.version) decided_eq in
    (
      runtime,
      run,
      order,
      bound,
      status,
      holder,
      off,
      found,
      active,
      stored,
      owned,
      open_order,
      version,
      ap (λ rows. rows.order.state) rows_eq,
      ap (λ rows. rows.order.version) rows_eq ∙ ap (λ n. n + 1) (same_order ∙ version),
      ap (λ rows. rows.order.broker_order_id) rows_eq,
      ap (λ rows. rows.order.terminal_at) rows_eq,
    )
