-- ===== src/Paper/Opening/Fresh.antt =====
-- The books of a run that is created, src/atp/store/base.py.
use text.Mathlib.Text.{◌==◌ as str_eq}
use aitrading.Common.{
  ℕ, Bool, Option, none, some, String, ◌≡◌, refl, sym, ap, ◌∙◌, subst, Bool-cases, inl, inr, arith,
}
use aitrading.Common.Int.{ℤ, pos, ◌*ℤ◌, +ℤ-zero}
use aitrading.Paper.Runs.{PaperRunRow}
use aitrading.Paper.Money.{ok, >>=-ok, raise_if-ok, ok-injective}
use aitrading.Paper.Config.{Codec}
use aitrading.Paper.Tables.{PaperLedger, PaperAccountRow, PaperPositionRow, put}
use aitrading.Paper.Risk.{RiskTerms}
use aitrading.Paper.Keys.{put_same, put_other, str_same}
use aitrading.Paper.Books.{Kept, IsWellKept}
use aitrading.Paper.Replay.{CashOf, cash_flow, sum_over, IsReplayed, scale}
use aitrading.Paper.Opening.{
  RunCreation, OpeningTerms, checked_opening, admit_opening, admit_capital, new_run, new_account,
  bound, open_run, differs_run, create_paper_run,
}

-- The tables are well kept, and are what the fills add up to.
abbrev pub IsSound : Codec → PaperLedger → Type 0
IsSound codec l = IsWellKept codec l × IsReplayed l

-- A run that is missing has no account and no position.
Kept-new :
    (codec : Codec) (i : String) (account after : Option PaperAccountRow)
    (position : Option PaperPositionRow) (run : PaperRunRow)
    → Kept codec i none account position
    → (account ≡ none) × Kept codec i (some run) after position
Kept-new codec i none after none run k = (refl, tt)
Kept-new codec i none after (some p) run k = absurd k
Kept-new codec i (some a) after none run k = absurd k
Kept-new codec i (some a) after (some p) run k = absurd k

open_run-new_IsSound :
    (codec : Codec) (q : RunCreation) (run : PaperRunRow) (cash : ℤ) (now : ℕ) (l : PaperLedger)
    → l.runs q.run_id ≡ none
    → IsSound codec l
    → IsSound codec (record l {
      runs = put q.run_id (some run) l.runs;
      slot_holder = some q.run_id;
      accounts = put q.run_id (some (new_account q.run_id cash now)) l.accounts;
    })
unfolding IsWellKept IsReplayed
open_run-new_IsSound codec q run cash now l missing sound =
    (λ j m. well_kept j m, λ j m. (cash_of j m, (sound.1 j m).1))
  where
    account : PaperAccountRow
    account = new_account q.run_id cash now

    fresh :
        (m : String)
        → (l.accounts q.run_id ≡ none)
          × Kept codec m (some run) (some account) (l.positions q.run_id m)
    fresh m = Kept-new codec m (l.accounts q.run_id) (some account) (l.positions q.run_id m) run (
        subst (λ r. Kept codec m r (l.accounts q.run_id) (l.positions q.run_id m)) missing
          (sound.0 q.run_id m))

    well_kept :
        (j m : String)
        → Kept codec m
            (put q.run_id (some run) l.runs j)
            (put q.run_id (some account) l.accounts j)
            (l.positions j m)
    well_kept j m = elim (Bool-cases (str_eq q.run_id j)) [
      | inl same ↦
          subst
            (λ j.
              Kept codec m (put q.run_id (some run) l.runs j)
                (put q.run_id (some account) l.accounts j) (l.positions j m))
            (str_same q.run_id j same)
            (rw (put_same q.run_id (some run) l.runs, put_same q.run_id (some account) l.accounts)
              (fresh m).1)
      | inr other ↦
          rw
            (
              put_other q.run_id j (some run) l.runs other,
              put_other q.run_id j (some account) l.accounts other,
            )
            (sound.0 j m)
    ]

    no_flows : sum_over cash_flow q.run_id l.orders l.fills ≡ pos 0
    no_flows =
        subst (λ a. CashOf a (sum_over cash_flow q.run_id l.orders l.fills)) (fresh "").0
          (sound.1 q.run_id "").0

    cash_of :
        (j m : String)
        → CashOf (put q.run_id (some account) l.accounts j) (sum_over cash_flow j l.orders l.fills)
    cash_of j m = elim (Bool-cases (str_eq q.run_id j)) [
      | inl same ↦
          subst
            (λ j.
              CashOf (put q.run_id (some account) l.accounts j)
                (sum_over cash_flow j l.orders l.fills))
            (str_same q.run_id j same)
            (rw (put_same q.run_id (some account) l.accounts, no_flows)
              (sym (+ℤ-zero (cash *ℤ scale))))
      | inr other ↦ rw (put_other q.run_id j (some account) l.accounts other) (sound.1 j m).0
    ]

-- The INSERTs, on tables where the binding is written.
open_run-IsSound :
    (codec : Codec) (q : RunCreation) (t : OpeningTerms) (now : ℕ) (old : Option PaperRunRow)
    (slot : Option String) (l : PaperLedger) (run : PaperRunRow) (l' : PaperLedger)
    → l.runs q.run_id ≡ old
    → IsSound codec l
    → open_run q t now old slot l ≡ ok (run, l')
    → IsSound codec l'
unfolding open_run
open_run-IsSound codec q t now (some r) slot l run l' e sound h =
    subst (λ l. IsSound codec l) (ap (λ p. p.1) (ok-injective h)) sound
open_run-IsSound codec q t now none (some other) l run l' e sound h = ground arith
open_run-IsSound codec q t now none none l run l' e sound h =
    subst (λ l. IsSound codec l) (ap (λ p. p.1) (ok-injective h))
      (open_run-new_IsSound codec q (new_run q t.parsed now) t.cash now l e sound)

-- If the tables are well kept and are what the fills add up to, before a run is created or asked for again, they
-- are after it.
pub create_paper_run-IsSound :
    (codec : Codec) (is_stripped : String → Bool) (token : RiskTerms → String) (q : RunCreation)
    (now : ℕ) (l : PaperLedger) (run : PaperRunRow) (l' : PaperLedger)
    → IsSound codec l
    → create_paper_run codec is_stripped token q now l ≡ ok (run, l')
    → IsSound codec l'
unfolding create_paper_run IsWellKept IsReplayed
create_paper_run-IsSound codec is_stripped token q now l run l' sound h =
    let (t, _, h1) = >>=-ok (checked_opening codec q) _ (run, l') h in
    let (b, _, h2) = >>=-ok (admit_opening q t.parsed.checksum now l) _ (run, l') h1 in
    let (_, _, h3) = >>=-ok (admit_capital is_stripped token q t.cash l) _ (run, l') h2 in
    let (p, e, h4) =
      >>=-ok (open_run q t now (l.runs q.run_id) l.slot_holder (bound q b l)) _ (run, l') h3 in
    let (_, h5) = raise_if-ok (differs_run q t p.0 (p.1.accounts q.run_id)) _ (ok p) (run, l') h4 in
    open_run-IsSound codec q t now (l.runs q.run_id) l.slot_holder (bound q b l) run l' refl sound
      (e ∙ h5)
