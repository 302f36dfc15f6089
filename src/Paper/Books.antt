-- ===== src/Paper/Books.antt =====
-- The books of a run: the account is what the position says, after every commit of a fill.
use text.Mathlib.Text.{◌==◌ as str_eq}
use aitrading.Common.{
  ℕ, true, false, Option, none, some, String, ◌≡◌, ◌≢◌, refl, sym, ◌∙◌, subst, arith, Bool-cases,
  inl, inr, ◌⊎◌,
}
use aitrading.Common.Int.{ℤ, pos, ◌≤ℤ◌, ◌<ℤ◌, abs_ℤ, ◌+ℤ◌, int_laws}
use aitrading.Runtime.Positions.{Side, buy, sell}
use aitrading.Paper.Keys.{
  put_same, put_other, put_at_run, put_at_same, put_at_other, str_same, str_apart,
}
use aitrading.Paper.Runs.{PaperRunRow}
use aitrading.Paper.Money.{Result, ok, failed, one}
use aitrading.Paper.Config.{Codec, PaperConfig, ParsedConfig, paper_config}
use aitrading.Paper.Tables.{PaperLedger, PaperAccountRow, PaperPositionRow, put}
use aitrading.Paper.Fill.{Extern, Clock, commit_paper_fill_atomic}
use aitrading.Paper.Fill.Request.{FillRequest, FillTerms, FillCommitResult}
use aitrading.Paper.Fill.Project.{
  Holding, Exposure, Books, amount_of, holding_of, signed, exposure, books_after, check_books,
}
use aitrading.Paper.Fill.Write.{filled_account, filled_position, put_at, written}
use aitrading.Paper.Course.{commit-cases}
use aitrading.Paper.Admission.{gate-stages, admit_terms-multiplier}
use aitrading.Paper.Stages.{exposure-ok, books_after-ok, check_books-ok, checked_fill-positive}

-- The account's exposures are the value of the position, its realized P&L is the position's, and its
-- equity is the cash with that value. The position is not short.
unfoldable pub IsBalanced : PaperAccountRow → PaperPositionRow → Type 0
IsBalanced a p =
    (amount_of p.quantity p.mark_price one ≡ some a.net_exposure)
    × (pos 0 ≤ℤ a.net_exposure)
    × (pos 0 ≤ℤ p.quantity)
    × (a.realized_pnl ≡ p.realized_pnl)
    × (a.gross_exposure ≡ a.net_exposure)
    × (a.equity ≡ a.cash +ℤ a.net_exposure)

signed-nonnegative :
    (side : Side) (old q : ℤ)
    → pos 0 ≤ℤ old
    → pos 0 <ℤ q
    → (side ≡ sell → q ≤ℤ old)
    → pos 0 ≤ℤ signed side old q
signed-nonnegative buy old q o p s = omega int_laws
signed-nonnegative sell old q o p s = let d = s refl in omega int_laws

abs_ℤ-nonnegative : (x : ℤ) → pos 0 ≤ℤ x → abs_ℤ x ≡ x
abs_ℤ-nonnegative x h = ground arith

-- What a fill makes of the account and the position is balanced.
pub filled-IsBalanced :
    (r : FillTerms) (now : ℕ) (account : PaperAccountRow) (old : Option PaperPositionRow)
    (h : Holding) (c : PaperConfig) (e : Exposure) (b : Books)
    → pos 0 <ℤ r.quantity
    → r.multiplier ≡ one
    → check_books r account h ≡ ok tt
    → exposure r c h ≡ ok e
    → books_after r account h e ≡ ok b
    → IsBalanced (filled_account now b account) (filled_position r now b old)
unfolding IsBalanced
filled-IsBalanced r now account old h c e b positive unit checked exposed after =
    let (long, covered) = check_books-ok r account h checked in
    let (_, signed_eq, valued, _, nonneg) = exposure-ok r c h e exposed in
    let (_, _, _, _, quantity, mark, net, equity) = books_after-ok r account h e b after in
    let kept = signed-nonnegative r.side h.quantity r.quantity long positive covered in
    let long_after = subst (λ q. pos 0 ≤ℤ q) (sym (quantity ∙ signed_eq)) kept in
    let same = abs_ℤ-nonnegative e.quantity (subst (λ q. pos 0 ≤ℤ q) (sym signed_eq) kept) in
    (
      rw (quantity, mark, net)
          (subst (λ q. amount_of q r.price one ≡ some e.gross) same
            (subst (λ m. amount_of (abs_ℤ e.quantity) r.price m ≡ some e.gross) unit valued)),
      rw net nonneg,
      long_after,
      refl,
      refl,
      rw (equity, net) refl,
    )

-- The instrument is the one of the configuration of the run.
abbrev pub Names : Result ParsedConfig → (instrument : String) → Type 0
Names (failed e) instrument = ⊥
Names (ok p) instrument = instrument ≡ p.config.instrument

-- A run, an account and a position of it on an instrument that belong together.
abbrev pub Kept :
    Codec
    → (instrument : String) → Option PaperRunRow
    → Option PaperAccountRow
    → Option PaperPositionRow
    → Type 0
Kept codec instrument none none none = Unit {0}
Kept codec instrument none account position = ⊥
Kept codec instrument (some run) account none = Unit {0}
Kept codec instrument (some run) (some a) (some p) =
    Names (paper_config codec run.config_json) instrument × IsBalanced a p
Kept codec instrument (some run) none (some p) = ⊥

-- Every account is of a run, and every position of a run with an account, on the run's one instrument, and the account is balanced with it.
unfoldable pub IsWellKept : Codec → PaperLedger → Type 0
IsWellKept codec l =
    (run_id instrument : String)
    → Kept codec instrument (l.runs run_id) (l.accounts run_id) (l.positions run_id instrument)

Names-ok :
    (m : Result ParsedConfig) (p : ParsedConfig) (i : String)
    → m ≡ ok p
    → i ≡ p.config.instrument
    → Names m i
Names-ok m p i e h = rw e h

-- Two instruments of one run are one.
Names-same :
    (m : Result ParsedConfig) (p : ParsedConfig) (i j : String)
    → m ≡ ok p
    → i ≡ p.config.instrument
    → Names m j
    → i ≡ j
Names-same m p i j e h n = h ∙ sym (subst (λ m. Names m j) e n)

-- A position that is kept is on the run's instrument.
Kept-Names :
    (codec : Codec) (i : String) (run : PaperRunRow) (account : Option PaperAccountRow)
    (p : PaperPositionRow)
    → Kept codec i (some run) account (some p)
    → Names (paper_config codec run.config_json) i
Kept-Names codec i run (some a) p k = k.0
Kept-Names codec i run none p k = absurd k

-- A position on another instrument than the run's is not kept.
Kept-other :
    (codec : Codec) (i j : String) (run : PaperRunRow) (c : ParsedConfig)
    (account after : Option PaperAccountRow) (position : Option PaperPositionRow)
    → paper_config codec run.config_json ≡ ok c
    → i ≡ c.config.instrument
    → i ≢ j
    → Kept codec j (some run) account position
    → Kept codec j (some run) after position
Kept-other codec i j run c account after none e h apart k = tt
Kept-other codec i j run c account after (some p) e h apart k =
    absurd (apart (Names-same _ c i j e h (Kept-Names codec j run account p k)))

-- The tables with one account and one position of a run written are well kept, if these are balanced.
put-Kept :
    (codec : Codec) (runs : String → Option PaperRunRow)
    (accounts : String → Option PaperAccountRow)
    (positions : String → String → Option PaperPositionRow) (k i : String) (run : PaperRunRow)
    (c : ParsedConfig) (a : PaperAccountRow) (p : PaperPositionRow)
    → ((j m : String) → Kept codec m (runs j) (accounts j) (positions j m))
    → runs k ≡ some run
    → paper_config codec run.config_json ≡ ok c
    → i ≡ c.config.instrument
    → IsBalanced a p
    → (j m : String)
    → Kept codec m (runs j) (put k (some a) accounts j) (put_at k i (some p) positions j m)
put-Kept codec runs accounts positions k i run c a p kept found parsed named balanced j m =
    elim (Bool-cases (str_eq k j)) [
      | inl same ↦
          subst
            (λ j.
              Kept codec m (runs j) (put k (some a) accounts j) (put_at k i (some p) positions j m))
            (str_same k j same) (here (Bool-cases (str_eq i m)))
      | inr other ↦
          rw (put_other k j (some a) accounts other, put_at_run k i j m (some p) positions other)
            (kept j m)
    ]
  where
    here :
        (str_eq i m ≡ true) ⊎ (str_eq i m ≡ false)
        → Kept codec m (runs k) (put k (some a) accounts k) (put_at k i (some p) positions k m)
    here (inl same) =
        subst
          (λ m.
            Kept codec m (runs k) (put k (some a) accounts k) (put_at k i (some p) positions k m))
          (str_same i m same)
          (rw (found, put_same k (some a) accounts, put_at_same k i (some p) positions)
            (Names-ok _ c i parsed named, balanced))
    here (inr other) =
        rw (found, put_same k (some a) accounts, put_at_other k i m (some p) positions other)
          (Kept-other codec i m run c (accounts k) (some a) (positions k m) parsed named
            (str_apart i m other)
            (subst (λ r. Kept codec m r (accounts k) (positions k m)) found (kept k m)))

-- If the tables are well kept before a commit of a fill that succeeds, first or repeated, they are after it: each
-- account is of a run; each position is of a run with an account, on the instrument of the run's
-- configuration; it is not short; and
-- the account's exposures are its value at the mark, the realized amounts are equal, and the equity is the
-- cash with that value.
pub commit-IsWellKept :
    (x : Extern) (clock : Clock) (q : FillRequest) (l : PaperLedger) (rows : FillCommitResult)
    (l' : PaperLedger)
    → IsWellKept x.codec l
    → commit_paper_fill_atomic x clock q l ≡ ok (rows, l')
    → IsWellKept x.codec l'
unfolding IsWellKept written
commit-IsWellKept x clock q l rows l' kept h =
    let (r, checked, cases) = commit-cases x clock q l rows l' h in
    elim cases [
      | inl k ↦
          let position = l.positions r.run_id r.instrument in
          subst (λ l. IsWellKept x.codec l) (sym k.written_eq)
            (put-Kept x.codec l.runs l.accounts l.positions r.run_id r.instrument k.run k.parsed
              (filled_account clock.commit k.books k.admitted.account)
              (filled_position r clock.commit k.books position) kept k.found k.config k.named
              (filled-IsBalanced r clock.commit k.admitted.account position (holding_of position)
                k.admitted.config k.exposed k.books (checked_fill-positive q r checked).0
                (admit_terms-multiplier r k.gate.config k.order
                  (gate-stages x.codec r k.run k.order l k.gate k.gated).5)
                k.checked_books k.exposure_eq k.books_eq))
      | inr e ↦ subst (λ l. IsWellKept x.codec l) (sym e) kept
    ]
