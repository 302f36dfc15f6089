-- ===== src/Governance/Decay/Offline.antt =====
-- What an evaluation of the journal does to each strategy.
use text.Mathlib.Text.{◌==◌ as str_eq}
use aitrading.Common.{
  ℕ, Bool, true, false, not, ◌&&◌, List, [], ◌∷◌, ◌++◌, Option, none, some, String, if◌then◌else◌,
  ltb, ◌≡◌, refl, ap, ◌∙◌, arith, Bool-cases, inl, inr,
}
use aitrading.Common.Dict.{lookup, lookup-insert_self}
use aitrading.Governance.Versioning.{Python}
use aitrading.Governance.Registry.{
  StrategyStatus, StrategyState, StrategyRegistry, probation, suspended, set_probation, suspend,
  is_active_status, is_suspended, ensure,
}
use aitrading.Governance.Registry.Switch.{
  called, called-elsewhere, suspend_call, set_probation_call, reactivate_call, status_in,
  status_row,
}
use aitrading.Governance.Decay.{
  GroupStats, DecayPolicy, Breach, breaches_of, has_status, is_probation, is_unwatched, judged,
  weighed, evaluate,
}

and_false : (x : Bool) → (x && false) ≡ false
and_false x = ground arith

module _ {py : Python} (wording : List Breach → GroupStats py → String) (p : DecayPolicy py)
    (now : ℕ) where
  judged-elsewhere :
      (g : GroupStats py) (bs : List Breach) (reg : StrategyRegistry) (name : String)
      → not (str_eq g.label name) ≡ true
      → lookup name (judged wording p now g bs reg).1 ≡ lookup name reg
  unfolding judged called
  judged-elsewhere g [] reg name h =
      elim (Bool-cases (p.auto_reactivate && has_status is_suspended (lookup g.label reg))) [
        | inl back ↦
            rw back
              (called-elsewhere name (reactivate_call g.label (wording [] g) none none now) reg h)
        | inr kept ↦ rw kept refl
      ]
  judged-elsewhere g (b ∷ bs) reg name h =
      let state = lookup g.label reg in
      elim (Bool-cases
        (p.probation_first && not (has_status is_probation state) && is_unwatched state)) [
          | inl watch ↦ rw watch (
              called-elsewhere name (set_probation_call g.label (wording (b ∷ bs) g) none now) reg
                h)
          | inr out ↦
              rw out
                (called-elsewhere name (suspend_call g.label (wording (b ∷ bs) g) none now) reg h)
        ]

  weighed-elsewhere :
      (g : GroupStats py) (reg : StrategyRegistry) (name : String)
      → not (str_eq g.label name) ≡ true
      → lookup name (weighed wording p now g reg).1 ≡ lookup name reg
  unfolding weighed
  weighed-elsewhere g reg name h = elim (Bool-cases (ltb g.n_trades p.min_trades)) [
    | inl few ↦ rw few refl
    | inr enough ↦ rw enough (judged-elsewhere g (breaches_of p g) reg name h)
  ]

  -- No group of the list is about the strategy.
  abbrev pub absent : String → List (GroupStats py) → Bool
  absent name [] = true
  absent name (g ∷ groups) = not (str_eq g.label name) && absent name groups

  -- An evaluation leaves every strategy that has no group in the journal as it was.
  pub evaluate-elsewhere :
      (name : String) (groups : List (GroupStats py)) (reg : StrategyRegistry)
      → absent name groups ≡ true
      → lookup name (evaluate wording p now groups reg).1 ≡ lookup name reg
  unfolding evaluate
  evaluate-elsewhere name [] reg h = refl
  evaluate-elsewhere name (g ∷ groups) reg h =
      evaluate-elsewhere name groups (weighed wording p now g reg).1 (ground arith)
      ∙ weighed-elsewhere g reg name (ground arith)

  -- What a breach makes of a strategy: probation where the policy warns first and the strategy was unknown
  -- or active, and suspension otherwise.
  abbrev pub verdict : Option StrategyState → StrategyStatus
  verdict state = if p.probation_first && is_unwatched state then probation else suspended

  suspended_by :
      (name reason : String) (reg : StrategyRegistry)
      → status_in name (suspend name reason none now reg) ≡ some suspended
  unfolding suspend
  suspended_by name reason reg = ap status_row (lookup-insert_self name _ reg)

  watched_by :
      (name reason : String) (reg : StrategyRegistry)
      → is_unwatched (lookup name reg) ≡ true
      → status_in name (set_probation name reason none now reg) ≡ some probation
  unfolding set_probation
  watched_by name reason reg h =
      let fresh : is_active_status (ensure name now reg).status ≡ true = ground arith in
      rw fresh (ap status_row (lookup-insert_self name _ reg))

  unwatched_is_not_watched :
      (state : Option StrategyState)
      → is_unwatched state ≡ true
      → has_status is_probation state ≡ false
  unwatched_is_not_watched state h = ground arith

  judged-verdict :
      (g : GroupStats py) (b : Breach) (bs : List Breach) (reg : StrategyRegistry)
      → status_in g.label (judged wording p now g (b ∷ bs) reg).1
        ≡ some (verdict (lookup g.label reg))
  unfolding judged
  judged-verdict g b bs reg = elim (Bool-cases p.probation_first) [
    | inl warns ↦ elim (Bool-cases (is_unwatched (lookup g.label reg))) [
      | inl unwatched ↦ rw warns (
          rw (unwatched_is_not_watched (lookup g.label reg) unwatched)
            (rw unwatched (watched_by g.label (wording (b ∷ bs) g) reg unwatched)))
      | inr watched ↦ rw warns (
          rw watched (
            rw (and_false (not (has_status is_probation (lookup g.label reg))))
              (suspended_by g.label (wording (b ∷ bs) g) reg)))
    ]
    | inr never ↦ rw never (suspended_by g.label (wording (b ∷ bs) g) reg)
  ]

  weighed-verdict :
      (g : GroupStats py) (b : Breach) (bs : List Breach) (reg : StrategyRegistry)
      → ltb g.n_trades p.min_trades ≡ false
      → breaches_of p g ≡ b ∷ bs
      → status_in g.label (weighed wording p now g reg).1 ≡ some (verdict (lookup g.label reg))
  unfolding weighed
  weighed-verdict g b bs reg enough breach = rw enough (rw breach (judged-verdict g b bs reg))

  -- A strategy with one group in the journal, enough trades in it and a breach is no longer active after an
  -- evaluation: it is on probation where the policy warns first and it was unknown or active, and suspended
  -- otherwise, whatever the other groups are.
  pub evaluate-verdict :
      (before after : List (GroupStats py)) (g : GroupStats py) (b : Breach) (bs : List Breach)
      (reg : StrategyRegistry)
      → absent g.label before ≡ true
      → absent g.label after ≡ true
      → ltb g.n_trades p.min_trades ≡ false
      → breaches_of p g ≡ b ∷ bs
      → status_in g.label (evaluate wording p now (before ++ g ∷ after) reg).1
        ≡ some (verdict (lookup g.label reg))
  unfolding evaluate
  evaluate-verdict [] after g b bs reg h k enough breach =
      ap status_row (evaluate-elsewhere g.label after (weighed wording p now g reg).1 k)
      ∙ weighed-verdict g b bs reg enough breach
  evaluate-verdict (f ∷ before) after g b bs reg h k enough breach =
      evaluate-verdict before after g b bs (weighed wording p now f reg).1 (ground arith) k enough
        breach
      ∙ ap (λ x. some (verdict x)) (weighed-elsewhere f reg g.label (ground arith))
