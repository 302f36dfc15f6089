-- ===== src/Governance/Versioning/Lifecycle.antt =====
-- Which stages a model has been through, over any history of transitions.
use aitrading.Common.{
  ℕ, Bool, true, false, ◌&&◌, ◌||◌, List, [], ◌∷◌, ◌≡◌, arith, ◌==◌, ==_iff, Bool-cases, inl, inr,
}
use aitrading.Governance.Versioning.{
  ModelStatus, research, testing, paper, approved, live, suspended, retired, Python, Models,
  allowed, transition,
}

-- The requests of transitions: which version, to which stage, when. A refused one raises and is passed over.
unfoldable pub transition_all : {py : Python} → List (ℕ × ModelStatus × ℕ) → Models py → Models py
transition_all [] m = m
transition_all ((c, st, now) ∷ calls) m = transition_all calls (transition c st now m).1

abbrev pub same_stage : ModelStatus → ModelStatus → Bool
same_stage research research = true
same_stage testing testing = true
same_stage paper paper = true
same_stage approved approved = true
same_stage live live = true
same_stage suspended suspended = true
same_stage retired retired = true
same_stage _ _ = false

-- The history asks for a stage of a version.
abbrev pub asks_for : ℕ → ModelStatus → List (ℕ × ModelStatus × ℕ) → Bool
asks_for c st [] = false
asks_for c st ((d, to, now) ∷ calls) = (d == c && same_stage to st) || asks_for c st calls

-- The stages from which a model can only come to a gate or stay among these stages.
abbrev pub Guards : ModelStatus → (ModelStatus → Bool) → Type 0
Guards gate stays =
    (from to : ModelStatus)
    → stays from ≡ true
    → allowed from to ≡ true
    → same_stage to gate ≡ false
    → stays to ≡ true

module _ {py : Python} (gate : ModelStatus) (stays : ModelStatus → Bool)
    (guards : Guards gate stays) where
  stays-step :
      (c d : ℕ) (st : ModelStatus) (now : ℕ) (m : Models py)
      → (d == c && same_stage st gate) ≡ false
      → stays (m.objects c).status ≡ true
      → stays ((transition d st now m).1.objects c).status ≡ true
  unfolding transition
  stays-step c d st now m h b = elim (Bool-cases (allowed (m.objects d).status st)) [
    | inl legal ↦ elim (Bool-cases (d == c)) [
      | inl here ↦
          let e = (==_iff d c).0 here in
          rw legal
            (rw here (guards (m.objects d).status st (ground (arith, e, b)) legal (ground arith)))
      | inr elsewhere ↦ rw legal (rw elsewhere b)
    ]
    | inr illegal ↦ rw illegal b
  ]

  stays-all :
      (c : ℕ) (calls : List (ℕ × ModelStatus × ℕ)) (m : Models py)
      → asks_for c gate calls ≡ false
      → stays (m.objects c).status ≡ true
      → stays ((transition_all calls m).objects c).status ≡ true
  unfolding transition_all
  stays-all c [] m h b = b
  stays-all c ((d, st, now) ∷ calls) m h b =
      stays-all c calls (transition d st now m).1 (ground arith)
        (stays-step c d st now m (ground arith) b)

-- The stages before approval, before paper trading and before testing.
abbrev before_approval : ModelStatus → Bool
before_approval research = true
before_approval testing = true
before_approval paper = true
before_approval retired = true
before_approval _ = false

abbrev before_paper : ModelStatus → Bool
before_paper research = true
before_paper testing = true
before_paper retired = true
before_paper _ = false

abbrev before_testing : ModelStatus → Bool
before_testing research = true
before_testing retired = true
before_testing _ = false

approval-Guards : Guards approved before_approval
unfolding allowed
approval-Guards from to b a g = ground arith

paper-Guards : Guards paper before_paper
unfolding allowed
paper-Guards from to b a g = ground arith

testing-Guards : Guards testing before_testing
unfolding allowed
testing-Guards from to b a g = ground arith

-- A model that starts in RESEARCH and is LIVE after a history of transitions of any models has been asked into
-- TESTING, into PAPER and into APPROVED in that history: no stage of the validation can be skipped.
pub live_is_validated :
    {py : Python} (c : ℕ) (calls : List (ℕ × ModelStatus × ℕ)) (m : Models py)
    → (m.objects c).status ≡ research
    → ((transition_all calls m).objects c).status ≡ live
    → (asks_for c testing calls ≡ true)
      × (asks_for c paper calls ≡ true)
      × (asks_for c approved calls ≡ true)
live_is_validated c calls m s l = (
  passed testing before_testing testing-Guards (ground (arith, s)) (ground (arith, l)),
  passed paper before_paper paper-Guards (ground (arith, s)) (ground (arith, l)),
  passed approved before_approval approval-Guards (ground (arith, s)) (ground (arith, l)),
)
  where
    passed :
        (gate : ModelStatus) (stays : ModelStatus → Bool)
        → Guards gate stays
        → stays (m.objects c).status ≡ true
        → stays ((transition_all calls m).objects c).status ≡ false
        → asks_for c gate calls ≡ true
    passed gate stays guards start end = elim (Bool-cases (asks_for c gate calls)) [
      | inl asked ↦ asked
      | inr unasked ↦ ground (arith, stays-all gate stays guards c calls m unasked start, end)
    ]

abbrev is_retired : ModelStatus → Bool
is_retired retired = true
is_retired _ = false

retired-step :
    {py : Python} (c d : ℕ) (st : ModelStatus) (now : ℕ) (m : Models py)
    → is_retired (m.objects c).status ≡ true
    → is_retired ((transition d st now m).1.objects c).status ≡ true
unfolding transition allowed
retired-step c d st now m b = ground (arith, ==_iff d c)

-- A retired model stays RETIRED over every history of transitions of any models.
pub retired_is_final :
    {py : Python} (c : ℕ) (calls : List (ℕ × ModelStatus × ℕ)) (m : Models py)
    → (m.objects c).status ≡ retired
    → ((transition_all calls m).objects c).status ≡ retired
unfolding transition_all
retired_is_final c [] m s = s
retired_is_final c ((d, st, now) ∷ calls) m s =
    retired_is_final c calls (transition d st now m).1
      (ground (arith, retired-step c d st now m (ground (arith, s))))
