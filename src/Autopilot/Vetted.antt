-- ===== src/Autopilot/Vetted.antt =====
-- What a run of src/atp/autopilot/orchestrator.py that ends has gone through.
use aitrading.Common.{
  ℕ, zero, suc, ◌+◌, ◌≤◌, Bool, true, List, [], Option, none, some, String, ◌≡◌, refl, subst, arith,
}
use aitrading.Autopilot.Policy.{PathText}
use aitrading.Autopilot.Orchestrator.{
  Goal, Finding, RunReport, Workshop, Outcome, finished, again, escaped, Ending, returned, left,
  iterations, go_on, run_from, run_goal,
}
use aitrading.Autopilot.Rounds.{
  is_completed, is_final, unless_denied-cases, IsVetted, IsSound, RaisesOnly, IsRound,
  iterate-IsRound,
}

module _ (text : PathText) (shop : Workshop) (allow_yellow : Bool) where
  -- How a run ends.
  abbrev IsEnd : (E : Type 0) → Goal → Ending text shop allow_yellow → Type 0
  IsEnd E goal (returned r w) =
      (r.iteration ≤ goal.max_iterations)
      × (is_final r.status ≡ true)
      × IsSound text shop allow_yellow goal r
  IsEnd E goal (left r w) = E

  module _ (E : Type 0) (only : RaisesOnly text shop allow_yellow E) (goal : Goal) where
    go_on-IsEnd :
        (i : ℕ) (o : Outcome text shop allow_yellow)
        (f : List Finding → RunReport → shop.Worktree → Ending text shop allow_yellow)
        → i ≤ goal.max_iterations
        → IsRound text shop allow_yellow E goal i o
        → ((feedback : List Finding) (r : RunReport) (w : shop.Worktree)
            → r.iteration ≡ i
            → IsEnd E goal (f feedback r w))
        → IsEnd E goal (go_on text shop allow_yellow o f)
    go_on-IsEnd i (finished r w) f b (n, final, sound) rest = (omega arith, final, sound)
    go_on-IsEnd i (again feedback r w) f b n rest = rest feedback r w n
    go_on-IsEnd i (escaped r w) f b x rest = x

    iterations-IsEnd :
        (remaining i : ℕ) (feedback : List Finding) (r : RunReport) (w : shop.Worktree)
        → i + remaining ≡ goal.max_iterations
        → r.iteration ≡ i
        → IsEnd E goal (iterations text shop allow_yellow goal remaining i feedback r w)
    unfolding iterations
    iterations-IsEnd zero i feedback r w e n = (omega arith, refl, λ h. ground arith)
    iterations-IsEnd (suc remaining) i feedback r w e n =
        go_on-IsEnd (i + 1) _ _ (omega arith)
          (iterate-IsRound text shop allow_yellow E only goal (i + 1) feedback r w)
          (λ feedback' r' w' n'.
            iterations-IsEnd remaining (i + 1) feedback' r' w' (omega arith) n')

    run_from-IsEnd :
        (base : Option String) (dirty : Option (List String)) (w : shop.Worktree)
        → (base ≡ none → E)
        → (dirty ≡ none → E)
        → IsEnd E goal (run_from text shop allow_yellow goal base dirty w)
    run_from-IsEnd none dirty w x y = x refl
    run_from-IsEnd (some base) none w x y = y refl
    run_from-IsEnd (some base) (some dirty) w x y =
        unless_denied-cases (IsEnd E goal) dirty _ _
          (λ dirty. (omega arith, refl, λ h. ground arith))
          (λ _. iterations-IsEnd goal.max_iterations 0 [] _ w (omega arith) refl)

    run_goal-IsEnd : (w : shop.Worktree) → IsEnd E goal (run_goal text shop allow_yellow goal w)
    unfolding run_goal
    run_goal-IsEnd w =
        run_from-IsEnd (shop.base_commit w) (shop.status_paths w) w (only.at_commit w)
          (only.at_status w)

  any_exception : RaisesOnly text shop allow_yellow (Unit {0})
  any_exception = record {
    at_commit = λ _ _. tt;
    at_status = λ _ _. tt;
    at_apply = λ _ _ _. tt;
    at_revert = λ _ _ _. tt;
    at_build = λ _ _ _ _. tt;
    at_verify = λ _ _. tt;
    at_review = λ _ _ _ _. tt;
  }

  IsEnd-returned :
      (E : Type 0) (goal : Goal) (r : RunReport) (w : shop.Worktree)
      (e : Ending text shop allow_yellow)
      → IsEnd E goal e
      → e ≡ returned r w
      → IsEnd E goal (returned r w)
  IsEnd-returned E goal r w e h k = subst (IsEnd E goal) k h

  -- Whatever the builder, the reviewer, git and the checks answer or raise, the report that a completed run returns names
  -- as changed only paths that the policy permits, none of them under a prefix of the trading or production code, with
  -- every check passed and no finding of severity P0 or P1.
  pub run_goal-IsVetted :
      (goal : Goal) (w w' : shop.Worktree) (r : RunReport)
      → run_goal text shop allow_yellow goal w ≡ returned r w'
      → is_completed r.status ≡ true
      → IsVetted text shop allow_yellow goal r
  run_goal-IsVetted goal w w' r e h =
      (IsEnd-returned (Unit {0}) goal r w' _ (run_goal-IsEnd (Unit {0}) any_exception goal w) e).2 h

  returned-cases :
      (goal : Goal) (e : Ending text shop allow_yellow)
      → IsEnd ⊥ goal e
      → (r : RunReport) × (w : shop.Worktree) × (e ≡ returned r w)
        × (r.iteration ≤ goal.max_iterations)
        × (is_final r.status ≡ true)
  returned-cases goal (returned r w) (b, final, _) = (r, w, refl, b, final)
  returned-cases goal (left r w) x = ground arith

  -- Where git and the checks raise nothing and the models nothing but ProviderUnavailable, a run returns a report with a
  -- final status, after at most the iterations that its goal allows.
  pub run_goal-iteration :
      (goal : Goal) (w : shop.Worktree)
      → RaisesOnly text shop allow_yellow ⊥
      → (r : RunReport) × (w' : shop.Worktree) × (run_goal text shop allow_yellow goal w
          ≡ returned r w')
        × (r.iteration ≤ goal.max_iterations)
        × (is_final r.status ≡ true)
  run_goal-iteration goal w only = returned-cases goal _ (run_goal-IsEnd ⊥ only goal w)
