-- ===== src/Tests/Autopilot.antt =====
-- An unattended run that writes a page under docs, with its checks passed and the reviewer content.
use aitrading.Common.{◌≤◌, true, false, List, [], ◌∷◌, ◌++◌, some, String, ◌≡◌, refl, arith}
use aitrading.Autopilot.Policy.{PathText, classify}
use aitrading.Autopilot.Orchestrator.{
  Goal, Workshop, RunReport, answered, Ending, returned, left, run_goal,
}
use aitrading.Autopilot.Rounds.{is_completed, is_final, IsVetted, RaisesOnly}
use aitrading.Autopilot.Vetted.{run_goal-IsVetted, run_goal-iteration}

-- Paths that need no change.
abbrev plain : PathText
plain = record {
  normalized = λ p. p;
  parts = λ p. p ∷ [];
  lower = λ p. p;
  occurs_in = λ name p. false;
  without_slash = λ p. p;
}

-- The worktree is the list of its changed paths.
abbrev workshop : Workshop
workshop = record {
  Worktree = List String;
  base_commit = λ w. some "0123";
  status_paths = λ w. some w;
  apply_check = λ _ _. some (true, "");
  apply = λ patch w. (some (true, ""), w ++ (patch ∷ []));
  revert = λ _ w. (true, w);
  build = λ _ _ w.
      (answered (record { patch = "docs/plan.md"; changed_files = "docs/plan.md" ∷ [] }), w);
  verify = λ w. (some (record { name = "backend"; passed = true; output_tail = "" } ∷ []), w);
  review = λ _ _ w. (answered (record { approved = true; findings = [] }), w);
}

abbrev goal : Goal
goal = record {
  goal_id = "plan";
  objective = "plan";
  success_criteria = "done" ∷ [];
  allowed_paths = "docs/" ∷ [];
  max_iterations = 2;
}

abbrev report_of : Ending plain workshop false → RunReport
report_of (returned r w) = r
report_of (left r w) = r

completes :
    run_goal plain workshop false goal []
    ≡ returned (report_of (run_goal plain workshop false goal [])) ("docs/plan.md" ∷ [])
unfolding run_goal classify
completes = refl

is_complete : is_completed (report_of (run_goal plain workshop false goal [])).status ≡ true
unfolding run_goal classify
is_complete = refl

run_goal-IsVetted_example :
    IsVetted plain workshop false goal (report_of (run_goal plain workshop false goal []))
run_goal-IsVetted_example =
    run_goal-IsVetted plain workshop false goal [] ("docs/plan.md" ∷ []) _ completes is_complete

raises_nothing : RaisesOnly plain workshop false ⊥
raises_nothing = record {
  at_commit = λ w h. ground arith;
  at_status = λ w h. ground arith;
  at_apply = λ patch w h. ground arith;
  at_revert = λ patch w h. ground arith;
  at_build = λ goal feedback w h. ground arith;
  at_verify = λ w h. ground arith;
  at_review = λ goal checks w h. ground arith;
}

run_goal-iteration_example :
    (r : RunReport) × (w' : List String) × (run_goal plain workshop false goal [] ≡ returned r w')
    × (r.iteration ≤ 2)
    × (is_final r.status ≡ true)
run_goal-iteration_example = run_goal-iteration plain workshop false goal [] raises_nothing
