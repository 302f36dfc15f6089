-- ===== src/Autopilot/Orchestrator.antt =====
-- DevelopmentAutopilot of src/atp/autopilot/orchestrator.py, with the data of src/atp/autopilot/models.py: the bounded loop
-- of builder, policy, checks and reviewer.
use Prim.Native.String.{◌++◌ as append}
use text.Mathlib.Text.{◌==◌ as str_eq}
use aitrading.Common.{
  ℕ, zero, suc, ◌+◌, Bool, true, false, not, ◌&&◌, ◌||◌, List, [], ◌∷◌, ◌++◌, Option, none, some,
  String, if◌then◌else◌,
}
use aitrading.Autopilot.Policy.{PathText, classify_path}

pub data RunStatus : Type 0 where
  planned building verifying reviewing completed blocked_auth blocked_policy failed : RunStatus

pub record Goal : Type 0 where
  pub goal_id : String
  pub objective : String
  pub success_criteria : List String
  pub allowed_paths : List String
  pub max_iterations : ℕ

pub record Finding : Type 0 where
  pub severity : String
  pub title : String
  pub detail : String
  pub file : Option String

-- A check by its outcome; its command, exit code and digest are left out.
pub record CheckResult : Type 0 where
  pub name : String
  pub passed : Bool
  pub output_tail : String

pub record PatchProposal : Type 0 where
  pub patch : String
  pub changed_files : List String

pub record Review : Type 0 where
  pub approved : Bool
  pub findings : List Finding

pub data Event : Type 0 where
  run_started run_completed : Event
  policy_block : (reasons : List String) → Event
  provider_unavailable : (provider : String) → Event
  patch_rejected : (iteration : ℕ) → (detail : String) → Event
  checks_failed : (iteration : ℕ) → List CheckResult → Event
  review_rejected : (iteration : ℕ) → List Finding → Event
  iteration_limit : ℕ → Event

-- A report without the identifiers of the run, the goal and the base commit, and without its checksum.
pub record RunReport : Type 0 where
  pub status : RunStatus
  pub iteration : ℕ
  pub changed_files : List String
  pub findings : List Finding
  pub checks : List CheckResult
  pub policy_reasons : List String
  pub events : List Event

-- Some paths are denied, or none.
abbrev pub unless_denied : {A : Type 0} → List String → (List String → A) → A → A
unless_denied [] f x = x
unless_denied (d ∷ ds) f x = f (d ∷ ds)

-- What a model answers: a value, ProviderUnavailable, which the loop catches, or another exception, which it does not.
pub data Answer (A : Type 0) : Type 0 where
  answered : A → Answer A
  unavailable raised : Answer A

-- What the loop calls outside of it, on the state of the worktree and of the models: git, the builder, the reviewer and
-- the checks. A call of git or of the checks that answers nothing raises, such as the TimeoutExpired of `_git`; the git
-- calls for the text of a task are part of the call of the model.
pub record Workshop : Type 1 where
  pub Worktree : Type 0
  pub base_commit : Worktree → Option String
  pub status_paths : Worktree → Option (List String)
  pub apply_check : String → Worktree → Option (Bool × String)
  pub apply : String → Worktree → Option (Bool × String) × Worktree
  -- whether it returns
  pub revert : String → Worktree → Bool × Worktree
  pub build : Goal → List Finding → Worktree → Answer PatchProposal × Worktree
  pub verify : Worktree → Option (List CheckResult) × Worktree
  pub review : Goal → List CheckResult → Worktree → Answer Review × Worktree

module _ (text : PathText) (shop : Workshop) (allow_yellow : Bool) where
  -- `authorize_files`, and of them the paths that are denied, with the reason
  abbrev pub denied : (goal_paths : List String) → List String → List String
  denied goal_paths [] = []
  denied goal_paths (p ∷ paths) =
      let d = classify_path text allow_yellow goal_paths p in
      let rest = denied goal_paths paths in
      if d.allowed then rest else append (append p ": ") d.reason ∷ rest

  abbrev pub apply_checked :
      String → Option (Bool × String) → shop.Worktree → Option (Bool × String) × shop.Worktree
  apply_checked patch none w = (none, w)
  apply_checked patch (some (ok, detail)) w =
      if ok then shop.apply patch w else (some (false, detail), w)

  -- `_apply_patch`
  abbrev pub apply_patch : String → shop.Worktree → Option (Bool × String) × shop.Worktree
  apply_patch patch w = apply_checked patch (shop.apply_check patch w) w

  abbrev pub all_passed : List CheckResult → Bool
  all_passed [] = true
  all_passed (c ∷ checks) = c.passed && all_passed checks

  abbrev failures : List CheckResult → List Finding
  failures [] = []
  failures (c ∷ checks) =
      let rest = failures checks in
      if c.passed
      then rest
      else record { severity = "P1"; title = c.name; detail = c.output_tail; file = none } ∷ rest

  -- A finding of severity P0 or P1.
  abbrev pub is_blocking : List Finding → Bool
  is_blocking [] = false
  is_blocking (f ∷ findings) =
      str_eq f.severity "P0" || str_eq f.severity "P1" || is_blocking findings

  -- How an iteration ends: the run is over, or goes on with feedback, or an exception leaves it.
  pub data Outcome : Type 0 where
    finished : RunReport → shop.Worktree → Outcome
    again : (feedback : List Finding) → RunReport → shop.Worktree → Outcome
    escaped : RunReport → shop.Worktree → Outcome

  abbrev event : Event → RunReport → RunReport
  event e r = record r { events = r.events ++ (e ∷ []) }

  abbrev block : (reasons : List String) → RunReport → RunReport
  block reasons r =
      event (policy_block reasons)
        (record r { status = blocked_policy; policy_reasons = r.policy_reasons ++ reasons })

  -- The reviewer's answer.
  abbrev pub judged_review : ℕ → Answer Review → RunReport → shop.Worktree → Outcome
  judged_review i raised r w = escaped r w
  judged_review i unavailable r w =
      finished (event (provider_unavailable "reviewer") (record r { status = blocked_auth })) w
  judged_review i (answered v) r w =
      let r' = record r { findings = v.findings } in
      if v.approved && not (is_blocking v.findings)
      then finished (event run_completed (record r' { status = completed })) w
      else again v.findings (event (review_rejected i v.findings) r') w

  -- The answer of the checks, and the review where all passed.
  abbrev pub judged_checks :
      Goal → ℕ → Option (List CheckResult) → RunReport → shop.Worktree → Outcome
  judged_checks goal i none r w = escaped r w
  judged_checks goal i (some checks) r w =
      let r' = record r { checks = checks } in
      if not (all_passed checks)
      then again (failures checks) (event (checks_failed i checks) r') w
      else (let (v, w') = shop.review goal checks w in
          judged_review i v (record r' { status = reviewing }) w')

  unfoldable pub verified : Goal → ℕ → RunReport → shop.Worktree → Outcome
  verified goal i r w =
      let (checks, w') = shop.verify w in
      judged_checks goal i checks (record r { status = verifying }) w'

  -- The patch is taken back.
  abbrev pub taken_back :
      (patch : String) (reasons : List String) → RunReport → shop.Worktree → Outcome
  taken_back patch reasons r w =
      let (done, w') = shop.revert patch w in
      if done then finished (block reasons r) w' else escaped r w'

  -- The paths that the patch has changed are authorized, or the patch is taken back.
  abbrev pub authorized_paths :
      Goal → ℕ → (patch : String) → Option (List String) → RunReport → shop.Worktree → Outcome
  authorized_paths goal i patch none r w = escaped r w
  authorized_paths goal i patch (some actual) r w =
      unless_denied (denied goal.allowed_paths actual) (λ ds. taken_back patch ds r w)
        (verified goal i (record r { changed_files = actual }) w)

  unfoldable pub authorized : Goal → ℕ → (patch : String) → RunReport → shop.Worktree → Outcome
  unfolding verified
  authorized goal i patch r w = authorized_paths goal i patch (shop.status_paths w) r w

  -- What the application of the patch answers.
  abbrev pub judged_patch :
      Goal → ℕ → (patch : String) → Option (Bool × String) → RunReport → shop.Worktree → Outcome
  judged_patch goal i patch none r w = escaped r w
  judged_patch goal i patch (some (ok, detail)) r w =
      if ok
      then authorized goal i patch r w
      else again
          (record { severity = "P1"; title = "Patch rejected"; detail = detail; file = none } ∷ [])
          (event (patch_rejected i detail) r) w

  unfoldable pub patched : Goal → ℕ → PatchProposal → RunReport → shop.Worktree → Outcome
  unfolding authorized
  patched goal i proposal r w =
      let (answer, w') = apply_patch proposal.patch w in
      judged_patch goal i proposal.patch answer r w'

  abbrev pub proposed : Goal → ℕ → Answer PatchProposal → RunReport → shop.Worktree → Outcome
  proposed goal i raised r w = escaped r w
  proposed goal i unavailable r w =
      finished (event (provider_unavailable "builder") (record r { status = blocked_auth })) w
  proposed goal i (answered p) r w =
      unless_denied (denied goal.allowed_paths p.changed_files) (λ ds. finished (block ds r) w)
        (patched goal i p r w)

  -- One iteration of the loop.
  unfoldable pub iterate : Goal → ℕ → List Finding → RunReport → shop.Worktree → Outcome
  unfolding patched
  iterate goal i feedback r w =
      let (p, w') = shop.build goal feedback w in
      proposed goal i p (record r { iteration = i; status = building }) w'

  -- How a run ends: it returns its report, or an exception leaves it, with the report that is lost.
  pub data Ending : Type 0 where
    returned : RunReport → shop.Worktree → Ending
    left : RunReport → shop.Worktree → Ending

  abbrev pub go_on :
      Outcome → ((feedback : List Finding) → RunReport → shop.Worktree → Ending) → Ending
  go_on (finished r w) f = returned r w
  go_on (again feedback r w) f = f feedback r w
  go_on (escaped r w) f = left r w

  -- The loop, with the number of iterations that are left after i of them.
  unfoldable pub iterations :
      Goal → (remaining i : ℕ) → List Finding → RunReport → shop.Worktree → Ending
  unfolding iterate
  iterations goal zero i feedback r w =
      returned (event (iteration_limit goal.max_iterations) (record r { status = failed })) w
  iterations goal (suc remaining) i feedback r w =
      go_on (iterate goal (i + 1) feedback r w)
        (λ feedback' r' w'. iterations goal remaining (i + 1) feedback' r' w')

  abbrev pub empty_report : RunReport
  empty_report = record {
    status = planned;
    iteration = 0;
    changed_files = [];
    findings = [];
    checks = [];
    policy_reasons = [];
    events = [];
  }

  abbrev pub dirty_report : (dirty : List String) → RunReport
  dirty_report dirty = event (policy_block ("dirty worktree" ∷ dirty)) (record empty_report {
    status = blocked_policy;
    policy_reasons = "worktree must be clean before an unattended run" ∷ [];
  })

  -- `run` once it has asked git for the commit and for the changed paths.
  abbrev pub run_from :
      Goal → (base : Option String) (dirty : Option (List String)) → shop.Worktree → Ending
  run_from goal none dirty w = left empty_report w
  run_from goal (some base) none w = left empty_report w
  run_from goal (some base) (some dirty) w =
      unless_denied dirty (λ dirty. returned (dirty_report dirty) w)
        (iterations goal goal.max_iterations 0 [] (event run_started empty_report) w)

  -- `run`
  unfoldable pub run_goal : Goal → shop.Worktree → Ending
  unfolding iterations
  run_goal goal w = run_from goal (shop.base_commit w) (shop.status_paths w) w
