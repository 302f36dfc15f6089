-- ===== src/Autopilot/Rounds.antt =====
-- What one iteration of the loop of src/atp/autopilot/orchestrator.py leaves.
use aitrading.Common.{
  ℕ, Bool, true, false, not, ◌&&◌, List, [], ◌∷◌, Option, none, some, String, ◌≡◌, refl, Bool-cases,
  inl, inr, arith, if-cases, not-false,
}
use aitrading.Autopilot.Policy.{PathText, classify_path, IsPermitted, classify-IsPermitted}
use aitrading.Autopilot.Orchestrator.{
  RunStatus, building, verifying, reviewing, completed, blocked_auth, blocked_policy, failed, Goal,
  Finding, CheckResult, PatchProposal, Review, RunReport, Answer, answered, unavailable, raised,
  Workshop, unless_denied, denied, apply_patch, all_passed, is_blocking, Outcome, finished, again,
  escaped, judged_review, judged_checks, verified, taken_back, authorized_paths, authorized,
  judged_patch, patched, proposed, iterate,
}

abbrev pub is_completed : RunStatus → Bool
is_completed completed = true
is_completed _ = false

-- A status that a run ends in.
abbrev pub is_final : RunStatus → Bool
is_final completed = true
is_final blocked_auth = true
is_final blocked_policy = true
is_final failed = true
is_final _ = false

pub unless_denied-cases :
    {A : Type 0} (P : A → Type 0) (l : List String) (f : List String → A) (x : A)
    → ((ds : List String) → P (f ds))
    → (l ≡ [] → P x)
    → P (unless_denied l f x)
unless_denied-cases P [] f x a b = b refl
unless_denied-cases P (d ∷ ds) f x a b = a (d ∷ ds)

module _ (text : PathText) (shop : Workshop) (allow_yellow : Bool) where
  abbrev ArePermitted : (goal_paths : List String) → List String → Type 0
  ArePermitted goal_paths [] = Unit
  ArePermitted goal_paths (p ∷ paths) =
      IsPermitted text allow_yellow goal_paths (text.normalized p) × ArePermitted goal_paths paths

  -- The report of a run whose changes may stand: every path that it names as changed is permitted, every check has passed,
  -- and the reviewer has no finding of severity P0 or P1.
  pub record IsVetted (goal : Goal) (r : RunReport) : Type 0 where
    pub changes : ArePermitted goal.allowed_paths r.changed_files
    pub checked : all_passed text shop allow_yellow r.checks ≡ true
    pub reviewed : is_blocking text shop allow_yellow r.findings ≡ false

  denied-ArePermitted :
      (goal_paths paths : List String)
      → denied text shop allow_yellow goal_paths paths ≡ []
      → ArePermitted goal_paths paths
  denied-ArePermitted goal_paths [] h = tt
  denied-ArePermitted goal_paths (p ∷ paths) h =
      elim (Bool-cases (classify_path text allow_yellow goal_paths p).allowed) [
        | inl y ↦ (
          classify-IsPermitted text allow_yellow goal_paths (text.normalized p) y,
          denied-ArePermitted goal_paths paths (rw y at h),
        )
        | inr n ↦ ground arith
      ]

  abbrev pub IsSound : Goal → RunReport → Type 0
  IsSound goal r = is_completed r.status ≡ true → IsVetted goal r

  -- Whatever makes git, the checks or a model raise an exception that the loop does not catch, is a case of this.
  pub record RaisesOnly (E : Type 0) : Type 0 where
    pub at_commit : (w : shop.Worktree) → shop.base_commit w ≡ none → E
    pub at_status : (w : shop.Worktree) → shop.status_paths w ≡ none → E
    pub at_apply :
        (patch : String) (w : shop.Worktree)
        → (apply_patch text shop allow_yellow patch w).0 ≡ none
        → E
    pub at_revert : (patch : String) (w : shop.Worktree) → (shop.revert patch w).0 ≡ false → E
    pub at_build :
        (goal : Goal) (feedback : List Finding) (w : shop.Worktree)
        → (shop.build goal feedback w).0 ≡ raised
        → E
    pub at_verify : (w : shop.Worktree) → (shop.verify w).0 ≡ none → E
    pub at_review :
        (goal : Goal) (checks : List CheckResult) (w : shop.Worktree)
        → (shop.review goal checks w).0 ≡ raised
        → E

  -- An iteration leaves its number, where the run is over a final status with a sound report, and an exception for its
  -- reason.
  abbrev pub IsRound : (E : Type 0) → Goal → ℕ → Outcome text shop allow_yellow → Type 0
  IsRound E goal i (finished r w) = (r.iteration ≡ i) × (is_final r.status ≡ true) × IsSound goal r
  IsRound E goal i (again feedback r w) = r.iteration ≡ i
  IsRound E goal i (escaped r w) = E

  module _ (E : Type 0) (only : RaisesOnly E) (goal : Goal) (i : ℕ) where
    judged_review-IsRound :
        (v : Answer Review) (r : RunReport) (w : shop.Worktree)
        → (v ≡ raised → E)
        → r.iteration ≡ i
        → ArePermitted goal.allowed_paths r.changed_files
        → all_passed text shop allow_yellow r.checks ≡ true
        → IsRound E goal i (judged_review text shop allow_yellow i v r w)
    judged_review-IsRound raised r w x n c k = x refl
    judged_review-IsRound unavailable r w x n c k = (n, refl, λ h. ground arith)
    judged_review-IsRound (answered v) r w x n c k =
        if-cases (IsRound E goal i)
          (v.approved && not (is_blocking text shop allow_yellow v.findings)) _ _
          (λ y. (n, refl, λ _. record { changes = c; checked = k; reviewed = ground arith }))
          (λ _. n)

    judged_checks-IsRound :
        (checks : Option (List CheckResult)) (r : RunReport) (w : shop.Worktree)
        → (checks ≡ none → E)
        → r.iteration ≡ i
        → ArePermitted goal.allowed_paths r.changed_files
        → IsRound E goal i (judged_checks text shop allow_yellow goal i checks r w)
    judged_checks-IsRound none r w x n c = x refl
    judged_checks-IsRound (some checks) r w x n c =
        let (v, w') = shop.review goal checks w in
        if-cases (IsRound E goal i) (not (all_passed text shop allow_yellow checks)) _ _ (λ _. n)
          (λ y.
            judged_review-IsRound v (record r { checks = checks; status = reviewing }) w'
              (only.at_review goal checks w) n c (not-false _ y))

    verified-IsRound :
        (r : RunReport) (w : shop.Worktree)
        → r.iteration ≡ i
        → ArePermitted goal.allowed_paths r.changed_files
        → IsRound E goal i (verified text shop allow_yellow goal i r w)
    unfolding verified
    verified-IsRound r w n c =
        let (checks, w') = shop.verify w in
        judged_checks-IsRound checks (record r { status = verifying }) w' (only.at_verify w) n c

    taken_back-IsRound :
        (patch : String) (reasons : List String) (r : RunReport) (w : shop.Worktree)
        → r.iteration ≡ i
        → IsRound E goal i (taken_back text shop allow_yellow patch reasons r w)
    taken_back-IsRound patch reasons r w n =
        if-cases (IsRound E goal i) (shop.revert patch w).0 _ _ (λ _. (n, refl, λ h. ground arith))
          (only.at_revert patch w)

    authorized_paths-IsRound :
        (patch : String) (paths : Option (List String)) (r : RunReport) (w : shop.Worktree)
        → (paths ≡ none → E)
        → r.iteration ≡ i
        → IsRound E goal i (authorized_paths text shop allow_yellow goal i patch paths r w)
    authorized_paths-IsRound patch none r w x n = x refl
    authorized_paths-IsRound patch (some actual) r w x n =
        unless_denied-cases (IsRound E goal i)
          (denied text shop allow_yellow goal.allowed_paths actual) _ _
          (λ ds. taken_back-IsRound patch ds r w n)
          (λ e.
            verified-IsRound (record r { changed_files = actual }) w n
              (denied-ArePermitted goal.allowed_paths actual e))

    judged_patch-IsRound :
        (patch : String) (answer : Option (Bool × String)) (r : RunReport) (w : shop.Worktree)
        → (answer ≡ none → E)
        → r.iteration ≡ i
        → IsRound E goal i (judged_patch text shop allow_yellow goal i patch answer r w)
    unfolding authorized
    judged_patch-IsRound patch none r w x n = x refl
    judged_patch-IsRound patch (some (ok, detail)) r w x n =
        if-cases (IsRound E goal i) ok _ _
          (λ _. authorized_paths-IsRound patch (shop.status_paths w) r w (only.at_status w) n)
          (λ _. n)

    patched-IsRound :
        (p : PatchProposal) (r : RunReport) (w : shop.Worktree)
        → r.iteration ≡ i
        → IsRound E goal i (patched text shop allow_yellow goal i p r w)
    unfolding patched
    patched-IsRound p r w n =
        let (answer, w') = apply_patch text shop allow_yellow p.patch w in
        judged_patch-IsRound p.patch answer r w' (only.at_apply p.patch w) n

    proposed-IsRound :
        (p : Answer PatchProposal) (r : RunReport) (w : shop.Worktree)
        → (p ≡ raised → E)
        → r.iteration ≡ i
        → IsRound E goal i (proposed text shop allow_yellow goal i p r w)
    proposed-IsRound raised r w x n = x refl
    proposed-IsRound unavailable r w x n = (n, refl, λ h. ground arith)
    proposed-IsRound (answered p) r w x n =
        unless_denied-cases (IsRound E goal i)
          (denied text shop allow_yellow goal.allowed_paths p.changed_files) _ _
          (λ ds. (n, refl, λ h. ground arith)) (λ _. patched-IsRound p r w n)

    pub iterate-IsRound :
        (feedback : List Finding) (r : RunReport) (w : shop.Worktree)
        → IsRound E goal i (iterate text shop allow_yellow goal i feedback r w)
    unfolding iterate
    iterate-IsRound feedback r w =
        let (p, w') = shop.build goal feedback w in
        proposed-IsRound p (record r { iteration = i; status = building }) w'
          (only.at_build goal feedback w) refl
