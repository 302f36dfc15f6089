-- ===== src/Autopilot/Policy.antt =====
-- src/atp/autopilot/policy.py: which paths an unattended run may change.
use text.Mathlib.Text.{◌==◌ as str_eq, starts_with}
use aitrading.Common.{
  Bool, true, false, not, ◌&&◌, ◌||◌, List, [], ◌∷◌, String, ◌≡◌, refl, arith, if◌then◌else◌,
}

-- What the policy takes from Python on a path: `str(PurePosixPath(path.strip().lstrip("/")))`, the parts of a path,
-- `lower`, `name in text`, and `rstrip("/")`.
pub record PathText : Type 0 where
  pub normalized : String → String
  pub parts : String → List String
  pub lower : String → String
  pub occurs_in : (name text : String) → Bool
  pub without_slash : String → String

pub data RiskTier : Type 0 where
  green yellow red : RiskTier

pub record Decision : Type 0 where
  pub allowed : Bool
  pub tier : RiskTier
  pub reason : String

abbrev pub red_prefixes : List String
red_prefixes =
    "infra/systemd/" ∷ "src/atp/brokers/" ∷ "src/atp/execution/" ∷ "src/atp/live/" ∷ "src/atp/risk/"
    ∷ "src/atp/riskcontrol/" ∷ "src/atp/runtime/" ∷ "src/atp/services/" ∷ []

abbrev pub red_names : List String
red_names = ".env" ∷ "atp.env" ∷ "secrets" ∷ "credentials" ∷ "id_rsa" ∷ "id_ed25519" ∷ []

abbrev pub yellow_prefixes : List String
yellow_prefixes = "infra/" ∷ ".github/workflows/" ∷ []

abbrev pub green_prefixes : List String
green_prefixes =
    "src/atp/autopilot/" ∷ "src/atp/brain/" ∷ "src/atp/research/" ∷ "tests/" ∷ "docs/" ∷ "frontend/"
    ∷ ".github/ISSUE_TEMPLATE/" ∷ []

abbrev pub any : (String → Bool) → List String → Bool
any f [] = false
any f (x ∷ xs) = f x || any f xs

abbrev pub starts_with_any : List String → String → Bool
starts_with_any prefixes path = any (starts_with path) prefixes

module _ (text : PathText) where
  -- An empty path, or one that escapes.
  abbrev pub is_escaping : (path : String) → Bool
  is_escaping path = str_eq path "" || any (str_eq "..") (text.parts path)

  abbrev pub is_secret : (path : String) → Bool
  is_secret path = any (λ name. text.occurs_in name (text.lower path)) red_names

  -- Outside the scope that the goal declares, if it declares one.
  abbrev pub is_out_of_scope : (goal_paths : List String) → (path : String) → Bool
  is_out_of_scope [] path = false
  is_out_of_scope (p ∷ ps) path =
      not (any (λ q. str_eq path (text.without_slash q) || starts_with path q) (p ∷ ps))

  abbrev pub deny : String → Decision
  deny reason = record { allowed = false; tier = red; reason = reason }

  -- The classification of a normalized path.
  unfoldable pub classify :
      (allow_yellow : Bool) → (goal_paths : List String) → (path : String) → Decision
  classify allow_yellow goal_paths path =
      if is_escaping path
      then deny "invalid or escaping path"
      else if is_secret path
      then deny "secret-bearing path is immutable"
      else if starts_with_any red_prefixes path
      then deny "trading/production authority is outside autopilot scope"
      else if is_out_of_scope goal_paths path
      then deny "path is outside the goal's declared scope"
      else if starts_with_any yellow_prefixes path
      then record {
        allowed = allow_yellow;
        tier = yellow;
        reason =
            if allow_yellow
            then "yellow action enabled"
            else "yellow action requires policy enablement";
      }
      else if starts_with_any green_prefixes path
      then record { allowed = true; tier = green; reason = "bounded research/development path" }
      else deny "path is not allowlisted"

  -- `classify_path`
  abbrev pub classify_path : (allow_yellow : Bool) → (goal_paths : List String) → String → Decision
  classify_path allow_yellow goal_paths path =
      classify allow_yellow goal_paths (text.normalized path)

  -- A path that may be changed: it neither escapes nor names a secret, lies under no red prefix and in the scope of the
  -- goal, and lies under a green prefix or, where yellow is enabled, under a yellow one.
  pub record IsPermitted (allow_yellow : Bool) (goal_paths : List String) (path : String)
      : Type 0 where
    pub escapes : is_escaping path ≡ false
    pub secret : is_secret path ≡ false
    pub under_red : starts_with_any red_prefixes path ≡ false
    pub out_of_scope : is_out_of_scope goal_paths path ≡ false
    pub listed :
        ((starts_with_any yellow_prefixes path && allow_yellow)
          || (not (starts_with_any yellow_prefixes path) && starts_with_any green_prefixes path))
        ≡ true

  denied_by :
      (bad : Bool) (reason : String) (d : Decision)
      → (if bad then deny reason else d).allowed ≡ true
      → (bad ≡ false) × (d.allowed ≡ true)
  denied_by true reason d h = ground arith
  denied_by false reason d h = (refl, h)

  listed_by :
      (y g allow : Bool) (w : String)
      → (if y
          then record { allowed = allow; tier = yellow; reason = w }
          else if g
          then record { allowed = true; tier = green; reason = "bounded research/development path" }
          else deny "path is not allowlisted").allowed
        ≡ true
      → ((y && allow) || (not y && g)) ≡ true
  listed_by y g allow w h = ground arith

  pub classify-IsPermitted :
      (allow_yellow : Bool) (goal_paths : List String) (path : String)
      → (classify allow_yellow goal_paths path).allowed ≡ true
      → IsPermitted allow_yellow goal_paths path
  unfolding classify
  classify-IsPermitted allow goal_paths path h =
      let (a, h1) = denied_by _ _ _ h in
      let (b, h2) = denied_by _ _ _ h1 in
      let (c, h3) = denied_by _ _ _ h2 in
      let (d, h4) = denied_by _ _ _ h3 in
      record {
        escapes = a;
        secret = b;
        under_red = c;
        out_of_scope = d;
        listed = listed_by _ _ allow _ h4;
      }
