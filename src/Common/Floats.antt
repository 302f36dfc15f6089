-- ===== src/Common/Floats.antt =====
-- The floating-point numbers of Python, which the trading code computes with: a parameter of the model, with the
-- operations that the code uses and no law.
use aitrading.Common.{ℕ, Bool, List, if◌then◌else◌}

pub record Floats : Type 1 where
  pub Float : Type 0
  pub less : Float → Float → Bool
  pub less_or_equal : Float → Float → Bool
  pub equal : Float → Float → Bool
  pub plus : Float → Float → Float
  pub minus : Float → Float → Float
  pub times : Float → Float → Float
  pub over : Float → Float → Float
  pub power : Float → Float → Float
  pub negative : Float → Float
  pub absolute : Float → Float
  pub floor : Float → Float
  pub sum : List Float → Float
  pub is_finite : Float → Bool
  pub is_nan : Float → Bool
  -- `math.isclose`, with the relative and the absolute tolerance as powers 1e-n
  pub is_close : Float → Float → (relative absolute : ℕ) → Bool
  -- a whole number, and 1e-n
  pub whole : ℕ → Float
  pub decimal_place : ℕ → Float

-- The functions over them that Python has take the interface.
module _ (fl : Floats) where
  -- `max(a, b)`
  abbrev pub max_float : fl.Float → fl.Float → fl.Float
  max_float a b = if fl.less a b then b else a

  -- `min(a, b)`
  abbrev pub min_float : fl.Float → fl.Float → fl.Float
  min_float a b = if fl.less b a then b else a

  -- `x > 0`
  abbrev pub is_above_zero : fl.Float → Bool
  is_above_zero x = fl.less (fl.whole 0) x
