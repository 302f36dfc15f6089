-- ===== src/Tests/FixedPoint.antt =====
-- Decimal numbers with nine places, for the floating-point ones of the trading code at concrete inputs.
use aitrading.Common.{ℕ, zero, suc, ◌+◌, ◌*◌, ◌/◌, Bool, true, false, List, [], ◌∷◌}
use aitrading.Common.Int.{
  ℤ, pos, negsuc, sub_ℕ, pos_part, neg_part, ltb_ℤ, leb_ℤ, eqb_ℤ, neg_ℤ, abs_ℤ,
}
use aitrading.Common.Floats.{Floats}

abbrev pub one : ℕ
one = 1_000_000_000

abbrev magnitude : ℤ → ℕ
magnitude (pos n) = n
magnitude (negsuc n) = suc n

abbrev is_negative : ℤ → Bool
is_negative (pos n) = false
is_negative (negsuc n) = true

abbrev with_sign : (negative : Bool) → ℕ → ℤ
with_sign true n = neg_ℤ (pos n)
with_sign false n = pos n

abbrev differ : Bool → Bool → Bool
differ true true = false
differ false false = false
differ _ _ = true

abbrev times_fixed : ℤ → ℤ → ℤ
times_fixed a b =
    with_sign (differ (is_negative a) (is_negative b)) (magnitude a * magnitude b / one)

abbrev over_fixed : ℤ → ℤ → ℤ
over_fixed a b =
    with_sign (differ (is_negative a) (is_negative b)) (magnitude a * one / magnitude b)

abbrev floor_fixed : ℤ → ℤ
floor_fixed (pos n) = pos (n / one * one)
floor_fixed (negsuc n) = neg_ℤ (pos ((n / one + 1) * one))

abbrev plus_fixed : ℤ → ℤ → ℤ
plus_fixed a b = sub_ℕ (pos_part a + pos_part b) (neg_part a + neg_part b)

abbrev sum_fixed : List ℤ → ℤ
sum_fixed [] = pos 0
sum_fixed (x ∷ xs) = plus_fixed x (sum_fixed xs)

abbrev decimals : ℕ → ℕ → ℕ
decimals zero rest = rest
decimals (suc n) rest = decimals n (rest / 10)

abbrev pub fixed : Floats
fixed = record {
  Float = ℤ;
  less = ltb_ℤ;
  less_or_equal = leb_ℤ;
  equal = eqb_ℤ;
  plus = plus_fixed;
  minus = λ a b. plus_fixed a (neg_ℤ b);
  times = times_fixed;
  over = over_fixed;
  power = λ a b. a;
  negative = neg_ℤ;
  absolute = abs_ℤ;
  floor = floor_fixed;
  sum = sum_fixed;
  is_finite = λ _. true;
  is_nan = λ _. false;
  is_close = λ a b _ _. eqb_ℤ a b;
  whole = λ n. pos (n * one);
  decimal_place = λ n. pos (decimals n one);
}

-- A number of cents.
abbrev pub cents : ℕ → fixed.Float
cents n = pos (n * 10_000_000)
