-- ===== src/Common/Int.antt =====
-- Signed integers over the native numbers. Proofs read them by their two parts.
use aitrading.Common.{
  ℕ, zero, suc, ◌+◌, ◌-◌, ◌*◌, ◌≤◌, ◌<◌, ◌≡◌, refl, ap, Bool, arith, ltb, leb, if◌then◌else◌, ◌==◌,
}

-- `negsuc n` is -(n + 1).
pub data ℤ : Type 0 where
  pos : ℕ → ℤ
  negsuc : ℕ → ℤ

abbrev pub pos_part : ℤ → ℕ
pos_part (pos n) = n
pos_part (negsuc n) = 0

abbrev pub neg_part : ℤ → ℕ
neg_part (pos n) = 0
neg_part (negsuc n) = suc n

-- a - b, as an integer.
abbrev pub sub_ℕ : ℕ → ℕ → ℤ
sub_ℕ a b = if leb b a then pos (a - b) else negsuc (b - a - 1)

infixl 65 ◌+ℤ◌ ◌-ℤ◌
infixl 70 ◌*ℤ◌
infix 50 ◌≤ℤ◌ ◌<ℤ◌
unfoldable pub ◌+ℤ◌ : ℤ → ℤ → ℤ
a +ℤ b = sub_ℕ (pos_part a + pos_part b) (neg_part a + neg_part b)

unfoldable pub ◌-ℤ◌ : ℤ → ℤ → ℤ
a -ℤ b = sub_ℕ (pos_part a + neg_part b) (neg_part a + pos_part b)

unfoldable pub ◌*ℤ◌ : ℤ → ℤ → ℤ
a *ℤ b =
    sub_ℕ (pos_part a * pos_part b + neg_part a * neg_part b)
      (pos_part a * neg_part b + neg_part a * pos_part b)

abbrev pub ◌≤ℤ◌ : ℤ → ℤ → Type 0
a ≤ℤ b = pos_part a + neg_part b ≤ pos_part b + neg_part a

abbrev pub ◌<ℤ◌ : ℤ → ℤ → Type 0
a <ℤ b = pos_part a + neg_part b < pos_part b + neg_part a

abbrev pub ltb_ℤ : ℤ → ℤ → Bool
ltb_ℤ a b = ltb (pos_part a + neg_part b) (pos_part b + neg_part a)

abbrev pub leb_ℤ : ℤ → ℤ → Bool
leb_ℤ a b = leb (pos_part a + neg_part b) (pos_part b + neg_part a)

abbrev pub eqb_ℤ : ℤ → ℤ → Bool
eqb_ℤ a b = pos_part a + neg_part b == pos_part b + neg_part a

abbrev pub neg_ℤ : ℤ → ℤ
neg_ℤ (pos zero) = pos 0
neg_ℤ (pos (suc n)) = negsuc n
neg_ℤ (negsuc n) = pos (suc n)

abbrev pub abs_ℤ : ℤ → ℤ
abs_ℤ (pos n) = pos n
abs_ℤ (negsuc n) = pos (suc n)

abbrev pub max_ℤ : ℤ → ℤ → ℤ
max_ℤ a b = if ltb_ℤ a b then b else a

abbrev pub min_ℤ : ℤ → ℤ → ℤ
min_ℤ a b = if ltb_ℤ b a then b else a

pub +ℤ_parts :
    (a b : ℤ)
    → pos_part (a +ℤ b) + neg_part a + neg_part b ≡ neg_part (a +ℤ b) + pos_part a + pos_part b
unfolding ◌+ℤ◌
+ℤ_parts a b = ground arith

pub -ℤ_parts :
    (a b : ℤ)
    → pos_part (a -ℤ b) + neg_part a + pos_part b ≡ neg_part (a -ℤ b) + pos_part a + neg_part b
unfolding ◌-ℤ◌
-ℤ_parts a b = ground arith

pub eq_of_parts : (a b : ℤ) → pos_part a + neg_part b ≡ pos_part b + neg_part a → a ≡ b
eq_of_parts a b h = ground arith

-- With these the operations stay shut.
pub ruleset int_laws = (arith, +ℤ_parts, -ℤ_parts, eq_of_parts)

pub *ℤ_parts :
    (a b : ℤ)
    → pos_part (a *ℤ b) + (pos_part a * neg_part b + neg_part a * pos_part b)
      ≡ neg_part (a *ℤ b) + (pos_part a * pos_part b + neg_part a * neg_part b)
unfolding ◌*ℤ◌
*ℤ_parts a b = ground arith

-- Products distribute over sums and differences.
pub +ℤ-*ℤ : (a b c : ℤ) → (a +ℤ b) *ℤ c ≡ a *ℤ c +ℤ b *ℤ c
+ℤ-*ℤ a b c =
    let e = +ℤ_parts a b in
    eq_of_parts _ _ (
      omega (
        arith,
        *ℤ_parts (a +ℤ b) c,
        *ℤ_parts a c,
        *ℤ_parts b c,
        +ℤ_parts (a *ℤ c) (b *ℤ c),
        ap (λ (n : ℕ). n * pos_part c) e,
        ap (λ (n : ℕ). n * neg_part c) e,
      ))

pub -ℤ-*ℤ : (a b c : ℤ) → (a -ℤ b) *ℤ c ≡ a *ℤ c -ℤ b *ℤ c
-ℤ-*ℤ a b c =
    let e = -ℤ_parts a b in
    eq_of_parts _ _ (
      omega (
        arith,
        *ℤ_parts (a -ℤ b) c,
        *ℤ_parts a c,
        *ℤ_parts b c,
        -ℤ_parts (a *ℤ c) (b *ℤ c),
        ap (λ (n : ℕ). n * pos_part c) e,
        ap (λ (n : ℕ). n * neg_part c) e,
      ))

pub *ℤ_comm : (a b : ℤ) → a *ℤ b ≡ b *ℤ a
*ℤ_comm a b = eq_of_parts _ _ (omega (arith, *ℤ_parts a b, *ℤ_parts b a))

pub neg_ℤ_parts : (a : ℤ) → pos_part (neg_ℤ a) + pos_part a ≡ neg_part (neg_ℤ a) + neg_part a
neg_ℤ_parts (pos zero) = refl
neg_ℤ_parts (pos (suc n)) = omega arith
neg_ℤ_parts (negsuc n) = omega arith

pub pos-+ℤ-pos : (a b : ℕ) → pos a +ℤ pos b ≡ pos (a + b)
unfolding ◌+ℤ◌
pos-+ℤ-pos a b = ground arith

pub negsuc-+ℤ-negsuc : (a b : ℕ) → negsuc a +ℤ negsuc b ≡ negsuc (suc (a + b))
unfolding ◌+ℤ◌
negsuc-+ℤ-negsuc a b = ground arith

-- A product by a negative number is the product by its absolute value, negated.
pub *ℤ-negsuc : (a : ℤ) (n : ℕ) → a *ℤ negsuc n ≡ neg_ℤ (a *ℤ pos (suc n))
*ℤ-negsuc a n =
    eq_of_parts _ _ (
      omega
        (arith, *ℤ_parts a (negsuc n), *ℤ_parts a (pos (suc n)), neg_ℤ_parts (a *ℤ pos (suc n))))

pub neg_ℤ-+ℤ : (a b : ℤ) → neg_ℤ (a +ℤ b) ≡ neg_ℤ a +ℤ neg_ℤ b
neg_ℤ-+ℤ a b = eq_of_parts _ _ (
    omega (
      arith,
      +ℤ_parts a b,
      neg_ℤ_parts (a +ℤ b),
      neg_ℤ_parts a,
      neg_ℤ_parts b,
      +ℤ_parts (neg_ℤ a) (neg_ℤ b),
    ))

pub *ℤ-zero : (a : ℤ) → a *ℤ pos 0 ≡ pos 0
*ℤ-zero a = eq_of_parts _ _ (omega (arith, *ℤ_parts a (pos 0)))

pub zero-*ℤ : (a : ℤ) → pos 0 *ℤ a ≡ pos 0
zero-*ℤ a = eq_of_parts _ _ (omega (arith, *ℤ_parts (pos 0) a))

pub zero-+ℤ : (a : ℤ) → pos 0 +ℤ a ≡ a
zero-+ℤ a = omega int_laws

pub +ℤ-zero : (a : ℤ) → a +ℤ pos 0 ≡ a
+ℤ-zero a = omega int_laws

pub *ℤ-+ℤ : (a b c : ℤ) → a *ℤ (b +ℤ c) ≡ a *ℤ b +ℤ a *ℤ c
*ℤ-+ℤ a b c = rw (*ℤ_comm a (b +ℤ c), *ℤ_comm a b, *ℤ_comm a c) (+ℤ-*ℤ b c a)

pub neg_ℤ-neg_ℤ : (a : ℤ) → neg_ℤ (neg_ℤ a) ≡ a
neg_ℤ-neg_ℤ (pos zero) = refl
neg_ℤ-neg_ℤ (pos (suc n)) = refl
neg_ℤ-neg_ℤ (negsuc n) = refl

pub -ℤ-neg_ℤ : (a b : ℤ) → a -ℤ neg_ℤ b ≡ a +ℤ b
-ℤ-neg_ℤ a b = omega (int_laws, neg_ℤ_parts b)
