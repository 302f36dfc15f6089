-- ===== src/Paper/Money.antt =====
-- Exact amounts and the results of a transaction of the paper canary, src/atp/store/base.py. An amount is a
-- whole number of units of 10^-8; amounts that the code cannot store exactly are those that a
-- product or a quotient yields.
use aitrading.Common.{
  ◌≡◌, refl, ap, arith, ℕ, zero, suc, ◌+◌, ◌*◌, ◌/◌, ◌%◌, Bool, true, false, Option, none, some,
  String, if◌then◌else◌, ltb, ◌==◌,
}
use text.Mathlib.Text.{◌==◌ as str_eq}
use aitrading.Common.Int.{ℤ, pos, negsuc, neg_ℤ, ltb_ℤ}

-- The exceptions, each with its message.
pub data Fault : Type 0 where
  value_error : String → Fault
  state_error : String → Fault
  safety_error : String → Fault
  conflict : String → Fault
  integrity_error : Fault

pub data Result (A : Type 0) : Type 0 where
  ok : A → Result A
  failed : Fault → Result A

infixl 5 ◌>>=◌ ◌>>◌
abbrev pub ◌>>=◌ : {A B : Type 0} → Result A → (A → Result B) → Result B
ok a >>= f = f a
failed e >>= f = failed e

abbrev pub ◌>>◌ : {B : Type 0} → Result (Unit {0}) → Result B → Result B
m >> k = m >>= λ _. k

-- `if bad: raise fault`
abbrev pub raise_if : (bad : Bool) → Fault → Result (Unit {0})
raise_if bad e = if bad then failed e else ok tt

abbrev pub or_fail : {A : Type 0} → Option A → Fault → Result A
or_fail none e = failed e
or_fail (some a) e = ok a

-- 1.00000000
abbrev pub one : ℤ
one = pos 100_000_000

-- A quotient that must come out: nothing where the amount is not a multiple.
unfoldable pub exact_ratio : ℤ → ℕ → Option ℤ
exact_ratio (pos n) d = if n % d == 0 then some (pos (n / d)) else none
exact_ratio (negsuc n) d = if suc n % d == 0 then some (neg_ℤ (pos (suc n / d))) else none

-- The same by an amount.
unfoldable pub exact_quotient : ℤ → ℤ → Option ℤ
unfolding exact_ratio
exact_quotient x (pos zero) = none
exact_quotient x (pos (suc d)) = exact_ratio x (suc d)
exact_quotient x (negsuc d) = exact_ratio (neg_ℤ x) (suc d)

-- `quantize(QUANT, rounding=ROUND_HALF_EVEN)` of a quotient: to the nearest, and to the even one of two.
unfoldable pub half_even_ℕ : ℕ → ℕ → ℕ
half_even_ℕ n d =
    let q = n / d in
    let twice = 2 * (n % d) in
    if ltb twice d then q else if ltb d twice then q + 1 else if q % 2 == 0 then q else q + 1

unfoldable pub half_even : ℤ → ℕ → ℤ
unfolding half_even_ℕ
half_even (pos n) d = pos (half_even_ℕ n d)
half_even (negsuc n) d = neg_ℤ (pos (half_even_ℕ (suc n) d))

abbrev pub is_negative : ℤ → Bool
is_negative x = ltb_ℤ x (pos 0)

-- `_paper_require_ledger_money`: the amount where it came out, and where it is not negative if it may not be.
abbrev pub ledger_money : (nonnegative : Bool) → Option ℤ → Result ℤ
ledger_money nonnegative none =
    failed (safety_error "not exactly representable in the durable 8dp ledger")
ledger_money true (some x) =
    if is_negative x
    then failed (safety_error "not exactly representable in the durable 8dp ledger")
    else ok x
ledger_money false (some x) = ok x

abbrev pub is_empty : String → Bool
is_empty s = str_eq s ""

-- `_paper_exact_money` of an amount, which is nothing where it has more than eight decimals, with `positive`:
-- also `_paper_cap` and `_paper_config_amount` on a text.
abbrev pub positive_amount : Option ℤ → Result ℤ
positive_amount none = failed (value_error "must be exactly representable at 8 decimal places")
positive_amount (some x) = if ltb_ℤ (pos 0) x then ok x else failed (value_error "must be positive")

-- The same with `nonnegative`.
abbrev pub nonnegative_amount : Option ℤ → Result ℤ
nonnegative_amount none = failed (value_error "must be exactly representable at 8 decimal places")
nonnegative_amount (some x) =
    if is_negative x then failed (value_error "must be nonnegative") else ok x

-- What a sequence that succeeds went through.
pub >>=-ok :
    {A B : Type 0} (m : Result A) (f : A → Result B) (b : B)
    → (m >>= f) ≡ ok b
    → (a : A) × (m ≡ ok a) × (f a ≡ ok b)
>>=-ok (ok a) f b h = (a, refl, h)
>>=-ok (failed e) f b h = ground arith

pub raise_if-ok :
    {B : Type 0} (bad : Bool) (e : Fault) (k : Result B) (b : B)
    → (raise_if bad e >> k) ≡ ok b
    → (bad ≡ false) × (k ≡ ok b)
raise_if-ok true e k b h = ground arith
raise_if-ok false e k b h = (refl, h)

pub or_fail-ok : {A : Type 0} (m : Option A) (e : Fault) (a : A) → or_fail m e ≡ ok a → m ≡ some a
or_fail-ok none e a h = ground arith
or_fail-ok (some x) e a h = ground arith

pub ok-injective : {A : Type 0} {a b : A} → ok a ≡ ok b → a ≡ b
ok-injective {a = a} h = ap (value a) h
  where
    value : {A : Type 0} → A → Result A → A
    value a (ok b) = b
    value a (failed e) = a
