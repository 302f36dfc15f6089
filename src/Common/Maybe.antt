-- ===== src/Common/Maybe.antt =====
-- The sequence of two computations that may have no result.
use aitrading.Common.{◌≡◌, ap, Option, none, some}

infixl 5 ◌>>=◌
abbrev pub ◌>>=◌ : {A B : Type 0} → Option A → (A → Option B) → Option B
none >>= f = none
some a >>= f = f a

pub some-injective : {A : Type 0} {a b : A} → some a ≡ some b → a ≡ b
some-injective {a = a} h = ap (value a) h
  where
    value : {A : Type 0} → A → Option A → A
    value a none = a
    value a (some b) = b
