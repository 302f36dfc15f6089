-- ===== src/Paper/Keys.antt =====
-- Tables that are functions of a key: a row that is written, read again.
use text.Mathlib.Text.{◌==◌ as str_eq}
use text.Mathlib.TextEquality.{eq_iff}
use aitrading.Common.{true, false, String, ◌≡◌, ◌≢◌, refl, arith}
use aitrading.Paper.Tables.{put}
use aitrading.Paper.Fill.Write.{put_at}

pub put_same : {A : Type 0} (k : String) (a : A) (f : String → A) → put k a f k ≡ a
put_same k a f = ground (arith, eq_iff k k)

pub put_other :
    {A : Type 0} (k j : String) (a : A) (f : String → A) → str_eq k j ≡ false → put k a f j ≡ f j
put_other k j a f h = rw h refl

pub put_at_run :
    {A : Type 0} (k i j m : String) (a : A) (f : String → String → A)
    → str_eq k j ≡ false
    → put_at k i a f j m ≡ f j m
put_at_run k i j m a f h = rw h refl

pub put_at_same :
    {A : Type 0} (k i : String) (a : A) (f : String → String → A) → put_at k i a f k i ≡ a
put_at_same k i a f = ground (arith, eq_iff k k, eq_iff i i)

pub put_at_other :
    {A : Type 0} (k i j : String) (a : A) (f : String → String → A)
    → str_eq i j ≡ false
    → put_at k i a f k j ≡ f k j
put_at_other k i j a f h = ground (arith, eq_iff k k)

pub str_same : (s t : String) → str_eq s t ≡ true → s ≡ t
str_same s t h = ground (arith, eq_iff s t)

pub str_apart : (s t : String) → str_eq s t ≡ false → s ≢ t
str_apart s t h e = ground (arith, eq_iff s t)

pub str_self : (s : String) → str_eq s s ≡ true
str_self s = ground (arith, eq_iff s s)
