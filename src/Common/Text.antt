-- ===== src/Common/Text.antt =====
-- C strings as lists of byte values, without the terminating NUL; `char *` that may be NULL is
-- an `Option Str`.
use Prim.Native.Char.{code}
use Prim.Native.Nat.{ℕ, zero, suc, ◌+◌, ◌-◌, ◌/◌, ◌%◌}
use Prim.Native.String.{String}
use mathlib.Core.Path.{◌≡◌, refl}
use mathlib.Core.Logic.{◌↔◌}
use mathlib.Core.Bool.{Bool, true, false, ◌&&◌, ◌||◌}
use mathlib.Core.List.{List, [], ◌∷◌}
use mathlib.Core.Option.{Option, none, some}
use native.Mathlib.Omega.{arith}
use entrance.Common.Tests.{◌==◌, ltb, if◌then◌else◌}
use entrance.Common.Lists.{take}

abbrev pub Str : Type 0
Str = List ℕ

-- The bytes of an ASCII literal. `String` has its own `[]` and `∷`.
abbrev pub codes : String → Str
codes String.[] = []
codes (String.◌∷◌ c s) = code c ∷ codes s

-- `!strcmp(a, b)`.
unfoldable pub str_eq : Str → Str → Bool
str_eq [] [] = true
str_eq [] (y ∷ ys) = false
str_eq (x ∷ xs) [] = false
str_eq (x ∷ xs) (y ∷ ys) = (x == y) && str_eq xs ys

pub str_eq_iff : (a b : Str) → (str_eq a b ≡ true) ↔ (a ≡ b)
unfolding str_eq
str_eq_iff [] [] = (λ h. refl, λ h. refl)
str_eq_iff [] (y ∷ ys) = (λ h. cc, λ h. cc)
str_eq_iff (x ∷ xs) [] = (λ h. cc, λ h. cc)
str_eq_iff (x ∷ xs) (y ∷ ys) = ground (arith, str_eq_iff xs ys)

pub str_eq_refl : (a : Str) → str_eq a a ≡ true
str_eq_refl a = (str_eq_iff a a).1 refl

-- The prefix test and `strstr(s, sub) != NULL`.
unfoldable pub starts_with : Str → Str → Bool
starts_with [] s = true
starts_with (p ∷ ps) [] = false
starts_with (p ∷ ps) (x ∷ xs) = (p == x) && starts_with ps xs

unfoldable pub contains : Str → Str → Bool
unfolding starts_with
contains sub [] = starts_with sub []
contains sub (x ∷ xs) = starts_with sub (x ∷ xs) || contains sub xs

-- What `snprintf` into a buffer of `size` bytes leaves there: one byte is for the NUL.
abbrev pub truncate : ℕ → Str → Str
truncate size s = take (size - 1) s

-- A NULL string counts as empty where the code tests `!s || !*s`.
abbrev pub is_empty : Option Str → Bool
is_empty none = true
is_empty (some []) = true
is_empty (some (c ∷ s)) = false

-- `%d` and `%u` of a number: digits are added in front, on fuel that exceeds the number.
decimal_onto : ℕ → ℕ → Str → Str
decimal_onto zero n acc = acc
decimal_onto (suc fuel) n acc =
    let more = decimal_onto fuel (n / 10) ((48 + n % 10) ∷ acc) in
    if ltb n 10 then (48 + n) ∷ acc else more

unfoldable pub decimal : ℕ → Str
unfolding decimal_onto
decimal n = decimal_onto (suc n) n []
