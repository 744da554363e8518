-- ===== src/Prelude/Text.antt =====
-- Texts: Python's `str` is a sequence of code points, the native `String` one of scalar values.
use Prim.Native.Nat.{ℕ, zero, suc, ◌%◌, ◌/◌, Ordering}
use Prim.Native.Char.{code}
use Prim.Native.String.{String, compare, ◌++◌ as ◌<>◌}
use mathlib.Core.Path.{◌≡◌, refl}
use mathlib.Core.Bool.{Bool, true, false, ◌||◌}
use mathlib.Core.Logic.{◌↔◌}
use mathlib.Core.List.{List, [], ◌∷◌}
use text.Mathlib.Text.{◌==◌}
use text.Mathlib.TextEquality.{eq_iff}
use native.Mathlib.Omega.{arith}
use agent_comm.Prelude.Tests.{ltb, if◌then◌else◌}

-- `s == t` of two texts.
abbrev pub same : String → String → Bool
same s t = s == t

pub same_iff : (s t : String) → (same s t ≡ true) ↔ (s ≡ t)
same_iff s t = eq_iff s t

pub same_refl : (s : String) → same s s ≡ true
same_refl s = (eq_iff s s).1 refl

-- `s < t` of two texts, by code points.
abbrev pub before : String → String → Bool
before s t = elim (compare s t) [ Ordering.lt ↦ true | _ ↦ false ]

-- The code points of a text.
abbrev pub codes : String → List ℕ
codes String.[] = []
codes (String.◌∷◌ c s) = code c ∷ codes s

-- `s in xs`.
abbrev pub mem : String → List String → Bool
mem s [] = false
mem s (x ∷ xs) = same x s || mem s xs

-- `sorted(set(xs) - set(ys))` on a sorted duplicate-free `xs`.
abbrev pub minus : List String → List String → List String
minus [] ys = []
minus (x ∷ xs) ys = let rest = minus xs ys in if mem x ys then rest else x ∷ rest

abbrev pub AllMem : List String → List String → Type 0
AllMem [] ys = Unit
AllMem (x ∷ xs) ys = (mem x ys ≡ true) × AllMem xs ys

pub minus_nil-AllMem : (xs ys : List String) → minus xs ys ≡ [] → AllMem xs ys
minus_nil-AllMem [] ys h = tt
minus_nil-AllMem (x ∷ xs) ys h = ground (arith, minus_nil-AllMem xs ys)

pub AllMem-minus_nil : (xs ys : List String) → AllMem xs ys → minus xs ys ≡ []
AllMem-minus_nil [] ys h = refl
AllMem-minus_nil (x ∷ xs) ys h = ground (arith, AllMem-minus_nil xs ys)

abbrev numeral : ℕ → String
numeral zero = "0"
numeral (suc zero) = "1"
numeral (suc (suc zero)) = "2"
numeral (suc (suc (suc zero))) = "3"
numeral (suc (suc (suc (suc zero)))) = "4"
numeral (suc (suc (suc (suc (suc zero))))) = "5"
numeral (suc (suc (suc (suc (suc (suc zero)))))) = "6"
numeral (suc (suc (suc (suc (suc (suc (suc zero))))))) = "7"
numeral (suc (suc (suc (suc (suc (suc (suc (suc zero)))))))) = "8"
numeral _ = "9"

-- `str(n)` of a number: the digits in front of `acc`; one round for each digit, so `suc n` are enough.
show_from : ℕ → ℕ → String → String
show_from zero n acc = acc
show_from (suc fuel) n acc =
    let text = numeral (n % 10) <> acc in
    let rest = show_from fuel (n / 10) text in if ltb n 10 then text else rest

unfoldable pub show : ℕ → String
unfolding show_from
show n = show_from (suc n) n ""

show_runs : show 1024 ≡ "1024"
unfolding show
show_runs = refl
