-- ===== src/Prelude/Order.antt =====
-- The order of texts, as `ORDER BY id` and `sorted` use it.
use Prim.Native.Nat.{ℕ, Ordering, compare as compare_nat}
use Prim.Native.Char.{code}
use Prim.Native.String.{String, compare, then}
use Prim.Native.String.compare
use mathlib.Core.Path.{◌≡◌, sym, ◌∙◌}
use native.Mathlib.Omega.{arith}

then-lt_trans :
    (a b c : ℕ) (o p q : Ordering)
    → (o ≡ Ordering.lt → p ≡ Ordering.lt → q ≡ Ordering.lt)
    → then (compare_nat a b) o ≡ Ordering.lt
    → then (compare_nat b c) p ≡ Ordering.lt
    → then (compare_nat a c) q ≡ Ordering.lt
then-lt_trans a b c o p q f g h = ground arith

then-gt_swap :
    (a b : ℕ) (o p : Ordering)
    → (o ≡ Ordering.gt → p ≡ Ordering.lt)
    → then (compare_nat a b) o ≡ Ordering.gt
    → then (compare_nat b a) p ≡ Ordering.lt
then-gt_swap a b o p f h = ground arith

pub compare-lt_trans :
    (s t u : String)
    → compare s t ≡ Ordering.lt
    → compare t u ≡ Ordering.lt
    → compare s u ≡ Ordering.lt
compare-lt_trans String.[] String.[] u g h = h
compare-lt_trans String.[] (String.◌∷◌ d t) String.[] g h =
    let e : compare (String.◌∷◌ d t) String.[] ≡ Ordering.gt = compare.cons-nil d t in ground arith
compare-lt_trans String.[] (String.◌∷◌ d t) (String.◌∷◌ e u) g h = compare.nil-cons e u
compare-lt_trans (String.◌∷◌ c s) String.[] u g h =
    let e : compare (String.◌∷◌ c s) String.[] ≡ Ordering.gt = compare.cons-nil c s in ground arith
compare-lt_trans (String.◌∷◌ c s) (String.◌∷◌ d t) String.[] g h =
    let e : compare (String.◌∷◌ d t) String.[] ≡ Ordering.gt = compare.cons-nil d t in ground arith
compare-lt_trans (String.◌∷◌ c s) (String.◌∷◌ d t) (String.◌∷◌ e u) g h =
    compare.cons-cons c e s u
    ∙ then-lt_trans (code c) (code d) (code e) (compare s t) (compare t u) (compare s u)
        (compare-lt_trans s t u) (sym (compare.cons-cons c d s t) ∙ g)
        (sym (compare.cons-cons d e t u) ∙ h)

pub compare-gt_swap : (s t : String) → compare s t ≡ Ordering.gt → compare t s ≡ Ordering.lt
compare-gt_swap String.[] String.[] h = ground arith
compare-gt_swap String.[] (String.◌∷◌ d t) h =
    let e : compare String.[] (String.◌∷◌ d t) ≡ Ordering.lt = compare.nil-cons d t in ground arith
compare-gt_swap (String.◌∷◌ c s) String.[] h = compare.nil-cons c s
compare-gt_swap (String.◌∷◌ c s) (String.◌∷◌ d t) h =
    compare.cons-cons d c t s
    ∙ then-gt_swap (code c) (code d) (compare s t) (compare t s) (compare-gt_swap s t)
        (sym (compare.cons-cons c d s t) ∙ h)
