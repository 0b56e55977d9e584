-- ===== src/Base/Text.antt =====
-- The program's strings, as the list of their code points, and its byte strings.
use Prim.Native.Nat.{ℕ}
use Prim.Native.Char.{code}
use Prim.Native.String.{String}
use mathlib.Core.Path.{◌≡◌, refl}
use mathlib.Core.Logic.{◌≢◌, ◌↔◌}
use mathlib.Core.Bool.{Bool, true, false, ◌&&◌}
use mathlib.Core.Option.{Option, none, some}
use mathlib.Core.List.{List, [], ◌∷◌, ◌++◌}
use native.Mathlib.Omega.{arith}
use runtime_rs.Base.Tests.{◌==◌}
use runtime_rs.Base.Lists.{All}

abbrev pub Str : Type 0
Str = List ℕ

abbrev pub Bytes : Type 0
Bytes = List ℕ

-- The code points of a literal.
abbrev pub codes : String → Str
codes String.[] = []
codes (String.◌∷◌ c s) = code c ∷ codes s

unfoldable pub str_eq : Str → Str → Bool
str_eq [] [] = true
str_eq [] (_ ∷ _) = false
str_eq (_ ∷ _) [] = false
str_eq (a ∷ s) (b ∷ t) = a == b && str_eq s t

pub str_eq_iff : (s t : Str) → (str_eq s t ≡ true) ↔ (s ≡ t)
unfolding str_eq
str_eq_iff [] [] = ground arith
str_eq_iff [] (b ∷ t) = ground arith
str_eq_iff (a ∷ s) [] = ground arith
str_eq_iff (a ∷ s) (b ∷ t) = ground (arith, str_eq_iff s t)

pub str_eq_refl : (s : Str) → str_eq s s ≡ true
str_eq_refl s = (str_eq_iff s s).1 refl

-- `str::starts_with`
unfoldable pub starts_with : Str → Str → Bool
starts_with s [] = true
starts_with [] (_ ∷ _) = false
starts_with (a ∷ s) (b ∷ p) = a == b && starts_with s p

pub starts_with-append : (p s : Str) → starts_with (p ++ s) p ≡ true
unfolding starts_with
starts_with-append [] s = ground arith
starts_with-append (a ∷ p) s = ground (arith, starts_with-append p s)

-- `str::contains` of one character
unfoldable pub contains_char : ℕ → Str → Bool
contains_char c [] = false
contains_char c (a ∷ s) = elim (a == c) [ true ↦ true | false ↦ contains_char c s ]

abbrev pub Lacks : ℕ → Str → Type 0
Lacks c = All (λ a. a ≢ c)

pub Lacks-of_not_contains : (c : ℕ) (s : Str) → contains_char c s ≡ false → Lacks c s
unfolding contains_char
Lacks-of_not_contains c [] h = tt
Lacks-of_not_contains c (a ∷ s) h = ground (arith, Lacks-of_not_contains c s)

-- A text that lacks `c` is read off from what stands before the first `c`.
pub segment-injective :
    (c : ℕ) (s t x y : Str)
    → Lacks c s
    → Lacks c t
    → s ++ (c ∷ x) ≡ t ++ (c ∷ y)
    → (s ≡ t) × (x ≡ y)
segment-injective c [] [] x y hs ht e = (refl, cc)
segment-injective c [] (b ∷ t) x y hs ht e = ground arith
segment-injective c (a ∷ s) [] x y hs ht e = ground arith
segment-injective c (a ∷ s) (b ∷ t) x y (p, hs) (q, ht) e =
    let r : (s ≡ t) × (x ≡ y) = segment-injective c s t x y hs ht (cc) in (cc (r.0), r.1)

-- `str::split_once` at one character: what stands before the first and after it.
unfoldable pub split_once : ℕ → Str → Option (Str × Str)
split_once c [] = none
split_once c (a ∷ s) = elim (a == c) [
  | true ↦ some ([], s)
  | false ↦ elim (split_once c s) [ none ↦ none | some (x, y) ↦ some (a ∷ x, y) ]
]

pub split_once-join : (c : ℕ) (x y : Str) → Lacks c x → split_once c (x ++ (c ∷ y)) ≡ some (x, y)
unfolding split_once
split_once-join c [] y h = ground arith
split_once-join c (a ∷ x) y h = ground (arith, split_once-join c x y)

-- What is split off first lacks the character.
pub Lacks-split_once :
    (c : ℕ) (s x y : Str) → split_once c s ≡ some (x, y) → Lacks c x × (x ++ (c ∷ y) ≡ s)
unfolding split_once
Lacks-split_once c [] x y e = absurd (ground arith)
Lacks-split_once c (a ∷ s) [] y e = ground (arith, Lacks-split_once c s)
Lacks-split_once c (a ∷ s) (b ∷ x) y e = ground (arith, Lacks-split_once c s x y)

pub split_once-joined : (c : ℕ) (x y : Str) → split_once c (x ++ (c ∷ y)) ≢ none
unfolding split_once
split_once-joined c [] y e = ground arith
split_once-joined c (a ∷ x) y e = ground (arith, split_once-joined c x y)
