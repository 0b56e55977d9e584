-- ===== src/Base/Decimal.antt =====
-- The decimal print of an unsigned number, as `format!("{}")` writes it.
use Prim.Native.Nat.{ℕ, zero, suc, ◌+◌, ◌-◌, ◌*◌, ◌/◌, ◌%◌, ◌<◌}
use mathlib.Core.Path.{◌≡◌, sym, ap, ◌∙◌}
use mathlib.Core.List.{[], ◌∷◌}
use native.Mathlib.Omega.{arith}
use runtime_rs.Base.Tests.{ltb, if◌then◌else◌}
use runtime_rs.Base.Text.{Str, Lacks}

-- Digits are put before `acc`, the last one first; each round divides by ten.
digits_before : ℕ → ℕ → Str → Str
digits_before zero n acc = acc
digits_before (suc f) n acc =
    let rest = digits_before f (n / 10) ((48 + n % 10) ∷ acc) in
    if ltb n 10 then (48 + n) ∷ acc else rest

unfoldable pub decimal : ℕ → Str
unfolding digits_before
decimal n = digits_before (suc n) n []

value : ℕ → Str → ℕ
value acc [] = acc
value acc (c ∷ s) = value (acc * 10 + (c - 48)) s

value-digits_before : (f n : ℕ) (acc : Str) → n < f → value 0 (digits_before f n acc) ≡ value n acc
unfolding digits_before value
value-digits_before zero n acc h = elim h [ ]
value-digits_before (suc f) n acc h = ground (
  arith,
  value-digits_before f (n / 10) ((48 + n % 10) ∷ acc),
  ap (λ t. value t acc) (split n),
  ap (λ t. value t acc) (below n),
)
  where
    split : (n : ℕ) → n / 10 * 10 + (48 + n % 10 - 48) ≡ n
    split n = omega arith

    below : (n : ℕ) → 0 * 10 + (48 + n - 48) ≡ n
    below n = omega arith

-- Two numbers that print alike are equal.
pub decimal-injective : (m n : ℕ) → decimal m ≡ decimal n → m ≡ n
unfolding decimal value
decimal-injective m n e =
    sym (value-digits_before (suc m) m [] (omega arith))
    ∙ ap (value 0) e
    ∙ value-digits_before (suc n) n [] (omega arith)

Lacks-digits_before : (f n : ℕ) (acc : Str) → Lacks 58 acc → Lacks 58 (digits_before f n acc)
unfolding digits_before
Lacks-digits_before zero n acc h = h
Lacks-digits_before (suc f) n acc h =
    ground (arith, Lacks-digits_before f (n / 10) ((48 + n % 10) ∷ acc))

-- No decimal digit is a colon.
pub Lacks-decimal : (n : ℕ) → Lacks 58 (decimal n)
unfolding decimal
Lacks-decimal n = Lacks-digits_before (suc n) n [] tt
