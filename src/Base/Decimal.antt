-- ===== src/Base/Decimal.antt =====
-- Decimal numerals: what `%d` prints and `strconv` reads, for a number without a sign.
use Prim.Native.Nat.{ℕ, zero, suc, ◌+◌, ◌-◌, ◌*◌, ◌/◌, ◌%◌, ◌≤◌, ◌<◌}
use mathlib.Core.Path.{◌≡◌, refl, ap}
use mathlib.Core.Logic.{◌≢◌, inl, inr}
use mathlib.Core.Bool.{Bool, true, false, ◌&&◌}
use mathlib.Core.List.{[], ◌∷◌, ◌++◌}
use native.Mathlib.Omega.{arith}
use gobase.Base.Tests.{ltb, leb, Bool-cases}
use gobase.Base.Count.{All, All-append}
use gobase.Base.Text.{Text}

abbrev pub IsDigit : ℕ → Type 0
IsDigit c = (b'0' ≤ c) × (c ≤ b'9')

abbrev pub is_digit : ℕ → Bool
is_digit c = leb b'0' c && leb c b'9'

digits : ℕ → ℕ → Text
digits zero n = []
digits (suc fuel) n = elim (ltb n 10) [
  | true ↦ (b'0' + n) ∷ []
  | false ↦ digits fuel (n / 10) ++ (b'0' + n % 10) ∷ []
]

-- `%d` of a number that is not negative. Every round drops a digit, so the number itself is more
-- than enough fuel.
unfoldable pub format : ℕ → Text
unfolding digits
format n = digits (suc n) n

-- The number that digits spell behind `n`.
abbrev pub value : ℕ → Text → ℕ
value n [] = n
value n (c ∷ s) = value (n * 10 + (c - b'0')) s

value-append : (n : ℕ) (s t : Text) → value n (s ++ t) ≡ value (value n s) t
value-append n [] t = refl
value-append n (c ∷ s) t = value-append (n * 10 + (c - b'0')) s t

value-digits : (fuel n : ℕ) → n < fuel → value 0 (digits fuel n) ≡ n
unfolding digits
value-digits zero n h = absurd (omega arith)
value-digits (suc fuel) n h = elim (Bool-cases (ltb n 10)) [
  | inl small ↦ rw (small, digits) (omega arith)
  | inr large ↦
      rw (large, digits, value-append 0 (digits fuel (n / 10)) _)
        (omega (arith, value-digits fuel (n / 10) (ground arith)))
]

digits-IsDigit : (fuel n : ℕ) → All IsDigit (digits fuel n)
unfolding digits
digits-IsDigit zero n = tt
digits-IsDigit (suc fuel) n = elim (Bool-cases (ltb n 10)) [
  | inl small ↦ rw (small, digits) (ground arith)
  | inr large ↦
      rw (large, digits)
        (All-append IsDigit (digits fuel (n / 10)) _ (digits-IsDigit fuel (n / 10)) (omega arith))
]

pub value-format : (n : ℕ) → value 0 (format n) ≡ n
unfolding format
value-format n = value-digits (suc n) n (omega arith)

pub format-IsDigit : (n : ℕ) → All IsDigit (format n)
unfolding format
format-IsDigit n = digits-IsDigit (suc n) n

append-ne-nil : (s : Text) (c : ℕ) → s ++ c ∷ [] ≢ []
append-ne-nil [] c h = cc
append-ne-nil (d ∷ s) c h = cc

pub format-ne-nil : (n : ℕ) → format n ≢ []
unfolding format digits
format-ne-nil n = ground (arith, append-ne-nil (digits n (n / 10)) (b'0' + n % 10))

pub format_below_10 : (n : ℕ) → n < 10 → format n ≡ (b'0' + n) ∷ []
unfolding format digits
format_below_10 n h = ground arith

digits_below_10 : (fuel n : ℕ) → n < 10 → digits (suc fuel) n ≡ (b'0' + n) ∷ []
unfolding digits
digits_below_10 fuel n h = ground arith

pub format_below_100 :
    (n : ℕ) → 10 ≤ n → n < 100 → format n ≡ (b'0' + n / 10) ∷ (b'0' + n % 10) ∷ []
unfolding format
format_below_100 zero h k = absurd (omega arith)
format_below_100 (suc n) h k = go (ltb→no h) (digits_below_10 n (suc n / 10) (omega arith))
  where
    ltb→no : 10 ≤ suc n → ltb (suc n) 10 ≡ false
    ltb→no h = ground arith

    go :
        ltb (suc n) 10 ≡ false
        → digits (suc n) (suc n / 10) ≡ (b'0' + suc n / 10) ∷ []
        → digits (suc (suc n)) (suc n) ≡ (b'0' + suc n / 10) ∷ (b'0' + suc n % 10) ∷ []
    go large tens =
        unfold digits in rw (large, digits) (ap (λ s. s ++ (b'0' + suc n % 10) ∷ []) tens)
