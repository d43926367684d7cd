-- ===== src/Currency/Accepts.antt =====
-- What `Parse` accepts, and the amount that it reads: no step wraps around.
use gobase.Base.{
  ℕ, zero, suc, ◌+◌, ◌*◌, ◌%◌, ◌^◌, ◌≤◌, ◌≡◌, refl, sym, ap, ◌∙◌, ◌≢◌, Bool, true, false, not,
  Option, none, some, [], ◌∷◌, ◌++◌, arith, ltb, leb, if◌then◌else◌, nat_comparable,
  bool_comparable, list_comparable, All, All-append,
}
use gobase.Base.Int.{ℤ, pos, negsuc}
use gobase.Base.Text.{Text, split, split-Lacks, split-append}
use gobase.Base.Decimal.{value, IsDigit}
use gobase.Currency.RoundTrip.{IsPlain, All-mono, sanitize-IsPlain, parse_signed-append}
use gobase.Currency.{
  Parsed, cents, invalid, out_of_range, max_int64, max_dollars, is_all_digits, parse_int,
  two_places, add_cents, parse_dollars, parse_parts, parse,
}

-- The amount of a sign and a magnitude.
abbrev pub signed : Bool → ℕ → ℤ
signed false n = pos n
signed true zero = pos 0
signed true (suc n) = negsuc n

-- The greatest magnitude that the sign leaves room for.
abbrev pub room : Bool → ℕ → ℕ
room false max_int = max_int
room true max_int = suc max_int

-- The digits of the fraction that count.
abbrev pub cents_text : Option Text → Text
cents_text none = b'0' ∷ []
cents_text (some []) = []
cents_text (some (c ∷ [])) = c ∷ b'0' ∷ []
cents_text (some (c ∷ d ∷ s)) = c ∷ d ∷ []

cents_text-two_places : (m : ℕ) (n : Bool) (s : Text) → two_places m n s ≡ cents_text (some s)
unfolding two_places
cents_text-two_places m n [] = refl
cents_text-two_places m n (c ∷ []) = refl
cents_text-two_places m n (c ∷ d ∷ []) = refl
cents_text-two_places m n (c ∷ d ∷ e ∷ s) = ground arith

-- The whole reading of an amount over the integers, with no word size but in its bounds.
abbrev pub amount : ℕ → Bool → Text → Option Text → Parsed
amount max_int negative whole frac =
    let total = value 0 whole * 100 + value 0 (cents_text frac) in
    if not (is_all_digits whole)
    then invalid
    else if ltb max_int64 (value 0 whole)
    then invalid
    else if ltb max_dollars (value 0 whole)
    then out_of_range
    else if not (is_all_digits (cents_text frac))
    then invalid
    else if leb total (room negative max_int)
    then cents (signed negative total)
    else out_of_range

add_cents_skips :
    (max_int : ℕ) (negative : Bool) (total c d : ℕ) (s : Text)
    → add_cents max_int negative total (some (c ∷ d ∷ s))
      ≡ add_cents max_int negative total (some (c ∷ d ∷ []))
unfolding add_cents
add_cents_skips max_int negative total c d s = rw (
  cents_text-two_places max_int negative (c ∷ d ∷ s),
  cents_text-two_places max_int negative (c ∷ d ∷ []),
)

parse_dollars_skips :
    (max_int : ℕ) (negative : Bool) (whole : Text) (c d : ℕ) (s : Text)
    → parse_dollars max_int negative whole (some (c ∷ d ∷ s))
      ≡ parse_dollars max_int negative whole (some (c ∷ d ∷ []))
unfolding parse_dollars parse_int
parse_dollars_skips max_int negative whole c d s =
    ground (arith, add_cents_skips max_int negative (value 0 whole * 100 % 2 ^ 64) c d s)

-- Whatever follows the second place behind the point is skipped, unread: also what is no digit.
pub parse_skips_tail :
    (max_int : ℕ) (whole : Text) (c d : ℕ) (tail : Text)
    → whole ≢ []
    → All IsDigit whole
    → IsDigit c
    → IsDigit d
    → All (λ x. b'/' ≤ x) tail
    → parse max_int (whole ++ (b'.' ∷ c ∷ d ∷ tail)) ≡ parse max_int (whole ++ (b'.' ∷ c ∷ d ∷ []))
unfolding parse
parse_skips_tail max_int whole c d tail ne hw hc hd ht =
    rw (sanitize-IsPlain _ (plain tail ht), sanitize-IsPlain _ (plain [] tt))
      (parse_signed-append max_int whole _ ne hw
        ∙ both
        ∙ sym (parse_signed-append max_int whole _ ne hw))
  where
    plain : (s : Text) → All (λ x. b'/' ≤ x) s → All IsPlain (whole ++ (b'.' ∷ c ∷ d ∷ s))
    plain s hs =
        All-append IsPlain whole _ (All-mono (λ x p. omega arith) whole hw)
          (omega arith, (omega arith, (omega arith, All-mono (λ x p. omega arith) s hs)))

    parts :
        (s : Text)
        → All (λ x. b'/' ≤ x) s
        → split (whole ++ (b'.' ∷ c ∷ d ∷ s)) b'.' ≡ whole ∷ (c ∷ d ∷ s) ∷ []
    parts s hs =
        split-append whole (c ∷ d ∷ s) b'.' (All-mono (λ x p. omega arith) whole hw)
        ∙ ap (◌∷◌ whole) (
            split-Lacks (c ∷ d ∷ s) b'.'
              (omega arith, (omega arith, All-mono (λ x p. omega arith) s hs)))

    both :
        parse_parts max_int false (split (whole ++ (b'.' ∷ c ∷ d ∷ tail)) b'.')
        ≡ parse_parts max_int false (split (whole ++ (b'.' ∷ c ∷ d ∷ [])) b'.')
    both =
        rw (parts tail ht, parts [] tt)
          (unfold parse_parts in parse_dollars_skips max_int false whole c d tail)
