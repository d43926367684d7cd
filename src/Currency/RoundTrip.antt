-- ===== src/Currency/RoundTrip.antt =====
-- `Parse` reads back what `String` prints.
use gobase.Base.{
  ℕ, suc, ◌+◌, ◌*◌, ◌/◌, ◌%◌, ◌^◌, ◌≤◌, ◌<◌, ◌≡◌, refl, ap, ◌∙◌, ◌≢◌, Bool, true, false, not, ◌||◌,
  some, [], ◌∷◌, ◌++◌, arith, leb, eqb, if◌then◌else◌, nat_comparable, bool_comparable,
  list_comparable, All, All-append, keep,
}
use gobase.Base.Int.{ℤ, pos, negsuc, pos_part, neg_part}
use gobase.Base.Text.{Text, split, trim_none, split-Lacks, split-append, Lacks}
use gobase.Base.Decimal.{
  format, value, IsDigit, value-format, format-IsDigit, format-ne-nil, format_below_10,
  format_below_100,
}
use gobase.Currency.{
  cents, out_of_range, max_int64, max_dollars, negate, quotient_100, remainder_100, format_int,
  pad_two, string, digits_only, is_all_digits, parse_int, narrow, two_places, add_cents,
  parse_dollars, parse_parts, sanitize, parse_signed, parse,
}

-- What `Parse` does not trim or remove: digits, the point and the minus sign are among these.
abbrev pub IsPlain : ℕ → Type 0
IsPlain c = b'-' ≤ c

pub All-mono : {P Q : ℕ → Type 0} → ((c : ℕ) → P c → Q c) → (s : Text) → All P s → All Q s
All-mono h [] a = tt
All-mono h (c ∷ s) (p, a) = (h c p, All-mono h s a)

keep_no_comma : (s : Text) → All IsPlain s → keep (λ c. not (eqb c b',')) s ≡ s
keep_no_comma [] h = refl
keep_no_comma (c ∷ s) (p, h) = ground (arith, keep_no_comma s h)

pub sanitize-IsPlain : (s : Text) → All IsPlain s → sanitize s ≡ s
unfolding sanitize
sanitize-IsPlain s h =
    rw (trim_none (λ c. eqb c b'$' || eqb c b' ') s (All-mono (λ c p. ground arith) s h))
      (keep_no_comma s h)

digits_only-IsDigit : (s : Text) → All IsDigit s → digits_only s ≡ true
unfolding digits_only
digits_only-IsDigit [] h = refl
digits_only-IsDigit (c ∷ s) (p, h) = ground (arith, digits_only-IsDigit s h)

is_all_digits-IsDigit : (s : Text) → s ≢ [] → All IsDigit s → is_all_digits s ≡ true
unfolding is_all_digits
is_all_digits-IsDigit [] ne h = absurd (ne refl)
is_all_digits-IsDigit (c ∷ s) ne h = digits_only-IsDigit (c ∷ s) h

-- The two digits behind the point.
abbrev two_digits : ℕ → Text
two_digits r = (b'0' + r / 10) ∷ (b'0' + r % 10) ∷ []

pad_two-two_digits : (r : ℕ) → r < 100 → pad_two (pos r) ≡ two_digits r
unfolding pad_two
pad_two-two_digits r h = ground (arith, format_below_10 r, format_below_100 r)

two_digits-IsDigit : (r : ℕ) → r < 100 → All IsDigit (two_digits r)
two_digits-IsDigit r h = omega arith

-- `q` dollars and `r` cents, without a sign.
abbrev printed : ℕ → ℕ → Text
printed q r = format q ++ (b'.' ∷ two_digits r)

module _ (max_int : ℕ) (negative : Bool) (q r : ℕ) (small : r < 100)
    (fits : q * 100 + r ≤ max_int64) where
  add_cents-two_digits :
      (total : ℕ)
      → add_cents max_int negative total (some (two_digits r))
        ≡ narrow max_int negative ((total + r) % 2 ^ 64)
  unfolding add_cents two_places parse_int
  add_cents-two_digits total =
      let n : value 0 (two_digits r) ≡ r = omega arith in
      rw (is_all_digits-IsDigit (two_digits r) (λ e. cc) (two_digits-IsDigit r small))
        (ground (arith, n))

  parse_dollars-printed : parse_dollars max_int negative (format q) (some (two_digits r)) ≡ (
      if leb q max_dollars
      then narrow max_int negative ((q * 100 % 2 ^ 64 + r) % 2 ^ 64)
      else out_of_range)
  unfolding parse_dollars parse_int
  parse_dollars-printed =
      rw (is_all_digits-IsDigit (format q) (format-ne-nil q) (format-IsDigit q), value-format q)
        (ground (arith, add_cents-two_digits (q * 100 % 2 ^ 64)))

  parse_parts-printed :
      parse_parts max_int negative (split (printed q r) b'.')
      ≡ (if leb q max_dollars then narrow max_int negative (q * 100 + r) else out_of_range)
  unfolding parse_parts
  parse_parts-printed =
      rw
        (
          split-append (format q) (two_digits r) b'.' (no_point (format q) (format-IsDigit q)),
          split-Lacks (two_digits r) b'.' (no_point (two_digits r) (two_digits-IsDigit r small)),
        )
        (parse_dollars-printed
          ∙ ap (λ t. if leb q max_dollars then narrow max_int negative t else out_of_range)
              (omega arith))
    where
      no_point : (s : Text) → All IsDigit s → Lacks b'.' s
      no_point = All-mono (λ c d. omega arith)

  printed-IsPlain : All IsPlain (printed q r)
  printed-IsPlain =
      All-append IsPlain (format q) _ (All-mono (λ c d. omega arith) (format q) (format-IsDigit q))
        (omega arith)

narrow_pos :
    (max_int n : ℕ) → n ≤ max_int → max_int ≤ max_int64 → narrow max_int false n ≡ cents (pos n)
unfolding narrow
narrow_pos max_int n h k = ground arith

narrow_neg :
    (max_int n : ℕ)
    → suc n ≤ max_int
    → max_int ≤ max_int64
    → narrow max_int true (suc n) ≡ cents (negsuc n)
unfolding narrow
narrow_neg max_int n h k = ground arith

pub parse_signed-append :
    (max_int : ℕ) (s t : Text)
    → s ≢ []
    → All IsDigit s
    → parse_signed max_int (s ++ t) ≡ parse_parts max_int false (split (s ++ t) b'.')
unfolding parse_signed
parse_signed-append max_int [] t ne h = absurd (ne refl)
parse_signed-append max_int (c ∷ s) t ne (d, h) = ground arith

string_pos : (max_int n : ℕ) → string max_int (pos n) ≡ printed (n / 100) (n % 100)
unfolding string quotient_100 remainder_100 format_int
string_pos max_int n =
    ap (λ s. format (n / 100) ++ (b'.' ∷ s)) (pad_two-two_digits (n % 100) (omega arith))

string_neg :
    (max_int n : ℕ)
    → suc n ≤ max_int
    → string max_int (negsuc n) ≡ b'-' ∷ printed (suc n / 100) (suc n % 100)
unfolding string negate quotient_100 remainder_100 format_int
string_neg max_int n h =
    let other : eqb n max_int ≡ false = ground arith in
    rw other (
      ap (λ s. b'-' ∷ (format (suc n / 100) ++ (b'.' ∷ s)))
        (pad_two-two_digits (suc n % 100) (omega arith)))

abbrev pub magnitude : ℤ → ℕ
magnitude u = pos_part u + neg_part u

parse-printed_pos :
    (max_int q r : ℕ)
    → r < 100
    → q * 100 + r ≤ max_int64
    → parse max_int (printed q r)
      ≡ (if leb q max_dollars then narrow max_int false (q * 100 + r) else out_of_range)
unfolding parse
parse-printed_pos max_int q r small fits =
    rw (sanitize-IsPlain _ (printed-IsPlain max_int false q r small fits)) (
      parse_signed-append max_int (format q) _ (format-ne-nil q) (format-IsDigit q)
      ∙ parse_parts-printed max_int false q r small fits)

parse-printed_neg :
    (max_int q r : ℕ)
    → r < 100
    → q * 100 + r ≤ max_int64
    → parse max_int (b'-' ∷ printed q r)
      ≡ (if leb q max_dollars then narrow max_int true (q * 100 + r) else out_of_range)
unfolding parse parse_signed
parse-printed_neg max_int q r small fits =
    rw
      (sanitize-IsPlain (b'-' ∷ printed q r)
        (omega arith, printed-IsPlain max_int true q r small fits))
      (parse_parts-printed max_int true q r small fits)

-- `Parse` reads back what `String` prints, for every amount but the least integer, unless it is of
-- more than `maxDollars` dollars: then it is refused as out of range.
pub parse-string :
    (max_int : ℕ) (u : ℤ)
    → max_int ≤ max_int64
    → magnitude u ≤ max_int
    → parse max_int (string max_int u)
      ≡ (if leb (magnitude u / 100) max_dollars then cents u else out_of_range)
parse-string max_int (pos n) wide small =
    let whole : n / 100 * 100 + n % 100 ≡ n = omega arith in
    let same : (pos_part (pos n) + neg_part (pos n)) ≡ n = omega arith in
    rw (string_pos max_int n, same)
      (parse-printed_pos max_int (n / 100) (n % 100) (omega arith) (omega arith)
        ∙ ap (λ r. if leb (n / 100) max_dollars then r else out_of_range)
            (ap (narrow max_int false) whole ∙ narrow_pos max_int n (omega arith) wide))
parse-string max_int (negsuc n) wide small =
    let whole : suc n / 100 * 100 + suc n % 100 ≡ suc n = omega arith in
    let same : (pos_part (negsuc n) + neg_part (negsuc n)) ≡ suc n = omega arith in
    rw (string_neg max_int n (omega arith), same)
      (parse-printed_neg max_int (suc n / 100) (suc n % 100) (omega arith) (omega arith)
        ∙ ap (λ r. if leb (suc n / 100) max_dollars then r else out_of_range)
            (ap (narrow max_int true) whole ∙ narrow_neg max_int n (omega arith) wide))
