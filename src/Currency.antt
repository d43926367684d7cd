-- ===== src/Currency.antt =====
-- Package currency: amounts in cents, printed and parsed as dollars (currency/main.go). `int` is
-- `max_int` wide: 2^63 - 1 or 2^31 - 1. A sum in int64 is its bit pattern, reduced modulo 2^64.
pub mod RoundTrip
pub mod Accepts
mod Tests
use gobase.Base.{
  ℕ, suc, ◌+◌, ◌-◌, ◌*◌, ◌/◌, ◌%◌, ◌^◌, Bool, true, false, not, ◌||◌, List, [], ◌∷◌, ◌++◌, Option,
  none, some, if◌then◌else◌, ltb, leb, eqb, length, take, keep,
}
use gobase.Base.Int.{ℤ, pos, negsuc, ltb_ℤ}
use gobase.Base.Text.{Text, trim, split}
use gobase.Base.Decimal.{format, value, is_digit}

pub data Parsed : Type 0 where
  cents : ℤ → Parsed
  invalid : Parsed
  out_of_range : Parsed

abbrev pub max_int64 : ℕ
max_int64 = 2 ^ 63 - 1

-- `(math.MaxInt64 - 99) / 100`.
abbrev pub max_dollars : ℕ
max_dollars = (max_int64 - 99) / 100

module _ (max_int : ℕ) where
  -- `-u`, which leaves the least integer as it is.
  unfoldable pub negate : ℤ → ℤ
  negate (pos n) = if eqb n 0 then pos 0 else negsuc (n - 1)
  negate (negsuc n) = if eqb n max_int then negsuc n else pos (suc n)

-- `/ 100` and `% 100`, which round toward zero.
quotient_100 : ℤ → ℤ
quotient_100 (pos n) = pos (n / 100)
quotient_100 (negsuc n) = if ltb (suc n) 100 then pos 0 else negsuc (suc n / 100 - 1)

remainder_100 : ℤ → ℤ
remainder_100 (pos n) = pos (n % 100)
remainder_100 (negsuc n) = if eqb (suc n % 100) 0 then pos 0 else negsuc (suc n % 100 - 1)

-- `%d`.
format_int : ℤ → Text
format_int (pos n) = format n
format_int (negsuc n) = b'-' ∷ format (suc n)

-- `%02d`: zeros up to two characters; a negative number has two at least.
pad_two : ℤ → Text
pad_two (pos n) = if ltb n 10 then b'0' ∷ format n else format n
pad_two (negsuc n) = b'-' ∷ format (suc n)

-- `u < 0`.
is_negative : ℤ → Bool
is_negative (pos n) = false
is_negative (negsuc n) = true

-- `Cents.String`.
unfoldable pub string : ℕ → ℤ → Text
unfolding is_negative negate quotient_100 remainder_100 format_int pad_two
string max_int u =
    let sign : Text = if is_negative u then b'-' ∷ [] else [] in
    let amount = if is_negative u then negate max_int u else u in
    sign ++ (format_int (quotient_100 amount) ++ (b'.' ∷ pad_two (remainder_100 amount)))

-- A rune outside ASCII is no digit, nor are its bytes.
digits_only : Text → Bool
digits_only [] = true
digits_only (r ∷ s) = if not (is_digit r) then false else digits_only s

unfoldable pub is_all_digits : Text → Bool
unfolding digits_only
is_all_digits [] = false
is_all_digits (r ∷ s) = digits_only (r ∷ s)

-- `strconv.ParseInt(s, 10, 64)` where `isAllDigits(s)` holds: it fails on overflow only.
parse_int : Text → Option ℕ
parse_int s = if leb (value 0 s) max_int64 then some (value 0 s) else none

-- An int64 from its bit pattern.
abbrev int64 : ℕ → ℤ
int64 bits = if leb bits max_int64 then pos bits else negsuc (2 ^ 64 - 1 - bits)

module _ (max_int : ℕ) (negative : Bool) where
  -- From `if negative` on: the narrowing to `int`.
  narrow : ℕ → Parsed
  narrow total =
      let signed = int64 (if negative then (2 ^ 64 - total) % 2 ^ 64 else total) in
      if ltb_ℤ (pos max_int) signed || ltb_ℤ signed (negsuc max_int)
      then out_of_range
      else cents signed

  two_places : Text → Text
  two_places frac =
      let cut = if ltb 2 (length frac) then take 2 frac else frac in
      if eqb (length cut) 1 then cut ++ b'0' ∷ [] else cut

  -- The body of `if len(parts) == 2`, and what follows it.
  add_cents : ℕ → Option Text → Parsed
  unfolding narrow two_places
  add_cents total none = narrow total
  add_cents total (some frac) =
      if not (is_all_digits (two_places frac))
      then invalid
      else elim (parse_int (two_places frac)) [
        | none ↦ invalid
        | some c ↦ narrow ((total + c) % 2 ^ 64)
      ]

  pub parse_dollars : Text → Option Text → Parsed
  unfolding add_cents is_all_digits parse_int
  parse_dollars whole frac = if not (is_all_digits whole) then invalid else elim (parse_int whole) [
    | none ↦ invalid
    | some dollars ↦
        if ltb max_dollars dollars then out_of_range else add_cents (dollars * 100 % 2 ^ 64) frac
  ]

  pub parse_parts : List Text → Parsed
  unfolding parse_dollars
  parse_parts [] = invalid
  parse_parts (whole ∷ []) = parse_dollars whole none
  parse_parts (whole ∷ frac ∷ []) = parse_dollars whole (some frac)
  parse_parts (whole ∷ frac ∷ more ∷ rest) = invalid

-- `strings.Trim(src, "$ ")`, then every comma removed.
pub sanitize : Text → Text
sanitize src = keep (λ c. not (eqb c b',')) (trim (λ c. eqb c b'$' || eqb c b' ') src)

-- The `switch` on a leading sign.
pub parse_signed : ℕ → Text → Parsed
unfolding parse_parts
parse_signed max_int [] = parse_parts max_int false (split [] b'.')
parse_signed max_int (c ∷ rest) =
    if eqb c b'-'
    then parse_parts max_int true (split rest b'.')
    else if eqb c b'+'
    then parse_parts max_int false (split rest b'.')
    else parse_parts max_int false (split (c ∷ rest) b'.')

unfoldable pub parse : ℕ → Text → Parsed
unfolding sanitize parse_signed
parse max_int src = parse_signed max_int (sanitize src)

-- `CentsWithJsonEncoding`: `MarshalJSON` and `UnmarshalJSON`.
unfoldable pub marshal_json : ℕ → ℤ → Text
unfolding string
marshal_json max_int u = string max_int u

unfoldable pub unmarshal_json : ℕ → Text → Parsed
unfolding parse
unmarshal_json max_int bytes = parse max_int bytes
