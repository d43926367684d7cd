-- ===== src/ApiVersion.antt =====
-- Package apiversion: the version of a request (apiversion/main.go). `int` holds up to `max_int`.
-- The middleware stores `new_ver` of the header's value in the request's context.
pub mod Order
pub mod Parts
mod Tests
use gobase.Base.{
  ℕ, zero, suc, Bool, true, false, not, ◌||◌, ◌&&◌, List, [], ◌∷◌, ◌++◌, Option, none, some,
  if◌then◌else◌, leb, ltb, eqb, length,
}
use gobase.Base.Int.{ℤ, pos, negsuc, ltb_ℤ}
use gobase.Base.Text.{Text, push_front}
use gobase.Base.Decimal.{value, is_digit}

-- `strings.SplitN(s, ".", n)` makes `n - 1` cuts at most.
unfoldable pub split_cuts : ℕ → Text → ℕ → List Text
split_cuts zero s sep = s ∷ []
split_cuts (suc cuts) [] sep = [] ∷ []
split_cuts (suc cuts) (c ∷ s) sep =
    let rest = split_cuts cuts s sep in
    let more = split_cuts (suc cuts) s sep in if eqb c sep then [] ∷ rest else push_front c more

all_digits : Text → Bool
all_digits [] = true
all_digits (c ∷ s) = is_digit c && all_digits s

-- A sequence of digits, one at least, that stays within the bound.
number : ℕ → Text → Option ℕ
number bound [] = none
number bound (c ∷ s) =
    if all_digits (c ∷ s) && leb (value 0 (c ∷ s)) bound then some (value 0 (c ∷ s)) else none

negative : ℕ → ℤ
negative zero = pos 0
negative (suc n) = negsuc n

signed : (ℕ → ℤ) → Option ℕ → Option ℤ
signed sign none = none
signed sign (some n) = some (sign n)

-- `strconv.Atoi`: decimal digits behind an optional sign.
unfoldable pub atoi : ℕ → Text → Option ℤ
unfolding all_digits number negative signed
atoi max_int [] = none
atoi max_int (c ∷ s) =
    if eqb c b'-'
    then signed negative (number (suc max_int) s)
    else if eqb c b'+'
    then signed pos (number max_int s)
    else signed pos (number max_int (c ∷ s))

pub record Ver : Type 0 where
  pub ver_value : Text
  pub parts : List ℤ

abbrev pub max_version_parts : ℕ
max_version_parts = 8

module _ (max_int : ℕ) where
  -- The loop of `NewVer`, which returns at the first part that is no number.
  parse_loop : List Text → List ℤ → List ℤ
  parse_loop [] ver_parts = ver_parts
  parse_loop (part ∷ rest) ver_parts = elim (atoi max_int part) [
    | none ↦ ver_parts
    | some i ↦ parse_loop rest (ver_parts ++ i ∷ [])
  ]

  unfoldable pub new_ver : Text → Ver
  unfolding parse_loop split_cuts
  new_ver text = record {
    ver_value = text;
    parts = parse_loop (split_cuts max_version_parts text b'.') [];
  }

-- The loop of `GtOrEq` over the parts of both, side by side; `none` when it runs to its end.
gt_loop : List ℤ → List ℤ → Option Bool
gt_loop [] other = none
gt_loop (i ∷ v) [] = some true
gt_loop (i ∷ v) (j ∷ other) =
    if ltb_ℤ j i then some true else if ltb_ℤ i j then some false else gt_loop v other

unfoldable pub gt_or_eq : List ℤ → List ℤ → Bool
unfolding gt_loop
gt_or_eq v other = elim (gt_loop v other) [
  | some answer ↦ answer
  | none ↦ if eqb (length v) 0 && ltb 0 (length other) then false else true
]

unfoldable pub lt : List ℤ → List ℤ → Bool
unfolding gt_or_eq
lt v other = not (gt_or_eq v other)
