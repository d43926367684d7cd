-- ===== src/Paginate/Columns.antt =====
-- Column names of a request, and the terms of the order. What packages unicode and strings know of
-- case is the parameter `CasePackage`.
pub mod Safe
use gobase.Base.{
  ℕ, Bool, true, false, not, ◌&&◌, ◌||◌, List, [], ◌∷◌, ◌++◌, Option, none, some, if◌then◌else◌,
  leb, eqb, keep, ◌==◌, ◌>>=◌, list_comparable, nat_comparable,
}
use gobase.Base.GoMap.{GoMap, lookup, or_else}
use gobase.Base.Text.{Text, split, is_empty}
use gobase.Paginate.Options.{OrderBy}

pub record CasePackage : Type 0 where
  -- `unicode.IsUpper`, `unicode.ToLower`, `strings.ToLower`.
  pub is_upper : ℕ → Bool
  pub to_lower : ℕ → ℕ
  pub lower_text : Text → Text

abbrev pub asc : Text
asc = 97 ∷ 115 ∷ 99 ∷ []

abbrev pub desc : Text
desc = 100 ∷ 101 ∷ 115 ∷ 99 ∷ []

unfoldable pub sanitize_order_by_direction : Text → Option Text
sanitize_order_by_direction value =
    if value == asc || value == desc || is_empty value then some value else none

-- The loop, of which the first round has `i == 0`.
abbrev pub snake_loop : CasePackage → Bool → Text → Text
snake_loop case is_first [] = []
snake_loop case is_first (c ∷ src) =
    let rest = snake_loop case false src in
    let lowered = case.to_lower c ∷ rest in
    if case.is_upper c then (if is_first then lowered else 95 ∷ lowered) else c ∷ rest

unfoldable pub camel_case_to_snake_case : CasePackage → Text → Text
camel_case_to_snake_case case str = snake_loop case true str

-- `columnNameRegExp`, `^[a-z_]+$`.
abbrev pub is_name_char : ℕ → Bool
is_name_char c = (leb 97 c && leb c 122) || eqb c 95

abbrev pub every : (ℕ → Bool) → Text → Bool
every test [] = true
every test (c ∷ s) = test c && every test s

abbrev pub is_column_name : Text → Bool
is_column_name name = not (is_empty name) && every is_name_char name

abbrev pub without_spaces : Text → Text
without_spaces s = keep (λ c. not (eqb c 32)) s

abbrev pub plain_column : Text → Option Text
plain_column name = if is_column_name name then some name else none

unfoldable pub sanitize_db_column : CasePackage → Text → GoMap Text Text → Option Text
unfolding camel_case_to_snake_case
sanitize_db_column case input_col mapping = or_else (lookup input_col mapping) (
    or_else (lookup (case.lower_text input_col) mapping)
      (plain_column (camel_case_to_snake_case case (without_spaces input_col))))

abbrev pub columns_of : CasePackage → GoMap Text Text → List Text → Option (List Text)
columns_of case mapping [] = some []
columns_of case mapping (part ∷ parts) = sanitize_db_column case part mapping >>= λ column.
    columns_of case mapping parts >>= λ columns. some (column ∷ columns)

unfoldable pub decode_order_by : CasePackage → Text → GoMap Text Text → Option (List Text)
unfolding sanitize_db_column
decode_order_by case value mapping =
    if is_empty value then some [] else columns_of case mapping (split value 44)

abbrev pub with_direction : Text → List Text → List Text
with_direction direction [] = []
with_direction direction (order ∷ orders) =
    (order ++ 32 ∷ direction) ∷ with_direction direction orders

-- The terms that `applyOrderBy` appends to the query.
unfoldable pub order_terms : CasePackage → OrderBy → GoMap Text Text → Option (List Text)
unfolding decode_order_by sanitize_order_by_direction
order_terms case order mapping = decode_order_by case order.column mapping >>= λ columns.
    sanitize_order_by_direction order.direction >>= λ direction.
    some (with_direction direction columns)
