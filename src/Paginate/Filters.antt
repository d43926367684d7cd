-- ===== src/Paginate/Filters.antt =====
-- The filters of a request, and the conditions of a query.
pub mod RoundTrip
pub mod Checked
use gobase.Base.{
  ℕ, Bool, true, false, ◌||◌, List, [], ◌∷◌, ◌++◌, Option, none, some, if◌then◌else◌, eqb, ◌==◌,
  ◌>>=◌, list_comparable, nat_comparable,
}
use gobase.Base.GoMap.{GoMap}
use gobase.Base.Text.{Text, split, is_empty}
use gobase.Paginate.Options.{Filter, QueryConfig}
use gobase.Paginate.Columns.{CasePackage, sanitize_db_column}

-- `^(.*?)(=|<=|>=|<|>)(.*)$`: the operator is at the first "=", "<" or ">", and the longer one
-- where two fit. A line break fits none of the parts.
abbrev pub after_sign : ℕ → Text → Filter
after_sign sign [] = record { column = []; operator = sign ∷ []; value = [] }
after_sign sign (c ∷ s) =
    if eqb c 61
    then record { column = []; operator = sign ∷ 61 ∷ []; value = s }
    else record { column = []; operator = sign ∷ []; value = c ∷ s }

abbrev pub longer_column : ℕ → Option Filter → Option Filter
longer_column c none = none
longer_column c (some f) = some (record f { column = c ∷ f.column })

abbrev pub match_filter : Text → Option Filter
match_filter [] = none
match_filter (c ∷ s) =
    let rest = match_filter s in
    if eqb c 61
    then some (record { column = []; operator = 61 ∷ []; value = s })
    else if eqb c 60 || eqb c 62
    then some (after_sign c s)
    else longer_column c rest

abbrev pub has_line_break : Text → Bool
has_line_break [] = false
has_line_break (c ∷ s) = eqb c 10 || has_line_break s

unfoldable pub find_filter : Text → Option Filter
find_filter part = if has_line_break part then none else match_filter part

abbrev pub filters_of : List Text → Option (List Filter)
filters_of [] = some []
filters_of (part ∷ parts) =
    find_filter part >>= λ f. filters_of parts >>= λ filters. some (f ∷ filters)

unfoldable pub decode_request_filter : Text → Option (List Filter)
unfolding find_filter
decode_request_filter value = if is_empty value then some [] else filters_of (split value 44)

-- What is appended to the query, with the values as parameters of the statement.
pub data Where : Type 0 where
  eq : Text → Text → Where
  gt_or_eq : Text → Text → Where
  lt_or_eq : Text → Text → Where
  lt : Text → Text → Where
  gt : Text → Text → Where
  -- The disjunction of `field ILIKE pattern`.
  any_like : List Text → Text → Where

unfoldable pub condition : Text → Text → Text → Option Where
condition operator column value =
    if operator == 61 ∷ []
    then some (eq column value)
    else if operator == 62 ∷ 61 ∷ []
    then some (gt_or_eq column value)
    else if operator == 60 ∷ 61 ∷ []
    then some (lt_or_eq column value)
    else if operator == 60 ∷ []
    then some (lt column value)
    else if operator == 62 ∷ []
    then some (gt column value)
    else none

abbrev pub conditions : CasePackage → GoMap Text Text → List Filter → Option (List Where)
conditions case mapping [] = some []
conditions case mapping (f ∷ filters) = sanitize_db_column case f.column mapping >>= λ column.
    condition f.operator column f.value >>= λ cond.
    conditions case mapping filters >>= λ conds. some (cond ∷ conds)

unfoldable pub apply_filters : CasePackage → QueryConfig → Option (List Where)
unfolding condition
apply_filters case cfg = conditions case cfg.column_mapping cfg.filter

abbrev pub no_fields : List Text → Bool
no_fields [] = true
no_fields (field ∷ fields) = false

unfoldable pub apply_search : QueryConfig → List Where
apply_search cfg =
    if no_fields cfg.search_fields || is_empty cfg.search
    then []
    else any_like cfg.search_fields (37 ∷ cfg.search ++ 37 ∷ []) ∷ []
