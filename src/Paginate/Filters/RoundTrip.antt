-- ===== src/Paginate/Filters/RoundTrip.antt =====
-- A filter that is written out is read back.
use gobase.Base.{
  ℕ, ◌≡◌, refl, ap, ◌∙◌, Bool, true, false, ◌||◌, some, List, [], ◌∷◌, ◌++◌, map, arith, eqb,
  nat_comparable, bool_comparable, list_comparable, All,
}
use gobase.Base.Text.{Text, Lacks, split, join, is_empty, split-Lacks, split-append}
use gobase.Paginate.Options.{Filter}
use gobase.Paginate.Filters.{
  match_filter, has_line_break, find_filter, filters_of, decode_request_filter,
}

abbrev pub is_sign : ℕ → Bool
is_sign c = eqb c 61 || eqb c 60 || eqb c 62

abbrev pub starts_with_equal : Text → Bool
starts_with_equal [] = false
starts_with_equal (c ∷ s) = eqb c 61

-- One of the five operators, and the value does not continue it.
pub data IsOperator : Text → Text → Type 0 where
  equal : (value : Text) → IsOperator (61 ∷ []) value
  or_equal :
      (sign : ℕ) (value : Text)
      → (eqb sign 60 || eqb sign 62) ≡ true
      → IsOperator (sign ∷ 61 ∷ []) value
  bare :
      (sign : ℕ) (value : Text)
      → (eqb sign 60 || eqb sign 62) ≡ true
      → starts_with_equal value ≡ false
      → IsOperator (sign ∷ []) value

abbrev pub print_filter : Filter → Text
print_filter f = f.column ++ (f.operator ++ f.value)

-- No sign in the column, an operator, and no comma or line break anywhere.
abbrev pub IsPrintable : Filter → Type 0
IsPrintable f =
    All (λ c. is_sign c ≡ false) f.column
    × IsOperator f.operator f.value
    × Lacks 44 (print_filter f)
    × Lacks 10 (print_filter f)

match_operator :
    (operator value : Text)
    → IsOperator operator value
    → match_filter (operator ++ value)
      ≡ some (record { column = []; operator = operator; value = value })
match_operator o v (equal value) = refl
match_operator o v (or_equal sign value h) = ground arith
match_operator o v (bare sign [] h free) = ground arith
match_operator o v (bare sign (c ∷ value) h free) = ground arith

match_filter-print :
    (column operator value : Text)
    → All (λ c. is_sign c ≡ false) column
    → IsOperator operator value
    → match_filter (column ++ (operator ++ value))
      ≡ some (record { column = column; operator = operator; value = value })
match_filter-print [] operator value h op = match_operator operator value op
match_filter-print (c ∷ column) operator value (no_sign, h) op =
    let rest = match_filter-print column operator value h op in
    let first : eqb c 61 ≡ false = ground arith in
    let second : (eqb c 60 || eqb c 62) ≡ false = ground arith in rw (first, second, rest) refl

no_line_break : (s : Text) → Lacks 10 s → has_line_break s ≡ false
no_line_break [] h = refl
no_line_break (c ∷ s) (h, hs) = ground (arith, no_line_break s hs)

find_filter-print : (f : Filter) → IsPrintable f → find_filter (print_filter f) ≡ some f
unfolding find_filter
find_filter-print f (column, op, comma, break) =
    rw (no_line_break (print_filter f) break)
      (match_filter-print f.column f.operator f.value column op)

split-print :
    (f : Filter) (filters : List Filter)
    → All IsPrintable (f ∷ filters)
    → split (join (map print_filter (f ∷ filters)) (44 ∷ [])) 44 ≡ map print_filter (f ∷ filters)
split-print f [] ((column, op, comma, break), h) = split-Lacks (print_filter f) 44 comma
split-print f (g ∷ filters) ((column, op, comma, break), h) =
    split-append (print_filter f) (join (map print_filter (g ∷ filters)) (44 ∷ [])) 44 comma
    ∙ ap (λ parts. print_filter f ∷ parts) (split-print g filters h)

filters_of-print :
    (filters : List Filter)
    → All IsPrintable filters
    → filters_of (map print_filter filters) ≡ some filters
filters_of-print [] h = refl
filters_of-print (f ∷ filters) (p, h) = rw (find_filter-print f p, filters_of-print filters h) refl

not_empty : (s rest : Text) → is_empty s ≡ false → is_empty (s ++ rest) ≡ false
not_empty [] rest h = cc
not_empty (c ∷ s) rest h = refl

printed_not_empty : (f : Filter) → IsOperator f.operator f.value → is_empty (print_filter f) ≡ false
printed_not_empty f op = by_column f.column f.operator f.value op
  where
    by_column :
        (column operator value : Text)
        → IsOperator operator value
        → is_empty (column ++ (operator ++ value)) ≡ false
    by_column [] o v (equal value) = refl
    by_column [] o v (or_equal sign value h) = refl
    by_column [] o v (bare sign value h free) = refl
    by_column (c ∷ column) operator value op = refl

joined_not_empty :
    (f : Filter) (filters : List Filter)
    → IsPrintable f
    → is_empty (join (map print_filter (f ∷ filters)) (44 ∷ [])) ≡ false
joined_not_empty f [] (column, op, comma, break) = printed_not_empty f op
joined_not_empty f (g ∷ filters) (column, op, comma, break) =
    not_empty (print_filter f) (44 ∷ join (map print_filter (g ∷ filters)) (44 ∷ []))
      (printed_not_empty f op)

-- Filters that are written as column, operator and value, with commas between them, are read back as
-- they are: no sign may stand in a column, nor a comma or a line break anywhere, and a value behind
-- "<" or ">" may not start with "=".
pub decode_request_filter-join :
    (f : Filter) (filters : List Filter)
    → All IsPrintable (f ∷ filters)
    → decode_request_filter (join (map print_filter (f ∷ filters)) (44 ∷ [])) ≡ some (f ∷ filters)
unfolding decode_request_filter
decode_request_filter-join f filters (p, h) =
    rw (joined_not_empty f filters p, split-print f filters (p, h))
      (filters_of-print (f ∷ filters) (p, h))
