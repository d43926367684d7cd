-- ===== src/Paginate/Tests.antt =====
-- Runs of package paginate, and its theorems at concrete inputs.
use gobase.Base.{
  ℕ, suc, ◌+◌, ◌*◌, ◌^◌, ◌≤◌, ◌<◌, ◌≡◌, refl, Bool, true, ◌&&◌, none, some, List, [], ◌∷◌, ◌++◌,
  map, arith, leb, if◌then◌else◌, length, nat_comparable, bool_comparable, list_comparable, All,
}
use gobase.Base.Int.{pos, leb_ℤ, ◌*ℤ◌}
use gobase.Base.Text.{Text}
use gobase.Paginate.Options.{
  OrderBy, Filter, ConfigList, order_by, paging, filter, configs, nil, cons, QueryConfig,
  empty_config, decode_config,
}
use gobase.Paginate.Options.Flat.{flatten, summary, decode_config-summary}
use gobase.Paginate.Columns.{CasePackage, sanitize_db_column, order_terms}
use gobase.Paginate.Columns.Safe.{IsTerm, order_terms-IsTerm}
use gobase.Paginate.Filters.{Where, decode_request_filter, apply_filters}
use gobase.Paginate.Filters.RoundTrip.{equal, or_equal, decode_request_filter-join}
use gobase.Paginate.Filters.Checked.{apply_filters-some}
use gobase.Paginate.Pager.{PageSizes, apply_pager}
use gobase.Paginate.Pager.Windows.{IsSizes, apply_pager_pages}

-- The case of ASCII.
abbrev is_capital : ℕ → Bool
is_capital c = leb 65 c && leb c 90

abbrev lower : ℕ → ℕ
lower c = if is_capital c then c + 32 else c

abbrev ascii : CasePackage
ascii = record { is_upper = is_capital; to_lower = lower; lower_text = map lower }

-- "firstName", "first_name", "desc".
abbrev first_name_camel : Text
first_name_camel = 102 ∷ 105 ∷ 114 ∷ 115 ∷ 116 ∷ 78 ∷ 97 ∷ 109 ∷ 101 ∷ []

abbrev first_name : Text
first_name = 102 ∷ 105 ∷ 114 ∷ 115 ∷ 116 ∷ 95 ∷ 110 ∷ 97 ∷ 109 ∷ 101 ∷ []

abbrev descending : Text
descending = 100 ∷ 101 ∷ 115 ∷ 99 ∷ []

abbrev order : OrderBy
order = record { column = first_name_camel; direction = descending }

sanitize_run : sanitize_db_column ascii first_name_camel [] ≡ some first_name
unfolding sanitize_db_column
sanitize_run = refl

-- "a;b" is refused.
refused_run : sanitize_db_column ascii (97 ∷ 59 ∷ 98 ∷ []) [] ≡ none
unfolding sanitize_db_column
refused_run = refl

order_run : order_terms ascii order [] ≡ some ((first_name ++ 32 ∷ descending) ∷ [])
unfolding order_terms
order_run = refl

order_terms-IsTerm_example : All (IsTerm []) ((first_name ++ 32 ∷ descending) ∷ [])
order_terms-IsTerm_example =
    order_terms-IsTerm ascii order [] ((first_name ++ 32 ∷ descending) ∷ []) order_run

-- "a>=1" and "b=2".
abbrev at_least_one : Filter
at_least_one = record { column = 97 ∷ []; operator = 62 ∷ 61 ∷ []; value = 49 ∷ [] }

abbrev is_two : Filter
is_two = record { column = 98 ∷ []; operator = 61 ∷ []; value = 50 ∷ [] }

decode_request_filter-join_example :
    decode_request_filter (97 ∷ 62 ∷ 61 ∷ 49 ∷ 44 ∷ 98 ∷ 61 ∷ 50 ∷ [])
    ≡ some (at_least_one ∷ is_two ∷ [])
decode_request_filter-join_example = decode_request_filter-join at_least_one (is_two ∷ []) (
  (
    (refl, tt),
    or_equal 62 (49 ∷ []) refl,
    (ground arith, (ground arith, (ground arith, (ground arith, tt)))),
    (ground arith, (ground arith, (ground arith, (ground arith, tt)))),
  ),
  (
    (
      (refl, tt),
      equal (50 ∷ []),
      (ground arith, (ground arith, (ground arith, tt))),
      (ground arith, (ground arith, (ground arith, tt))),
    ),
    tt,
  ),
)

abbrev filtered : QueryConfig
filtered = record empty_config { filter = is_two ∷ []; page = pos 3; page_size = pos 20 }

filter_run : decode_request_filter (98 ∷ 61 ∷ 50 ∷ []) ≡ some (is_two ∷ [])
unfolding decode_request_filter
filter_run = refl

column_run : sanitize_db_column ascii (98 ∷ []) [] ≡ some (98 ∷ [])
unfolding sanitize_db_column
column_run = refl

apply_filters-some_example :
    (conds : List Where) × (apply_filters ascii filtered ≡ some conds) × (length conds ≡ 1)
apply_filters-some_example =
    apply_filters-some ascii filtered (98 ∷ 61 ∷ 50 ∷ []) filter_run ((98 ∷ [], column_run), tt)

abbrev nested : ConfigList
nested = cons (paging (record { page = pos 1; page_size = pos 10 })) (
    cons
      (configs
        (cons (filter is_two) (cons (paging (record { page = pos 2; page_size = pos 30 })) nil)))
      (cons (order_by order) nil))

nested_run : (decode_config nested empty_config).page_size ≡ pos 30
unfolding decode_config
nested_run = refl

decode_config-summary_example :
    decode_config nested empty_config ≡ summary (flatten nested) empty_config
decode_config-summary_example = decode_config-summary nested empty_config

abbrev sizes : PageSizes
sizes = record { max_page_size = pos 50; default_page_size = pos 50 }

limit_run : (apply_pager sizes filtered).limit ≡ 20
unfolding apply_pager
limit_run = refl

-- A page number of a request for which the product is reduced modulo 2^64.
wrapped_run :
    (apply_pager sizes
      (record filtered { page = pos 368934881474191033; page_size = pos 50 })).offset
    ≡ 34
unfolding apply_pager ◌*ℤ◌
wrapped_run = refl

sizes-IsSizes : IsSizes sizes
sizes-IsSizes = (refl, refl, refl)

fits_run : suc 3 * (apply_pager sizes filtered).limit < 2 ^ 64
fits_run = rw limit_run (omega arith)

apply_pager_pages_example :
    (1 ≤ (apply_pager sizes filtered).limit)
    × (leb_ℤ (pos (apply_pager sizes filtered).limit) (pos 50) ≡ true)
    × ((apply_pager sizes filtered).offset ≡ 3 * (apply_pager sizes filtered).limit)
    × ((apply_pager sizes (record filtered { page = pos 4 })).limit
        ≡ (apply_pager sizes filtered).limit)
    × ((apply_pager sizes (record filtered { page = pos 4 })).offset
        ≡ (apply_pager sizes filtered).offset + (apply_pager sizes filtered).limit)
apply_pager_pages_example = apply_pager_pages sizes filtered 3 sizes-IsSizes refl fits_run
