-- ===== src/Paginate/Filters/Checked.antt =====
-- The filters that a request can carry meet no operator that the query does not know.
use gobase.Base.{
  ℕ, suc, ◌≡◌, refl, sym, ap, subst, inl, inr, true, ◌||◌, Option, none, some, List, [], ◌∷◌, arith,
  eqb, eqb_iff, Bool-cases, length, nat_comparable, bool_comparable, list_comparable, All,
}
use gobase.Base.{>>=-eq-some}
use gobase.Base.GoMap.{GoMap}
use gobase.Base.Text.{Text, split, is_empty}
use gobase.Paginate.Options.{Filter, QueryConfig}
use gobase.Paginate.Columns.{CasePackage, sanitize_db_column}
use gobase.Paginate.Filters.{
  after_sign, longer_column, match_filter, has_line_break, find_filter, filters_of,
  decode_request_filter, Where, eq, lt, lt_or_eq, gt, gt_or_eq, condition, conditions,
  apply_filters,
}

-- The query knows the operator.
abbrev pub IsKnown : Filter → Type 0
IsKnown f = (column : Text) → (cond : Where) × (condition f.operator column f.value ≡ some cond)

IsKnown-less : (s : Text) → IsKnown (after_sign 60 s)
unfolding condition
IsKnown-less [] column = (lt column [], refl)
IsKnown-less (c ∷ s) column = elim (Bool-cases (eqb c 61)) [
  | inl or_equal ↦ rw or_equal (lt_or_eq column s, refl)
  | inr bare ↦ rw bare (lt column (c ∷ s), refl)
]

IsKnown-greater : (s : Text) → IsKnown (after_sign 62 s)
unfolding condition
IsKnown-greater [] column = (gt column [], refl)
IsKnown-greater (c ∷ s) column = elim (Bool-cases (eqb c 61)) [
  | inl or_equal ↦ rw or_equal (gt_or_eq column s, refl)
  | inr bare ↦ rw bare (gt column (c ∷ s), refl)
]

IsKnown-sign : (c : ℕ) (s : Text) → (eqb c 60 || eqb c 62) ≡ true → IsKnown (after_sign c s)
IsKnown-sign c s h = elim (Bool-cases (eqb c 60)) [
  | inl less ↦ subst (λ d. IsKnown (after_sign d s)) (sym ((eqb_iff c 60).0 less)) (IsKnown-less s)
  | inr other ↦
      let greater : eqb c 62 ≡ true = ground arith in
      subst (λ d. IsKnown (after_sign d s)) (sym ((eqb_iff c 62).0 greater)) (IsKnown-greater s)
]

longer_column_inv :
    (c : ℕ) (o : Option Filter) (f : Filter)
    → longer_column c o ≡ some f
    → (g : Filter) × (o ≡ some g) × (record g { column = c ∷ g.column } ≡ f)
longer_column_inv c none f h = cc
longer_column_inv c (some g) f h = (g, refl, cc)

match_filter-IsKnown : (part : Text) (f : Filter) → match_filter part ≡ some f → IsKnown f
unfolding condition
match_filter-IsKnown [] f h = cc
match_filter-IsKnown (c ∷ s) f h = elim (Bool-cases (eqb c 61)) [
  | inl equal ↦
      let e : some (record { column = []; operator = 61 ∷ []; value = s }) ≡ some f =
        rw equal at h in
      let g : record { column = []; operator = 61 ∷ []; value = s } ≡ f = cc in
      subst IsKnown g (λ column. (eq column s, refl))
  | inr other ↦ elim (Bool-cases (eqb c 60 || eqb c 62)) [
    | inl sign ↦
        let e : some (after_sign c s) ≡ some f = rw (other, sign) at h in
        let g : after_sign c s ≡ f = cc in subst IsKnown g (IsKnown-sign c s sign)
    | inr letter ↦
        let (g, found, same) = longer_column_inv c (match_filter s) f (rw (other, letter) at h) in
        subst IsKnown same (match_filter-IsKnown s g found)
  ]
]

filters_of-IsKnown :
    (parts : List Text) (filters : List Filter)
    → filters_of parts ≡ some filters
    → All IsKnown filters
unfolding find_filter
filters_of-IsKnown [] filters h = let e : [] ≡ filters = cc in subst (All IsKnown) e tt
filters_of-IsKnown (part ∷ parts) filters h =
    let (f, e, g) = >>=-eq-some (find_filter part) _ h in
    let (rest, e', g') = >>=-eq-some (filters_of parts) _ g in
    let k : f ∷ rest ≡ filters = cc in
    subst (All IsKnown) k (known f e, filters_of-IsKnown parts rest e')
  where
    known : (f : Filter) → find_filter part ≡ some f → IsKnown f
    known f e = elim (Bool-cases (has_line_break part)) [
      | inl broken ↦ let clash : none ≡ some f = rw broken at e in cc
      | inr whole ↦ match_filter-IsKnown part f (rw whole at e)
    ]

decode_request_filter-IsKnown :
    (value : Text) (filters : List Filter)
    → decode_request_filter value ≡ some filters
    → All IsKnown filters
unfolding decode_request_filter
decode_request_filter-IsKnown value filters h = elim (Bool-cases (is_empty value)) [
  | inl empty ↦
      let e : some [] ≡ some filters = rw empty at h in
      let f : [] ≡ filters = cc in subst (All IsKnown) f tt
  | inr full ↦ filters_of-IsKnown (split value 44) filters (rw full at h)
]

-- The column is one that the query accepts.
abbrev pub IsAccepted : CasePackage → GoMap Text Text → Filter → Type 0
IsAccepted case mapping f =
    (column : Text) × (sanitize_db_column case f.column mapping ≡ some column)

conditions-some :
    (case : CasePackage) (mapping : GoMap Text Text) (filters : List Filter)
    → All IsKnown filters
    → All (IsAccepted case mapping) filters
    → (conds : List Where) × (conditions case mapping filters ≡ some conds)
      × (length conds ≡ length filters)
conditions-some case mapping [] known accepted = ([], refl, refl)
conditions-some case mapping (f ∷ filters) (known, h) ((column, e), accepted) =
    let (cond, e') = known column in
    let (conds, e'', len) = conditions-some case mapping filters h accepted in
    (cond ∷ conds, (rw (e, e', e'') refl), ap suc len)

-- When a request's filters can be read, they never stop the query for their operators: if each
-- column is accepted, every filter becomes one condition.
pub apply_filters-some :
    (case : CasePackage) (cfg : QueryConfig) (value : Text)
    → decode_request_filter value ≡ some cfg.filter
    → All (IsAccepted case cfg.column_mapping) cfg.filter
    → (conds : List Where) × (apply_filters case cfg ≡ some conds)
      × (length conds ≡ length cfg.filter)
unfolding apply_filters
apply_filters-some case cfg value decoded accepted =
    conditions-some case cfg.column_mapping cfg.filter
      (decode_request_filter-IsKnown value cfg.filter decoded) accepted
