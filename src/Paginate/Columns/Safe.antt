-- ===== src/Paginate/Columns/Safe.antt =====
-- No text of a request reaches the SQL but as a plain name.
use gobase.Base.{
  ◌≡◌, refl, ◌∙◌, subst, ◌⊎◌, inl, inr, true, none, some, List, [], ◌∷◌, ◌++◌, Bool-cases,
  Option-cases, ◌==◌, ==_iff, nat_comparable, bool_comparable, list_comparable, All,
}
use gobase.Base.{>>=-eq-some}
use gobase.Base.GoMap.{GoMap, lookup}
use gobase.Base.Text.{Text, split, is_empty}
use gobase.Paginate.Options.{OrderBy}
use gobase.Paginate.Columns.{
  CasePackage, asc, desc, sanitize_order_by_direction, camel_case_to_snake_case, is_column_name,
  without_spaces, plain_column, sanitize_db_column, columns_of, decode_order_by, with_direction,
  order_terms,
}

-- A value of the mapping, or a name of lower-case letters and underscores that is not empty.
abbrev pub IsColumn : GoMap Text Text → Text → Type 0
IsColumn mapping column =
    ((key : Text) × (lookup key mapping ≡ some column)) ⊎ (is_column_name column ≡ true)

plain_column-IsColumn :
    (name column : Text) → plain_column name ≡ some column → is_column_name column ≡ true
plain_column-IsColumn name column h = elim (Bool-cases (is_column_name name)) [
  | inl fine ↦
      let e : some name ≡ some column = rw fine at h in let f : name ≡ column = cc in rw (← f) fine
  | inr bad ↦ let e : none ≡ some column = rw bad at h in cc
]

-- Whatever column a request names, what is used is a value that the mapping has, or a plain name.
pub sanitize_db_column-IsColumn :
    (case : CasePackage) (input_col : Text) (mapping : GoMap Text Text) (column : Text)
    → sanitize_db_column case input_col mapping ≡ some column
    → IsColumn mapping column
unfolding sanitize_db_column
sanitize_db_column-IsColumn case input_col mapping column h =
    elim (Option-cases (lookup input_col mapping)) [
      | inr (found, e) ↦ let f : some found ≡ some column = rw e at h in inl (input_col, e ∙ f)
      | inl e ↦ elim (Option-cases (lookup (case.lower_text input_col) mapping)) [
        | inr (found, e') ↦
            let f : some found ≡ some column = rw (e, e') at h in
            inl (case.lower_text input_col, e' ∙ f)
        | inl e' ↦ inr (
            plain_column-IsColumn (camel_case_to_snake_case case (without_spaces input_col)) column
              (rw (e, e') at h))
      ]
    ]

columns_of-IsColumn :
    (case : CasePackage) (mapping : GoMap Text Text) (parts columns : List Text)
    → columns_of case mapping parts ≡ some columns
    → All (IsColumn mapping) columns
columns_of-IsColumn case mapping [] columns h =
    let e : [] ≡ columns = cc in subst (All (IsColumn mapping)) e tt
columns_of-IsColumn case mapping (part ∷ parts) columns h =
    let (column, e, f) = >>=-eq-some (sanitize_db_column case part mapping) _ h in
    let (rest, e', g) = >>=-eq-some (columns_of case mapping parts) _ f in
    let k : column ∷ rest ≡ columns = cc in
    subst (All (IsColumn mapping)) k (
      sanitize_db_column-IsColumn case part mapping column e,
      columns_of-IsColumn case mapping parts rest e',
    )

decode_order_by-IsColumn :
    (case : CasePackage) (value : Text) (mapping : GoMap Text Text) (columns : List Text)
    → decode_order_by case value mapping ≡ some columns
    → All (IsColumn mapping) columns
unfolding decode_order_by
decode_order_by-IsColumn case value mapping columns h = elim (Bool-cases (is_empty value)) [
  | inl empty ↦
      let e : some [] ≡ some columns = rw empty at h in
      let f : [] ≡ columns = cc in subst (All (IsColumn mapping)) f tt
  | inr full ↦ columns_of-IsColumn case mapping (split value 44) columns (rw full at h)
]

-- One term of the order: a column, a space, and a direction that SQL knows or none.
abbrev pub IsTerm : GoMap Text Text → Text → Type 0
IsTerm mapping term =
    (column : Text) × (direction : Text) × (term ≡ column ++ 32 ∷ direction)
    × IsColumn mapping column
    × ((direction ≡ asc) ⊎ (direction ≡ desc) ⊎ (direction ≡ []))

is_empty-eq : (s : Text) → is_empty s ≡ true → s ≡ []
is_empty-eq [] h = refl
is_empty-eq (c ∷ s) h = cc

direction_cases :
    (value direction : Text)
    → sanitize_order_by_direction value ≡ some direction
    → (direction ≡ asc) ⊎ (direction ≡ desc) ⊎ (direction ≡ [])
unfolding sanitize_order_by_direction
direction_cases value direction h = elim (Bool-cases (value == asc)) [
  | inl e ↦ let f : some value ≡ some direction = rw e at h in inl (cc' f ∙ (==_iff value asc).0 e)
  | inr e ↦ elim (Bool-cases (value == desc)) [
    | inl e' ↦
        let f : some value ≡ some direction = rw (e, e') at h in
        inr (inl (cc' f ∙ (==_iff value desc).0 e'))
    | inr e' ↦ elim (Bool-cases (is_empty value)) [
      | inl e'' ↦
          let f : some value ≡ some direction = rw (e, e', e'') at h in
          inr (inr (cc' f ∙ is_empty-eq value e''))
      | inr e'' ↦ let f : none ≡ some direction = rw (e, e', e'') at h in cc
    ]
  ]
]
  where
    cc' : {a b : Text} → some a ≡ some b → b ≡ a
    cc' f = cc

with_direction-IsTerm :
    (mapping : GoMap Text Text) (direction : Text) (columns : List Text)
    → (direction ≡ asc) ⊎ (direction ≡ desc) ⊎ (direction ≡ [])
    → All (IsColumn mapping) columns
    → All (IsTerm mapping) (with_direction direction columns)
with_direction-IsTerm mapping direction [] d h = tt
with_direction-IsTerm mapping direction (column ∷ columns) d (c, h) =
    ((column, direction, refl, c, d), with_direction-IsTerm mapping direction columns d h)

-- Every term of the order that a query gets is a column that the mapping has, or a plain name of
-- lower-case letters and underscores, with a space and "asc", "desc" or nothing behind it,
-- whatever a request asks for.
pub order_terms-IsTerm :
    (case : CasePackage) (order : OrderBy) (mapping : GoMap Text Text) (terms : List Text)
    → order_terms case order mapping ≡ some terms
    → All (IsTerm mapping) terms
unfolding order_terms
order_terms-IsTerm case order mapping terms h =
    let (columns, e, f) = >>=-eq-some (decode_order_by case order.column mapping) _ h in
    let (direction, e', g) = >>=-eq-some (sanitize_order_by_direction order.direction) _ f in
    let k : with_direction direction columns ≡ terms = cc in
    subst (All (IsTerm mapping)) k (
      with_direction-IsTerm mapping direction columns (direction_cases order.direction direction e')
        (decode_order_by-IsColumn case order.column mapping columns e))
