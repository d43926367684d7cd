-- ===== src/Tsv/RoundTrip.antt =====
-- A reader of quoted tab-separated rows, and that it reads what `WriteRow` writes.
use gobase.Base.{
  ℕ, ◌≡◌, refl, ap, ◌∙◌, ◌⊎◌, inl, inr, false, List, [], ◌∷◌, ◌++◌, map, append_assoc, append-nil,
  arith, eqb, if◌then◌else◌, Bool-cases, nat_comparable, bool_comparable, list_comparable,
}
use gobase.Base.Text.{Text, join}
use gobase.Tsv.{is_special, needs_quote, double_quotes, encode_value, encode_values, write_row}

-- Outside quotes, inside, and behind a quote that may close or be the first of two.
pub data Mode : Type 0 where
  plain : Mode
  quoted : Mode
  closing : Mode

-- The values of one row, from the value read so far and the bytes to come.
unfoldable pub fields : Mode → Text → Text → List Text
fields mode acc [] = acc ∷ []
fields quoted acc (c ∷ s) =
    let closed = fields closing acc s in
    let more = fields quoted (acc ++ c ∷ []) s in if eqb c 34 then closed else more
fields plain acc (c ∷ s) =
    let next = fields plain [] s in
    let open_quote = fields quoted acc s in
    let more = fields plain (acc ++ c ∷ []) s in
    if eqb c 9
    then acc ∷ next
    else if eqb c 10
    then acc ∷ []
    else if eqb c 34
    then open_quote
    else more
fields closing acc (c ∷ s) =
    let next = fields plain [] s in
    let one_quote = fields quoted (acc ++ 34 ∷ []) s in
    let more = fields plain (acc ++ c ∷ []) s in
    if eqb c 9
    then acc ∷ next
    else if eqb c 10
    then acc ∷ []
    else if eqb c 34
    then one_quote
    else more

unquoted_value :
    (acc v rest : Text)
    → needs_quote v ≡ false
    → fields plain acc (v ++ rest) ≡ fields plain (acc ++ v) rest
unfolding needs_quote is_special fields
unquoted_value acc [] rest h = rw (append-nil acc) refl
unquoted_value acc (c ∷ v) rest h =
    ground (arith, unquoted_value (acc ++ c ∷ []) v rest, append_assoc acc (c ∷ []) v)

quoted_value :
    (acc v rest : Text)
    → fields quoted acc (double_quotes v ++ 34 ∷ rest) ≡ fields closing (acc ++ v) rest
unfolding double_quotes fields
quoted_value acc [] rest = rw (append-nil acc) refl
quoted_value acc (c ∷ v) rest = elim (Bool-cases (eqb c 34)) [
  | inl quote ↦ ground (arith, quoted_value (acc ++ c ∷ []) v rest, append_assoc acc (c ∷ []) v)
  | inr other ↦ ground (arith, quoted_value (acc ++ c ∷ []) v rest, append_assoc acc (c ∷ []) v)
]

-- A value is read up to the tab or line end behind it.
one_value :
    (v rest : Text) (end : ℕ)
    → (end ≡ 9) ⊎ (end ≡ 10)
    → fields plain [] (encode_value v ++ end ∷ rest) ≡ fields plain v (end ∷ rest)
unfolding encode_value
one_value v rest end h = elim (Bool-cases (needs_quote v)) [
  | inl special ↦
      rw (special, append_assoc (double_quotes v) (34 ∷ []) (end ∷ rest))
        (opened (double_quotes v ++ 34 ∷ (end ∷ rest)) ∙ quoted_value [] v (end ∷ rest) ∙ closed h)
  | inr clean ↦ rw clean (unquoted_value [] v (end ∷ rest) clean)
]
  where
    opened : (s : Text) → fields plain [] (34 ∷ s) ≡ fields quoted [] s
    opened s = unfold fields in refl

    closed : (end ≡ 9) ⊎ (end ≡ 10) → fields closing v (end ∷ rest) ≡ fields plain v (end ∷ rest)
    closed (inl e) = unfold fields in rw e refl
    closed (inr e) = unfold fields in rw e refl

tab_after : (v s : Text) → fields plain v (9 ∷ s) ≡ v ∷ fields plain [] s
unfolding fields
tab_after v s = refl

-- A reader that knows quotes and tabs gets back the values of every row with one at least,
-- whatever bytes they hold: tabs, line ends and quotes among them.
pub fields-write_row :
    (v : Text) (values : List Text) → fields plain [] (write_row (v ∷ values)) ≡ v ∷ values
unfolding write_row encode_values
fields-write_row v [] = one_value v [] 10 (inr refl) ∙ unfold fields in refl
fields-write_row v (w ∷ values) =
    rw
      (append_assoc (encode_value v) (9 ∷ join (encode_value w ∷ map encode_value values) (9 ∷ []))
        (10 ∷ []))
      (one_value v (join (encode_value w ∷ map encode_value values) (9 ∷ []) ++ 10 ∷ []) 9
          (inl refl)
        ∙ tab_after v _
        ∙ ap (λ t. v ∷ t) (fields-write_row w values))
