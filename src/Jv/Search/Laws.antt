-- ===== src/Jv/Search/Laws.antt =====
-- What the searches of jv/arrayutil.go find, against positions in the slice.
use gobase.Base.{
  ℕ, zero, suc, ◌+◌, ◌≤◌, ◌<◌, ◌≡◌, refl, ◌⊎◌, inl, inr, Bool, true, false, List, [], ◌∷◌, ◌++◌,
  Option, none, some, if◌then◌else◌, length, get_elem?, arith, count, nat_comparable, All,
  Bool-cases, ap, append_assoc, append-nil, ◌∙◌, sym, not, subst, ◌∙◌,
}
use gobase.Base.Int.{ℤ, pos, negsuc}
use gobase.Jv.Search.{
  index_of_from, index_of, indexes_of_from, indexes_of, first, contains, any, all,
}

module _ {ℓ} {A : Type ℓ} (zero_value : A) (filter : A → Bool) where
  abbrev Fails : List A → Type 0
  Fails = All (λ x. filter x ≡ false)

  -- What `index_of` (counted from `start`), `first`, `contains` and `any` return together.
  abbrev Results : ℕ → List A → ℤ → A → Bool → Type ℓ
  Results start input index item outcome =
      (index_of_from start input filter ≡ index)
      × (first zero_value input filter ≡ item)
      × (contains input filter ≡ outcome)
      × (any input filter ≡ outcome)

  data Searched (start : ℕ) (input : List A) : Type ℓ where
    found :
        (before : List A) (item : A) (after : List A)
        → input ≡ before ++ item ∷ after
        → Fails before
        → filter item ≡ true
        → Results start input (pos (start + length before)) item true
        → Searched start input
    absent : Fails input → Results start input (negsuc 0) zero_value false → Searched start input

  skip :
      (item : A) (rest : List A) {i : ℕ}
      → filter item ≡ false
      → Searched (suc i) rest
      → Searched i (item ∷ rest)
  unfolding index_of_from first contains any
  skip item rest {i} fails (found b x a split misses hit (p, q, r, s)) =
      found (item ∷ b) x a (ap (◌∷◌ item) split) (fails, misses) hit
        (rw fails (p ∙ ap pos (omega arith)), rw fails q, rw fails r, rw fails s)
  skip item rest fails (absent misses (p, q, r, s)) =
      absent (fails, misses) (rw fails p, rw fails q, rw fails r, rw fails s)

  searched_from : (i : ℕ) (input : List A) → Searched i input
  unfolding index_of_from first contains any
  searched_from i [] = absent tt (refl, refl, refl, refl)
  searched_from i (item ∷ rest) = elim (Bool-cases (filter item)) [
    | inl hit ↦
        found [] item rest refl tt hit (rw hit (ap pos (omega arith)), rw hit, rw hit, rw hit)
    | inr miss ↦ skip item rest miss (searched_from (suc i) rest)
  ]

-- The first item that passes the test, or that there is none, as the four searches report it.
abbrev pub SearchAgree {ℓ} : {A : Type ℓ} → A → (A → Bool) → List A → Type ℓ
SearchAgree {A} zero_value filter input =
    ((before : List A) × (item : A) × (after : List A) × (input ≡ before ++ item ∷ after)
      × All (λ x. filter x ≡ false) before
      × (filter item ≡ true)
      × (index_of input filter ≡ pos (length before))
      × (first zero_value input filter ≡ item)
      × (contains input filter ≡ true)
      × (any input filter ≡ true))
    ⊎ (All (λ x. filter x ≡ false) input
        × (index_of input filter ≡ negsuc 0)
        × (first zero_value input filter ≡ zero_value)
        × (contains input filter ≡ false)
        × (any input filter ≡ false))

-- `IndexOf`, `First`, `Contains` and `Any` agree: if an item passes the test, they give the
-- position of the first that does, that item, true and true; if none does, -1, the zero value,
-- false and false.
pub search_agree {ℓ} :
    {A : Type ℓ} (zero_value : A) (filter : A → Bool) (input : List A)
    → SearchAgree zero_value filter input
unfolding index_of
search_agree z filter input = elim (searched_from z filter 0 input) [
  | found b x a split misses hit (p, q, r, s) ↦
      inl (b, x, a, split, misses, hit, p ∙ ap pos (omega arith), q, r, s)
  | absent misses (p, q, r, s) ↦ inr (misses, p, q, r, s)
]

-- Strictly ascending, from `low` on.
abbrev pub Ascending : ℕ → List ℕ → Type 0
Ascending low [] = Unit {0}
Ascending low (i ∷ is) = (low ≤ i) × Ascending (suc i) is

module _ {ℓ} {A : Type ℓ} (filter : A → Bool) where
  -- `All` is the dual of `Any`.
  pub all-any : (input : List A) → all input filter ≡ not (any input (λ x. not (filter x)))
  unfolding all any
  all-any [] = refl
  all-any (x ∷ xs) = ground (arith, all-any xs)

  indexes_of-append :
      (i : ℕ) (input : List A) (list : List ℕ)
      → indexes_of_from i input filter list ≡ list ++ indexes_of_from i input filter []
  unfolding indexes_of_from
  indexes_of-append i [] list = sym (append-nil list)
  indexes_of-append i (item ∷ rest) list = elim (Bool-cases (filter item)) [
    | inl hit ↦
        rw
          (
            hit,
            indexes_of-append (suc i) rest (list ++ i ∷ []),
            indexes_of-append (suc i) rest (i ∷ []),
          )
          (append_assoc list _ _)
    | inr miss ↦ rw (miss, indexes_of-append (suc i) rest list)
  ]

  abbrev pub passes : Option A → ℕ
  passes none = 0
  passes (some x) = if filter x then 1 else 0

  Ascending-mono : (i : ℕ) (is : List ℕ) → Ascending (suc i) is → Ascending i is
  Ascending-mono i [] h = tt
  Ascending-mono i (j ∷ js) h = (omega arith, h.1)

  indexes_of_from_cons :
      (i : ℕ) (item : A) (rest : List A)
      → indexes_of_from i (item ∷ rest) filter [] ≡ (
          if filter item
          then i ∷ indexes_of_from (suc i) rest filter []
          else indexes_of_from (suc i) rest filter [])
  indexes_of_from_cons i item rest = elim (Bool-cases (filter item)) [
    | inl hit ↦ unfold indexes_of_from in rw hit (indexes_of-append (suc i) rest (i ∷ []))
    | inr miss ↦ unfold indexes_of_from in rw miss
  ]

  indexes_of_from-Ascending :
      (i : ℕ) (input : List A) → Ascending i (indexes_of_from i input filter [])
  indexes_of_from-Ascending i [] = unfold indexes_of_from in tt
  indexes_of_from-Ascending i (item ∷ rest) =
      let later = indexes_of_from-Ascending (suc i) rest in
      rw indexes_of_from_cons (elim (Bool-cases (filter item)) [
        | inl hit ↦ rw hit (omega arith, later)
        | inr miss ↦ rw miss (Ascending-mono i _ later)
      ])

  count-below : (i j : ℕ) (is : List ℕ) → Ascending i is → j < i → count j is ≡ 0
  count-below i j [] h lt = refl
  count-below i j (k ∷ ks) h lt = ground (arith, count-below (suc k) j ks h.1)

  count-indexes_of_from :
      (i j : ℕ) (input : List A)
      → count (i + j) (indexes_of_from i input filter []) ≡ passes (get_elem? input j)
  count-indexes_of_from i j [] = unfold indexes_of_from in refl
  count-indexes_of_from i zero (item ∷ rest) =
      rw indexes_of_from_cons
        (ground (arith, count-below (suc i) (i + 0) _ (indexes_of_from-Ascending (suc i) rest)))
  count-indexes_of_from i (suc j) (item ∷ rest) =
      let at : (i + suc j) ≡ (suc i + j) = omega arith in
      rw (indexes_of_from_cons, at) (ground (arith, count-indexes_of_from (suc i) j rest))

-- `IndexesOf` lists, in strictly ascending order, every position that holds an item which passes
-- the test, once, and no other number.
pub indexes_of_exact {ℓ} :
    {A : Type ℓ} (filter : A → Bool) (input : List A)
    → Ascending 0 (indexes_of input filter)
      × ((j : ℕ) → count j (indexes_of input filter) ≡ passes filter (get_elem? input j))
unfolding indexes_of
indexes_of_exact filter input = (
  indexes_of_from-Ascending filter 0 input,
  λ j.
      subst (λ k. count k (indexes_of_from 0 input filter []) ≡ passes filter (get_elem? input j))
        (omega arith) (count-indexes_of_from filter 0 j input),
)
