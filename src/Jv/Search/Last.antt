-- ===== src/Jv/Search/Last.antt =====
-- `Last` scans from the back.
use mathlib.Core.List.{reverse, reverse-reverse, reverse-cons, append_assoc, append-nil}
use gobase.Base.{
  ◌≡◌, refl, Bool, List, [], ◌∷◌, ◌++◌, length, get_elem?-reverse, get_or-get_elem?, length-reverse,
  subst, ◌∙◌,
}
use gobase.Jv.Search.{last_from, last, first}

module _ {ℓ} {A : Type ℓ} (z : A) (filter : A → Bool) where
  last_from-first :
      (xs ys : List A) → last_from (length xs) z (reverse xs ++ ys) filter ≡ first z xs filter
  unfolding last_from first
  last_from-first [] ys = refl
  last_from-first (x ∷ xs) ys =
      rw (get_or-get_elem? _ (length xs) z (get_elem?-reverse x xs ys))
        (rw (reverse-cons x xs, append_assoc (reverse xs) (x ∷ []) ys, last_from-first xs (x ∷ ys)))

  -- `Last` finds what `First` finds in the reversed slice.
  pub last-first : (input : List A) → last z input filter ≡ first z (reverse input) filter
  unfolding last
  last-first input = rw (← length-reverse input) (
      subst (λ xs. last_from (length (reverse input)) z xs filter ≡ first z (reverse input) filter)
        (append-nil _ ∙ reverse-reverse input) (last_from-first (reverse input) []))
