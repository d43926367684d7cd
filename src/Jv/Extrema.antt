-- ===== src/Jv/Extrema.antt =====
-- `Min` and `Max` of jv/main.go, over any type whose `<` is a strict weak order: not floats with
-- a NaN among them. An empty call panics: `none`.
pub mod Laws
mod Tests
use gobase.Base.{
  ℕ, zero, suc, ◌+◌, ◌-◌, ◌*◌, ◌/◌, ◌%◌, ◌^◌, ◌≤◌, ◌<◌, min, max, ◌≡◌, refl, sym, ap, ◌∙◌, subst,
  fun_ext, ◌≢◌, ◌↔◌, ◌⊎◌, inl, inr, Bool, true, false, not, ◌&&◌, ◌||◌, Option, none, some, List,
  [], ◌∷◌, ◌++◌, map, append_assoc, append-nil, arith, ltb, leb, eqb, if◌then◌else◌, ltb→lt, lt→ltb,
  leb→le, le→leb, eqb_iff, Bool-cases, Option-cases, ◌>>=◌, length, get_elem?, set, length-append,
  get_or, take, drop, replicate, take-append-drop, length-take, length-drop, length-map,
  length-reverse, get_elem?-reverse, get_or-get_elem?, Comparable, ◌==◌, ==_iff, ==-refl, ==-comm,
  nat_comparable, bool_comparable, list_comparable, count, count-append, IsUnique, All, All-append,
  keep, keep-append, count-keep,
}
use gobase.Base.Ordered.{Ordered}

module _ {ℓ} {A : Type ℓ} ⦃o : Ordered A⦄ where
  min_loop : List A → A → A
  min_loop [] m = m
  min_loop (item ∷ rest) m = min_loop rest (if o.lt item m then item else m)

  max_loop : List A → A → A
  max_loop [] m = m
  max_loop (item ∷ rest) m = max_loop rest (if o.lt m item then item else m)

  unfoldable pub min_of : List A → Option A
  unfolding min_loop
  min_of [] = none
  min_of (x ∷ xs) = some (min_loop (x ∷ xs) x)

  unfoldable pub max_of : List A → Option A
  unfolding max_loop
  max_of [] = none
  max_of (x ∷ xs) = some (max_loop (x ∷ xs) x)
