-- ===== src/Base/Affixes.antt =====
-- Prefixes, suffixes and the place of a substring: what the string tests mean.
use Prim.Native.Nat.{ℕ, suc, ◌+◌}
use mathlib.Core.Path.{◌≡◌, refl, sym, ap, ◌∙◌}
use mathlib.Core.Logic.{◌↔◌, inl, inr}
use mathlib.Core.Bool.{Bool, true, false}
use mathlib.Core.Option.{none, some}
use mathlib.Core.List.{List, [], ◌∷◌, ◌++◌, reverse, reverse-append, reverse-reverse}
use native.Mathlib.Omega.{arith}
use gobase.Base.Tests.{eqb, Bool-cases}
use gobase.Base.Lists.{length, take, drop}
use gobase.Base.Count.{All}
use gobase.Base.Text.{Text, starts_with, ends_with, index, index_any}

pub starts_with-append : (p rest : Text) → starts_with (p ++ rest) p ≡ true
starts_with-append [] [] = refl
starts_with-append [] (c ∷ rest) = refl
starts_with-append (c ∷ p) rest = ground (arith, starts_with-append p rest)

pub starts_with-rest : (s p : Text) → starts_with s p ≡ true → (rest : Text) × (s ≡ p ++ rest)
starts_with-rest s [] h = (s, refl)
starts_with-rest [] (c ∷ p) h = ground arith
starts_with-rest (d ∷ s) (c ∷ p) h = elim (Bool-cases (eqb d c)) [
  | inl same ↦
      let (rest, e) = starts_with-rest s p (ground arith) in
      (rest, (let f : d ≡ c = ground arith in rw (f, e)))
  | inr other ↦ ground arith
]

-- A suffix, as the tail of the text.
pub ends_with_iff :
    (s suffix : Text) → (ends_with s suffix ≡ true) ↔ ((front : Text) × (s ≡ front ++ suffix))
ends_with_iff s suffix = (to, from)
  where
    to : ends_with s suffix ≡ true → (front : Text) × (s ≡ front ++ suffix)
    to h =
        let (rest, e) = starts_with-rest (reverse s) (reverse suffix) h in
        (
          reverse rest,
          (sym (reverse-reverse s)
              ∙ ap reverse e
              ∙ reverse-append (reverse suffix) rest
              ∙ ap (λ t. reverse rest ++ t) (reverse-reverse suffix)),
        )

    from : (front : Text) × (s ≡ front ++ suffix) → ends_with s suffix ≡ true
    from (front, e) =
        rw (e, reverse-append front suffix) (starts_with-append (reverse suffix) (reverse front))

pub take-length_append {ℓ} : {A : Type ℓ} (xs ys : List A) → take (length xs) (xs ++ ys) ≡ xs
take-length_append [] ys = refl
take-length_append (x ∷ xs) ys = ap (λ t. x ∷ t) (take-length_append xs ys)

pub drop-length_append {ℓ} :
    {A : Type ℓ} (xs ys : List A) (n : ℕ) → drop (length xs + n) (xs ++ ys) ≡ drop n ys
drop-length_append [] ys n = let e : 0 + n ≡ n = omega arith in rw e
drop-length_append (x ∷ xs) ys n =
    let e : suc (length xs) + n ≡ suc (length xs + n) = omega arith in
    rw e (drop-length_append xs ys n)

-- The first place of `c ∷ sub` is behind a text without `c`.
pub index-behind :
    (a rest : Text) (c : ℕ) (sub : Text)
    → All (λ d. eqb d c ≡ false) a
    → index (a ++ c ∷ (sub ++ rest)) (c ∷ sub) ≡ some (length a)
index-behind [] rest c sub h = ground (arith, starts_with-append sub rest)
index-behind (d ∷ a) rest c sub (no_c, h) = rw (no_c, index-behind a rest c sub h)

pub index-none :
    (s : Text) (c : ℕ) (sub : Text) → All (λ d. eqb d c ≡ false) s → index s (c ∷ sub) ≡ none
index-none [] c sub h = refl
index-none (d ∷ s) c sub (no_c, h) = rw (no_c, index-none s c sub h)

pub index_any-none :
    (s : Text) (is_char : ℕ → Bool) → All (λ d. is_char d ≡ false) s → index_any s is_char ≡ none
index_any-none [] is_char h = refl
index_any-none (d ∷ s) is_char (no_char, h) = rw (no_char, index_any-none s is_char h)
