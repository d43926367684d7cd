-- ===== src/RemoteZip/Names/Safe.antt =====
-- No entry name leads out of the directory that the archive is extracted to.
use gobase.Base.{
  ℕ, ◌≡◌, refl, ap, ◌∙◌, subst, ◌≢◌, inl, inr, false, ◌||◌, none, some, List, [], ◌∷◌, ◌++◌, map,
  arith, eqb, if◌then◌else◌, eqb_iff, Bool-cases, drop, ◌==◌, nat_comparable, bool_comparable,
  list_comparable, All, All-append,
}
use gobase.Base.{All-map}
use gobase.Base.Text.{Text, Lacks, split, join, is_empty, push_front, split-Lacks, split-append}
use gobase.RemoteZip.Names.{
  to_slash, push_part, clean_parts, reverse_onto, clean_rooted, sanitize_zip_name,
}

-- A name in one directory: neither empty nor ".", nor "..", and without a slash or backslash.
abbrev pub IsSafe : Text → Type 0
IsSafe part =
    (is_empty part ≡ false)
    × ((part == 46 ∷ []) ≡ false)
    × ((part == 46 ∷ 46 ∷ []) ≡ false)
    × Lacks 47 part
    × Lacks 92 part

abbrev pub IsPart : Text → Type 0
IsPart part = Lacks 47 part × Lacks 92 part

split-IsPart : (s : Text) → Lacks 92 s → All IsPart (split s 47)
split-IsPart [] h = ((tt, tt), tt)
split-IsPart (c ∷ s) (h, hs) = elim (Bool-cases (eqb c 47)) [
  | inl cut ↦ rw cut ((tt, tt), split-IsPart s hs)
  | inr stay ↦
      rw stay (front c (λ e. (let f = (eqb_iff c 47).1 e in cc)) h (split s 47) (split-IsPart s hs))
]
  where
    front :
        (c : ℕ)
        → c ≢ 47
        → c ≢ 92
        → (parts : List Text) → All IsPart parts
        → All IsPart (push_front c parts)
    front c a b [] all = (((a, tt), (b, tt)), tt)
    front c a b (part ∷ parts) ((p, q), all) = (((a, p), (b, q)), all)

map-to_slash : (s : Text) → Lacks 92 (map to_slash s)
map-to_slash [] = tt
map-to_slash (c ∷ s) = (ground arith, map-to_slash s)

push_part-IsSafe :
    (stack : List Text) (part : Text)
    → IsPart part
    → All IsSafe stack
    → All IsSafe (push_part stack part)
push_part-IsSafe stack part (p, q) all = elim (Bool-cases (is_empty part || part == 46 ∷ [])) [
  | inl skip ↦ rw skip all
  | inr named ↦ rw named (elim (Bool-cases (part == 46 ∷ 46 ∷ [])) [
    | inl up ↦ rw up (tail stack all)
    | inr down ↦ rw down ((ground arith, ground arith, down, p, q), all)
  ])
]
  where
    tail : (stack : List Text) → All IsSafe stack → All IsSafe (drop 1 stack)
    tail [] all = tt
    tail (top ∷ stack) (h, all) = all

clean_parts-IsSafe :
    (stack parts : List Text)
    → All IsPart parts
    → All IsSafe stack
    → All IsSafe (clean_parts stack parts)
unfolding clean_parts
clean_parts-IsSafe stack [] h all = all
clean_parts-IsSafe stack (part ∷ parts) (p, h) all =
    clean_parts-IsSafe (push_part stack part) parts h (push_part-IsSafe stack part p all)

reverse_onto-IsSafe :
    (stack done : List Text)
    → All IsSafe stack
    → All IsSafe done
    → All IsSafe (reverse_onto stack done)
unfolding reverse_onto
reverse_onto-IsSafe [] done h all = all
reverse_onto-IsSafe (part ∷ stack) done (p, h) all =
    reverse_onto-IsSafe stack (part ∷ done) h (p, all)

-- Safe parts come back from the path that they make.
split-join :
    (part : Text) (parts : List Text)
    → All IsSafe (part ∷ parts)
    → split (join (part ∷ parts) (47 ∷ [])) 47 ≡ part ∷ parts
split-join part [] ((a, b, c, p, q), all) = split-Lacks part 47 p
split-join part (next ∷ parts) ((a, b, c, p, q), all) =
    split-append part (join (next ∷ parts) (47 ∷ [])) 47 p
    ∙ ap (λ ps. part ∷ ps) (split-join next parts all)

-- The elements of a cleaned name.
abbrev pub elements : Text → List Text
elements name = reverse_onto (clean_parts [] (split (47 ∷ map to_slash name) 47)) []

elements-IsSafe : (name : Text) → All IsSafe (elements name)
elements-IsSafe name =
    reverse_onto-IsSafe (clean_parts [] (split (47 ∷ map to_slash name) 47)) []
      (clean_parts-IsSafe [] (split (47 ∷ map to_slash name) 47)
        (split-IsPart (47 ∷ map to_slash name) ((λ e. cc), map-to_slash name)) tt)
      tt

-- A name that is accepted is a relative path of ordinary elements: none is empty, "." or "..", and
-- none has a backslash.
pub sanitize_zip_name-IsSafe :
    (name out : Text) → sanitize_zip_name name ≡ some out → All IsSafe (split out 47)
unfolding sanitize_zip_name clean_rooted
sanitize_zip_name-IsSafe name out h = go (elements name) (elements-IsSafe name) h
  where
    go :
        (parts : List Text)
        → All IsSafe parts
        → (if is_empty (join parts (47 ∷ [])) || join parts (47 ∷ []) == 46 ∷ []
            then none
            else some (join parts (47 ∷ [])))
          ≡ some out
        → All IsSafe (split out 47)
    go [] all e = cc
    go (part ∷ parts) all e =
        let path = join (part ∷ parts) (47 ∷ []) in
        elim (Bool-cases (is_empty path || path == 46 ∷ [])) [
          | inl empty ↦ let f : none ≡ some out = rw empty at e in cc
          | inr named ↦
              let f : some path ≡ some out = rw named at e in
              let g : path ≡ out = cc in
              subst (λ o. All IsSafe (split o 47)) g (rw (split-join part parts all) all)
        ]

-- Safe elements are kept.
clean_parts-safe :
    (stack parts : List Text)
    → All IsSafe parts
    → clean_parts stack parts ≡ reverse_onto parts stack
unfolding clean_parts reverse_onto
clean_parts-safe stack [] h = refl
clean_parts-safe stack (part ∷ parts) ((a, b, c, p, q), h) =
    rw (a, b, c) (clean_parts-safe (part ∷ stack) parts h)

reverse_onto-twice :
    (parts done : List Text) → reverse_onto (reverse_onto parts done) [] ≡ reverse_onto done parts
unfolding reverse_onto
reverse_onto-twice [] done = refl
reverse_onto-twice (part ∷ parts) done = reverse_onto-twice parts (part ∷ done)

map-to_slash_same : (s : Text) → Lacks 92 s → map to_slash s ≡ s
map-to_slash_same [] h = refl
map-to_slash_same (c ∷ s) (h, hs) = ground (arith, map-to_slash_same s hs)

Lacks-join :
    (a sep : ℕ) (parts : List Text)
    → sep ≢ a
    → All (Lacks a) parts
    → Lacks a (join parts (sep ∷ []))
Lacks-join a sep [] ne h = tt
Lacks-join a sep (part ∷ []) ne (p, h) = p
Lacks-join a sep (part ∷ next ∷ parts) ne (p, h) =
    All-append (λ c. c ≢ a) part (sep ∷ join (next ∷ parts) (sep ∷ [])) p
      (ne, Lacks-join a sep (next ∷ parts) ne h)

-- A path of two elements or more is not a single byte.
not_single :
    (part rest : Text)
    → is_empty part ≡ false
    → (is_empty (part ++ 47 ∷ rest) || (part ++ 47 ∷ rest) == 46 ∷ []) ≡ false
not_single [] rest h = cc
not_single (c ∷ []) rest h = ground arith
not_single (c ∷ d ∷ part) rest h = ground arith

named :
    (part : Text) (parts : List Text)
    → All IsSafe (part ∷ parts)
    → (is_empty (join (part ∷ parts) (47 ∷ [])) || join (part ∷ parts) (47 ∷ []) == 46 ∷ []) ≡ false
named part [] ((a, b, c, p, q), h) = rw (a, b) refl
named part (next ∷ parts) ((a, b, c, p, q), h) = not_single part (join (next ∷ parts) (47 ∷ [])) a

-- A relative path of ordinary elements is accepted as it is.
pub sanitize_zip_name-join :
    (part : Text) (parts : List Text)
    → All IsSafe (part ∷ parts)
    → sanitize_zip_name (join (part ∷ parts) (47 ∷ [])) ≡ some (join (part ∷ parts) (47 ∷ []))
unfolding sanitize_zip_name clean_rooted clean_parts reverse_onto
sanitize_zip_name-join part parts h =
    let path = join (part ∷ parts) (47 ∷ []) in
    let same = map-to_slash_same path (
      Lacks-join 92 47 (part ∷ parts) (λ e. cc)
        (All-map {P = IsSafe} {Q = Lacks 92} (λ p safe. safe.4) (part ∷ parts) h)) in
    let cleaned : elements path ≡ part ∷ parts =
      ap (λ s. reverse_onto (clean_parts [] (split (47 ∷ s) 47)) []) same
      ∙ ap (λ ps. reverse_onto (clean_parts [] ps) []) (split-join part parts h)
      ∙ ap (λ ps. reverse_onto ps []) (clean_parts-safe [] (part ∷ parts) h)
      ∙ reverse_onto-twice (part ∷ parts) [] in
    rw (cleaned, named part parts h) refl
