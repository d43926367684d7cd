-- ===== src/Base/Text.antt =====
-- Byte strings, and what the components use of package strings over them.
use Prim.Native.Char.{code}
use Prim.Native.String.{String}
use Prim.Native.Nat.{ℕ, suc}
use mathlib.Core.Path.{◌≡◌, refl}
use mathlib.Core.Bool.{Bool, true, false}
use mathlib.Core.Option.{Option, none, some}
use gobase.Base.Lists.{length, drop}
use mathlib.Core.Logic.{◌≢◌, inl, inr}
use mathlib.Core.List.{List, [], ◌∷◌, ◌++◌, reverse, reverse-reverse, reverse-cons}
use native.Mathlib.Omega.{arith}
use gobase.Base.Tests.{if◌then◌else◌, eqb, Bool-cases}
use gobase.Base.Count.{All, All-append}

abbrev pub Text : Type 0
Text = List ℕ

-- The code points of a literal: its bytes, as the literals here are ASCII.
abbrev pub codes : String → Text
codes String.[] = []
codes (String.◌∷◌ c s) = code c ∷ codes s

-- `strings.TrimLeft`, `strings.Trim`: the cutset as a test.
abbrev pub trim_left : (ℕ → Bool) → Text → Text
trim_left cut [] = []
trim_left cut (c ∷ s) = if cut c then trim_left cut s else c ∷ s

abbrev pub trim : (ℕ → Bool) → Text → Text
trim cut s = reverse (trim_left cut (reverse (trim_left cut s)))

-- `strings.Split` at one byte.
abbrev pub push_front : ℕ → List Text → List Text
push_front c [] = (c ∷ []) ∷ []
push_front c (part ∷ parts) = (c ∷ part) ∷ parts

abbrev pub split : Text → ℕ → List Text
split [] sep = [] ∷ []
split (c ∷ s) sep = let rest = split s sep in if eqb c sep then [] ∷ rest else push_front c rest

abbrev pub starts_with : Text → Text → Bool
starts_with s [] = true
starts_with [] (p ∷ prefix) = false
starts_with (c ∷ s) (p ∷ prefix) = if eqb c p then starts_with s prefix else false

-- `strings.HasSuffix`.
abbrev pub ends_with : Text → Text → Bool
ends_with s suffix = starts_with (reverse s) (reverse suffix)

-- `s == ""`.
abbrev pub is_empty : Text → Bool
is_empty [] = true
is_empty (c ∷ s) = false

-- `strings.Index`, `strings.IndexAny`, `strings.TrimPrefix`, `strings.Join`.
abbrev pub index : Text → Text → Option ℕ
index [] sub = if is_empty sub then some 0 else none
index (c ∷ s) sub =
    let rest = index s sub in
    if starts_with (c ∷ s) sub then some 0 else elim rest [ none ↦ none | some i ↦ some (suc i) ]

abbrev pub index_any : Text → (ℕ → Bool) → Option ℕ
index_any [] is_char = none
index_any (c ∷ s) is_char =
    let rest = index_any s is_char in
    if is_char c then some 0 else elim rest [ none ↦ none | some i ↦ some (suc i) ]

abbrev pub trim_prefix : Text → Text → Text
trim_prefix s prefix = if starts_with s prefix then drop (length prefix) s else s

abbrev pub join : List Text → Text → Text
join [] sep = []
join (s ∷ []) sep = s
join (s ∷ t ∷ rest) sep = s ++ (sep ++ join (t ∷ rest) sep)

abbrev pub Lacks : ℕ → Text → Type 0
Lacks sep = All (λ c. c ≢ sep)

module _ (cut : ℕ → Bool) where
  pub trim_left_none : (s : Text) → All (λ c. cut c ≡ false) s → trim_left cut s ≡ s
  trim_left_none [] h = refl
  trim_left_none (c ∷ s) (h, hs) = ground arith

  All-reverse : (s : Text) → All (λ c. cut c ≡ false) s → All (λ c. cut c ≡ false) (reverse s)
  All-reverse [] h = tt
  All-reverse (c ∷ s) (h, hs) =
      rw (reverse-cons c s) (All-append _ (reverse s) (c ∷ []) (All-reverse s hs) (h, tt))

  -- A text with nothing to cut is left as it is.
  pub trim_none : (s : Text) → All (λ c. cut c ≡ false) s → trim cut s ≡ s
  trim_none s h =
      rw (trim_left_none s h, trim_left_none (reverse s) (All-reverse s h)) (reverse-reverse s)

pub split-Lacks : (s : Text) (sep : ℕ) → Lacks sep s → split s sep ≡ s ∷ []
split-Lacks [] sep h = refl
split-Lacks (c ∷ s) sep (h, hs) = ground (arith, split-Lacks s sep hs)

pub split-append : (a b : Text) (sep : ℕ) → Lacks sep a → split (a ++ sep ∷ b) sep ≡ a ∷ split b sep
split-append [] b sep h = ground arith
split-append (c ∷ a) b sep (h, ha) = ground (arith, split-append a b sep ha)

split-cons :
    (s : Text) (sep : ℕ) → (part : Text) × (parts : List Text) × (split s sep ≡ part ∷ parts)
split-cons [] sep = ([], [], refl)
split-cons (c ∷ s) sep =
    let (part, parts, e) = split-cons s sep in
    elim (Bool-cases (eqb c sep)) [
      | inl cut ↦ ([], split s sep, rw cut)
      | inr stay ↦ ((c ∷ part), parts, rw (stay, e))
    ]

push_front-append :
    (c : ℕ) (s : Text) (sep : ℕ) (parts : List Text)
    → push_front c (split s sep ++ parts) ≡ push_front c (split s sep) ++ parts
push_front-append c s sep parts = let (p, ps, e) = split-cons s sep in rw e

-- Splitting at a separator in the middle: no part crosses it.
pub split_at : (a b : Text) (sep : ℕ) → split (a ++ sep ∷ b) sep ≡ split a sep ++ split b sep
split_at [] b sep = ground arith
split_at (c ∷ a) b sep = ground (arith, split_at a b sep, push_front-append c a sep (split b sep))
