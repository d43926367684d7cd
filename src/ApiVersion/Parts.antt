-- ===== src/ApiVersion/Parts.antt =====
-- How many parts `NewVer` keeps.
use gobase.Base.{
  ℕ, zero, suc, ◌+◌, ◌≤◌, ◌≡◌, refl, inl, inr, List, [], ◌∷◌, ◌++◌, arith, Option-cases, length,
  length-append, nat_comparable, bool_comparable, list_comparable,
}
use gobase.Base.Int.{ℤ}
use gobase.Base.Text.{Text, push_front}
use gobase.ApiVersion.{split_cuts, atoi, parse_loop, new_ver, max_version_parts}

length-push_front : (c : ℕ) (s : List Text) → 1 ≤ length s → length (push_front c s) ≡ length s
length-push_front c [] h = absurd (omega arith)
length-push_front c (x ∷ s) h = refl

length-split_cuts :
    (cuts : ℕ) (s : Text) (sep : ℕ)
    → (1 ≤ length (split_cuts cuts s sep)) × (length (split_cuts cuts s sep) ≤ suc cuts)
unfolding split_cuts
length-split_cuts zero s sep = omega arith
length-split_cuts (suc cuts) [] sep = omega arith
length-split_cuts (suc cuts) (c ∷ s) sep =
    let more = length-split_cuts (suc cuts) s sep in
    ground (
      arith,
      length-split_cuts cuts s sep,
      more,
      length-push_front c (split_cuts (suc cuts) s sep) more.0,
    )

length-parse_loop :
    (max_int : ℕ) (texts : List Text) (ver_parts : List ℤ)
    → length (parse_loop max_int texts ver_parts) ≤ length ver_parts + length texts
unfolding parse_loop
length-parse_loop max_int [] ver_parts = omega arith
length-parse_loop max_int (part ∷ rest) ver_parts = elim (Option-cases (atoi max_int part)) [
  | inl fails ↦ rw (fails, parse_loop) (omega arith)
  | inr (i, ok) ↦
      rw (ok, parse_loop)
        (omega (
          arith,
          length-parse_loop max_int rest (ver_parts ++ i ∷ []),
          length-append ver_parts (i ∷ []),
        ))
]

-- Whatever the header holds, a version has at most one part more than `maxVersionParts`.
pub length-new_ver :
    (max_int : ℕ) (text : Text) → length (new_ver max_int text).parts ≤ max_version_parts + 1
unfolding new_ver
length-new_ver max_int text =
    omega
      (arith, length-split_cuts 8 text b'.', length-parse_loop max_int (split_cuts 8 text b'.') [])
