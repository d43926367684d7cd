-- ===== src/RemoteZip/Names.antt =====
-- `sanitizeZipName`, and `path.Clean` on a path that starts with a slash.
pub mod Safe
use gobase.Base.{
  ℕ, Bool, true, false, ◌||◌, List, [], ◌∷◌, Option, none, some, map, if◌then◌else◌, eqb, drop,
  ◌==◌, list_comparable, nat_comparable,
}
use gobase.Base.Text.{Text, split, join, trim_prefix, is_empty}

-- `strings.ReplaceAll` of the backslash.
abbrev pub to_slash : ℕ → ℕ
to_slash c = if eqb c 92 then 47 else c

-- The elements that are left, the last one first: a ".." takes the last one away, and at the root
-- nothing.
abbrev pub push_part : List Text → Text → List Text
push_part stack part =
    if is_empty part || part == 46 ∷ []
    then stack
    else if part == 46 ∷ 46 ∷ []
    then drop 1 stack
    else part ∷ stack

unfoldable pub clean_parts : List Text → List Text → List Text
clean_parts stack [] = stack
clean_parts stack (part ∷ parts) = clean_parts (push_part stack part) parts

unfoldable pub reverse_onto : List Text → List Text → List Text
reverse_onto [] done = done
reverse_onto (part ∷ stack) done = reverse_onto stack (part ∷ done)

unfoldable pub clean_rooted : Text → Text
unfolding clean_parts reverse_onto
clean_rooted s = 47 ∷ join (reverse_onto (clean_parts [] (split s 47)) []) (47 ∷ [])

unfoldable pub sanitize_zip_name : Text → Option Text
unfolding clean_rooted
sanitize_zip_name name =
    let cleaned = trim_prefix (clean_rooted (47 ∷ map to_slash name)) (47 ∷ []) in
    if is_empty cleaned || cleaned == 46 ∷ [] then none else some cleaned
