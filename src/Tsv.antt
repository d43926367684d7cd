-- ===== src/Tsv.antt =====
-- Package tsv: rows of tab-separated values (encoding/tsv/main.go). The writer is given the bytes
-- that `WriteRow` returns here.
pub mod RoundTrip
mod Tests
use gobase.Base.{
  ℕ, Bool, true, false, ◌||◌, List, [], ◌∷◌, ◌++◌, map, if◌then◌else◌, eqb, list_comparable,
  nat_comparable,
}
use gobase.Base.Text.{Text, join}

-- `strings.ContainsAny(v, "\n\t\r\\\"")`.
pub is_special : ℕ → Bool
is_special c = eqb c 10 || (eqb c 9 || (eqb c 13 || (eqb c 92 || eqb c 34)))

unfoldable pub needs_quote : Text → Bool
needs_quote [] = false
needs_quote (c ∷ v) = is_special c || needs_quote v

-- `strings.ReplaceAll(v, "\"", "\"\"")`.
unfoldable pub double_quotes : Text → Text
double_quotes [] = []
double_quotes (c ∷ v) = if eqb c 34 then 34 ∷ 34 ∷ double_quotes v else c ∷ double_quotes v

-- One round of the loop of `encodeValues`: what it leaves in the slice.
unfoldable pub encode_value : Text → Text
unfolding needs_quote double_quotes
encode_value v = if needs_quote v then 34 ∷ (double_quotes v ++ 34 ∷ []) else v

unfoldable pub encode_values : List Text → List Text
unfolding encode_value
encode_values values = map encode_value values

unfoldable pub write_row : List Text → Text
unfolding encode_values
write_row values = join (encode_values values) (9 ∷ []) ++ 10 ∷ []
