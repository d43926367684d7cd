-- ===== src/Tsv/Tests.antt =====
-- Runs of package tsv, and its theorem at a concrete row.
use gobase.Base.{◌≡◌, refl, [], ◌∷◌, nat_comparable, bool_comparable, list_comparable}
use gobase.Base.Text.{codes}
use gobase.Tsv.{write_row, encode_values}
use gobase.Tsv.RoundTrip.{fields, plain, fields-write_row}

writes : write_row (codes "a" ∷ codes "b\tc" ∷ []) ≡ codes "a\t\"b\tc\"\n"
unfolding write_row gobase.Tsv.is_special
writes = refl

fields-write_row_example :
    fields plain [] (write_row (codes "a\"b" ∷ codes "c\td" ∷ [] ∷ []))
    ≡ codes "a\"b" ∷ codes "c\td" ∷ [] ∷ []
fields-write_row_example = fields-write_row (codes "a\"b") (codes "c\td" ∷ [] ∷ [])
