-- ===== src/Currency/Tests.antt =====
-- Runs of package currency, and its theorems at concrete inputs.
use gobase.Base.{
  ℕ, zero, suc, ◌+◌, ◌-◌, ◌*◌, ◌/◌, ◌%◌, ◌^◌, ◌≤◌, ◌<◌, min, max, ◌≡◌, refl, sym, ap, ◌∙◌, subst,
  fun_ext, ◌≢◌, ◌↔◌, ◌⊎◌, inl, inr, Bool, false, not, ◌&&◌, ◌||◌, Option, none, List, [], ◌∷◌, ◌++◌,
  map, append_assoc, append-nil, arith, ltb, leb, eqb, if◌then◌else◌, ltb→lt, lt→ltb, leb→le,
  le→leb, eqb_iff, Bool-cases, Option-cases, ◌>>=◌, length, get_elem?, set, length-append, get_or,
  take, drop, replicate, take-append-drop, length-take, length-drop, length-map, length-reverse,
  get_elem?-reverse, get_or-get_elem?, Comparable, ◌==◌, ==_iff, ==-refl, ==-comm, nat_comparable,
  bool_comparable, list_comparable, count, count-append, IsUnique, All, All-append, keep,
  keep-append, count-keep,
}
use gobase.Base.Int.{pos, negsuc}
use gobase.Base.Text.{codes}
use gobase.Currency.{Parsed, cents, invalid, out_of_range, max_int64, parse, string}
use gobase.Currency.RoundTrip.{parse-string}

prints : string max_int64 (negsuc 1004) ≡ codes "-10.05"
unfolding string gobase.Base.Decimal.format
prints = refl

prints_least : string max_int64 (negsuc max_int64) ≡ codes "--92233720368547758.-8"
unfolding string gobase.Base.Decimal.format
prints_least = refl

reads : parse max_int64 (codes " $1,234.5") ≡ cents (pos 123450)
unfolding parse gobase.Currency.is_all_digits
reads = refl

reads_stray : parse max_int64 (codes "1.23abc") ≡ cents (pos 123)
unfolding parse gobase.Currency.is_all_digits
reads_stray = refl

parse-string_example : parse max_int64 (string max_int64 (negsuc 1004)) ≡ cents (negsuc 1004)
parse-string_example = parse-string max_int64 (negsuc 1004) (omega arith) (omega arith)
