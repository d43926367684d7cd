-- ===== src/RemoteZip/Entries/Copies.antt =====
-- A copy that leaves no error is whole and keeps the caps.
use gobase.Base.{
  ℕ, ◌+◌, ◌-◌, ◌^◌, ◌≤◌, ◌<◌, ◌≡◌, refl, ap, inl, inr, true, Option, none, some, List, [], ◌∷◌,
  ◌++◌, arith, ltb, leb, if◌then◌else◌, Bool-cases, ◌>>=◌, nat_comparable, bool_comparable,
  list_comparable, All,
}
use gobase.Base.Int.{ℤ, pos, negsuc}
use gobase.RemoteZip.Names.{sanitize_zip_name}
use gobase.RemoteZip.Entries.{
  Error, over_cap, Caps, Source, Entry, Zip, Add, cap, least, remaining, limit_of, copy_limited,
  first_error, copy,
}

-- The entries that calls ask for: a clean name, and all of the data, each.
abbrev pub entry_for : Add → Option Entry
entry_for add =
    sanitize_zip_name add.name >>= λ name. some (record { name = name; written = add.source.size })

abbrev pub entries_for : List Add → Option (List Entry)
entries_for [] = some []
entries_for (add ∷ adds) =
    entry_for add >>= λ entry. entries_for adds >>= λ entries. some (entry ∷ entries)

-- A cap that leaves room for the byte that shows that it is exceeded.
abbrev pub IsCap : ℤ → Type 0
IsCap (pos n) = n < 2 ^ 63 - 1
IsCap (negsuc n) = Unit

abbrev pub Fits : ℕ → Option ℕ → Type 0
Fits n none = Unit
Fits n (some most) = n ≤ most

abbrev pub total_size : List Entry → ℕ
total_size [] = 0
total_size (entry ∷ entries) = entry.written + total_size entries

pub total_size-append :
    (entries more : List Entry)
    → total_size (entries ++ more) ≡ total_size entries + total_size more
total_size-append [] more = omega arith
total_size-append (entry ∷ entries) more = omega (arith, total_size-append entries more)

-- The invariant of the caps.
pub record IsCapped (caps : Caps) (z : Zip) : Type 0 where
  pub sums : z.total_written ≡ total_size z.entries
  pub total : Fits z.total_written (cap caps.max_total_size)
  pub files : All (λ (entry : Entry). Fits entry.written (cap caps.max_file_size)) z.entries

pub Room : Option ℕ → Type 0
Room none = Unit
Room (some left) = left < 2 ^ 63 - 1

pub remaining-Room :
    (caps : Caps) (total : ℕ)
    → IsCap caps.max_file_size
    → IsCap caps.max_total_size
    → Room (remaining caps total)
unfolding remaining Room
remaining-Room caps total = go caps.max_file_size caps.max_total_size
  where
    go :
        (file most : ℤ)
        → IsCap file
        → IsCap most
        → Room (least (cap file) (elim (cap most) [ none ↦ none | some m ↦ some (m - total) ]))
    go (pos n) (pos m) a b = ground arith
    go (pos n) (negsuc m) a b = ground arith
    go (negsuc n) (pos m) a b = ground arith
    go (negsuc n) (negsuc m) a b = tt

limit_of_room : (left : ℕ) → left < 2 ^ 63 - 1 → limit_of left ≡ left + 1
unfolding limit_of
limit_of_room left room = ground arith

none_first : (e other : Option Error) → first_error e other ≡ none → other ≡ none
none_first none other h = h
none_first (some e) other h = cc

-- A copy without an error is whole, and it fits.
pub copy_exact :
    (left : Option ℕ) (source : Source)
    → Room left
    → (copy left source).1 ≡ none
    → ((copy left source).0 ≡ source.size) × Fits source.size left
unfolding copy_limited Room
copy_exact none source room h = (refl, tt)
copy_exact (some left) source room h = elim (Bool-cases (leb (left + 1) source.size)) [
  | inl more ↦
      let out : copy_limited (limit_of left) source ≡ (left + 1, none) =
        (rw (copy_limited, limit_of_room left room, more) refl) in
      let late : first_error none (if ltb left (left + 1) then some over_cap else none) ≡ none =
        (rw (copy, out) at h) in
      let over : ltb left (left + 1) ≡ true = ground arith in
      let clash : some over_cap ≡ none = (rw over at late) in cc
  | inr whole ↦
      let out : copy_limited (limit_of left) source ≡ (source.size, source.error) =
        (rw (copy_limited, limit_of_room left room, whole) refl) in
      (ap (λ (o : ℕ × Option Error). o.0) out, ground arith)
]

pub Fits-least : (n : ℕ) (a b : Option ℕ) → Fits n (least a b) → Fits n a × Fits n b
Fits-least n none b h = (tt, h)
Fits-least n (some a) none h = (h, tt)
Fits-least n (some a) (some b) h = ground arith
