-- ===== src/RemoteZip/Entries.antt =====
-- `addFileUnsafe`, `initInternalsUnsafe` and `copyWithLimitUnsafe`, whose callers hold the lock: one
-- call is one step. Errors of the file system, of the archive writer and of the data are inputs.
pub mod Copies
pub mod Exact
use gobase.Base.{
  ℕ, ◌+◌, ◌-◌, ◌%◌, ◌^◌, Bool, true, false, List, [], ◌∷◌, ◌++◌, Option, none, some, if◌then◌else◌,
  ltb, leb, eqb,
}
use gobase.Base.Int.{ℤ, pos, negsuc}
use gobase.Base.Text.{Text}
use gobase.RemoteZip.Names.{sanitize_zip_name}

pub data Error : Type 0 where
  bad_name : Error
  over_cap : Error
  outside : Text → Error

-- `MaxFileSize` and `MaxTotalSize`, which are int64.
pub record Caps : Type 0 where
  pub max_file_size : ℤ
  pub max_total_size : ℤ

-- A reader: how many bytes come, and the error of reading or writing on, if there is one.
pub record Source : Type 0 where
  pub size : ℕ
  pub error : Option Error

pub record Entry : Type 0 where
  pub name : Text
  pub written : ℕ

pub record Zip : Type 0 where
  -- `tempDir` is set, and there is a writer.
  pub is_ready : Bool
  pub entries : List Entry
  pub total_written : ℕ
  pub err : Option Error

-- One call of `AddMemoryFile` or `addFileFromWriterSync`, with what the set-up and
-- `z.wr.Create` answer.
pub record Add : Type 0 where
  pub name : Text
  pub source : Source
  pub setup : Option Error
  pub create : Option Error

abbrev pub new_zip : Zip
new_zip = record { is_ready = false; entries = []; total_written = 0; err = none }

-- A cap that is in force.
abbrev pub cap : ℤ → Option ℕ
cap (pos n) = if eqb n 0 then none else some n
cap (negsuc n) = none

abbrev pub least : Option ℕ → Option ℕ → Option ℕ
least none right = right
least (some n) none = some n
least (some n) (some right) = some (if ltb right n then right else n)

-- `remaining`, where `none` is -1; a total that is exceeded leaves 0.
unfoldable pub remaining : Caps → ℕ → Option ℕ
remaining caps total =
    least (cap caps.max_file_size)
      (elim (cap caps.max_total_size) [ none ↦ none | some most ↦ some (most - total) ])

-- `remaining+1` in int64. A limit below 0 reads nothing.
unfoldable pub limit_of : ℕ → ℕ
limit_of left = let n = (left + 1) % 2 ^ 64 in if ltb n (2 ^ 63) then n else 0

-- `io.Copy` of a `LimitReader`: at the limit the data ends without an error.
unfoldable pub copy_limited : ℕ → Source → ℕ × Option Error
copy_limited limit source =
    if leb limit source.size then (limit, none) else (source.size, source.error)

abbrev pub first_error : Option Error → Option Error → Option Error
first_error none e = e
first_error (some e) other = some e

-- How much is written, and the error.
abbrev pub copy : Option ℕ → Source → ℕ × Option Error
copy none source = (source.size, source.error)
copy (some left) source =
    let out = copy_limited (limit_of left) source in
    (out.0, first_error out.1 (if ltb left out.0 then some over_cap else none))

unfoldable pub copy_with_limit : Caps → Text → Source → Zip → Zip
unfolding remaining copy_limited limit_of
copy_with_limit caps name source z =
    let out = copy (remaining caps z.total_written) source in
    record z {
      entries = z.entries ++ record { name = name; written = out.0 } ∷ [];
      total_written = z.total_written + out.0;
      err = out.1;
    }

abbrev pub fail : Error → Zip → Zip
fail e z = record z { err = some e }

-- `initInternalsUnsafe` on a zip without an error.
unfoldable pub init_internals : Option Error → Zip → Zip
init_internals setup z =
    if z.is_ready then z else elim setup [ none ↦ record z { is_ready = true } | some e ↦ fail e z ]

abbrev pub create_entry : Caps → Text → Add → Zip → Option Error → Option Error → Zip
create_entry caps name add z (some e) created = z
create_entry caps name add z none (some e) = fail e z
create_entry caps name add z none none = copy_with_limit caps name add.source z

abbrev pub add_named : Caps → Add → Zip → Option Text → Zip
add_named caps add z none = fail bad_name z
add_named caps add z (some name) =
    let z' = init_internals add.setup z in create_entry caps name add z' z'.err add.create

abbrev pub add_unless : Caps → Add → Zip → Option Error → Zip
add_unless caps add z (some e) = z
add_unless caps add z none = add_named caps add z (sanitize_zip_name add.name)

-- The error that is returned is the one that the zip has afterwards.
unfoldable pub add_file : Caps → Add → Zip → Zip
unfolding copy_with_limit init_internals
add_file caps add z = add_unless caps add z z.err

unfoldable pub add_all : Caps → List Add → Zip → Zip
unfolding add_file
add_all caps [] z = z
add_all caps (add ∷ adds) z = add_all caps adds (add_file caps add z)
