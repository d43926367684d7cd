-- ===== src/RemoteZip/Entries/Exact.antt =====
-- What an archive without an error contains.
use gobase.Base.{
  ℕ, ◌+◌, ◌-◌, ◌^◌, ◌≡◌, refl, sym, ap, ◌∙◌, subst, Bool, true, false, Option, none, some, List, [],
  ◌∷◌, ◌++◌, append_assoc, append-nil, arith, if◌then◌else◌, le→leb, nat_comparable,
  bool_comparable, list_comparable, All, All-append,
}
use gobase.Base.Int.{ℤ, pos, negsuc}
use gobase.Base.Text.{Text}
use gobase.RemoteZip.Names.{sanitize_zip_name}
use gobase.RemoteZip.Entries.{
  Error, Caps, Source, Entry, Zip, Add, cap, remaining, limit_of, copy_limited, copy_with_limit,
  fail, init_internals, create_entry, add_named, add_unless, add_file, add_all,
}
use gobase.RemoteZip.Entries.Copies.{
  entry_for, entries_for, IsCap, Fits, total_size, total_size-append, IsCapped, remaining-Room,
  copy_exact, Fits-least,
}

-- What a call adds that leaves no error.
abbrev pub Added : Caps → Add → Zip → Zip → Type 0
Added caps add z z' =
    (entry : Entry) × (entry_for add ≡ some entry)
    × (z'.entries ≡ z.entries ++ entry ∷ [])
    × (z'.total_written ≡ z.total_written + entry.written)
    × Fits entry.written (remaining caps z.total_written)

copy_with_limit-Added :
    (caps : Caps) (add : Add) (name : Text) (z : Zip)
    → IsCap caps.max_file_size
    → IsCap caps.max_total_size
    → sanitize_zip_name add.name ≡ some name
    → (copy_with_limit caps name add.source z).err ≡ none
    → Added caps add z (copy_with_limit caps name add.source z)
unfolding copy_with_limit
copy_with_limit-Added caps add name z file most clean h =
    let (whole, fits) =
      copy_exact (remaining caps z.total_written) add.source
        (remaining-Room caps z.total_written file most) h in
    (
      record { name = name; written = add.source.size },
      (rw clean refl),
      ap (λ n. z.entries ++ record { name = name; written = n } ∷ []) whole,
      ap (λ n. z.total_written + n) whole,
      fits,
    )

init_internals-same :
    (setup : Option Error) (z : Zip)
    → ((init_internals setup z).entries ≡ z.entries)
      × ((init_internals setup z).total_written ≡ z.total_written)
unfolding init_internals
init_internals-same setup z = go z.is_ready setup
  where
    go :
        (ready : Bool) (setup : Option Error)
        → ((if ready
              then z
              else elim setup [ none ↦ record z { is_ready = true } | some e ↦ fail e z ]).entries
            ≡ z.entries)
          × ((if ready then z else elim setup [
            | none ↦ record z { is_ready = true }
            | some e ↦ fail e z
          ]).total_written
              ≡ z.total_written)
    go true setup = (refl, refl)
    go false none = (refl, refl)
    go false (some e) = (refl, refl)

module _ (caps : Caps) (add : Add) (file : IsCap caps.max_file_size)
    (most : IsCap caps.max_total_size) where
  create_entry-Added :
      (name : Text) (z : Zip) (failed created : Option Error)
      → sanitize_zip_name add.name ≡ some name
      → z.err ≡ failed
      → (create_entry caps name add z failed created).err ≡ none
      → Added caps add z (create_entry caps name add z failed created)
  create_entry-Added name z (some e) created clean at h = cc
  create_entry-Added name z none (some e) clean at h = cc
  create_entry-Added name z none none clean at h =
      copy_with_limit-Added caps add name z file most clean h

  add_named-Added :
      (z : Zip) (name : Option Text)
      → sanitize_zip_name add.name ≡ name
      → (add_named caps add z name).err ≡ none
      → Added caps add z (add_named caps add z name)
  add_named-Added z none clean h = cc
  add_named-Added z (some name) clean h =
      let z' = init_internals add.setup z in
      let (same, total) = init_internals-same add.setup z in
      let (entry, e, f, g, fits) = create_entry-Added name z' z'.err add.create clean refl h in
      (
        entry,
        e,
        f ∙ ap (λ entries. entries ++ entry ∷ []) same,
        g ∙ ap (λ n. n + entry.written) total,
        subst (λ n. Fits entry.written (remaining caps n)) total fits,
      )

  add_file-Added :
      (z : Zip) → (add_file caps add z).err ≡ none → Added caps add z (add_file caps add z)
  unfolding add_file
  add_file-Added z h = go z.err refl h
    where
      go :
          (failed : Option Error)
          → z.err ≡ failed
          → (add_unless caps add z failed).err ≡ none
          → Added caps add z (add_unless caps add z failed)
      go none at h = add_named-Added z (sanitize_zip_name add.name) refl h
      go (some e) at h = cc

Fits-rest :
    (n total : ℕ) (most : ℤ)
    → Fits total (cap most)
    → Fits n (elim (cap most) [ none ↦ none | some m ↦ some (m - total) ])
    → Fits (total + n) (cap most)
Fits-rest n total (pos m) before h = ground arith
Fits-rest n total (negsuc m) before h = tt

-- A zip that has failed stays as it is: no call adds to it, and its error is kept.
pub add_all_failed :
    (caps : Caps) (adds : List Add) (z : Zip) (e : Error) → z.err ≡ some e → add_all caps adds z ≡ z
unfolding add_all add_file
add_all_failed caps [] z e h = refl
add_all_failed caps (add ∷ adds) z e h =
    let same : add_file caps add z ≡ z = (rw (add_file, h) refl) in
    ap (add_all caps adds) same ∙ add_all_failed caps adds z e h

module _ (caps : Caps) (file : IsCap caps.max_file_size) (most : IsCap caps.max_total_size) where
  add_file-IsCapped :
      (add : Add) (z : Zip)
      → IsCapped caps z
      → (add_file caps add z).err ≡ none
      → IsCapped caps (add_file caps add z)
  unfolding remaining
  add_file-IsCapped add z c h =
      let (entry, e, f, g, fits) = add_file-Added caps add file most z h in
      let (fits_file, fits_total) = Fits-least entry.written _ _ fits in
      record {
        sums =
            g
            ∙ omega (arith, c.sums, total_size-append z.entries (entry ∷ []))
            ∙ ap total_size (sym f);
        total =
            subst (λ n. Fits n (cap caps.max_total_size)) (sym g)
              (Fits-rest entry.written z.total_written caps.max_total_size c.total fits_total);
        files =
            subst (All (λ (entry : Entry). Fits entry.written (cap caps.max_file_size))) (sym f) (
              All-append (λ (entry : Entry). Fits entry.written (cap caps.max_file_size)) z.entries
                (entry ∷ []) c.files (fits_file, tt));
      }

  -- With caps below the largest int64, on a zip whose caps hold: after any calls, if no error is
  -- set, the new entries are, in order, exactly those that the calls ask for, with clean names
  -- and all of their data, and the caps hold.
  pub add_all_exact :
      (adds : List Add) (z : Zip)
      → IsCapped caps z
      → (add_all caps adds z).err ≡ none
      → ((entries : List Entry) × (entries_for adds ≡ some entries)
          × ((add_all caps adds z).entries ≡ z.entries ++ entries))
        × IsCapped caps (add_all caps adds z)
  unfolding add_all
  add_all_exact [] z c h = (([], refl, sym (append-nil z.entries)), c)
  add_all_exact (add ∷ adds) z c h =
      go (add_file caps add z).err refl
        (λ capped. add_all_exact adds (add_file caps add z) capped h)
    where
      go :
          (failed : Option Error)
          → (add_file caps add z).err ≡ failed
          → (IsCapped caps (add_file caps add z)
              → ((entries : List Entry) × (entries_for adds ≡ some entries)
                  × ((add_all caps adds (add_file caps add z)).entries
                      ≡ (add_file caps add z).entries ++ entries))
                × IsCapped caps (add_all caps adds (add_file caps add z)))
          → ((entries : List Entry) × (entries_for (add ∷ adds) ≡ some entries)
              × ((add_all caps (add ∷ adds) z).entries ≡ z.entries ++ entries))
            × IsCapped caps (add_all caps (add ∷ adds) z)
      go (some e) at rest =
          let same = add_all_failed caps adds (add_file caps add z) e at in
          let clash : none ≡ some e = sym h ∙ ap (λ (z' : Zip). z'.err) same ∙ at in cc
      go none at rest =
          let (entry, e, f, g, fits) = add_file-Added caps add file most z at in
          let ((entries, e', f'), capped) = rest (add_file-IsCapped add z c at) in
          (
            (
              entry ∷ entries,
              (rw (e, e') refl),
              f' ∙ ap (λ es. es ++ entries) f ∙ append_assoc z.entries (entry ∷ []) entries,
            ),
            capped,
          )

-- With the largest int64 as the cap of a file and none on the total, a call writes an entry without
-- data, whatever there is to write, and sets no error.
pub copy_with_limit_max :
    (name : Text) (source : Source) (z : Zip)
    → copy_with_limit
        (record { max_file_size = pos (2 ^ 63 - 1); max_total_size = pos 0 })
        name
        source
        z
      ≡ record z {
        entries = z.entries ++ record { name = name; written = 0 } ∷ [];
        total_written = z.total_written + 0;
        err = none;
      }
unfolding copy_with_limit remaining limit_of copy_limited
copy_with_limit_max name source z = rw (le→leb 0 source.size (omega arith)) refl
