-- ===== src/RemoteZip/Worker/Retries.antt =====
-- Which files a worker puts into the archive.
use gobase.Base.{
  ℕ, zero, suc, ◌+◌, ◌<◌, ◌≡◌, refl, sym, ap, ◌∙◌, subst, inl, inr, Bool, true, false, Option, none,
  some, List, [], ◌∷◌, ◌++◌, arith, leb, if◌then◌else◌, lt→ltb, Option-cases, nat_comparable,
  bool_comparable, list_comparable,
}
use gobase.Base.Text.{Text}
use gobase.RemoteZip.Entries.{Error, Entry, Zip, Add, Caps, add_file, add_all}
use gobase.RemoteZip.Entries.Copies.{entries_for, IsCap, IsCapped}
use gobase.RemoteZip.Entries.Exact.{add_all_exact}
use gobase.RemoteZip.Worker.{
  Attempt, DownloadItem, max_attempt_ct, Next, give_up, again, done, after_add, attempt,
  after_attempt, retry_loop, work_item, unless_failed, work,
}

-- The attempt gets as far as writing the entry.
abbrev pub comes_through : Attempt → Bool
comes_through a = elim a.prepare [
  | some e ↦ false
  | none ↦ elim a.download [
    | some e ↦ false
    | none ↦ elim a.rewind [ some e ↦ false | none ↦ true ]
  ]
]

abbrev pub add_of : Text → Attempt → Add
add_of name a = record { name = name; source = a.source; setup = a.setup; create = a.create }

-- The call that the first attempt makes that comes through, of `fuel` attempts from `i` on.
abbrev pub landed_from : ℕ → DownloadItem → ℕ → List Add
landed_from zero item i = []
landed_from (suc fuel) item i =
    if comes_through (item.attempts i)
    then add_of item.name (item.attempts i) ∷ []
    else landed_from fuel item (i + 1)

abbrev pub landed : List DownloadItem → List Add
landed [] = []
landed (item ∷ items) = landed_from max_attempt_ct item 0 ++ landed items

data Outcome (caps : Caps) (name : Text) (a : Attempt) (i : ℕ) (z : Zip) (r : Zip × Next)
    : Type 0 where
  stopped : (e : Error) → r ≡ (z, give_up e) → Outcome caps name a i z r
  missed : comes_through a ≡ false → r ≡ (z, again) → Outcome caps name a i z r
  added :
      comes_through a ≡ true
      → r ≡ after_add i (add_file caps (add_of name a) z) (add_file caps (add_of name a) z).err
      → Outcome caps name a i z r

attempt-Outcome :
    (caps : Caps) (name : Text) (a : Attempt) (i : ℕ) (z : Zip)
    → i < max_attempt_ct
    → Outcome caps name a i z (attempt caps name a i z)
unfolding attempt
attempt-Outcome caps name a i z lt = elim (Option-cases a.prepare) [
  | inr (e, p) ↦ stopped e (rw p refl)
  | inl p ↦ elim (Option-cases a.download) [
    | inr (e, d) ↦ missed (rw (p, d) refl) (rw (p, d, lt→ltb i 2 lt) refl)
    | inl d ↦ elim (Option-cases a.rewind) [
      | inl w ↦ added (rw (p, d, w) refl) (rw (p, d, w) refl)
      | inr (e, w) ↦
          let early : leb max_attempt_ct i ≡ false = ground arith in
          elim (Option-cases a.reset) [
            | inl s ↦ missed (rw (p, d, w) refl) (rw (p, d, w, s, early) refl)
            | inr (e', s) ↦ stopped e' (rw (p, d, w, s, early) refl)
          ]
    ]
  ]
]

-- The error of a zip that has failed is kept.
retry_loop_failed :
    (fuel : ℕ) (caps : Caps) (item : DownloadItem) (i : ℕ) (z : Zip) (e : Error)
    → i + fuel ≡ max_attempt_ct
    → z.err ≡ some e
    → (retry_loop fuel caps item i z).0.err ≡ some e
unfolding retry_loop add_file
retry_loop_failed zero caps item i z e fuel_is h = h
retry_loop_failed (suc fuel) caps item i z e fuel_is h =
    go (attempt caps item.name (item.attempts i) i z)
      (attempt-Outcome caps item.name (item.attempts i) i z (omega (arith, fuel_is)))
      (λ z' failed. retry_loop_failed fuel caps item (i + 1) z' e (omega (arith, fuel_is)) failed)
  where
    go :
        (r : Zip × Next)
        → Outcome caps item.name (item.attempts i) i z r
        → ((z' : Zip) → z'.err ≡ some e → (retry_loop fuel caps item (i + 1) z').0.err ≡ some e)
        → (after_attempt (retry_loop fuel caps item (i + 1)) r).0.err ≡ some e
    go r (stopped e' f) rest = rw f h
    go r (missed bad f) rest = rw f (rest z h)
    go r (added good f) rest =
        let same : add_file caps (add_of item.name (item.attempts i)) z ≡ z =
          (rw (add_file, h) refl) in
        let early : leb max_attempt_ct i ≡ false = ground (arith, fuel_is) in
        let g : r ≡ (z, again) = f ∙ ap (λ z'. after_add i z' z'.err) same ∙ (rw (h, early) refl) in
        rw g (rest z h)

-- What the loop over the attempts does to a zip, if it ends without an error.
retry_loop_exact :
    (fuel : ℕ) (caps : Caps) (item : DownloadItem) (i : ℕ) (z : Zip)
    → i + fuel ≡ max_attempt_ct
    → (retry_loop fuel caps item i z).1 ≡ none
    → (retry_loop fuel caps item i z).0.err ≡ none
    → (retry_loop fuel caps item i z).0 ≡ add_all caps (landed_from fuel item i) z
unfolding retry_loop add_all
retry_loop_exact zero caps item i z fuel_is returned h = refl
retry_loop_exact (suc fuel) caps item i z fuel_is returned h =
    go (attempt caps item.name (item.attempts i) i z)
      (attempt-Outcome caps item.name (item.attempts i) i z (omega (arith, fuel_is)))
      (retry_loop_exact fuel caps item (i + 1) z (omega (arith, fuel_is)))
      (λ z' e. retry_loop_failed fuel caps item (i + 1) z' e (omega (arith, fuel_is))) returned h
  where
    go :
        (r : Zip × Next)
        → Outcome caps item.name (item.attempts i) i z r
        → ((retry_loop fuel caps item (i + 1) z).1 ≡ none
            → (retry_loop fuel caps item (i + 1) z).0.err ≡ none
            → (retry_loop fuel caps item (i + 1) z).0
              ≡ add_all caps (landed_from fuel item (i + 1)) z)
        → ((z' : Zip) (e : Error)
            → z'.err ≡ some e
            → (retry_loop fuel caps item (i + 1) z').0.err ≡ some e)
        → (after_attempt (retry_loop fuel caps item (i + 1)) r).1 ≡ none
        → (after_attempt (retry_loop fuel caps item (i + 1)) r).0.err ≡ none
        → (after_attempt (retry_loop fuel caps item (i + 1)) r).0
          ≡ add_all caps (landed_from (suc fuel) item i) z
    go r (stopped e f) rest failed out h' = let clash : some e ≡ none = (rw f at out) in cc
    go r (missed bad f) rest failed out h' = rw (f, bad) (rest (rw f at out) (rw f at h'))
    go r (added good f) rest failed out h' =
        let z' = add_file caps (add_of item.name (item.attempts i)) z in
        elim (Option-cases z'.err) [
          | inl fine ↦ let g : r ≡ (z', done) = f ∙ (rw fine refl) in rw (g, good) refl
          | inr (e, bad) ↦
              let early : leb max_attempt_ct i ≡ false = ground (arith, fuel_is) in
              let g : r ≡ (z', again) = f ∙ (rw (bad, early) refl) in
              let kept = failed z' e bad in
              let clash : (retry_loop fuel caps item (i + 1) z').0.err ≡ none = (rw g at h') in cc
        ]

work_failed :
    (caps : Caps) (items : List DownloadItem) (z : Zip) (e : Error)
    → z.err ≡ some e
    → (work caps items z).0.err ≡ some e
unfolding work work_item
work_failed caps [] z e h = h
work_failed caps (item ∷ items) z e h =
    go (retry_loop max_attempt_ct caps item 0 z)
      (retry_loop_failed max_attempt_ct caps item 0 z e refl h) (λ z'. work_failed caps items z' e)
  where
    go :
        (r : Zip × Option Error)
        → r.0.err ≡ some e
        → ((z' : Zip) → z'.err ≡ some e → (work caps items z').0.err ≡ some e)
        → (unless_failed (work caps items) r).0.err ≡ some e
    go (z', none) failed rest = rest z' failed
    go (z', some e') failed rest = failed

add_all-append :
    (caps : Caps) (adds more : List Add) (z : Zip)
    → add_all caps (adds ++ more) z ≡ add_all caps more (add_all caps adds z)
unfolding add_all
add_all-append caps [] more z = refl
add_all-append caps (add ∷ adds) more z = add_all-append caps adds more (add_file caps add z)

work-add_all :
    (caps : Caps) (items : List DownloadItem) (z : Zip)
    → (work caps items z).1 ≡ none
    → (work caps items z).0.err ≡ none
    → (work caps items z).0 ≡ add_all caps (landed items) z
unfolding work work_item add_all
work-add_all caps [] z returned h = refl
work-add_all caps (item ∷ items) z returned h =
    go (retry_loop max_attempt_ct caps item 0 z)
      (retry_loop_exact max_attempt_ct caps item 0 z refl) (work-add_all caps items) returned h
  where
    go :
        (r : Zip × Option Error)
        → (r.1 ≡ none → r.0.err ≡ none → r.0 ≡ add_all caps (landed_from max_attempt_ct item 0) z)
        → ((z' : Zip)
            → (work caps items z').1 ≡ none
            → (work caps items z').0.err ≡ none
            → (work caps items z').0 ≡ add_all caps (landed items) z')
        → (unless_failed (work caps items) r).1 ≡ none
        → (unless_failed (work caps items) r).0.err ≡ none
        → (unless_failed (work caps items) r).0
          ≡ add_all caps (landed_from max_attempt_ct item 0 ++ landed items) z
    go (z', some e) one rest out h' = cc
    go (z', none) one rest out h' = elim (Option-cases z'.err) [
      | inr (e, failed) ↦ let kept = work_failed caps items z' e failed in cc
      | inl fine ↦
          rest z' out h'
          ∙ ap (add_all caps (landed items)) (one refl fine)
          ∙ sym (add_all-append caps (landed_from max_attempt_ct item 0) (landed items) z)
    ]

-- With caps below the largest int64, on a zip whose caps hold: when a worker ends without
-- returning an error, and no error is set, the entries that it has added are, in order, one for
-- each of its files that came through on the first or second attempt, with the clean name and
-- all of the data of that attempt, and the caps hold. A file of which neither attempt came
-- through is not among them.
pub work_exact :
    (caps : Caps) (items : List DownloadItem) (z : Zip)
    → IsCap caps.max_file_size
    → IsCap caps.max_total_size
    → IsCapped caps z
    → (work caps items z).1 ≡ none
    → (work caps items z).0.err ≡ none
    → ((entries : List Entry) × (entries_for (landed items) ≡ some entries)
        × ((work caps items z).0.entries ≡ z.entries ++ entries))
      × IsCapped caps (work caps items z).0
work_exact caps items z file most c returned h =
    let same = work-add_all caps items z returned h in
    let fine : (add_all caps (landed items) z).err ≡ none =
      ap (λ (z' : Zip). z'.err) (sym same) ∙ h in
    let ((entries, e, f), capped) = add_all_exact caps file most (landed items) z c fine in
    ((entries, e, ap (λ (z' : Zip). z'.entries) same ∙ f), subst (IsCapped caps) (sym same) capped)

-- A file that cannot be downloaded, twice, leaves no entry and no error: the worker takes the next
-- one, and neither the zip nor the worker tells of it.
pub work_item_lost :
    (caps : Caps) (item : DownloadItem) (z : Zip) (first second : Error)
    → (item.attempts 0).prepare ≡ none
    → (item.attempts 0).download ≡ some first
    → (item.attempts 1).prepare ≡ none
    → (item.attempts 1).download ≡ some second
    → work_item caps item z ≡ (z, none)
unfolding work_item retry_loop attempt
work_item_lost caps item z first second p d p' d' = rw (p, d, p', d') refl
