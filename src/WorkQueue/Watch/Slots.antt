-- ===== src/WorkQueue/Watch/Slots.antt =====
-- The ids that the slots hold, when a slot is opened, gets its job, or ends.
use gobase.Base.{
  ℕ, zero, suc, ◌+◌, ◌≤◌, ◌≡◌, refl, subst, true, some, List, [], ◌∷◌, ◌++◌, arith, if◌then◌else◌,
  get_elem?, set, ◌==◌, ==-refl, nat_comparable, bool_comparable, list_comparable, count, All,
}
use gobase.Base.{All-map}
use gobase.Base.Text.{Text}
use gobase.WorkQueue.Table.{Row, has}
use gobase.WorkQueue.Watch.{Stage, starting, running, Slot, locked, locked_by, remove_at}

-- Every running slot's id stands in the list.
abbrev pub IsIn : List Text → Stage → Type 0
IsIn held starting = Unit
IsIn held (running r t) = has held r.id ≡ true

IsIn-locked_by :
    (other stage : Stage) (held : List Text) → IsIn held stage → IsIn (locked_by other held) stage
IsIn-locked_by starting stage held h = h
IsIn-locked_by (running s t) starting held h = tt
IsIn-locked_by (running s t) (running r u) held h = ground arith

pub All-IsIn : (slots : List Slot) → All (λ slot. IsIn (locked slots) slot.stage) slots
All-IsIn [] = tt
All-IsIn (slot ∷ slots) = (
  self slot.stage,
  All-map (λ other. IsIn-locked_by slot.stage other.stage (locked slots)) slots (All-IsIn slots),
)
  where
    self : (stage : Stage) → IsIn (locked_by stage (locked slots)) stage
    self starting = tt
    self (running r t) = rw (==-refl r.id) refl

count-locked_by :
    (a : Text) (stage : Stage) (xs ys : List Text)
    → count a xs ≤ count a ys
    → count a (locked_by stage xs) ≤ count a (locked_by stage ys)
count-locked_by a starting xs ys h = h
count-locked_by a (running r t) xs ys h = omega arith

pub count-locked-remove_at :
    (a : Text) (i : ℕ) (slots : List Slot)
    → count a (locked (remove_at i slots)) ≤ count a (locked slots)
unfolding remove_at
count-locked-remove_at a i [] = omega arith
count-locked-remove_at a zero (slot ∷ slots) = front slot.stage
  where
    front : (stage : Stage) → count a (locked slots) ≤ count a (locked_by stage (locked slots))
    front starting = omega arith
    front (running r t) = omega arith
count-locked-remove_at a (suc i) (slot ∷ slots) =
    count-locked_by a slot.stage _ _ (count-locked-remove_at a i slots)

-- The id of a slot that ends is held once less.
pub count-locked-end :
    (i : ℕ) (slots : List Slot) (slot : Slot) (r : Row) (t : ℕ)
    → get_elem? slots i ≡ some slot
    → slot.stage ≡ running r t
    → count r.id (locked slots) ≡ suc (count r.id (locked (remove_at i slots)))
unfolding remove_at
count-locked-end i [] slot r t h stage = cc
count-locked-end zero (s ∷ slots) slot r t h stage =
    let e : s.stage ≡ running r t = (let f : s ≡ slot = cc in rw f stage) in
    rw (e, ==-refl r.id) (omega arith)
count-locked-end (suc i) (s ∷ slots) slot r t h stage =
    behind s.stage (count-locked-end i slots slot r t h stage)
  where
    behind :
        (stage : Stage)
        → count r.id (locked slots) ≡ suc (count r.id (locked (remove_at i slots)))
        → count r.id (locked_by stage (locked slots))
          ≡ suc (count r.id (locked_by stage (locked (remove_at i slots))))
    behind starting e = e
    behind (running q u) e = omega arith

pub locked-open :
    (slots : List Slot) (slot : Slot)
    → slot.stage ≡ starting
    → locked (slots ++ slot ∷ []) ≡ locked slots
locked-open [] slot h = rw h refl
locked-open (s ∷ slots) slot h = rw (locked-open slots slot h) refl

-- A slot that gets a job holds its id once more.
pub count-locked-set :
    (a : Text) (i : ℕ) (slots : List Slot) (slot next : Slot) (r : Row) (t : ℕ)
    → get_elem? slots i ≡ some slot
    → slot.stage ≡ starting
    → next.stage ≡ running r t
    → count a (locked (set slots i next)) ≡ (if r.id == a then 1 else 0) + count a (locked slots)
count-locked-set a i [] slot next r t h old new = cc
count-locked-set a zero (s ∷ slots) slot next r t h old new =
    let e : s.stage ≡ starting = (let f : s ≡ slot = cc in rw f old) in rw (e, new) refl
count-locked-set a (suc i) (s ∷ slots) slot next r t h old new =
    behind s.stage (count-locked-set a i slots slot next r t h old new)
  where
    behind :
        (stage : Stage)
        → count a (locked (set slots i next))
          ≡ (if r.id == a then 1 else 0) + count a (locked slots)
        → count a (locked_by stage (locked (set slots i next)))
          ≡ (if r.id == a then 1 else 0) + count a (locked_by stage (locked slots))
    behind starting e = e
    behind (running q u) e = omega arith

module _ {ℓ κ} {A : Type ℓ} (P : A → Type κ) where
  pub All-remove_at : (i : ℕ) (xs : List A) → All P xs → All P (remove_at i xs)
  unfolding remove_at
  All-remove_at i [] h = h
  All-remove_at zero (x ∷ xs) (p, h) = h
  All-remove_at (suc i) (x ∷ xs) (p, h) = (p, All-remove_at i xs h)

  pub All-set : (xs : List A) (i : ℕ) (a : A) → P a → All P xs → All P (set xs i a)
  All-set [] i a p h = h
  All-set (x ∷ xs) zero a p (q, h) = (p, h)
  All-set (x ∷ xs) (suc i) a p (q, h) = (q, All-set xs i a p h)

  pub All-get_elem? : (xs : List A) (i : ℕ) (a : A) → All P xs → get_elem? xs i ≡ some a → P a
  All-get_elem? [] i a h e = cc
  All-get_elem? (x ∷ xs) zero a (p, h) e = let f : x ≡ a = cc in subst P f p
  All-get_elem? (x ∷ xs) (suc i) a (p, h) e = All-get_elem? xs i a h e

  pub All-both {μ} : (Q : A → Type μ) (xs : List A) → All P xs → All Q xs → All (λ x. P x × Q x) xs
  All-both Q [] h k = tt
  All-both Q (x ∷ xs) (p, h) (q, k) = ((p, q), All-both Q xs h k)
