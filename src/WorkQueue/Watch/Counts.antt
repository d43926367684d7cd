-- ===== src/WorkQueue/Watch/Counts.antt =====
-- Counting the slots of a worker, when its count and the slots change.
use gobase.Base.{
  ℕ, zero, suc, ◌+◌, ◌-◌, ◌<◌, ◌≡◌, refl, sym, ap, ◌∙◌, subst, ◌⊎◌, inl, inr, true, false, none,
  some, List, [], ◌∷◌, ◌++◌, arith, eqb, if◌then◌else◌, eqb_iff, length, get_elem?, set,
  nat_comparable, bool_comparable, list_comparable, count, All,
}
use gobase.Base.Int.{ℤ, pos, negsuc, leb_ℤ}
use gobase.WorkQueue.Watch.{WorkerInfo, Slot, System, remove_at}

-- How many slots point to the worker at place `p`.
abbrev pub slots_of : ℕ → List Slot → ℕ
slots_of p [] = 0
slots_of p (slot ∷ slots) = (if eqb slot.info p then 1 else 0) + slots_of p slots

pub slots_of-append :
    (p : ℕ) (slots : List Slot) (slot : Slot)
    → slots_of p (slots ++ slot ∷ []) ≡ (if eqb slot.info p then 1 else 0) + slots_of p slots
slots_of-append p [] slot = refl
slots_of-append p (s ∷ slots) slot = omega (arith, slots_of-append p slots slot)

pub slots_of-remove_at :
    (p i : ℕ) (slots : List Slot) (slot : Slot)
    → get_elem? slots i ≡ some slot
    → slots_of p slots ≡ (if eqb slot.info p then 1 else 0) + slots_of p (remove_at i slots)
unfolding remove_at
slots_of-remove_at p i [] slot h = cc
slots_of-remove_at p zero (s ∷ slots) slot h = let e : s ≡ slot = cc in rw e refl
slots_of-remove_at p (suc i) (s ∷ slots) slot h = omega (arith, slots_of-remove_at p i slots slot h)

pub slots_of-set :
    (p i : ℕ) (slots : List Slot) (slot next : Slot)
    → get_elem? slots i ≡ some slot
    → next.info ≡ slot.info
    → slots_of p (set slots i next) ≡ slots_of p slots
slots_of-set p i [] slot next h same = cc
slots_of-set p zero (s ∷ slots) slot next h same = let e : s ≡ slot = cc in rw (e, same) refl
slots_of-set p (suc i) (s ∷ slots) slot next h same =
    omega (arith, slots_of-set p i slots slot next h same)

pub slots_of_none :
    (p : ℕ) (slots : List Slot) → All (λ (slot : Slot). slot.info < p) slots → slots_of p slots ≡ 0
slots_of_none p [] h = refl
slots_of_none p (s ∷ slots) (lt, h) = ground (arith, slots_of_none p slots h)

-- A worker has as many slots as it counts, and no more than it may have.
abbrev pub IsWithin : List Slot → ℕ → WorkerInfo → Type 0
IsWithin slots p w =
    (w.n_active ≡ slots_of p slots)
    × ((w.n_active ≡ 0) ⊎ (leb_ℤ (pos w.n_active) w.n_concurrent ≡ true))

pub record IsCounted (s : System) : Type 0 where
  pub within : (p : ℕ) (w : WorkerInfo) → get_elem? s.infos p ≡ some w → IsWithin s.slots p w
  pub known : All (λ (slot : Slot). slot.info < length s.infos) s.slots

pub get_elem?-append :
    (infos : List WorkerInfo) (new w : WorkerInfo) (p : ℕ)
    → get_elem? (infos ++ new ∷ []) p ≡ some w
    → (get_elem? infos p ≡ some w) ⊎ ((p ≡ length infos) × (w ≡ new))
get_elem?-append [] new w zero h = inr (refl, cc)
get_elem?-append [] new w (suc p) h = cc
get_elem?-append (x ∷ infos) new w zero h = inl h
get_elem?-append (x ∷ infos) new w (suc p) h = elim (get_elem?-append infos new w p h) [
  | inl e ↦ inl e
  | inr (e, f) ↦ inr (ap suc e, f)
]

-- What stands at a place of a list after a write.
get_elem?-set :
    (infos : List WorkerInfo) (new w : WorkerInfo) (p q : ℕ)
    → get_elem? (set infos p new) q ≡ some w
    → ((eqb p q ≡ true) × (w ≡ new)) ⊎ ((eqb p q ≡ false) × (get_elem? infos q ≡ some w))
get_elem?-set [] new w p q h = cc
get_elem?-set (x ∷ infos) new w zero zero h = inl (refl, cc)
get_elem?-set (x ∷ infos) new w zero (suc q) h = inr (ground arith, h)
get_elem?-set (x ∷ infos) new w (suc p) zero h = inr (ground arith, h)
get_elem?-set (x ∷ infos) new w (suc p) (suc q) h = elim (get_elem?-set infos new w p q h) [
  | inl (e, f) ↦ inl (ground arith, f)
  | inr (e, f) ↦ inr (ground arith, f)
]

pub place_known :
    (infos : List WorkerInfo) (p : ℕ) (w : WorkerInfo)
    → get_elem? infos p ≡ some w
    → p < length infos
place_known [] p w h = cc
place_known (x ∷ infos) zero w h = omega arith
place_known (x ∷ infos) (suc p) w h = omega (arith, place_known infos p w h)

pub place_none : (infos : List WorkerInfo) (p : ℕ) → p < length infos → get_elem? infos p ≡ none → ⊥
place_none [] p lt h = omega (arith, lt)
place_none (x ∷ infos) zero lt h = cc
place_none (x ∷ infos) (suc p) lt h = place_none infos p (omega (arith, lt)) h

pub one_more : (n : ℕ) (c : ℤ) → leb_ℤ c (pos n) ≡ false → leb_ℤ (pos (suc n)) c ≡ true
one_more n (pos k) h = ground arith
one_more n (negsuc k) h = ground arith

pub one_less : (n : ℕ) (c : ℤ) → leb_ℤ (pos n) c ≡ true → leb_ℤ (pos (n - 1)) c ≡ true
one_less n (pos k) h = ground arith
one_less n (negsuc k) h = ground arith

-- A write of one worker's count, along with a change of the slots that no other worker sees.
pub IsWithin-set :
    (infos : List WorkerInfo) (slots slots' : List Slot) (p : ℕ) (new : WorkerInfo)
    → ((q : ℕ) (w : WorkerInfo) → get_elem? infos q ≡ some w → IsWithin slots q w)
    → ((q : ℕ) → eqb p q ≡ false → slots_of q slots' ≡ slots_of q slots)
    → IsWithin slots' p new
    → (q : ℕ) (w : WorkerInfo) → get_elem? (set infos p new) q ≡ some w
    → IsWithin slots' q w
IsWithin-set infos slots slots' p new before others self q w at =
    elim (get_elem?-set infos new w p q at) [
      | inl (e, f) ↦ subst (λ q'. IsWithin slots' q' w) ((eqb_iff p q).0 e) (rw f self)
      | inr (e, f) ↦ let (count, most) = before q w f in (count ∙ sym (others q e), most)
    ]
