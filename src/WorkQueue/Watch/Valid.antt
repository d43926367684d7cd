-- ===== src/WorkQueue/Watch/Valid.antt =====
-- A valid state, and what keeps it so.
use gobase.Base.{
  ℕ, ◌≡◌, true, false, none, some, List, arith, nat_comparable, bool_comparable, list_comparable,
  IsUnique, All,
}
use gobase.Base.{All-map}
use gobase.Base.Text.{Text}
use gobase.WorkQueue.Table.{Row, is_null, has, ids, find_row, is_claimable}
use gobase.WorkQueue.Add.Laws.{is_null-none}
use gobase.WorkQueue.Watch.{Stage, starting, running, Slot, System, locked, end_slot}
use gobase.WorkQueue.Watch.Slots.{IsIn, All-IsIn, count-locked-remove_at, All-remove_at, All-both}

-- A running slot's row stands in the table as it was claimed, and is not started there.
abbrev pub Holds : List Row → Stage → Type 0
Holds rows starting = Unit
Holds rows (running r t) = (find_row r.id rows ≡ some r) × (r.started_at ≡ none)

-- A row is started, completed and given a time to go in one transaction.
abbrev pub IsStored : Row → Type 0
IsStored r =
    (is_null r.completed_at ≡ is_null r.started_at)
    × (is_null r.retain_until ≡ is_null r.started_at)

-- The ids in the table are distinct, no job is held by two slots, each slot's job is still to do,
-- and a row is completed as soon as it is seen to be started.
pub record IsValid (s : System) : Type 0 where
  pub unique : IsUnique (ids s.rows)
  pub single : IsUnique (locked s.slots)
  pub held : All (λ (slot : Slot). Holds s.rows slot.stage) s.slots
  pub stored : All IsStored s.rows

-- Rows that change but for those that a slot holds.
pub Holds-rows :
    (rows rows' : List Row) (slots : List Slot)
    → ((j : Text) (r : Row)
        → has (locked slots) j ≡ true
        → find_row j rows ≡ some r
        → find_row j rows' ≡ some r)
    → All (λ (slot : Slot). Holds rows slot.stage) slots
    → All (λ (slot : Slot). Holds rows' slot.stage) slots
Holds-rows rows rows' slots stay all =
    All-map {P = λ (slot : Slot). Holds rows slot.stage × IsIn (locked slots) slot.stage}
      (λ slot. keep slot.stage) slots
      (All-both (λ slot. Holds rows slot.stage) (λ slot. IsIn (locked slots) slot.stage) slots all
        (All-IsIn slots))
  where
    keep : (stage : Stage) → Holds rows stage × IsIn (locked slots) stage → Holds rows' stage
    keep starting (h, inside) = tt
    keep (running r t) ((found, todo), inside) = (stay r.id r inside found, todo)

pub end_slot-IsValid : (i : ℕ) (slot : Slot) (s : System) → IsValid s → IsValid (end_slot i slot s)
unfolding end_slot
end_slot-IsValid i slot s v = record {
  unique = v.unique;
  single = λ a. (let once = v.single a in omega (arith, count-locked-remove_at a i s.slots));
  held = All-remove_at (λ (slot : Slot). Holds s.rows slot.stage) i s.slots v.held;
  stored = v.stored;
}

pub claimable_inv :
    (queue : Text) (now : ℕ) (held : List Text) (r : Row)
    → is_claimable queue now held r ≡ true
    → (r.started_at ≡ none) × (has held r.id ≡ false)
unfolding is_claimable
claimable_inv queue now held r h = ground (arith, is_null-none r.started_at)
