-- ===== src/WorkQueue/Table.antt =====
-- The table pq_worker_queue, and the statements that claim, complete and clean its rows. The ids in
-- `locked` are those that open transactions hold: `for update skip locked` passes over them, and
-- what these transactions wrote is not seen before they commit.
pub mod Rows
pub mod Claim
use gobase.Base.{
  ℕ, zero, suc, Bool, true, false, not, ◌&&◌, ◌||◌, List, [], ◌∷◌, ◌++◌, map, Option, none, some,
  if◌then◌else◌, leb, ltb, ◌==◌, list_comparable, nat_comparable,
}
use gobase.Base.Text.{Text}

pub record Row : Type 0 where
  pub id : Text
  pub queue_name : Text
  pub debounce_key : Text
  pub job_arg : Text
  pub result : Option Text
  pub created_at : ℕ
  pub start_after : ℕ
  pub started_at : Option ℕ
  pub completed_at : Option ℕ
  pub retain_until : Option ℕ
  pub commit_error : Option Text
  pub usr : Option ℕ
  pub company : Option ℕ

abbrev pub is_null {ℓ} : {A : Type ℓ} → Option A → Bool
is_null none = true
is_null (some a) = false

abbrev pub has : List Text → Text → Bool
has [] j = false
has (x ∷ xs) j = (x == j) || has xs j

abbrev pub ids : List Row → List Text
ids rows = map (λ r. r.id) rows

-- `where id = …`
unfoldable pub find_row : Text → List Row → Option Row
find_row j [] = none
find_row j (r ∷ rows) = if r.id == j then some r else find_row j rows

-- `update pq_worker_queue set … where id = …`
unfoldable pub update_rows : Text → (Row → Row) → List Row → List Row
update_rows j change [] = []
update_rows j change (r ∷ rows) = (if r.id == j then change r else r) ∷ update_rows j change rows

-- `insert into pq_worker_queue`, where `id` is unique.
unfoldable pub insert_row : Row → List Row → Option (List Row)
insert_row r rows = if has (ids rows) r.id then none else some (rows ++ r ∷ [])

-- `where queue_name = $1 and start_after <= $2 and started_at is null`, unlocked.
unfoldable pub is_claimable : Text → ℕ → List Text → Row → Bool
is_claimable queue now locked r =
    (r.queue_name == queue)
    && leb r.start_after now
    && is_null r.started_at
    && not (has locked r.id)

abbrev earlier : Row → Option Row → Row
earlier r none = r
earlier r (some s) = if leb r.start_after s.start_after then r else s

-- `order by start_after limit 1`
unfoldable pub first_by_start : (Row → Bool) → List Row → Option Row
first_by_start test [] = none
first_by_start test (r ∷ rows) =
    let rest = first_by_start test rows in if test r then some (earlier r rest) else rest

-- The select of `getAndClaimJob`.
unfoldable pub get_job : Text → ℕ → List Text → List Row → Option Row
unfolding is_claimable first_by_start
get_job queue now locked rows = first_by_start (is_claimable queue now locked) rows

-- The update of `getAndClaimJob` and that of `startWork`, which are committed together.
unfoldable pub complete : Text → ℕ → ℕ → ℕ → Option Text → Option Text → List Row → List Row
unfolding update_rows
complete j started now retain_until result commit_error rows =
    update_rows j
      (λ r. record r {
        started_at = some started;
        result = result;
        completed_at = some now;
        retain_until = some retain_until;
        commit_error = commit_error;
      })
      rows

-- `retain_until <= $1`, which is not true of null.
unfoldable pub is_expired : ℕ → List Text → Row → Bool
is_expired now locked r = elim r.retain_until [
  | none ↦ false
  | some t ↦ leb t now && not (has locked r.id)
]

unfoldable pub delete_rows : ℕ → (Row → Bool) → List Row → List Row
delete_rows limit test [] = []
delete_rows zero test (r ∷ rows) = r ∷ rows
delete_rows (suc limit) test (r ∷ rows) =
    let kept = r ∷ delete_rows (suc limit) test rows in
    let gone = delete_rows limit test rows in if test r then gone else kept

-- One round of `cleaner`: 1000 rows at most.
unfoldable pub clean : ℕ → List Text → List Row → List Row
unfolding is_expired delete_rows
clean now locked rows = delete_rows 1000 (is_expired now locked) rows
