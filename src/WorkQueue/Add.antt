-- ===== src/WorkQueue/Add.antt =====
-- `Queue.Add` and `Queue.AddOpt`, as the one transaction that commits them. `uuid` and `msg` are
-- what `uuid.NewRandom` and `json.Marshal` give; `none` is an error, which changes nothing.
pub mod Cases
pub mod Laws
use gobase.Base.{
  ℕ, Bool, true, false, not, ◌&&◌, List, [], ◌∷◌, Option, none, some, if◌then◌else◌, ◌==◌, ◌>>=◌,
  list_comparable, nat_comparable,
}
use gobase.Base.Text.{Text, is_empty}
use gobase.WorkQueue.Table.{Row, is_null, has, update_rows, insert_row}

pub record AddOption : Type 0 where
  -- `none` is the zero time.
  pub start_after : Option ℕ
  pub debounce_key : Text
  pub keep_original_start : Bool
  pub debounce_merge : Option (Text → Text → Option Text)
  pub usr : Option ℕ
  pub company : Option ℕ

-- `Add`.
abbrev pub no_option : AddOption
no_option = record {
  start_after = none;
  debounce_key = [];
  keep_original_start = true;
  debounce_merge = none;
  usr = none;
  company = none;
}

unfoldable pub new_row : Text → Text → Text → ℕ → ℕ → AddOption → Row
new_row queue id msg now start opts = record {
  id = id;
  queue_name = queue;
  debounce_key = opts.debounce_key;
  job_arg = msg;
  result = none;
  created_at = now;
  start_after = start;
  started_at = none;
  completed_at = none;
  retain_until = none;
  commit_error = none;
  usr = opts.usr;
  company = opts.company;
}

unfoldable pub is_debounced : Text → Text → List Text → Row → Bool
is_debounced queue key locked r =
    (r.queue_name == queue)
    && (r.debounce_key == key)
    && is_null r.started_at
    && not (has locked r.id)

-- `limit 1` without an order.
unfoldable pub first_where : (Row → Bool) → List Row → Option Row
first_where test [] = none
first_where test (r ∷ rows) = if test r then some r else first_where test rows

-- The query `existing`.
unfoldable pub existing : Text → Text → List Text → List Row → Option Row
unfolding is_debounced first_where
existing queue key locked rows = first_where (is_debounced queue key locked) rows

unfoldable pub reuse : Text → ℕ → Row → Row
reuse arg start r = record r { job_arg = arg; start_after = start }

-- The query `new`, or the plain insert.
insert_new : Row → List Row → Option (Text × List Row)
insert_new r rows = insert_row r rows >>= λ rows'. some (r.id, rows')

-- The branch of `debounceMerge`.
add_merged :
    (Text → Text → Option Text)
    → Bool
    → Text
    → ℕ
    → Row
    → List Row
    → Option Row
    → Option (Text × List Row)
unfolding insert_new
add_merged merge keep msg start new rows none = insert_new new rows
add_merged merge keep msg start new rows (some r) = merge r.job_arg msg >>= λ merged.
    some (r.id, update_rows r.id (reuse merged (if keep then r.start_after else start)) rows)

add_debounced : Bool → Text → ℕ → Row → List Row → Option Row → Option (Text × List Row)
unfolding insert_new
add_debounced keep msg start new rows none = insert_new new rows
add_debounced keep msg start new rows (some r) =
    some (r.id, (if keep then rows else update_rows r.id (reuse msg start) rows))

-- `add` from the debounce on.
add_message : Text → AddOption → ℕ → Text → Text → List Text → List Row → Option (Text × List Row)
unfolding insert_new add_merged add_debounced existing
add_message queue opts now id msg locked rows =
    let start : ℕ = elim opts.start_after [ none ↦ now | some t ↦ t ] in
    let new = new_row queue id msg now start opts in
    let found = existing queue opts.debounce_key locked rows in
    if is_empty opts.debounce_key then insert_new new rows else elim opts.debounce_merge [
      | none ↦ add_debounced opts.keep_original_start msg start new rows found
      | some merge ↦ add_merged merge opts.keep_original_start msg start new rows found
    ]

unfoldable pub add :
    Text
    → AddOption
    → ℕ
    → Option Text
    → Option Text
    → List Text
    → List Row
    → Option (Text × List Row)
unfolding add_message
add queue opts now uuid msg locked rows =
    msg >>= λ m. uuid >>= λ id. add_message queue opts now id m locked rows
