-- ===== src/WorkQueue/Status.antt =====
-- `GetStatus`, `GetResult` and `getPredictedStart`. They read without a lock: the rows that open
-- transactions hold are seen as they were committed.
pub mod Tenants
pub mod Wake
use gobase.Base.{
  ℕ, suc, ◌+◌, Bool, true, false, not, ◌&&◌, List, [], ◌∷◌, Option, none, some, if◌then◌else◌, ltb,
  get_elem?, ◌==◌, ◌>>=◌, list_comparable, nat_comparable,
}
use gobase.Base.GoMap.{GoMap}
use gobase.Base.Text.{Text}
use gobase.WorkQueue.Table.{Row, is_null, has, find_row, first_by_start}
use gobase.WorkQueue.Watch.{WorkerInfo, at_limit}

pub record Status : Type 0 where
  pub id : Text
  pub position : ℕ
  pub created_at : ℕ
  pub started_at : Option ℕ
  pub completed_at : Option ℕ
  pub user : Option ℕ
  pub company : Option ℕ

-- `where queue_name = r.queue_name and started_at is null`, before a creation time.
abbrev pub is_ahead : Text → ℕ → Row → Bool
is_ahead queue created r =
    is_null r.started_at && (r.queue_name == queue) && ltb r.created_at created

-- `rank() over (order by created_at)` is one more than the rows that come before.
abbrev pub rows_ahead : Text → ℕ → List Row → ℕ
rows_ahead queue created [] = 0
rows_ahead queue created (r ∷ rows) =
    (if is_ahead queue created r then 1 else 0) + rows_ahead queue created rows

-- `coalesce(rnk.position, 0)`
unfoldable pub position : Row → List Row → ℕ
position r rows =
    if is_null r.started_at then suc (rows_ahead r.queue_name r.created_at rows) else 0

-- `($2::bigint is null or r.usr = $2::bigint)`
unfoldable pub is_in_scope : Option ℕ → Option ℕ → Bool
is_in_scope none value = true
is_in_scope (some wanted) none = false
is_in_scope (some wanted) (some n) = n == wanted

unfoldable pub find_scoped : Text → Option ℕ → Option ℕ → List Row → Option Row
unfolding find_row is_in_scope
find_scoped id user company rows = find_row id rows >>= λ r.
    if is_in_scope user r.usr && is_in_scope company r.company then some r else none

unfoldable pub get_status : Text → Option ℕ → Option ℕ → List Row → Option Status
unfolding find_scoped position
get_status id user company rows = find_scoped id user company rows >>= λ r. some (record {
  id = r.id;
  position = position r rows;
  created_at = r.created_at;
  started_at = r.started_at;
  completed_at = r.completed_at;
  user = r.usr;
  company = r.company;
})

-- The column, which may be null, of the row that is found.
unfoldable pub get_result : Text → Option ℕ → Option ℕ → List Row → Option (Option Text)
unfolding find_scoped
get_result id user company rows = find_scoped id user company rows >>= λ r. some r.result

-- A queue whose worker may take another job.
abbrev pub with_free : Text → Option WorkerInfo → List Text → List Text
with_free name none names = names
with_free name (some info) names = if at_limit info then names else name ∷ names

-- The loop that fills `validNames`.
unfoldable pub valid_names : GoMap Text ℕ → List WorkerInfo → List Text
valid_names [] infos = []
valid_names ((name, p) ∷ listening) infos =
    with_free name (get_elem? infos p) (valid_names listening infos)

unfoldable pub is_waiting : List Text → Row → Bool
is_waiting names r = is_null r.started_at && has names r.queue_name

-- The query, and no query when everyone is busy.
abbrev pub first_start : List Row → List Text → Option (ℕ × Text)
first_start rows [] = none
first_start rows (name ∷ names) =
    first_by_start (is_waiting (name ∷ names)) rows >>= λ r. some (r.start_after, r.queue_name)

-- The least of the queues' least times, and its queue.
unfoldable pub get_predicted_start : GoMap Text ℕ → List WorkerInfo → List Row → Option (ℕ × Text)
get_predicted_start listening infos rows = first_start rows (valid_names listening infos)
