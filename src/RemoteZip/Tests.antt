-- ===== src/RemoteZip/Tests.antt =====
-- Runs of package remotezip, and its theorems at concrete inputs.
use gobase.Base.{
  ℕ, ◌≡◌, refl, Option, none, some, List, [], ◌∷◌, ◌++◌, arith, eqb, if◌then◌else◌, nat_comparable,
  bool_comparable, list_comparable, All,
}
use gobase.Base.Int.{pos}
use gobase.Base.Text.{Text, split}
use gobase.RemoteZip.Names.{sanitize_zip_name}
use gobase.RemoteZip.Names.Safe.{IsSafe, sanitize_zip_name-IsSafe, sanitize_zip_name-join}
use gobase.RemoteZip.Entries.{
  add_file, Error, over_cap, outside, Caps, Entry, Zip, Add, new_zip, add_all,
}
use gobase.RemoteZip.Entries.Copies.{entries_for, IsCapped}
use gobase.RemoteZip.Entries.Exact.{add_all_exact}
use gobase.RemoteZip.Worker.{Attempt, DownloadItem, work_item, work}
use gobase.RemoteZip.Worker.Retries.{landed, work_exact, work_item_lost}
use gobase.RemoteZip.Run.{Choice, sent, received, feed}

-- "../a/./b\c" becomes "a/b/c".
abbrev climbing : Text
climbing = 46 ∷ 46 ∷ 47 ∷ 97 ∷ 47 ∷ 46 ∷ 47 ∷ 98 ∷ 92 ∷ 99 ∷ []

abbrev plain : Text
plain = 97 ∷ 47 ∷ 98 ∷ 47 ∷ 99 ∷ []

climbing_run : sanitize_zip_name climbing ≡ some plain
unfolding sanitize_zip_name
climbing_run = refl

root_run : sanitize_zip_name (46 ∷ 46 ∷ []) ≡ none
unfolding sanitize_zip_name
root_run = refl

sanitize_zip_name-IsSafe_example : All IsSafe (split plain 47)
sanitize_zip_name-IsSafe_example = sanitize_zip_name-IsSafe climbing plain climbing_run

plain-IsSafe : All IsSafe ((97 ∷ []) ∷ (98 ∷ []) ∷ (99 ∷ []) ∷ [])
plain-IsSafe = (
  (refl, refl, refl, (ground arith, tt), (ground arith, tt)),
  (
    (refl, refl, refl, (ground arith, tt), (ground arith, tt)),
    ((refl, refl, refl, (ground arith, tt), (ground arith, tt)), tt),
  ),
)

sanitize_zip_name-join_example : sanitize_zip_name plain ≡ some plain
sanitize_zip_name-join_example =
    sanitize_zip_name-join (97 ∷ []) ((98 ∷ []) ∷ (99 ∷ []) ∷ []) plain-IsSafe

abbrev caps : Caps
caps = record { max_file_size = pos 100; max_total_size = pos 150 }

abbrev add_ten : Add
add_ten = record {
  name = climbing;
  source = record { size = 10; error = none };
  setup = none;
  create = none;
}

abbrev add_large : Add
add_large = record add_ten { source = record { size = 101; error = none } }

fine_run : (add_all caps (add_ten ∷ []) new_zip).err ≡ none
unfolding add_all sanitize_zip_name
fine_run = refl

large_run : (add_all caps (add_large ∷ []) new_zip).err ≡ some over_cap
unfolding add_all sanitize_zip_name
large_run = refl

new_zip-IsCapped : IsCapped caps new_zip
new_zip-IsCapped = record { sums = refl; total = omega arith; files = tt }

add_all_exact_example :
    ((entries : List Entry) × (entries_for (add_ten ∷ []) ≡ some entries)
      × ((add_all caps (add_ten ∷ []) new_zip).entries ≡ [] ++ entries))
    × IsCapped caps (add_all caps (add_ten ∷ []) new_zip)
add_all_exact_example =
    add_all_exact caps (omega arith) (omega arith) (add_ten ∷ []) new_zip new_zip-IsCapped fine_run

abbrev failed_zip : Zip
failed_zip = record new_zip { err = some over_cap }

abbrev good_attempt : Attempt
good_attempt = record {
  prepare = none;
  download = none;
  rewind = none;
  reset = none;
  source = record { size = 10; error = none };
  setup = none;
  create = none;
}

abbrev bad_attempt : Attempt
bad_attempt = record good_attempt { download = some (outside (53 ∷ [])) }

abbrev second_time : DownloadItem
second_time = record {
  name = climbing;
  attempts = λ i. if eqb i 0 then bad_attempt else good_attempt;
}

abbrev never : DownloadItem
never = record { name = plain; attempts = λ i. bad_attempt }

returned_run : (work caps (second_time ∷ never ∷ []) new_zip).1 ≡ none
unfolding work sanitize_zip_name add_file
returned_run = refl

worked_run : (work caps (second_time ∷ never ∷ []) new_zip).0.err ≡ none
unfolding work sanitize_zip_name add_file
worked_run = refl

work_exact_example :
    ((entries : List Entry) × (entries_for (landed (second_time ∷ never ∷ [])) ≡ some entries)
      × ((work caps (second_time ∷ never ∷ []) new_zip).0.entries ≡ [] ++ entries))
    × IsCapped caps (work caps (second_time ∷ never ∷ []) new_zip).0
work_exact_example =
    work_exact caps (second_time ∷ never ∷ []) new_zip (omega arith) (omega arith) new_zip-IsCapped
      returned_run worked_run

work_item_lost_example : work_item caps never new_zip ≡ (new_zip, none)
work_item_lost_example =
    work_item_lost caps never new_zip (outside (53 ∷ [])) (outside (53 ∷ [])) refl refl refl refl

abbrev offered : List (ℕ × Choice × Option Error)
offered = (7, sent, none) ∷ (8, received none, none) ∷ (9, sent, none) ∷ []

offered_run : (feed 0 offered).1 ≡ none
unfolding feed
offered_run = refl
