-- ===== src/RemoteZip/Run.antt =====
-- `Run`: how the queued files are handed to the workers, and how the workers' errors are gathered.
-- What each `select` takes, the disk checks and the file operations are inputs.
pub mod Errors
use gobase.Base.{
  ℕ, zero, suc, ◌+◌, ◌%◌, Bool, true, false, not, ◌&&◌, List, [], ◌∷◌, Option, none, some,
  if◌then◌else◌, eqb,
}
use gobase.RemoteZip.Entries.{Error, Zip, first_error, init_internals}

-- The select of the loop: the item goes to a worker, or a worker's result is received from `errC`.
pub data Choice : Type 0 where
  sent : Choice
  received : Option Error → Choice

-- `i != 0 && i%10 == 0`
abbrev pub disk_error : ℕ → Option Error → Option Error
disk_error i disk = if not (eqb i 0) && eqb (i % 10) 0 then disk else none

-- The items that are sent, and `loopErr`. Each item comes with what is taken and what
-- `checkDiskSpace` would answer.
abbrev pub and_then {ℓ} :
    {A : Type ℓ} → Option Error → List A × Option Error → List A × Option Error
and_then none rest = rest
and_then (some e) rest = ([], some e)

abbrev pub sent_too {ℓ} : {A : Type ℓ} → A → List A × Option Error → List A × Option Error
sent_too item (items, e) = (item ∷ items, e)

unfoldable pub feed {ℓ} :
    {A : Type ℓ} → ℕ → List (A × Choice × Option Error) → List A × Option Error
feed i [] = ([], none)
feed i ((item, sent, disk) ∷ rest) =
    sent_too item (and_then (disk_error i disk) (feed (suc i) rest))
feed i ((item, received (some e), disk) ∷ rest) = ([], some e)
feed i ((item, received none, disk) ∷ rest) = and_then (disk_error i disk) (feed (suc i) rest)

-- What a worker does with its result: `errC` holds one, and a second one is dropped.
abbrev pub offer : Option (Option Error) → Option Error → Option (Option Error)
offer none result = some result
offer (some held) result = some held

unfoldable pub err_c : Option (Option Error) → List (Option Error) → Option (Option Error)
err_c held [] = held
err_c held (result ∷ results) = err_c (offer held result) results

abbrev pub pulled : Option (Option Error) → Option Error
pulled none = none
pulled (some result) = result

-- "pull errors out and expose via z.err"
unfoldable pub pull_errors : Option Error → Option (Option Error) → Zip → Zip
pull_errors loop_err held z = record z {
  err = first_error z.err (first_error loop_err (pulled held));
}

-- `setupForRun`, with the answers of the set-up and of `checkDiskSpace`.
abbrev pub checked : Option Error → Zip → Option Error → Zip
checked disk z none = record z { err = disk }
checked disk z (some e) = z

abbrev pub setup_unless : Option Error → Option Error → Zip → Option Error → Zip
setup_unless setup disk z none = let z' = init_internals setup z in checked disk z' z'.err
setup_unless setup disk z (some e) = z

unfoldable pub setup_for_run : Option Error → Option Error → Zip → Zip
setup_for_run setup disk z = setup_unless setup disk z z.err

-- What follows the workers: the first file operation that fails ends it.
unfoldable pub close_all : List (Option Error) → Option Error
close_all [] = none
close_all (op ∷ ops) = first_error op (close_all ops)

-- The error that `Run` returns, from the results of the workers in the order in which they end.
unfoldable pub run_error :
    Option Error → List (Option Error) → List (Option Error) → Zip → Option Error
unfolding pull_errors close_all err_c
run_error loop_err results ops z =
    first_error (pull_errors loop_err (err_c none results) z).err (close_all ops)
