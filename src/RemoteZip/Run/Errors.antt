-- ===== src/RemoteZip/Run/Errors.antt =====
-- Which errors and which files `Run` leaves out.
use gobase.Base.{
  ℕ, suc, ◌≡◌, refl, ap, Bool, true, false, Option, none, some, List, [], ◌∷◌, if◌then◌else◌,
  nat_comparable, bool_comparable, list_comparable,
}
use gobase.RemoteZip.Entries.{Error, Zip, first_error}
use gobase.RemoteZip.Run.{
  Choice, sent, received, disk_error, and_then, feed, err_c, pull_errors, close_all, run_error,
}

abbrev pub is_sent : Choice → Bool
is_sent sent = true
is_sent (received e) = false

abbrev pub items_sent {ℓ} : {A : Type ℓ} → List (A × Choice × Option Error) → List A
items_sent [] = []
items_sent ((item, choice, disk) ∷ rest) =
    if is_sent choice then item ∷ items_sent rest else items_sent rest

-- When the loop ends without an error, the items that were handed to the workers are those at which
-- nothing was received; an item at which a worker's success was received is left out, silently.
pub feed_exact {ℓ} :
    {A : Type ℓ} (i : ℕ) (items : List (A × Choice × Option Error))
    → (feed i items).1 ≡ none
    → (feed i items).0 ≡ items_sent items
unfolding feed
feed_exact i [] h = refl
feed_exact i ((item, sent, disk) ∷ rest) h = go (disk_error i disk) h (feed_exact (suc i) rest)
  where
    go :
        (e : Option Error)
        → (and_then e (feed (suc i) rest)).1 ≡ none
        → ((feed (suc i) rest).1 ≡ none → (feed (suc i) rest).0 ≡ items_sent rest)
        → item ∷ (and_then e (feed (suc i) rest)).0 ≡ item ∷ items_sent rest
    go none h rest_is = ap (λ items. item ∷ items) (rest_is h)
    go (some e) h rest_is = cc
feed_exact i ((item, received (some e), disk) ∷ rest) h = cc
feed_exact i ((item, received none, disk) ∷ rest) h =
    go (disk_error i disk) h (feed_exact (suc i) rest)
  where
    go :
        (e : Option Error)
        → (and_then e (feed (suc i) rest)).1 ≡ none
        → ((feed (suc i) rest).1 ≡ none → (feed (suc i) rest).0 ≡ items_sent rest)
        → (and_then e (feed (suc i) rest)).0 ≡ items_sent rest
    go none h rest_is = rest_is h
    go (some e) h rest_is = cc

err_c_held :
    (held : Option Error) (results : List (Option Error)) → err_c (some held) results ≡ some held
unfolding err_c
err_c_held held [] = refl
err_c_held held (result ∷ results) = err_c_held held results

-- What `Run` returns is the error of the zip, or else of the loop, or else of the worker that ended
-- first, or else of a file operation: when the first worker to end has no error, those of the others
-- are lost.
pub run_error_exact :
    (loop_err first : Option Error) (results ops : List (Option Error)) (z : Zip)
    → run_error loop_err (first ∷ results) ops z
      ≡ first_error (first_error z.err (first_error loop_err first)) (close_all ops)
unfolding run_error pull_errors err_c
run_error_exact loop_err first results ops z = rw (err_c_held first results) refl
