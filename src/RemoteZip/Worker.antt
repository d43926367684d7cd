-- ===== src/RemoteZip/Worker.antt =====
-- `worker`: it takes queued files one by one, and tries each of them at most twice. What the file
-- system and the download answer is an input of each attempt.
pub mod Retries
use gobase.Base.{
  ℕ, zero, suc, ◌+◌, ◌-◌, Bool, true, false, List, [], ◌∷◌, Option, none, some, if◌then◌else◌, ltb,
  leb,
}
use gobase.Base.Text.{Text}
use gobase.RemoteZip.Entries.{Error, Source, Zip, Add, Caps, add_file}

pub record Attempt : Type 0 where
  -- `none`: the temporary file was truncated, or made anew.
  pub prepare : Option Error
  pub download : Option Error
  pub rewind : Option Error
  -- Of the file that is made anew after `rewind` failed.
  pub reset : Option Error
  pub source : Source
  pub setup : Option Error
  pub create : Option Error

pub record DownloadItem : Type 0 where
  pub name : Text
  pub attempts : ℕ → Attempt

abbrev pub max_attempt_ct : ℕ
max_attempt_ct = 2

-- Where the body of the loop over the attempts ends.
pub data Next : Type 0 where
  give_up : Error → Next
  again : Next
  done : Next

-- One attempt, the zip afterwards, and where the loop goes on.
abbrev pub after_add : ℕ → Zip → Option Error → Zip × Next
after_add i z none = (z, done)
after_add i z (some e) = (z, if leb max_attempt_ct i then give_up e else again)

abbrev pub after_rewind : Caps → Text → Attempt → ℕ → Zip → Option Error → Option Error → Zip × Next
after_rewind caps name a i z none reset =
    let z' =
      add_file caps (record { name = name; source = a.source; setup = a.setup; create = a.create })
        z in
    after_add i z' z'.err
after_rewind caps name a i z (some e) none = (z, if leb max_attempt_ct i then give_up e else again)
after_rewind caps name a i z (some e) (some e') =
    (z, if leb max_attempt_ct i then give_up e else give_up e')

abbrev pub after_download : Caps → Text → Attempt → ℕ → Zip → Option Error → Zip × Next
after_download caps name a i z none = after_rewind caps name a i z a.rewind a.reset
after_download caps name a i z (some e) = (z, if ltb i max_attempt_ct then again else give_up e)

abbrev pub after_prepare : Caps → Text → Attempt → ℕ → Zip → Option Error → Zip × Next
after_prepare caps name a i z none = after_download caps name a i z a.download
after_prepare caps name a i z (some e) = (z, give_up e)

unfoldable pub attempt : Caps → Text → Attempt → ℕ → Zip → Zip × Next
attempt caps name a i z = after_prepare caps name a i z a.prepare

-- The zip, and the error that the worker returns, if it does.
abbrev pub after_attempt : (Zip → Zip × Option Error) → Zip × Next → Zip × Option Error
after_attempt rest (z, give_up e) = (z, some e)
after_attempt rest (z, again) = rest z
after_attempt rest (z, done) = (z, none)

unfoldable pub retry_loop : ℕ → Caps → DownloadItem → ℕ → Zip → Zip × Option Error
unfolding attempt
retry_loop zero caps item i z = (z, none)
retry_loop (suc fuel) caps item i z =
    after_attempt (retry_loop fuel caps item (i + 1)) (attempt caps item.name (item.attempts i) i z)

-- From `retryDownloadIndex := 0` to `maxAttemptCt`.
unfoldable pub work_item : Caps → DownloadItem → Zip → Zip × Option Error
unfolding retry_loop
work_item caps item z = retry_loop max_attempt_ct caps item 0 z

abbrev pub unless_failed : (Zip → Zip × Option Error) → Zip × Option Error → Zip × Option Error
unless_failed rest (z, some e) = (z, some e)
unless_failed rest (z, none) = rest z

-- The files that the worker takes, until the queue is closed and empty or it returns an error.
unfoldable pub work : Caps → List DownloadItem → Zip → Zip × Option Error
unfolding work_item
work caps [] z = (z, none)
work caps (item ∷ items) z = unless_failed (work caps items) (work_item caps item z)
