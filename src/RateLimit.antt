-- ===== src/RateLimit.antt =====
-- Package ratelimit, the Limiter: a bucket of tokens in a buffered channel (ratelimit/main.go).
-- One event is one channel operation of one goroutine, so a list of events is an interleaving of
-- `start`, any number of callers and `Stop`.
pub mod Bounds
pub mod Keyed
mod Tests
use gobase.Base.{
  ℕ, zero, suc, ◌+◌, ◌-◌, ◌*◌, ◌/◌, ◌%◌, ◌^◌, ◌≤◌, ◌<◌, min, max, ◌≡◌, refl, sym, ap, ◌∙◌, subst,
  fun_ext, ◌≢◌, ◌↔◌, ◌⊎◌, inl, inr, Bool, true, false, not, ◌&&◌, ◌||◌, Option, none, some, List,
  [], ◌∷◌, ◌++◌, map, append_assoc, append-nil, arith, ltb, leb, eqb, if◌then◌else◌, ltb→lt, lt→ltb,
  leb→le, le→leb, eqb_iff, Bool-cases, Option-cases, ◌>>=◌, length, get_elem?, set, length-append,
  get_or, take, drop, replicate, take-append-drop, length-take, length-drop, length-map,
  length-reverse, get_elem?-reverse, get_or-get_elem?, Comparable, ◌==◌, ==_iff, ==-refl, ==-comm,
  nat_comparable, bool_comparable, list_comparable, count, count-append, IsUnique, All, All-append,
  keep, keep-append, count-keep,
}

pub record Limiter : Type 0 where
  -- How many values the channel `bucket` holds.
  pub bucket : ℕ
  -- The sends that `start` has still to do before it waits for the ticker.
  pub sends_left : ℕ
  -- The calls of `IsLimited` between their receive and their put-back.
  pub probing : ℕ
  -- `done` is closed; `start` has returned.
  pub is_stopped : Bool
  pub is_over : Bool

pub data Event : Type 0 where
  send : Event
  tick : Event
  leave : Event
  take_token : Event
  give_up : Event
  probe : Event
  put_back : Event
  stop : Event

-- What an event tells its caller: nothing, nil with a token taken, the nil of `IsLimited`, or an
-- error.
pub data Answer : Type 0 where
  no_answer : Answer
  granted : Answer
  not_limited : Answer
  limited : Answer

module _ (count : ℕ) where
  -- `New`: `start` begins with a round of sends.
  unfoldable pub new : Limiter
  new = record { bucket = 0; sends_left = count; probing = 0; is_stopped = false; is_over = false }

  -- `select { case l.bucket <- true: default: }`.
  unfoldable pub offer : Limiter → Limiter
  offer l = if ltb l.bucket count then record l { bucket = suc l.bucket } else l

  -- One iteration of the inner loop of `start`.
  unfoldable pub send_one : Limiter → Limiter
  unfolding offer
  send_one l = if eqb l.sends_left 0 then l else record (offer l) { sends_left = l.sends_left - 1 }

  -- `case <-l.tc.C`, then the head of the next round.
  unfoldable pub tick_one : Limiter → Limiter
  tick_one l = if l.is_over || not (eqb l.sends_left 0) then l else record l { sends_left = count }

  -- `case <-l.done`.
  unfoldable pub leave_one : Limiter → Limiter
  leave_one l = if l.is_stopped && eqb l.sends_left 0 then record l { is_over = true } else l

  -- `Take`; also the receive of `TakeContext` and `WaitTake`, which wait where it answers limited.
  unfoldable pub take_one : Limiter → Limiter × Answer
  take_one l =
      if ltb 0 l.bucket then (record l { bucket = l.bucket - 1 }, granted) else (l, limited)

  -- The receive of `IsLimited`, and its put-back, behind which it answers nil.
  unfoldable pub probe_one : Limiter → Limiter × Answer
  probe_one l =
      if ltb 0 l.bucket
      then (record l { bucket = l.bucket - 1; probing = suc l.probing }, no_answer)
      else (l, limited)

  unfoldable pub put_back_one : Limiter → Limiter × Answer
  unfolding offer
  put_back_one l =
      if eqb l.probing 0
      then (l, no_answer)
      else (record (offer l) { probing = l.probing - 1 }, not_limited)

  -- `Stop`, which `stopOnce` makes safe to repeat.
  unfoldable pub stop_one : Limiter → Limiter
  stop_one l = record l { is_stopped = true }

  unfoldable pub step : Event → Limiter → Limiter × Answer
  unfolding send_one tick_one leave_one take_one probe_one put_back_one stop_one
  step send l = (send_one l, no_answer)
  step tick l = (tick_one l, no_answer)
  step leave l = (leave_one l, no_answer)
  step take_token l = take_one l
  step give_up l = (l, limited)
  step probe l = probe_one l
  step put_back l = put_back_one l
  step stop l = (stop_one l, no_answer)

  unfoldable pub run : List Event → Limiter → Limiter
  unfolding step
  run [] l = l
  run (event ∷ events) l = run events (step event l).0

  is_granted : Answer → ℕ
  is_granted granted = 1
  is_granted not_limited = 0
  is_granted limited = 0
  is_granted no_answer = 0

  -- How many calls of `Take`, `TakeContext` and `WaitTake` were answered nil.
  unfoldable pub grants : List Event → Limiter → ℕ
  unfolding step is_granted
  grants [] l = 0
  grants (event ∷ events) l = is_granted (step event l).1 + grants events (step event l).0

is_tick : Event → ℕ
is_tick tick = 1
is_tick send = 0
is_tick leave = 0
is_tick take_token = 0
is_tick give_up = 0
is_tick probe = 0
is_tick put_back = 0
is_tick stop = 0

-- How many ticks `start` was offered.
unfoldable pub ticks : List Event → ℕ
unfolding is_tick
ticks [] = 0
ticks (event ∷ events) = is_tick event + ticks events
