-- ===== src/RateLimit/Bounds.antt =====
-- What the bucket bounds, in every interleaving.
use gobase.Base.{
  ℕ, zero, suc, ◌+◌, ◌-◌, ◌*◌, ◌≤◌, ◌≡◌, refl, true, false, List, [], ◌∷◌, arith, ltb, replicate,
  nat_comparable, bool_comparable, list_comparable,
}
use native.Mathlib.Nat.{mul-add}
use gobase.RateLimit.{
  Limiter, Event, send, tick, leave, take_token, give_up, probe, put_back, stop, new, offer, step,
  run, grants, ticks, is_granted, send_one, tick_one, leave_one, take_one, probe_one, put_back_one,
  stop_one, is_tick,
}

module _ (count : ℕ) where
  -- The tokens that a state holds or still owes.
  abbrev held : Limiter → ℕ
  held l = l.bucket + l.probing + l.sends_left

  step-held :
      (event : Event) (l : Limiter)
      → is_granted count (step count event l).1 + held (step count event l).0
        ≤ held l + count * is_tick event
  unfolding step send_one offer tick_one leave_one take_one probe_one put_back_one stop_one
      is_granted is_tick
  step-held send l = ground arith
  step-held tick l = ground arith
  step-held leave l = ground arith
  step-held take_token l = ground arith
  step-held give_up l = ground arith
  step-held probe l = ground arith
  step-held put_back l = ground arith
  step-held stop l = ground arith

  run-held :
      (events : List Event) (l : Limiter)
      → grants count events l + held (run count events l) ≤ held l + count * ticks events
  unfolding grants run ticks
  run-held [] l = omega arith
  run-held (event ∷ events) l =
      let this = step-held event l in
      let rest = run-held events (step count event l).0 in
      omega (arith, mul-add count (is_tick event) (ticks events))

  -- In every interleaving the calls of `Take`, `TakeContext` and `WaitTake` that are answered nil,
  -- together with the tokens still in the channel, are at most `count` for each round of sends: the
  -- first, and one for each tick. The nil answers of `IsLimited` are not counted.
  pub grants_bound :
      (events : List Event)
      → grants count events (new count) + (run count events (new count)).bucket
        ≤ count * suc (ticks events)
  unfolding new
  grants_bound events = let h = run-held events (new count) in ground arith

  step-bucket :
      (event : Event) (l : Limiter) → l.bucket ≤ count → (step count event l).0.bucket ≤ count
  unfolding step send_one offer tick_one leave_one take_one probe_one put_back_one stop_one
  step-bucket send l h = ground arith
  step-bucket tick l h = ground arith
  step-bucket leave l h = ground arith
  step-bucket take_token l h = ground arith
  step-bucket give_up l h = ground arith
  step-bucket probe l h = ground arith
  step-bucket put_back l h = ground arith
  step-bucket stop l h = ground arith

  -- In every interleaving the channel holds at most `count` values, if it did at the start.
  pub run-bucket :
      (events : List Event) (l : Limiter) → l.bucket ≤ count → (run count events l).bucket ≤ count
  unfolding run
  run-bucket [] l h = h
  run-bucket (event ∷ events) l h = run-bucket events (step count event l).0 (step-bucket event l h)

  sends-fill :
      (n : ℕ) (l : Limiter)
      → n ≤ l.sends_left
      → l.bucket ≤ count
      → count ≤ l.bucket + n
      → (run count (replicate n send) l).bucket ≡ count
  unfolding run step send_one offer
  sends-fill zero l left full enough = omega arith
  sends-fill (suc n) l left full enough =
      sends-fill n (send_one count l) (ground arith) (ground arith) (ground arith)

  takes-granted : (n : ℕ) (l : Limiter) → n ≤ l.bucket → grants count (replicate n take_token) l ≡ n
  unfolding grants step take_one is_granted
  takes-granted zero l h = refl
  takes-granted (suc n) l h =
      let some_token : ltb 0 l.bucket ≡ true = ground arith in
      let rest = takes-granted n (record l { bucket = l.bucket - 1 }) (omega arith) in
      rw (take_one, some_token) (omega (arith, rest))

  -- Once `start` waits and has not returned, with at most `count` tokens in the channel, a tick
  -- and its round of sends let `count` calls of `Take` in a row through.
  pub round-grants :
      (l : Limiter)
      → l.bucket ≤ count
      → l.sends_left ≡ 0
      → l.is_over ≡ false
      → grants count (replicate count take_token) (run count (tick ∷ replicate count send) l)
        ≡ count
  unfolding run step
  round-grants l full waits running =
      takes-granted count (run count (replicate count send) (tick_one count l))
        (omega (arith, filled))
    where
      ticked : ((tick_one count l).sends_left ≡ count) × ((tick_one count l).bucket ≡ l.bucket)
      ticked = unfold tick_one in ground arith

      filled : (run count (replicate count send) (tick_one count l)).bucket ≡ count
      filled =
          let (left, same) = ticked in
          sends-fill count (tick_one count l) (omega arith) (omega arith) (omega arith)
