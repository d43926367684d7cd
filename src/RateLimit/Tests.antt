-- ===== src/RateLimit/Tests.antt =====
-- Runs of package ratelimit, and its theorems at concrete inputs.
use gobase.Base.{
  ℕ, suc, ◌+◌, ◌-◌, ◌*◌, ◌/◌, ◌≤◌, ◌≡◌, refl, true, false, List, [], ◌∷◌, arith, leb, if◌then◌else◌,
  replicate, nat_comparable, bool_comparable, list_comparable,
}
use gobase.Base.GoMap.{insert}
use gobase.Base.Text.{codes}
use gobase.RateLimit.{
  Limiter, Event, send, tick, leave, take_token, give_up, probe, put_back, stop, new, run, grants,
  ticks,
}
use gobase.RateLimit.Bounds.{grants_bound, round-grants}
use gobase.RateLimit.Keyed.{Tokens, Buckets, take_key, sweep, refill}

-- Two tokens a round; a call between the sends, and a question over a tick.
abbrev trace : List Event
trace =
    send ∷ take_token ∷ send ∷ probe ∷ tick ∷ send ∷ send ∷ put_back ∷ take_token ∷ take_token
    ∷ take_token ∷ stop ∷ leave ∷ []

granted_three : grants 2 trace (new 2) ≡ 3
unfolding grants new gobase.RateLimit.step
granted_three = refl

grants_bound_example : grants 2 trace (new 2) + (run 2 trace (new 2)).bucket ≤ 2 * suc (ticks trace)
grants_bound_example = grants_bound 2 trace

abbrev waiting : Limiter
waiting = record { bucket = 1; sends_left = 0; probing = 0; is_stopped = false; is_over = false }

round-grants_example :
    grants 2 (replicate 2 take_token) (run 2 (tick ∷ replicate 2 send) waiting) ≡ 2
round-grants_example = round-grants 2 waiting (omega arith) refl refl

-- Whole tokens: two at most, one for each second.
abbrev whole : Tokens
whole = record {
  Float = ℕ;
  full = 2;
  added = λ elapsed. elapsed / 1000000000;
  min_float = λ a b. if leb a b then a else b;
  plus = λ a b. a + b;
  at_least_one = λ a. leb 1 a;
  minus_one = λ a. a - 1;
}

abbrev spent : Buckets whole
spent = insert (codes "a") (record { tokens = 0; last_fill = 100; last_seen = 100 }) []

refuses : (take_key whole (codes "a") 200 spent).1 ≡ false
unfolding take_key refill
refuses = refl

refills : (take_key whole (codes "a") 1000000200 spent).1 ≡ true
unfolding take_key refill
refills = refl

evicts : sweep whole 60000000000 60000000101 spent ≡ []
unfolding sweep
evicts = refl
