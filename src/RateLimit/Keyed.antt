-- ===== src/RateLimit/Keyed.antt =====
-- Package ratelimit, the KeyedLimiter: one bucket for each key, filled when it is read
-- (ratelimit/keyed.go). The operations of float64 are the parameter `Tokens`; a time is its
-- nanoseconds. The lock makes each operation one step, so an interleaving is a sequence of calls.
pub mod Keys
use gobase.Base.{
  ℕ, zero, suc, ◌+◌, ◌-◌, ◌*◌, ◌/◌, ◌%◌, ◌^◌, ◌≤◌, ◌<◌, min, max, ◌≡◌, refl, sym, ap, ◌∙◌, subst,
  fun_ext, ◌≢◌, ◌↔◌, ◌⊎◌, inl, inr, Bool, true, false, not, ◌&&◌, ◌||◌, Option, none, some, List,
  [], ◌∷◌, ◌++◌, map, append_assoc, append-nil, arith, ltb, leb, eqb, if◌then◌else◌, ltb→lt, lt→ltb,
  leb→le, le→leb, eqb_iff, Bool-cases, Option-cases, ◌>>=◌, length, get_elem?, set, length-append,
  take, drop, replicate, take-append-drop, length-take, length-drop, length-map, length-reverse,
  get_elem?-reverse, get_or-get_elem?, Comparable, ◌==◌, ==_iff, ==-refl, ==-comm, nat_comparable,
  bool_comparable, list_comparable, count, count-append, IsUnique, All, All-append, keep,
  keep-append, count-keep,
}
use gobase.Base.GoMap.{GoMap, lookup, insert}
use gobase.Base.Text.{Text}

pub record Tokens : Type 1 where
  pub Float : Type 0
  -- `float64(k.count)`, and `elapsed.Seconds() / k.interval.Seconds() * float64(k.count)`.
  pub full : Float
  pub added : ℕ → Float
  -- `math.Min`, `+`, `>= 1`, `- 1`.
  pub min_float : Float → Float → Float
  pub plus : Float → Float → Float
  pub at_least_one : Float → Bool
  pub minus_one : Float → Float

module _ (float : Tokens) where
  open float use {Float, full, added, min_float, plus, at_least_one, minus_one}

  pub record Bucket : Type 0 where
    pub tokens : Float
    pub last_fill : ℕ
    pub last_seen : ℕ

  abbrev pub Buckets : Type 0
  Buckets = GoMap Text Bucket

  -- `k.buckets[key]`, made full on first use.
  unfoldable pub bucket_of : Option Bucket → ℕ → Bucket
  bucket_of none now = record { tokens = full; last_fill = now; last_seen = 0 }
  bucket_of (some b) now = b

  -- `if elapsed := now.Sub(b.lastFill); elapsed > 0`.
  unfoldable pub top_up : ℕ → Bucket → Bucket
  top_up now b =
      if ltb b.last_fill now
      then record b {
        tokens = min_float full (plus b.tokens (added (now - b.last_fill)));
        last_fill = now;
      }
      else b

  unfoldable pub refill : Text → ℕ → Buckets → Bucket
  unfolding bucket_of top_up
  refill key now buckets = record (top_up now (bucket_of (lookup key buckets) now)) {
    last_seen = now;
  }

  -- `Take`: the buckets after it, and whether it returned nil.
  unfoldable pub take_key : Text → ℕ → Buckets → Buckets × Bool
  unfolding refill
  take_key key now buckets =
      let b = refill key now buckets in
      if at_least_one b.tokens
      then (insert key (record b { tokens = minus_one b.tokens }) buckets, true)
      else (insert key b buckets, false)

  -- `IsLimited`, likewise.
  unfoldable pub is_limited : Text → ℕ → Buckets → Buckets × Bool
  unfolding refill
  is_limited key now buckets =
      let b = refill key now buckets in
      if at_least_one b.tokens then (insert key b buckets, true) else (insert key b buckets, false)

  -- The janitor's `ttl`, and one sweep of it.
  unfoldable pub ttl_for : ℕ → ℕ
  ttl_for interval = if ltb interval 60000000000 then 60000000000 else interval

  unfoldable pub sweep : ℕ → ℕ → Buckets → Buckets
  sweep ttl now [] = []
  sweep ttl now ((key, b) ∷ rest) =
      let kept = sweep ttl now rest in if ltb ttl (now - b.last_seen) then kept else (key, b) ∷ kept
