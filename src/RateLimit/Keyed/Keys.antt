-- ===== src/RateLimit/Keyed/Keys.antt =====
-- What one key learns of the calls for other keys, and of its own earlier questions.
use gobase.Base.{
  ℕ, ◌≡◌, refl, ap, ◌∙◌, inl, inr, false, some, arith, ltb, Bool-cases, ◌==◌, ==-refl,
  nat_comparable, bool_comparable, list_comparable,
}
use gobase.Base.GoMap.{lookup, insert, lookup-insert}
use gobase.Base.Text.{Text}
use gobase.RateLimit.Keyed.{
  Tokens, Bucket, Buckets, bucket_of, top_up, refill, take_key, is_limited,
}

module _ (float : Tokens) where
  open float use {at_least_one}

  take_key-answer :
      (key : Text) (now : ℕ) (buckets : Buckets float)
      → (take_key float key now buckets).1 ≡ at_least_one (refill float key now buckets).tokens
  unfolding take_key
  take_key-answer key now buckets = ground arith

  is_limited-answer :
      (key : Text) (now : ℕ) (buckets : Buckets float)
      → (is_limited float key now buckets).1 ≡ at_least_one (refill float key now buckets).tokens
  unfolding is_limited
  is_limited-answer key now buckets = ground arith

  is_limited-buckets :
      (key : Text) (now : ℕ) (buckets : Buckets float)
      → (is_limited float key now buckets).0 ≡ insert key (refill float key now buckets) buckets
  unfolding is_limited
  is_limited-buckets key now buckets = ground arith

  lookup-take_key :
      (key other : Text) (now : ℕ) (buckets : Buckets float)
      → (key == other) ≡ false
      → lookup other (take_key float key now buckets).0 ≡ lookup other buckets
  unfolding take_key
  lookup-take_key key other now buckets differ =
      elim (Bool-cases (at_least_one (refill float key now buckets).tokens)) [
        | inl some_token ↦ rw (some_token, lookup-insert, differ) refl
        | inr empty ↦ rw (empty, lookup-insert, differ) refl
      ]

  top_up-late : (now : ℕ) (b : Bucket float) → ltb b.last_fill now ≡ false → top_up float now b ≡ b
  unfolding top_up
  top_up-late now b late = rw late refl

  last_fill-top_up : (now : ℕ) (b : Bucket float) → ltb (top_up float now b).last_fill now ≡ false
  unfolding top_up
  last_fill-top_up now b = ground arith

  refill-again :
      (key : Text) (now : ℕ) (buckets : Buckets float)
      → refill float key now (insert key (refill float key now buckets) buckets)
        ≡ refill float key now buckets
  unfolding refill bucket_of
  refill-again key now buckets =
      let b = bucket_of float (lookup key buckets) now in
      let seen : Bucket float = record (top_up float now b) { last_seen = now } in
      let found : lookup key (insert key seen buckets) ≡ some seen =
        lookup-insert key key seen buckets ∙ rw (==-refl key) refl in
      ap {B = Bucket float}
        (λ o. record (top_up float now (bucket_of float o now)) { last_seen = now }) found
      ∙ ap {A = Bucket float} (λ d. record d { last_seen = now })
          (top_up-late now seen (last_fill-top_up now b))

  refill-others :
      (key : Text) (now : ℕ) (a b : Buckets float)
      → lookup key a ≡ lookup key b
      → refill float key now a ≡ refill float key now b
  unfolding refill
  refill-others key now a b same = rw same

  -- `IsLimited` consumes nothing: asked any number of times at one instant, it answers what the
  -- first call did, and `Take` then answers what it would have answered without the question.
  pub is_limited-take_key :
      (key : Text) (now : ℕ) (buckets : Buckets float)
      → let asked = is_limited float key now buckets in
        (asked.1 ≡ (take_key float key now buckets).1)
        × ((is_limited float key now asked.0).1 ≡ asked.1)
        × ((take_key float key now asked.0).1 ≡ asked.1)
  is_limited-take_key key now buckets =
      rw
        (
          is_limited-answer key now buckets,
          take_key-answer key now buckets,
          is_limited-buckets key now buckets,
          is_limited-answer key now (insert key (refill float key now buckets) buckets),
          take_key-answer key now (insert key (refill float key now buckets) buckets),
          refill-again key now buckets,
        )
        (refl, refl, refl)

  -- What is taken for one key leaves every answer for another key as it was.
  pub take_key-take_key :
      (key other : Text) (now later : ℕ) (buckets : Buckets float)
      → (key == other) ≡ false
      → ((take_key float other later (take_key float key now buckets).0).1
          ≡ (take_key float other later buckets).1)
        × ((is_limited float other later (take_key float key now buckets).0).1
            ≡ (is_limited float other later buckets).1)
  take_key-take_key key other now later buckets differ =
      let same =
        refill-others other later (take_key float key now buckets).0 buckets
          (lookup-take_key key other now buckets differ) in
      rw
        (
          take_key-answer other later buckets,
          is_limited-answer other later buckets,
          take_key-answer other later (take_key float key now buckets).0,
          is_limited-answer other later (take_key float key now buckets).0,
          same,
        )
        (refl, refl)
