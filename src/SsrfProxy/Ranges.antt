-- ===== src/SsrfProxy/Ranges.antt =====
-- Which IPv4 addresses are blocked, by the number that an address is.
use gobase.Base.{
  ℕ, ◌+◌, ◌*◌, ◌/◌, ◌^◌, ◌<◌, ◌≡◌, refl, ◌∙◌, Bool, true, false, not, ◌&&◌, ◌||◌, arith, ltb, leb,
  eqb, nat_comparable, bool_comparable, list_comparable,
}
use gobase.SsrfProxy.{v4, is_blocked_ip}

-- The 32 bits of an address.
abbrev pub number : ℕ → ℕ → ℕ → ℕ → ℕ
number a b c d = ((a * 256 + b) * 256 + c) * 256 + d

-- The block of `2 ^ bits` addresses from a.b.0.0 on.
abbrev pub is_within : ℕ → ℕ → ℕ → ℕ → Bool
is_within size a b n = leb (number a b 0 0) n && ltb n (number a b 0 0 + size)

-- 127.0.0.0/8, 10.0.0.0/8, 172.16.0.0/12, 192.168.0.0/16, 169.254.0.0/16, 224.0.0.0/4,
-- 100.64.0.0/10 and 0.0.0.0.
abbrev pub is_local_number : Bool → ℕ → Bool
is_local_number is_testing n =
    (is_within (2 ^ 24) 127 0 n && not is_testing)
    || is_within (2 ^ 24) 10 0 n
    || is_within (2 ^ 20) 172 16 n
    || is_within (2 ^ 16) 192 168 n
    || is_within (2 ^ 16) 169 254 n
    || is_within (2 ^ 28) 224 0 n
    || is_within (2 ^ 22) 100 64 n
    || eqb n 0

module _ (a b c d : ℕ) (ha : a < 256) (hb : b < 256) (hc : c < 256) (hd : d < 256) where
  loopback : eqb a 127 ≡ is_within (2 ^ 24) 127 0 (number a b c d)
  loopback = ground arith

  private_10 : eqb a 10 ≡ is_within (2 ^ 24) 10 0 (number a b c d)
  private_10 = ground arith

  private_172 : (eqb a 172 && eqb (b / 16) 1) ≡ is_within (2 ^ 20) 172 16 (number a b c d)
  private_172 = ground arith

  private_192 : (eqb a 192 && eqb b 168) ≡ is_within (2 ^ 16) 192 168 (number a b c d)
  private_192 = ground arith

  link_local : (eqb a 169 && eqb b 254) ≡ is_within (2 ^ 16) 169 254 (number a b c d)
  link_local = ground arith

  multicast : eqb (a / 16) 14 ≡ is_within (2 ^ 28) 224 0 (number a b c d)
  multicast = ground arith

  carrier_grade : (eqb a 100 && leb 64 b && leb b 127) ≡ is_within (2 ^ 22) 100 64 (number a b c d)
  carrier_grade = ground arith

  unspecified : (eqb a 0 && eqb b 0 && eqb c 0 && eqb d 0) ≡ eqb (number a b c d) 0
  unspecified = ground arith

  local_multicast : (eqb a 224 && eqb b 0 && eqb c 0) || eqb (a / 16) 14 ≡ eqb (a / 16) 14
  local_multicast = ground arith

regroup :
    (l p q r u lm m z g : Bool)
    → (lm || m) ≡ m
    → (l || (p || q || r) || u || lm || false || m || z || g)
      ≡ (l || p || q || r || u || m || g || z)
regroup true p q r u lm m z g h = refl
regroup false true q r u lm m z g h = refl
regroup false false true r u lm m z g h = refl
regroup false false false true u lm m z g h = refl
regroup false false false false true lm m z g h = refl
regroup false false false false false true true z g h = refl
regroup false false false false false true false z g h = cc
regroup false false false false false false true z g h = refl
regroup false false false false false false false true true h = refl
regroup false false false false false false false true false h = refl
regroup false false false false false false false false true h = refl
regroup false false false false false false false false false h = refl

alike :
    (t : Bool) {l l' p p' q q' r r' u u' m m' g g' z z' : Bool}
    → l ≡ l'
    → p ≡ p'
    → q ≡ q'
    → r ≡ r'
    → u ≡ u'
    → m ≡ m'
    → g ≡ g'
    → z ≡ z'
    → ((l && t) || p || q || r || u || m || g || z)
      ≡ ((l' && t) || p' || q' || r' || u' || m' || g' || z')
alike t a b c d e f g h = cc

-- An IPv4 address is blocked exactly when its number lies in 10.0.0.0/8, 172.16.0.0/12,
-- 192.168.0.0/16, 169.254.0.0/16, 224.0.0.0/4 or 100.64.0.0/10, is 0.0.0.0, or lies in 127.0.0.0/8
-- and no test is run.
pub is_blocked_ip_exact :
    (is_testing : Bool) (a b c d : ℕ)
    → a < 256
    → b < 256
    → c < 256
    → d < 256
    → is_blocked_ip is_testing (v4 a b c d) ≡ is_local_number is_testing (number a b c d)
unfolding is_blocked_ip
is_blocked_ip_exact is_testing a b c d ha hb hc hd =
    regroup (eqb a 127 && not is_testing) (eqb a 10) (eqb a 172 && eqb (b / 16) 1)
      (eqb a 192 && eqb b 168) (eqb a 169 && eqb b 254) (eqb a 224 && eqb b 0 && eqb c 0)
      (eqb (a / 16) 14) (eqb a 0 && eqb b 0 && eqb c 0 && eqb d 0)
      (eqb a 100 && leb 64 b && leb b 127) (local_multicast a b c d ha hb hc hd)
    ∙ alike (not is_testing) (loopback a b c d ha hb hc hd) (private_10 a b c d ha hb hc hd)
        (private_172 a b c d ha hb hc hd) (private_192 a b c d ha hb hc hd)
        (link_local a b c d ha hb hc hd) (multicast a b c d ha hb hc hd)
        (carrier_grade a b c d ha hb hc hd) (unspecified a b c d ha hb hc hd)
