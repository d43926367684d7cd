-- ===== src/SsrfProxy/Dials.antt =====
-- Whom the proxy connects to.
use gobase.Base.{
  ◌≡◌, refl, inl, inr, Bool, false, Option, none, some, List, [], ◌∷◌, Bool-cases, nat_comparable,
  bool_comparable, list_comparable, All,
}
use gobase.Base.Text.{Text}
use gobase.SsrfProxy.{
  Ip, NetPackage, Dialed, connected, failed, tried, find_blocked, dial_loop, dial_unless,
  dial_resolved, dial_host, dial_parts, safe_dial_context,
}

-- Every connection is to a tried address, and none of these is blocked.
abbrev pub IsAllowed : (Ip → Bool) → Dialed → Type 0
IsAllowed is_blocked (connected ip ips) =
    (is_blocked ip ≡ false) × All (λ i. is_blocked i ≡ false) ips
IsAllowed is_blocked (failed e ips) = All (λ i. is_blocked i ≡ false) ips

find_blocked-none :
    (is_blocked : Ip → Bool) (ips : List Ip)
    → find_blocked is_blocked ips ≡ none
    → All (λ i. is_blocked i ≡ false) ips
unfolding find_blocked
find_blocked-none is_blocked [] h = tt
find_blocked-none is_blocked (ip ∷ ips) h = elim (Bool-cases (is_blocked ip)) [
  | inl yes_it_is ↦ let e : some ip ≡ none = rw yes_it_is at h in cc
  | inr free ↦ (free, find_blocked-none is_blocked ips (rw free at h))
]

tried-IsAllowed :
    (is_blocked : Ip → Bool) (ip : Ip) (out : Dialed)
    → is_blocked ip ≡ false
    → IsAllowed is_blocked out
    → IsAllowed is_blocked (tried ip out)
tried-IsAllowed is_blocked ip (connected to ips) free (a, h) = (a, (free, h))
tried-IsAllowed is_blocked ip (failed e ips) free h = (free, h)

dial_loop-IsAllowed :
    (net : NetPackage) (is_blocked : Ip → Bool) (port : Text) (ips : List Ip)
    → All (λ i. is_blocked i ≡ false) ips
    → IsAllowed is_blocked (dial_loop net port ips)
unfolding dial_loop
dial_loop-IsAllowed net is_blocked port [] h = tt
dial_loop-IsAllowed net is_blocked port (ip ∷ ips) (free, h) =
    elim (Bool-cases (net.connects ip port)) [
      | inl made ↦ rw made (free, (free, tt))
      | inr missed ↦ rw missed (
          tried-IsAllowed is_blocked ip (dial_loop net port ips) free
            (dial_loop-IsAllowed net is_blocked port ips h))
    ]

dial_unless-IsAllowed :
    (net : NetPackage) (is_blocked : Ip → Bool) (port : Text) (ips : List Ip) (found : Option Ip)
    → find_blocked is_blocked ips ≡ found
    → IsAllowed is_blocked (dial_unless net port ips found)
dial_unless-IsAllowed net is_blocked port ips (some ip) e = tt
dial_unless-IsAllowed net is_blocked port ips none e =
    dial_loop-IsAllowed net is_blocked port ips (find_blocked-none is_blocked ips e)

dial_resolved-IsAllowed :
    (net : NetPackage) (is_blocked : Ip → Bool) (port : Text) (ips : Option (List Ip))
    → IsAllowed is_blocked (dial_resolved net is_blocked port ips)
dial_resolved-IsAllowed net is_blocked port none = tt
dial_resolved-IsAllowed net is_blocked port (some []) = tt
dial_resolved-IsAllowed net is_blocked port (some (ip ∷ ips)) =
    dial_unless-IsAllowed net is_blocked port (ip ∷ ips) (find_blocked is_blocked (ip ∷ ips)) refl

dial_host-IsAllowed :
    (net : NetPackage) (is_blocked : Ip → Bool) (host port : Text) (ip : Option Ip)
    → IsAllowed is_blocked (dial_host net is_blocked host port ip)
dial_host-IsAllowed net is_blocked host port none =
    dial_resolved-IsAllowed net is_blocked port (net.lookup_ip host)
dial_host-IsAllowed net is_blocked host port (some ip) = elim (Bool-cases (is_blocked ip)) [
  | inl refused ↦ rw refused tt
  | inr free ↦ elim (Bool-cases (net.connects ip port)) [
    | inl made ↦ rw (free, made) (free, (free, tt))
    | inr missed ↦ rw (free, missed) (free, tt)
  ]
]

-- For every address that a client asks for, and whatever the one resolution of its name answers, the
-- dialer returns a connection only to an address that is not blocked, and it does not even try to
-- connect to one that is.
pub safe_dial_context-IsAllowed :
    (net : NetPackage) (is_blocked : Ip → Bool) (addr : Text)
    → IsAllowed is_blocked (safe_dial_context net is_blocked addr)
unfolding safe_dial_context
safe_dial_context-IsAllowed net is_blocked addr = go (net.split_host_port addr)
  where
    go : (parts : Option (Text × Text)) → IsAllowed is_blocked (dial_parts net is_blocked parts)
    go none = tt
    go (some (host, port)) = dial_host-IsAllowed net is_blocked host port (net.parse_ip host)
