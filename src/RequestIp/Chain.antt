-- ===== src/RequestIp/Chain.antt =====
-- The chain of addresses: what each header part adds, and where the walk stops.
use gobase.Base.{
  ℕ, zero, suc, ◌+◌, ◌-◌, ◌≤◌, ◌≡◌, refl, sym, inl, inr, true, false, not, ◌||◌, Option, none, some,
  List, [], ◌∷◌, ◌++◌, append_assoc, append-nil, arith, if◌then◌else◌, Bool-cases, length,
  length-append, get_or, get_or-append_right, get_or-append_left, All-get_or, nat_comparable,
  bool_comparable, list_comparable, count, All, All-append,
}
use gobase.Base.Text.{Text, is_empty, split, split_at}
use gobase.Base.Int.{pos}
use gobase.RequestIp.{
  NetPackage, Request, Config, is_parsed, host_only, collect, parse_forwarded, is_trusted, walk,
  in_nets, by_hops, no_nets, client_ip,
}

from_right :
    (xs ys : List Text) (z : Text) (n : ℕ)
    → suc n ≤ length ys
    → get_or ((xs ++ ys) ++ z ∷ []) (length ((xs ++ ys) ++ z ∷ []) - 1 - suc n) []
      ≡ get_or ys (length ys - suc n) []
from_right xs ys z n le =
    let at : length (xs ++ (ys ++ z ∷ [])) - 1 - suc n ≡ length xs + (length ys - suc n) =
      omega (arith, length-append xs (ys ++ z ∷ []), length-append ys (z ∷ [])) in
    rw
      (
        append_assoc xs ys (z ∷ []),
        at,
        get_or-append_right xs (ys ++ z ∷ []) (length ys - suc n) [],
        get_or-append_left ys (z ∷ []) (length ys - suc n) [] (omega arith),
      )
      refl

at_middle :
    (before : List Text) (client : Text) (proxies : List Text)
    → get_or (before ++ client ∷ proxies) (length before) [] ≡ client
at_middle [] client proxies = refl
at_middle (b ∷ before) client proxies = at_middle before client proxies

in_tail :
    (before : List Text) (client : Text) (proxies : List Text) (m : ℕ)
    → get_or (before ++ client ∷ proxies) (suc (length before) + m) [] ≡ get_or proxies m []
in_tail [] client proxies m = let e : suc zero + m ≡ suc m = omega arith in rw e refl
in_tail (b ∷ before) client proxies m =
    let e : suc (suc (length before)) + m ≡ suc (suc (length before) + m) = omega arith in
    rw e (in_tail before client proxies m)

module _ (net : NetPackage) where
  open net use {IpNet, parse_ip}

  -- The addresses that one header value holds, left to right.
  unfoldable pub addresses : Text → List Text
  unfolding collect
  addresses text = collect net (split text b',') []

  collect-append : (parts out : List Text) → collect net parts out ≡ out ++ collect net parts []
  unfolding collect
  collect-append [] out = sym (append-nil out)
  collect-append (part ∷ rest) out = ground (
    arith,
    collect-append rest out,
    collect-append rest (out ++ host_only net part ∷ []),
    collect-append rest (host_only net part ∷ []),
    append_assoc out (host_only net part ∷ []) (collect net rest []),
  )

  collect_both :
      (xs ys out : List Text) → collect net (xs ++ ys) out ≡ collect net xs out ++ collect net ys []
  unfolding collect
  collect_both [] ys out = collect-append ys out
  collect_both (x ∷ xs) ys out = collect_both xs ys _

  collect-parts : (a b : List Text) → collect net (a ++ b) [] ≡ collect net a [] ++ collect net b []
  collect-parts a b = collect_both a b []

  pub addresses-append : (a b : Text) → addresses (a ++ b',' ∷ b) ≡ addresses a ++ addresses b
  unfolding addresses
  addresses-append a b = rw (split_at a b b',') (collect-parts (split a b',') (split b b','))

  IsAddress : Text → Type 0
  IsAddress host = is_parsed net (parse_ip host) ≡ true

  collect-IsAddress :
      (parts out : List Text) → All IsAddress out → All IsAddress (collect net parts out)
  unfolding collect IsAddress
  collect-IsAddress [] out h = h
  collect-IsAddress (part ∷ rest) out h = collect-IsAddress rest _ (kept part)
    where
      kept :
          (p : Text)
          → All IsAddress (
              if is_empty (host_only net p) || not (is_parsed net (parse_ip (host_only net p)))
              then out
              else out ++ host_only net p ∷ [])
      kept p = elim (Bool-cases (is_parsed net (parse_ip (host_only net p)))) [
        | inl ok ↦ elim (Bool-cases (is_empty (host_only net p))) [
          | inl empty ↦ rw empty h
          | inr some_host ↦ rw (some_host, ok) (All-append IsAddress out _ h (ok, tt))
        ]
        | inr bad ↦ elim (Bool-cases (is_empty (host_only net p))) [
          | inl empty ↦ rw empty h
          | inr some_host ↦ rw (some_host, bad) h
        ]
      ]

  pub parse_forwarded-IsAddress :
      (r : Request) → All (λ h. is_parsed net (parse_ip h) ≡ true) (parse_forwarded net r)
  unfolding parse_forwarded IsAddress
  parse_forwarded-IsAddress r =
      collect-IsAddress
        (split (if is_empty r.forwarded_for then r.real_ip else r.forwarded_for) b',') [] tt

  parse_forwarded-addresses :
      (r : Request) (a b : Text)
      → r.forwarded_for ≡ a ++ b',' ∷ b
      → parse_forwarded net r ≡ addresses a ++ addresses b
  unfolding parse_forwarded
  parse_forwarded-addresses r a b e = rw (e, given a) (unfold addresses in addresses-append a b)
    where
      given : (a : Text) → is_empty (a ++ b',' ∷ b) ≡ false
      given [] = refl
      given (c ∷ a) = refl

  -- With `n + 1` trusted hops the client is the address `n + 1` places from the right of
  -- X-Forwarded-For, when what the proxies appended behind a comma holds that many: what stands
  -- left of that comma, which a client can make up, does not change it.
  pub client_ip_hops :
      (c : Config net) (r : Request) (n : ℕ) (made_up appended : Text)
      → c.use_hops ≡ true
      → c.trust_hops ≡ pos (suc n)
      → r.forwarded_for ≡ made_up ++ b',' ∷ appended
      → suc n ≤ length (addresses appended)
      → client_ip net c r ≡ get_or (addresses appended) (length (addresses appended) - suc n) []
  unfolding client_ip by_hops
  client_ip_hops c r n made_up appended hops count header enough =
      rw (hops, count, parse_forwarded-addresses r made_up appended header)
        (from_right (addresses made_up) (addresses appended) (host_only net r.remote_addr) n enough)

  -- The walk stops at the last address that no trusted network holds.
  walk-client :
      (nets : List IpNet) (before proxies : List Text) (client : Text) (m : ℕ)
      → is_trusted net nets client ≡ false
      → All (λ p. is_trusted net nets p ≡ true) proxies
      → m ≤ length proxies
      → walk net (suc (length before) + m) nets (before ++ client ∷ proxies) ≡ client
  unfolding walk
  walk-client nets before proxies client zero stop all le =
      let e : suc (length before) + 0 ≡ suc (length before) = omega arith in
      rw (e, at_middle before client proxies, stop) refl
  walk-client nets before proxies client (suc m) stop all le =
      let e : suc (length before) + suc m ≡ suc (suc (length before) + m) = omega arith in
      let at_m = All-get_or (λ p. is_trusted net nets p ≡ true) proxies m [] all le in
      let rest = walk-client nets before proxies client m stop all (omega arith) in
      rw (e, in_tail before client proxies m, at_m) rest

  is_trusted-nil : (remote : Text) → is_trusted net [] remote ≡ false
  unfolding is_trusted
  is_trusted-nil remote = go (parse_ip remote)
    where
      go : (o : Option net.Addr) → elim o [ none ↦ false | some ip ↦ in_nets net [] ip ] ≡ false
      go none = refl
      go (some ip) = unfold in_nets in refl

  nets-trusting :
      (nets : List IpNet) (remote : Text)
      → is_trusted net nets remote ≡ true
      → no_nets net nets ≡ false
  unfolding no_nets
  nets-trusting [] remote h = let e = is_trusted-nil remote in cc
  nets-trusting (n ∷ nets) remote h = refl

  -- Without a hop count, behind a direct peer of a trusted network: when the header's addresses
  -- are some, then one of no trusted network, then only ones of trusted networks, that one is the
  -- client. What stands left of it, which a client can make up, does not change it.
  pub client_ip-client :
      (c : Config net) (r : Request) (before proxies : List Text) (client : Text)
      → c.use_hops ≡ false
      → is_trusted net c.trusted_nets (host_only net r.remote_addr) ≡ true
      → parse_forwarded net r ≡ before ++ client ∷ proxies
      → is_trusted net c.trusted_nets client ≡ false
      → All (λ p. is_trusted net c.trusted_nets p ≡ true) proxies
      → client_ip net c r ≡ client
  unfolding client_ip
  client_ip-client c r before proxies client hops peer header stop all =
      rw (hops, peer, nets-trusting c.trusted_nets (host_only net r.remote_addr) peer, header)
        (rw (append_assoc before (client ∷ proxies) (host_only net r.remote_addr ∷ []))
          (through (host_only net r.remote_addr) peer))
    where
      through :
          (remote : Text)
          → is_trusted net c.trusted_nets remote ≡ true
          → walk net
              (length (before ++ client ∷ (proxies ++ remote ∷ [])))
              c.trusted_nets
              (before ++ client ∷ (proxies ++ remote ∷ []))
            ≡ client
      through remote trusted =
          let e : length (before ++ client ∷ (proxies ++ remote ∷ []))
              ≡ suc (length before) + length (proxies ++ remote ∷ []) =
            omega (arith, length-append before (client ∷ (proxies ++ remote ∷ []))) in
          rw e (
            walk-client c.trusted_nets before (proxies ++ remote ∷ []) client
              (length (proxies ++ remote ∷ [])) stop
              (All-append _ proxies (remote ∷ []) all (trusted, tt)) (omega arith))
