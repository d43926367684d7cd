-- ===== src/RequestIp/Trust.antt =====
-- What a client can and cannot choose of its own address and rate-limit key.
use gobase.Base.{
  ℕ, zero, suc, ◌≤◌, ◌<◌, ◌≡◌, refl, subst, ◌≢◌, ◌⊎◌, inl, inr, Bool, true, false, not, ◌||◌,
  Option, none, some, List, [], ◌∷◌, ◌++◌, arith, if◌then◌else◌, Bool-cases, ◌>>=◌, length,
  length-append, get_or, nat_comparable, bool_comparable, list_comparable, All, All-get_or,
}
use gobase.Base.Text.{Text, is_empty}
use gobase.Base.Int.{ℤ, pos, negsuc}
use gobase.RequestIp.{
  NetPackage, Request, Config, Setting, no_proxies, trust_proxies, trust_proxy_hops, apply,
  apply_all, middleware, trust_entries, is_parsed, host_only, parse_forwarded, is_trusted, walk,
  by_hops, client_ip, no_nets, ip_of, key_from_request,
}
use gobase.RequestIp.Chain.{parse_forwarded-IsAddress}

module _ (net : NetPackage) where
  open net use {IpNet, parse_ip}

  -- The direct peer, or an address that `net.ParseIP` reads.
  abbrev pub IsPeerOr : Text → Text → Type 0
  IsPeerOr remote host = (host ≡ remote) ⊎ (is_parsed net (parse_ip host) ≡ true)

  chain-IsPeerOr :
      (remote : Text) (forwarded : List Text)
      → All (λ h. is_parsed net (parse_ip h) ≡ true) forwarded
      → All (IsPeerOr remote) (forwarded ++ remote ∷ [])
  chain-IsPeerOr remote [] all = (inl refl, tt)
  chain-IsPeerOr remote (h ∷ forwarded) (ok, all) = (inr ok, chain-IsPeerOr remote forwarded all)

  walk-IsPeerOr :
      (remote : Text) (nets : List IpNet) (chain : List Text) (m : ℕ)
      → All (IsPeerOr remote) chain
      → m ≤ length chain
      → 0 < length chain
      → IsPeerOr remote (walk net m nets chain)
  unfolding walk
  walk-IsPeerOr remote nets chain zero all le some_entry =
      All-get_or (IsPeerOr remote) chain 0 [] all some_entry
  walk-IsPeerOr remote nets chain (suc m) all le some_entry =
      elim (Bool-cases (is_trusted net nets (get_or chain m []))) [
        | inl on ↦ rw on (walk-IsPeerOr remote nets chain m all (omega arith) some_entry)
        | inr stop ↦ rw stop (All-get_or (IsPeerOr remote) chain m [] all le)
      ]

  by_hops-IsPeerOr :
      (hops : ℤ) (remote : Text) (forwarded : List Text)
      → All (IsPeerOr remote) (forwarded ++ remote ∷ [])
      → IsPeerOr remote (by_hops net hops remote forwarded)
  unfolding by_hops
  by_hops-IsPeerOr (negsuc n) remote forwarded all = inl refl
  by_hops-IsPeerOr (pos zero) remote forwarded all = inl refl
  by_hops-IsPeerOr (pos (suc n)) remote forwarded all =
      All-get_or (IsPeerOr remote) (forwarded ++ remote ∷ []) _ [] all
        (omega (arith, length-append forwarded (remote ∷ [])))

  -- Whatever the configuration and the headers, the client's address is the host of the direct
  -- peer or an address that `net.ParseIP` reads: no other header text comes back.
  pub client_ip-IsPeerOr :
      (c : Config net) (r : Request) → IsPeerOr (host_only net r.remote_addr) (client_ip net c r)
  unfolding client_ip
  client_ip-IsPeerOr c r =
      let all =
        chain-IsPeerOr (host_only net r.remote_addr) (parse_forwarded net r)
          (parse_forwarded-IsAddress net r) in
      elim (Bool-cases c.use_hops) [
        | inl on ↦ rw on (
            by_hops-IsPeerOr c.trust_hops (host_only net r.remote_addr) (parse_forwarded net r) all)
        | inr hops ↦
            elim (Bool-cases (
              no_nets net c.trusted_nets
              || not (is_trusted net c.trusted_nets (host_only net r.remote_addr)))) [
                | inl peer ↦ rw (hops, peer) (inl refl)
                | inr walks ↦
                    rw (hops, walks)
                      (walk-IsPeerOr (host_only net r.remote_addr) c.trusted_nets
                        (parse_forwarded net r ++ host_only net r.remote_addr ∷ []) _ all
                        (omega arith)
                        (omega (
                          arith,
                          length-append (parse_forwarded net r) (host_only net r.remote_addr ∷ []),
                        )))
              ]
      ]

  -- The settings that trust by network only.
  abbrev pub HasNoHops : List Setting → Type 0
  HasNoHops = All (λ o. (n : ℤ) → o ≢ trust_proxy_hops n)

  apply_all-hops :
      (opts : List Setting) (c d : Config net)
      → HasNoHops opts
      → c.use_hops ≡ false
      → apply_all net opts c ≡ some d
      → d.use_hops ≡ false
  unfolding apply_all apply
  apply_all-hops [] c d none_hops off h =
      subst (λ d. elim d [ none ↦ Unit | some d ↦ d.use_hops ≡ false ]) h off
  apply_all-hops (no_proxies ∷ opts) c d (o, none_hops) off h =
      apply_all-hops opts c d none_hops off h
  apply_all-hops (trust_proxies cidrs ∷ opts) c d (o, none_hops) off h =
      go (trust_entries net cidrs c.trusted_nets) h
        (λ nets. apply_all-hops opts (record c { trusted_nets = nets }) d none_hops off)
    where
      go :
          (built : Option (List IpNet))
          → ((built >>= λ nets. some (record c { trusted_nets = nets })) >>= apply_all net opts)
            ≡ some d
          → ((nets : List IpNet)
              → apply_all net opts (record c { trusted_nets = nets }) ≡ some d
              → d.use_hops ≡ false)
          → d.use_hops ≡ false
      go none e rest = cc
      go (some nets) e rest = rest nets e
  apply_all-hops (trust_proxy_hops n ∷ opts) c d (o, none_hops) off h = elim (o n refl) [ ]

  middleware-hops :
      (opt : Setting) (opts : List Setting) (c : Config net)
      → HasNoHops (opt ∷ opts)
      → middleware net opt opts ≡ some c
      → c.use_hops ≡ false
  unfolding middleware
  middleware-hops opt opts c none_hops built =
      apply_all-hops (opt ∷ opts)
        (record { trusted_nets = []; trust_hops = pos 0; use_hops = false }) c none_hops refl built

  -- With any settings but `TrustProxyHops`, in any order, a request whose direct peer is in none
  -- of the trusted networks is known by that peer's host, whatever its headers say.
  pub middleware-untrusted :
      (opt : Setting) (opts : List Setting) (c : Config net) (r : Request)
      → HasNoHops (opt ∷ opts)
      → middleware net opt opts ≡ some c
      → is_trusted net c.trusted_nets (host_only net r.remote_addr) ≡ false
      → client_ip net c r ≡ host_only net r.remote_addr
  unfolding client_ip
  middleware-untrusted opt opts c r none_hops built peer =
      rw (middleware-hops opt opts c none_hops built, peer) (settled _ (no_nets net c.trusted_nets))
    where
      settled :
          (other : Text) (b : Bool)
          → (if b || true then host_only net r.remote_addr else other) ≡ host_only net r.remote_addr
      settled other true = refl
      settled other false = refl

  first_of :
      (a b d : Text)
      → (if not (is_empty a) then a else if not (is_empty b) then b else d) ≡ []
      → d ≡ []
  first_of [] [] d h = h
  first_of [] (x ∷ b) d h = ground arith
  first_of (x ∷ a) b d h = ground arith

  -- The rate-limit key of a request is empty only when its peer's address is.
  pub key_from_request-nonempty :
      (ctx : Option Text) (remote_addr : Text)
      → key_from_request net ctx remote_addr ≡ []
      → remote_addr ≡ []
  unfolding key_from_request
  key_from_request-nonempty ctx remote_addr h =
      first_of (ip_of net ctx) (host_only net remote_addr) remote_addr h
