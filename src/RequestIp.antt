-- ===== src/RequestIp.antt =====
-- Package requestip: the client's address behind proxies (requestip/main.go). What packages net
-- and strings know of addresses is the parameter `NetPackage`; a panic is `none`.
pub mod Chain
pub mod Trust
mod Tests
use gobase.Base.{
  ℕ, zero, suc, ◌+◌, ◌-◌, Bool, true, false, not, ◌||◌, List, [], ◌∷◌, ◌++◌, Option, none, some,
  if◌then◌else◌, eqb, ltb, length, get_or, Comparable, ◌==◌, list_comparable, nat_comparable, ◌>>=◌,
}
use gobase.Base.Int.{ℤ, pos, negsuc}
use gobase.Base.Text.{Text, is_empty, split}

pub record NetPackage : Type 1 where
  pub Addr : Type 0
  pub IpNet : Type 0
  -- `net.ParseIP`, `(*net.IPNet).Contains`, `net.ParseCIDR` (the network).
  pub parse_ip : Text → Option Addr
  pub net_contains : IpNet → Addr → Bool
  pub parse_cidr : Text → Option IpNet
  -- The network of one address, with the full mask of its family.
  pub host_net : Addr → IpNet
  -- `net.SplitHostPort` (the host) and `strings.TrimSpace`.
  pub split_host_port : Text → Option Text
  pub trim_space : Text → Text

pub record Request : Type 0 where
  pub remote_addr : Text
  -- `r.Header.Get` of X-Forwarded-For and X-Real-IP: empty when there is none.
  pub forwarded_for : Text
  pub real_ip : Text

-- The options of `Middleware`, each applied to the configuration so far.
pub data Setting : Type 0 where
  no_proxies : Setting
  trust_proxies : List Text → Setting
  trust_proxy_hops : ℤ → Setting

has_slash : Text → Bool
has_slash [] = false
has_slash (c ∷ s) = if eqb c b'/' then true else has_slash s

module _ (net : NetPackage) where
  open net use {IpNet, parse_ip, net_contains, parse_cidr, host_net, split_host_port, trim_space}

  pub record Config : Type 0 where
    pub trusted_nets : List IpNet
    pub trust_hops : ℤ
    pub use_hops : Bool

  host_of : Text → Text
  host_of addr =
      if is_empty addr then [] else elim (split_host_port addr) [ none ↦ addr | some host ↦ host ]

  unfoldable pub host_only : Text → Text
  unfolding host_of
  host_only addr = host_of (trim_space addr)

  unfoldable pub is_parsed : Option net.Addr → Bool
  is_parsed none = false
  is_parsed (some ip) = true

  -- The loop of `parseForwardedFor` over the parts.
  collect : List Text → List Text → List Text
  unfolding is_parsed
  collect [] out = out
  collect (part ∷ rest) out =
      let host = host_only part in
      collect rest
        (if is_empty host || not (is_parsed (parse_ip host)) then out else out ++ host ∷ [])

  unfoldable pub parse_forwarded : Request → List Text
  unfolding collect
  parse_forwarded r =
      collect (split (if is_empty r.forwarded_for then r.real_ip else r.forwarded_for) b',') []

  in_nets : List IpNet → net.Addr → Bool
  in_nets [] ip = false
  in_nets (n ∷ rest) ip = if net_contains n ip then true else in_nets rest ip

  unfoldable pub is_trusted : List IpNet → Text → Bool
  unfolding in_nets
  is_trusted nets ip_str = elim (parse_ip ip_str) [ none ↦ false | some ip ↦ in_nets nets ip ]

  -- `for i := len(chain) - 1; i >= 0; i--`, with the rounds left as the first argument.
  walk : ℕ → List IpNet → List Text → Text
  walk zero nets chain = get_or chain 0 []
  walk (suc i) nets chain =
      if not (is_trusted nets (get_or chain i [])) then get_or chain i [] else walk i nets chain

  -- The branch of `useHops`; the subtraction stops at 0 as the code's index does.
  by_hops : ℤ → Text → List Text → Text
  by_hops (negsuc n) remote forwarded = remote
  by_hops (pos zero) remote forwarded = remote
  by_hops (pos (suc n)) remote forwarded =
      let chain = forwarded ++ remote ∷ [] in get_or chain (length chain - 1 - suc n) []

  no_nets : List IpNet → Bool
  no_nets [] = true
  no_nets (n ∷ nets) = false

  unfoldable pub client_ip : Config → Request → Text
  unfolding by_hops no_nets walk
  client_ip c r =
      let remote = host_only r.remote_addr in
      let chain = parse_forwarded r ++ remote ∷ [] in
      if c.use_hops
      then by_hops c.trust_hops remote (parse_forwarded r)
      else if no_nets c.trusted_nets || not (is_trusted c.trusted_nets remote)
      then remote
      else walk (length chain) c.trusted_nets chain

  -- `parseCIDROrIP`: the network, or none for an empty entry; an invalid entry panics.
  parse_entry : Text → Option (Option IpNet)
  unfolding has_slash
  parse_entry text =
      let entry = trim_space text in
      if is_empty entry
      then some none
      else if has_slash entry
      then (elim (parse_cidr entry) [ none ↦ none | some network ↦ some (some network) ])
      else elim (parse_ip entry) [ none ↦ none | some ip ↦ some (some (host_net ip)) ]

  add_net : List IpNet → Option IpNet → List IpNet
  add_net nets none = nets
  add_net nets (some n) = nets ++ n ∷ []

  trust_entries : List Text → List IpNet → Option (List IpNet)
  unfolding parse_entry add_net
  trust_entries [] nets = some nets
  trust_entries (entry ∷ rest) nets = parse_entry entry >>= λ n. trust_entries rest (add_net nets n)

  unfoldable pub apply : Setting → Config → Option Config
  unfolding trust_entries
  apply no_proxies c = some c
  apply (trust_proxies cidrs) c =
      trust_entries cidrs c.trusted_nets >>= λ nets. some (record c { trusted_nets = nets })
  apply (trust_proxy_hops n) c = some (record c { use_hops = true; trust_hops = n })

  apply_all : List Setting → Config → Option Config
  apply_all [] c = some c
  apply_all (o ∷ rest) c = apply o c >>= apply_all rest

  -- `Middleware(opt, opts...)`, up to the configuration that it builds.
  unfoldable pub middleware : Setting → List Setting → Option Config
  unfolding apply_all
  middleware opt opts =
      apply_all (opt ∷ opts) (record { trusted_nets = []; trust_hops = pos 0; use_hops = false })

  -- What stands under `_ipKey` in the context of the next handler, given what stood there; `IP`
  -- reads it.
  unfoldable pub serve_http : Config → Request → Option Text → Option Text
  serve_http c r ctx = if is_empty (client_ip c r) then ctx else some (client_ip c r)

  unfoldable pub ip_of : Option Text → Text
  ip_of none = []
  ip_of (some value) = value

  unfoldable pub key_from_request : Option Text → Text → Text
  unfolding ip_of
  key_from_request ctx remote_addr =
      if not (is_empty (ip_of ctx))
      then ip_of ctx
      else if not (is_empty (host_only remote_addr))
      then host_only remote_addr
      else remote_addr
