-- ===== src/SsrfProxy.antt =====
-- Package ssrfproxy (pdfprinter/pdfprinter2/ssrfproxy/ssrfproxy.go): the dialer of a proxy, which
-- refuses addresses of the local network. Name resolution, the connections and the forms of addresses
-- are the parameter `NetPackage`.
pub mod Dials
pub mod Ranges
mod Tests
use gobase.Base.{
  ℕ, ◌/◌, ◌%◌, Bool, true, false, not, ◌&&◌, ◌||◌, List, [], ◌∷◌, Option, none, some, if◌then◌else◌,
  leb, eqb, ◌>>=◌,
}
use gobase.Base.Text.{Text}

-- `net.IP`: `v4` where `To4` is not nil, by its bytes; else the first byte, the second, the 13
-- between, and the last.
pub data Ip : Type 0 where
  v4 : ℕ → ℕ → ℕ → ℕ → Ip
  v6 : ℕ → ℕ → List ℕ → ℕ → Ip

pub record NetPackage : Type 0 where
  pub split_host_port : Text → Option (Text × Text)
  pub parse_ip : Text → Option Ip
  -- `LookupIP`, where `none` is an error.
  pub lookup_ip : Text → Option (List Ip)
  -- Whether a connection to the address and port is made.
  pub connects : Ip → Text → Bool

abbrev pub all_zero : List ℕ → Bool
all_zero [] = true
all_zero (b ∷ bs) = eqb b 0 && all_zero bs

abbrev pub is_loopback : Ip → Bool
is_loopback (v4 a b c d) = eqb a 127
is_loopback (v6 a b rest d) = eqb a 0 && eqb b 0 && all_zero rest && eqb d 1

-- 10.0.0.0/8, 172.16.0.0/12, 192.168.0.0/16 and fc00::/7, of which the masks are divisions.
abbrev pub is_private : Ip → Bool
is_private (v4 a b c d) = eqb a 10 || (eqb a 172 && eqb (b / 16) 1) || (eqb a 192 && eqb b 168)
is_private (v6 a b rest d) = eqb (a / 2) 126

abbrev pub is_link_local_unicast : Ip → Bool
is_link_local_unicast (v4 a b c d) = eqb a 169 && eqb b 254
is_link_local_unicast (v6 a b rest d) = eqb a 254 && eqb (b / 64) 2

abbrev pub is_link_local_multicast : Ip → Bool
is_link_local_multicast (v4 a b c d) = eqb a 224 && eqb b 0 && eqb c 0
is_link_local_multicast (v6 a b rest d) = eqb a 255 && eqb (b % 16) 2

abbrev pub is_interface_local_multicast : Ip → Bool
is_interface_local_multicast (v4 a b c d) = false
is_interface_local_multicast (v6 a b rest d) = eqb a 255 && eqb (b % 16) 1

abbrev pub is_multicast : Ip → Bool
is_multicast (v4 a b c d) = eqb (a / 16) 14
is_multicast (v6 a b rest d) = eqb a 255

abbrev pub is_unspecified : Ip → Bool
is_unspecified (v4 a b c d) = eqb a 0 && eqb b 0 && eqb c 0 && eqb d 0
is_unspecified (v6 a b rest d) = eqb a 0 && eqb b 0 && all_zero rest && eqb d 0

-- 100.64.0.0/10.
abbrev pub is_carrier_grade : Ip → Bool
is_carrier_grade (v4 a b c d) = eqb a 100 && leb 64 b && leb b 127
is_carrier_grade (v6 a b rest d) = false

-- `IsBlockedIP`, and `env.IsTesting`. The nil address is no `Ip`.
unfoldable pub is_blocked_ip : Bool → Ip → Bool
is_blocked_ip is_testing ip =
    (is_loopback ip && not is_testing)
    || is_private ip
    || is_link_local_unicast ip
    || is_link_local_multicast ip
    || is_interface_local_multicast ip
    || is_multicast ip
    || is_unspecified ip
    || is_carrier_grade ip

pub data DialError : Type 0 where
  bad_address : DialError
  blocked : Ip → DialError
  unresolved : DialError
  no_addresses : DialError
  not_connected : DialError

-- What the dialer returns, and the addresses that it has tried to connect to, in order.
pub data Dialed : Type 0 where
  connected : Ip → List Ip → Dialed
  failed : DialError → List Ip → Dialed

abbrev pub tries : Dialed → List Ip
tries (connected ip ips) = ips
tries (failed e ips) = ips

abbrev pub tried : Ip → Dialed → Dialed
tried ip (connected to ips) = connected to (ip ∷ ips)
tried ip (failed e ips) = failed e (ip ∷ ips)

-- The first loop.
unfoldable pub find_blocked : (Ip → Bool) → List Ip → Option Ip
find_blocked is_blocked [] = none
find_blocked is_blocked (ip ∷ ips) = if is_blocked ip then some ip else find_blocked is_blocked ips

-- The second loop.
unfoldable pub dial_loop : NetPackage → Text → List Ip → Dialed
dial_loop net port [] = failed not_connected []
dial_loop net port (ip ∷ ips) =
    let rest = tried ip (dial_loop net port ips) in
    if net.connects ip port then connected ip (ip ∷ []) else rest

abbrev pub dial_unless : NetPackage → Text → List Ip → Option Ip → Dialed
dial_unless net port ips (some ip) = failed (blocked ip) []
dial_unless net port ips none = dial_loop net port ips

abbrev pub dial_resolved : NetPackage → (Ip → Bool) → Text → Option (List Ip) → Dialed
dial_resolved net is_blocked port none = failed unresolved []
dial_resolved net is_blocked port (some []) = failed no_addresses []
dial_resolved net is_blocked port (some (ip ∷ ips)) =
    dial_unless net port (ip ∷ ips) (find_blocked is_blocked (ip ∷ ips))

abbrev pub dial_host : NetPackage → (Ip → Bool) → Text → Text → Option Ip → Dialed
dial_host net is_blocked host port (some ip) =
    if is_blocked ip
    then failed (blocked ip) []
    else if net.connects ip port
    then connected ip (ip ∷ [])
    else failed not_connected (ip ∷ [])
dial_host net is_blocked host port none = dial_resolved net is_blocked port (net.lookup_ip host)

abbrev pub dial_parts : NetPackage → (Ip → Bool) → Option (Text × Text) → Dialed
dial_parts net is_blocked none = failed bad_address []
dial_parts net is_blocked (some (host, port)) =
    dial_host net is_blocked host port (net.parse_ip host)

unfoldable pub safe_dial_context : NetPackage → (Ip → Bool) → Text → Dialed
unfolding find_blocked dial_loop
safe_dial_context net is_blocked addr = dial_parts net is_blocked (net.split_host_port addr)
