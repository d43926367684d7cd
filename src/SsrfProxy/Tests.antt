-- ===== src/SsrfProxy/Tests.antt =====
-- Runs of package ssrfproxy, and its theorems at concrete inputs.
use gobase.Base.{
  ◌≡◌, refl, true, false, none, some, [], ◌∷◌, arith, eqb, if◌then◌else◌, length, nat_comparable,
  bool_comparable, list_comparable,
}
use gobase.SsrfProxy.{
  Ip, v4, v6, NetPackage, connected, failed, blocked, is_blocked_ip, safe_dial_context,
}
use gobase.SsrfProxy.Dials.{IsAllowed, safe_dial_context-IsAllowed}
use gobase.SsrfProxy.Ranges.{number, is_local_number, is_blocked_ip_exact}

-- A name server whose name "h" has a public and, where the port is "2", a private address.
abbrev public_ip : Ip
public_ip = v4 93 184 216 34

abbrev metadata_ip : Ip
metadata_ip = v4 169 254 169 254

abbrev net : NetPackage
net = record {
  split_host_port = λ addr. some (addr, 56 ∷ 48 ∷ []);
  parse_ip = λ host. none;
  lookup_ip = λ host.
      if eqb (length host) 1 then some (public_ip ∷ []) else some (public_ip ∷ metadata_ip ∷ []);
  connects = λ ip port. true;
}

public_run :
    safe_dial_context net (is_blocked_ip false) (104 ∷ []) ≡ connected public_ip (public_ip ∷ [])
unfolding safe_dial_context is_blocked_ip
public_run = refl

metadata_run :
    safe_dial_context net (is_blocked_ip false) (104 ∷ 104 ∷ []) ≡ failed (blocked metadata_ip) []
unfolding safe_dial_context is_blocked_ip
metadata_run = refl

mapped_run : is_blocked_ip true (v6 252 0 [] 1) ≡ true
unfolding is_blocked_ip
mapped_run = refl

safe_dial_context-IsAllowed_example :
    IsAllowed (is_blocked_ip false) (safe_dial_context net (is_blocked_ip false) (104 ∷ []))
safe_dial_context-IsAllowed_example =
    safe_dial_context-IsAllowed net (is_blocked_ip false) (104 ∷ [])

is_blocked_ip_exact_example :
    is_blocked_ip false (v4 172 31 0 1) ≡ is_local_number false (number 172 31 0 1)
is_blocked_ip_exact_example =
    is_blocked_ip_exact false 172 31 0 1 (omega arith) (omega arith) (omega arith) (omega arith)
