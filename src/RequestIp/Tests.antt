-- ===== src/RequestIp/Tests.antt =====
-- Runs of package requestip over a small model of package net, and its theorems there.
use gobase.Base.{
  ◌≡◌, refl, Bool, true, false, ◌&&◌, none, some, [], ◌∷◌, arith, leb, eqb, if◌then◌else◌, length,
  get_or, nat_comparable, bool_comparable, list_comparable,
}
use gobase.Base.Int.{pos}
use gobase.Base.Text.{Text, codes, split, trim, starts_with}
use gobase.RequestIp.{
  NetPackage, Request, Config, Setting, no_proxies, trust_proxies, trust_proxy_hops, middleware,
  client_ip, key_from_request, serve_http, ip_of, is_trusted, host_only, parse_forwarded,
}
use gobase.RequestIp.Chain.{addresses, client_ip_hops, client_ip-client}
use gobase.RequestIp.Trust.{middleware-untrusted}

is_ip : Text → Bool
is_ip [] = false
is_ip (c ∷ s) = leb 48 c && leb c 57

-- Addresses and networks are texts that start with a digit, and `network` holds what it begins.
abbrev toy : NetPackage
toy = record {
  Addr = Text;
  IpNet = Text;
  parse_ip = λ s. if is_ip s then some s else none;
  net_contains = λ network s. starts_with s network;
  parse_cidr = λ s. if is_ip s then some (get_or (split s b'/') 0 []) else none;
  host_net = λ s. s;
  split_host_port =
      λ s. if eqb (length (split s b':')) 2 then some (get_or (split s b':') 0 []) else none;
  trim_space = trim (λ c. eqb c b' ');
}

abbrev request : Request
request = record {
  remote_addr = codes "10.0.0.1:443";
  forwarded_for = codes "6.6.6.6, 1.2.3.4, 10.0.0.7";
  real_ip = [];
}

abbrev direct : Request
direct = record { remote_addr = codes "9.9.9.9:80"; forwarded_for = codes "6.6.6.6"; real_ip = [] }

abbrev behind_nets : Config toy
behind_nets = record { trusted_nets = codes "10.0." ∷ []; trust_hops = pos 0; use_hops = false }

abbrev behind_two : Config toy
behind_two = record { trusted_nets = []; trust_hops = pos 2; use_hops = true }

built : middleware toy (trust_proxies (codes "10.0./16" ∷ [] ∷ [])) [] ≡ some behind_nets
unfolding middleware is_ip gobase.RequestIp.parse_entry gobase.RequestIp.apply
built = refl

refused : middleware toy no_proxies (trust_proxies (codes "nowhere" ∷ []) ∷ []) ≡ none
unfolding middleware is_ip gobase.RequestIp.parse_entry gobase.RequestIp.apply
refused = refl

by_nets : client_ip toy behind_nets request ≡ codes "1.2.3.4"
unfolding client_ip is_ip is_trusted parse_forwarded host_only
by_nets = refl

by_count : client_ip toy behind_two request ≡ codes "1.2.3.4"
unfolding client_ip is_ip parse_forwarded host_only
by_count = refl

keyed :
    key_from_request toy (serve_http toy behind_nets direct none) direct.remote_addr
    ≡ codes "9.9.9.9"
unfolding key_from_request serve_http ip_of client_ip is_ip is_trusted parse_forwarded host_only
keyed = refl

client_ip_hops_example :
    client_ip toy behind_two request ≡ get_or (codes "1.2.3.4" ∷ codes "10.0.0.7" ∷ []) 0 []
unfolding addresses is_ip host_only
client_ip_hops_example =
    client_ip_hops toy behind_two request 1 (codes "6.6.6.6") (codes " 1.2.3.4, 10.0.0.7") refl refl
      refl (omega arith)

client_ip-client_example : client_ip toy behind_nets request ≡ codes "1.2.3.4"
unfolding is_ip host_only is_trusted parse_forwarded
client_ip-client_example =
    client_ip-client toy behind_nets request (codes "6.6.6.6" ∷ []) (codes "10.0.0.7" ∷ [])
      (codes "1.2.3.4") refl refl refl refl (refl, tt)

middleware-untrusted_example : client_ip toy behind_nets direct ≡ host_only toy direct.remote_addr
unfolding is_ip host_only is_trusted middleware gobase.RequestIp.parse_entry gobase.RequestIp.apply
middleware-untrusted_example =
    middleware-untrusted toy (trust_proxies (codes "10.0./16" ∷ [])) [] behind_nets direct
      ((λ n e. cc), tt) refl refl
