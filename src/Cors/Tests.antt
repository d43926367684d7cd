-- ===== src/Cors/Tests.antt =====
-- Runs of package cors over a small model of package net/url, and its theorems there.
use gobase.Base.{
  ◌+◌, ◌≡◌, refl, ◌↔◌, ◌⊎◌, true, false, ◌&&◌, none, some, [], ◌∷◌, ◌++◌, leb, if◌then◌else◌, take,
  drop, ◌==◌, nat_comparable, bool_comparable, list_comparable,
}
use gobase.Base.GoMap.{lookup}
use gobase.Base.Text.{Text, codes, index}
use gobase.Cors.{
  UrlPackage, WrapOpts, compile_origin, compile_all, wrap, allow_origin, any_rule, matches,
  serve_http, wildcard_rule,
}
use gobase.Cors.Wildcard.{allow_origin-wildcard}
use gobase.Cors.Headers.{headers_of, is_no_content, serve_http-headers}

lower : Text → Text
lower [] = []
lower (c ∷ s) = (if leb 65 c && leb c 90 then c + 32 else c) ∷ lower s

-- A URL is a scheme, "://" and a host, which a colon ends.
abbrev toy : UrlPackage
toy = record {
  parse_url = λ s. elim (index s (codes "://")) [
    | none ↦ none
    | some i ↦ some (record { scheme = take i s; url_host = drop (i + 3) s })
  ];
  hostname = λ s. elim (index s (codes ":")) [ none ↦ s | some i ↦ take i s ];
  to_lower = lower;
  trim_space = λ s. s;
}

abbrev opts : WrapOpts
opts = record {
  allow_origins = codes "https://*.a.com" ∷ [];
  allow_headers = none;
  allow_credentials = [];
  allow_methods = [];
}

abbrev app : Text
app = codes "https://x.a.com:8443"

allows : allow_origin toy (wrap toy opts) app ≡ true
unfolding allow_origin wrap compile_all compile_origin any_rule matches wildcard_rule lower
allows = refl

refuses_apex : allow_origin toy (wrap toy opts) (codes "https://a.com") ≡ false
unfolding allow_origin wrap compile_all compile_origin any_rule matches wildcard_rule lower
refuses_apex = refl

refuses_lookalike : allow_origin toy (wrap toy opts) (codes "https://x.a.com.evil.com") ≡ false
unfolding allow_origin wrap compile_all compile_origin any_rule matches wildcard_rule lower
refuses_lookalike = refl

drops_star : compile_all toy (codes "*" ∷ codes "a.com" ∷ []) [] ≡ []
unfolding compile_all compile_origin wildcard_rule lower
drops_star = refl

allow_origin-wildcard_example : (allow_origin toy (wrap toy opts) app ≡ true) ↔ (
    ((codes "https" ≡ []) ⊎ (codes "https" ≡ codes "https"))
    × ((sub : Text) × (codes "x.a.com" ≡ sub ++ codes ".a.com")))
unfolding lower
allow_origin-wildcard_example =
    allow_origin-wildcard toy opts (codes "https") b'a' (codes ".com") app
      (record { scheme = codes "https"; url_host = codes "x.a.com:8443" })
      (refl, (refl, (refl, (refl, (refl, tt))))) (refl, (refl, (refl, (refl, (refl, tt))))) refl
      refl refl refl refl

serve_http-headers_example :
    let c = wrap toy opts in
    let after = serve_http toy c (codes "OPTIONS") (codes "HTTPS://x.a.com") [] in
    let allowed = allow_origin toy c (codes "https://x.a.com") in
    (lookup (codes "Access-Control-Allow-Origin") (headers_of after)
      ≡ (if allowed then some (codes "https://x.a.com" ∷ []) else none))
    × (lookup (codes "Access-Control-Allow-Credentials") (headers_of after) ≡ (
        if allowed && (c.cors_credentials == codes "true") then some (codes "true" ∷ []) else none))
    × (lookup (codes "Vary") (headers_of after) ≡ some (codes "Origin" ∷ []))
    × (is_no_content after ≡ (allowed && true))
unfolding lower
serve_http-headers_example =
    serve_http-headers toy (wrap toy opts) (codes "OPTIONS") (codes "HTTPS://x.a.com") []
