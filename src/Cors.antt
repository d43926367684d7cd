-- ===== src/Cors.antt =====
-- Package cors: which origins may read a response (cors/main.go). What packages net/url and
-- strings do to Unicode text is the parameter `UrlPackage`; the next handler is the outcome
-- `passed_on`.
pub mod Wildcard
pub mod Rules
pub mod Headers
mod Tests
use gobase.Base.{
  ℕ, zero, suc, ◌+◌, ◌-◌, ◌*◌, ◌/◌, ◌%◌, ◌^◌, ◌≤◌, ◌<◌, min, max, ◌≡◌, refl, sym, ap, ◌∙◌, subst,
  fun_ext, ◌≢◌, ◌↔◌, ◌⊎◌, inl, inr, Bool, true, false, not, ◌&&◌, ◌||◌, Option, none, some, List,
  [], ◌∷◌, ◌++◌, map, append_assoc, append-nil, arith, ltb, leb, eqb, if◌then◌else◌, ltb→lt, lt→ltb,
  leb→le, le→leb, eqb_iff, Bool-cases, Option-cases, ◌>>=◌, length, get_elem?, set, length-append,
  get_or, take, drop, replicate, take-append-drop, length-take, length-drop, length-map,
  length-reverse, get_elem?-reverse, get_or-get_elem?, Comparable, ◌==◌, ==_iff, ==-refl, ==-comm,
  nat_comparable, bool_comparable, list_comparable, count, count-append, IsUnique, All, All-append,
  keep, keep-append, count-keep,
}
use gobase.Base.GoMap.{GoMap, get_or as header_values, insert}
use gobase.Base.Text.{
  Text, codes, is_empty, index, index_any, trim_prefix, starts_with, ends_with, join,
}

-- `u.Scheme`, `u.Host`.
pub record Url : Type 0 where
  pub scheme : Text
  pub url_host : Text

pub record UrlPackage : Type 0 where
  -- `url.Parse`, and `u.Hostname()` as a function of `u.Host`.
  pub parse_url : Text → Option Url
  pub hostname : Text → Text
  -- `strings.ToLower`, `strings.TrimSpace`.
  pub to_lower : Text → Text
  pub trim_space : Text → Text

pub record OriginRule : Type 0 where
  pub exact : Text
  pub wildcard_suffix : Text
  pub wildcard_scheme : Text

abbrev pub no_rule : OriginRule
no_rule = record { exact = []; wildcard_suffix = []; wildcard_scheme = [] }

unfoldable pub matches : OriginRule → Text → Text → Text → Bool
matches r scheme host normalized =
    if not (is_empty r.exact)
    then r.exact == normalized
    else if not (is_empty r.wildcard_scheme) && not (r.wildcard_scheme == scheme)
    then false
    else ends_with host r.wildcard_suffix

unfoldable pub any_rule : List OriginRule → Text → Text → Text → Bool
any_rule [] scheme host normalized = false
any_rule (r ∷ rules) scheme host normalized =
    if matches r scheme host normalized then true else any_rule rules scheme host normalized

-- `host[:idx]` at the first `/` or `:`.
before_path : Text → Text
before_path host = elim (index_any host (λ c. eqb c b'/' || eqb c b':')) [
  | none ↦ host
  | some i ↦ take i host
]

dotted_suffix : Text → Text
dotted_suffix host =
    let suffix = trim_prefix host (b'*' ∷ []) in
    if not (starts_with suffix (b'.' ∷ [])) then b'.' ∷ trim_prefix suffix (b'.' ∷ []) else suffix

suffix_rule : Text → Text → OriginRule
suffix_rule scheme suffix =
    if suffix == b'.' ∷ []
    then no_rule
    else record { exact = []; wildcard_suffix = suffix; wildcard_scheme = scheme }

unfoldable pub wildcard_rule : Text → OriginRule
unfolding before_path dotted_suffix suffix_rule
wildcard_rule entry = elim (index entry (codes "://")) [
  | none ↦ suffix_rule [] (dotted_suffix (before_path entry))
  | some i ↦ suffix_rule (take i entry) (dotted_suffix (before_path (drop (i + 3) entry)))
]

-- `strings.Contains(entry, "*")`.
has_star : Text → Bool
has_star [] = false
has_star (c ∷ s) = if eqb c b'*' then true else has_star s

full_origin : Url → Text
full_origin u = u.scheme ++ (codes "://" ++ u.url_host)

pub record Cors : Type 0 where
  pub allowed_origins : List OriginRule
  pub cors_headers : List Text
  pub cors_credentials : Text
  pub cors_methods : Text

pub record WrapOpts : Type 0 where
  pub allow_origins : List Text
  -- `none` is the nil slice.
  pub allow_headers : Option (List Text)
  pub allow_credentials : Text
  pub allow_methods : Text

abbrev pub default_headers : List Text
default_headers =
    codes "Authorization"
    ∷ codes "Accept"
    ∷ codes "Origin"
    ∷ codes "X-Apiversion"
    ∷ codes "X-Browserwindowid"
    ∷ codes "X-Timezonename"
    ∷ codes "X-Timezoneoffsetmins"
    ∷ codes "Cookie"
    ∷ codes "Content-Type"
    ∷ codes "Cache-Control"
    ∷ []

-- The response's header map, `Add` and `Set` at canonical names.
abbrev pub Headers : Type 0
Headers = GoMap Text (List Text)

abbrev header_add : Text → Text → Headers → Headers
header_add name v headers = insert name (header_values [] name headers ++ v ∷ []) headers

abbrev header_set : Text → Text → Headers → Headers
header_set name v headers = insert name (v ∷ []) headers

-- What `ServeHTTP` does with the request: it answers 204, or calls the next handler.
pub data Outcome : Type 0 where
  no_content : Headers → Outcome
  passed_on : Headers → Outcome

module _ (net : UrlPackage) where
  open net use {parse_url, hostname, to_lower, trim_space}

  exact_rule : Option Url → OriginRule
  unfolding full_origin
  exact_rule none = no_rule
  exact_rule (some u) =
      if not (is_empty u.scheme) && not (is_empty u.url_host)
      then record { exact = full_origin u; wildcard_suffix = []; wildcard_scheme = [] }
      else no_rule

  unfoldable pub compile_origin : Text → OriginRule
  unfolding has_star wildcard_rule exact_rule
  compile_origin text =
      let entry = to_lower (trim_space text) in
      if is_empty entry
      then no_rule
      else if has_star entry
      then wildcard_rule entry
      else exact_rule (parse_url entry)

  -- The loop of `Wrap`.
  unfoldable pub compile_all : List Text → List OriginRule → List OriginRule
  compile_all [] rules = rules
  compile_all (o ∷ rest) rules =
      let r = compile_origin o in
      compile_all rest (
        if not (is_empty r.exact) || not (is_empty r.wildcard_suffix)
        then rules ++ r ∷ []
        else rules)

  unfoldable pub wrap : WrapOpts → Cors
  unfolding compile_all
  wrap opts = record {
    allowed_origins = compile_all opts.allow_origins [];
    cors_headers = elim opts.allow_headers [ none ↦ default_headers | some headers ↦ headers ];
    cors_credentials =
        to_lower (if is_empty opts.allow_credentials then codes "true" else opts.allow_credentials);
    cors_methods = if is_empty opts.allow_methods then codes "*" else opts.allow_methods;
  }

  unfoldable pub allow_origin : Cors → Text → Bool
  unfolding any_rule full_origin
  allow_origin c origin = if is_empty origin then false else elim (parse_url origin) [
    | none ↦ false
    | some u ↦
        if is_empty u.scheme || is_empty u.url_host
        then false
        else any_rule c.allowed_origins u.scheme (hostname u.url_host) (full_origin u)
  ]

  allow_headers_for : Cors → Text → Headers → Headers
  allow_headers_for c origin headers =
      header_set (codes "Access-Control-Allow-Headers") (join c.cors_headers (codes ", ")) (
        header_set (codes "Access-Control-Allow-Methods") c.cors_methods (
          header_set (codes "Access-Control-Expose-Headers") (codes "*")
            (header_set (codes "Access-Control-Allow-Origin") origin headers)))

  credentials_for : Cors → Headers → Headers
  credentials_for c headers =
      if c.cors_credentials == codes "true"
      then header_set (codes "Access-Control-Allow-Credentials") (codes "true") headers
      else headers

  unfoldable pub serve_http : Cors → Text → Text → Headers → Outcome
  unfolding allow_headers_for credentials_for
  serve_http c method origin_header headers =
      let origin = to_lower origin_header in
      let varied = header_add (codes "Vary") (codes "Origin") headers in
      if allow_origin c origin
      then if method == codes "OPTIONS"
        then no_content (credentials_for c (allow_headers_for c origin varied))
        else passed_on (credentials_for c (allow_headers_for c origin varied))
      else passed_on varied
