-- ===== src/Cors/Wildcard.antt =====
-- What a wildcard entry allows: the subdomains of its domain, and nothing else.
use gobase.Base.{
  ℕ, ◌≡◌, refl, ◌↔◌, ◌⊎◌, inl, inr, true, false, ◌||◌, some, [], ◌∷◌, ◌++◌, arith, eqb, Bool-cases,
  ◌==◌, ==_iff, nat_comparable, bool_comparable, list_comparable, All,
}
use gobase.Base.Text.{Text, codes, is_empty}
use gobase.Base.Affixes.{
  ends_with_iff, index-behind, index-none, index_any-none, take-length_append, drop-length_append,
}
use gobase.Cors.{
  Url, UrlPackage, matches, any_rule, WrapOpts, wildcard_rule, before_path, dotted_suffix,
  suffix_rule, has_star, compile_origin, compile_all, wrap, allow_origin, full_origin,
}

-- The entry "*.domain", behind "scheme://" when a scheme is given.
abbrev pub wildcard_entry : Text → Text → Text
wildcard_entry [] domain = b'*' ∷ b'.' ∷ domain
wildcard_entry (c ∷ scheme) domain = (c ∷ scheme) ++ (codes "://" ++ b'*' ∷ b'.' ∷ domain)

-- No slash and no colon.
abbrev pub IsPlain : Text → Type 0
IsPlain = All (λ c. (eqb c b'/' || eqb c b':') ≡ false)

no_colon : (s : Text) → IsPlain s → All (λ c. eqb c b':' ≡ false) s
no_colon [] h = tt
no_colon (c ∷ s) (plain, h) = (ground arith, no_colon s h)

suffix_of_domain :
    (d : ℕ) (domain : Text)
    → IsPlain (d ∷ domain)
    → dotted_suffix (before_path (b'*' ∷ b'.' ∷ d ∷ domain)) ≡ b'.' ∷ d ∷ domain
unfolding dotted_suffix before_path
suffix_of_domain d domain plain =
    rw (before_path, index_any-none (b'*' ∷ b'.' ∷ d ∷ domain) _ (refl, (refl, plain))) refl

suffix_rule-domain :
    (scheme : Text) (d : ℕ) (domain : Text)
    → suffix_rule scheme (b'.' ∷ d ∷ domain)
      ≡ record { exact = []; wildcard_suffix = b'.' ∷ d ∷ domain; wildcard_scheme = scheme }
unfolding suffix_rule
suffix_rule-domain scheme d domain = refl

wildcard_rule-entry :
    (scheme : Text) (d : ℕ) (domain : Text)
    → IsPlain scheme
    → IsPlain (d ∷ domain)
    → wildcard_rule (wildcard_entry scheme (d ∷ domain))
      ≡ record { exact = []; wildcard_suffix = b'.' ∷ d ∷ domain; wildcard_scheme = scheme }
unfolding wildcard_rule
wildcard_rule-entry [] d domain plain_scheme plain =
    rw
      (
        wildcard_rule,
        index-none (b'*' ∷ b'.' ∷ d ∷ domain) b':' (codes "//")
            (refl, (refl, no_colon (d ∷ domain) plain)),
        suffix_of_domain d domain plain,
      )
      (suffix_rule-domain [] d domain)
wildcard_rule-entry (c ∷ scheme) d domain plain_scheme plain =
    rw
      (
        wildcard_rule,
        index-behind (c ∷ scheme) (b'*' ∷ b'.' ∷ d ∷ domain) b':' (codes "//")
            (no_colon (c ∷ scheme) plain_scheme),
        take-length_append (c ∷ scheme) (codes "://" ++ b'*' ∷ b'.' ∷ d ∷ domain),
        drop-length_append (c ∷ scheme) (codes "://" ++ b'*' ∷ b'.' ∷ d ∷ domain) 3,
        suffix_of_domain d domain plain,
      )
      (suffix_rule-domain (c ∷ scheme) d domain)

has_star-entry : (scheme domain : Text) → has_star (wildcard_entry scheme domain) ≡ true
unfolding has_star
has_star-entry [] domain = refl
has_star-entry (c ∷ scheme) domain = star_behind (c ∷ scheme)
  where
    star_behind : (a : Text) → has_star (a ++ (codes "://" ++ b'*' ∷ b'.' ∷ domain)) ≡ true
    star_behind [] = refl
    star_behind (x ∷ a) = ground (arith, star_behind a)

matches-suffix :
    (suffix wanted scheme host normalized : Text)
    → (matches
          (record { exact = []; wildcard_suffix = suffix; wildcard_scheme = wanted })
          scheme
          host
          normalized
        ≡ true)
      ↔ (((wanted ≡ []) ⊎ (wanted ≡ scheme)) × ((sub : Text) × (host ≡ sub ++ suffix)))
unfolding matches
matches-suffix suffix [] scheme host normalized =
    let (to, from) = ends_with_iff host suffix in
    ((λ h. (inl refl, to h)), λ (wanted_ok, tail). from tail)
matches-suffix suffix (c ∷ wanted) scheme host normalized =
    let (to, from) = ends_with_iff host suffix in
    let (to_eq, from_eq) = ==_iff (c ∷ wanted) scheme in
    elim (Bool-cases ((c ∷ wanted) == scheme)) [
      | inl same ↦ rw same ((λ h. (inr (to_eq same), to h)), λ (wanted_ok, tail). from tail)
      | inr other ↦ rw other (
        (λ h. ground arith),
        λ (wanted_ok, tail). elim wanted_ok [
          | inl e ↦ ground arith
          | inr e ↦ let same = from_eq e in cc
        ],
      )
    ]

entry_given : (scheme domain : Text) → is_empty (wildcard_entry scheme domain) ≡ false
entry_given [] domain = refl
entry_given (c ∷ scheme) domain = refl

one_rule :
    (suffix wanted scheme host normalized : Text)
    → (any_rule
          (record { exact = []; wildcard_suffix = suffix; wildcard_scheme = wanted } ∷ [])
          scheme
          host
          normalized
        ≡ true)
      ↔ (((wanted ≡ []) ⊎ (wanted ≡ scheme)) × ((sub : Text) × (host ≡ sub ++ suffix)))
unfolding any_rule
one_rule suffix wanted scheme host normalized =
    let (to, from) = matches-suffix suffix wanted scheme host normalized in
    ((λ h. to (ground arith)), λ h. let e = from h in ground arith)

module _ (net : UrlPackage) where
  open net use {parse_url, hostname, to_lower, trim_space}

  compile_origin-entry :
      (scheme : Text) (d : ℕ) (domain : Text)
      → IsPlain scheme
      → IsPlain (d ∷ domain)
      → to_lower (trim_space (wildcard_entry scheme (d ∷ domain)))
        ≡ wildcard_entry scheme (d ∷ domain)
      → compile_origin net (wildcard_entry scheme (d ∷ domain))
        ≡ record { exact = []; wildcard_suffix = b'.' ∷ d ∷ domain; wildcard_scheme = scheme }
  unfolding compile_origin
  compile_origin-entry scheme d domain plain_scheme plain clean =
      rw (clean, entry_given scheme (d ∷ domain), has_star-entry scheme (d ∷ domain))
        (wildcard_rule-entry scheme d domain plain_scheme plain)

  rules-entry :
      (opts : WrapOpts) (scheme : Text) (d : ℕ) (domain : Text)
      → IsPlain scheme
      → IsPlain (d ∷ domain)
      → opts.allow_origins ≡ wildcard_entry scheme (d ∷ domain) ∷ []
      → to_lower (trim_space (wildcard_entry scheme (d ∷ domain)))
        ≡ wildcard_entry scheme (d ∷ domain)
      → (wrap net opts).allowed_origins
        ≡ record { exact = []; wildcard_suffix = b'.' ∷ d ∷ domain; wildcard_scheme = scheme } ∷ []
  unfolding wrap compile_all
  rules-entry opts scheme d domain plain_scheme plain one clean =
      rw (one, compile_origin-entry scheme d domain plain_scheme plain clean) refl

  -- With the one entry "scheme://*.domain", or "*.domain" for an empty scheme, without further
  -- slash or colon and already trimmed and lowered, an origin that parses to a scheme and a host
  -- is allowed exactly when the host without its port ends in ".domain" and the scheme is the
  -- entry's, if that has one.
  pub allow_origin-wildcard :
      (opts : WrapOpts) (scheme : Text) (d : ℕ) (domain origin : Text) (u : Url)
      → IsPlain scheme
      → IsPlain (d ∷ domain)
      → opts.allow_origins ≡ wildcard_entry scheme (d ∷ domain) ∷ []
      → to_lower (trim_space (wildcard_entry scheme (d ∷ domain)))
        ≡ wildcard_entry scheme (d ∷ domain)
      → is_empty origin ≡ false
      → parse_url origin ≡ some u
      → is_empty u.scheme || is_empty u.url_host ≡ false
      → (allow_origin net (wrap net opts) origin ≡ true) ↔ (
          ((scheme ≡ []) ⊎ (scheme ≡ u.scheme))
          × ((sub : Text) × (hostname u.url_host ≡ sub ++ b'.' ∷ d ∷ domain)))
  unfolding allow_origin any_rule
  allow_origin-wildcard opts scheme d domain origin u plain_scheme plain one clean given url full =
      let only = rules-entry opts scheme d domain plain_scheme plain one clean in
      rw (given, url, full, only)
        (one_rule (b'.' ∷ d ∷ domain) scheme u.scheme (hostname u.url_host) (full_origin u))
