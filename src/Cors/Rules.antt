-- ===== src/Cors/Rules.antt =====
-- The rules that `Wrap` keeps: none of them matches every host.
use gobase.Base.{
  ℕ, ◌+◌, ◌≡◌, refl, ◌⊎◌, inl, inr, true, false, not, ◌&&◌, ◌||◌, Option, none, some, List, [], ◌∷◌,
  ◌++◌, arith, if◌then◌else◌, Bool-cases, Option-cases, take, drop, nat_comparable, bool_comparable,
  list_comparable, All, All-append,
}
use gobase.Base.Text.{Text, codes, is_empty, index, starts_with, trim_prefix}
use gobase.Base.Affixes.{starts_with-rest}
use gobase.Cors.{
  Url, UrlPackage, OriginRule, no_rule, WrapOpts, wildcard_rule, before_path, dotted_suffix,
  suffix_rule, has_star, compile_origin, compile_all, exact_rule, wrap, full_origin,
}

-- An exact origin, or a suffix of a dot and at least one more character.
abbrev pub IsGuarded : OriginRule → Type 0
IsGuarded r =
    (is_empty r.exact ≡ false) ⊎ ((c : ℕ) × (rest : Text) × (r.wildcard_suffix ≡ b'.' ∷ c ∷ rest))

dotted_suffix-dot : (host : Text) → (rest : Text) × (dotted_suffix host ≡ b'.' ∷ rest)
unfolding dotted_suffix
dotted_suffix-dot host =
    elim (Bool-cases (starts_with (trim_prefix host (b'*' ∷ [])) (b'.' ∷ []))) [
      | inl dotted ↦
          let (rest, e) = starts_with-rest (trim_prefix host (b'*' ∷ [])) (b'.' ∷ []) dotted in
          (rest, rw dotted e)
      | inr plain ↦ (trim_prefix (trim_prefix host (b'*' ∷ [])) (b'.' ∷ []), rw plain refl)
    ]

suffix_rule-IsGuarded :
    (scheme rest : Text)
    → IsGuarded (suffix_rule scheme (b'.' ∷ rest)) ⊎ (suffix_rule scheme (b'.' ∷ rest) ≡ no_rule)
unfolding suffix_rule
suffix_rule-IsGuarded scheme [] = inr refl
suffix_rule-IsGuarded scheme (c ∷ rest) = inl (inr (c, rest, refl))

host_rule-IsGuarded :
    (scheme host : Text)
    → IsGuarded (suffix_rule scheme (dotted_suffix host))
      ⊎ (suffix_rule scheme (dotted_suffix host) ≡ no_rule)
host_rule-IsGuarded scheme host =
    let (rest, e) = dotted_suffix-dot host in rw e (suffix_rule-IsGuarded scheme rest)

wildcard_rule-IsGuarded :
    (entry : Text) → IsGuarded (wildcard_rule entry) ⊎ (wildcard_rule entry ≡ no_rule)
unfolding wildcard_rule
wildcard_rule-IsGuarded entry = elim (Option-cases (index entry (codes "://"))) [
  | inl e ↦ rw (wildcard_rule, e) (host_rule-IsGuarded [] (before_path entry))
  | inr found ↦
      let (i, e) = found in
      rw (wildcard_rule, e) (host_rule-IsGuarded (take i entry) (before_path (drop (i + 3) entry)))
]

module _ (net : UrlPackage) where
  open net use {parse_url, to_lower, trim_space}

  exact_rule-IsGuarded :
      (o : Option Url) → IsGuarded (exact_rule net o) ⊎ (exact_rule net o ≡ no_rule)
  unfolding exact_rule full_origin
  exact_rule-IsGuarded none = inr refl
  exact_rule-IsGuarded (some u) =
      elim (Bool-cases (not (is_empty u.scheme) && not (is_empty u.url_host))) [
        | inl full ↦ rw full (inl (inl (given u.scheme (ground arith))))
        | inr part ↦ rw part (inr refl)
      ]
    where
      given : (s : Text) → is_empty s ≡ false → is_empty (s ++ (codes "://" ++ u.url_host)) ≡ false
      given [] h = ground arith
      given (c ∷ s) h = refl

  compile_origin-IsGuarded :
      (entry : Text) → IsGuarded (compile_origin net entry) ⊎ (compile_origin net entry ≡ no_rule)
  unfolding compile_origin
  compile_origin-IsGuarded entry = elim (Bool-cases (is_empty (to_lower (trim_space entry)))) [
    | inl empty ↦ rw empty (inr refl)
    | inr given ↦ elim (Bool-cases (has_star (to_lower (trim_space entry)))) [
      | inl star ↦ rw (given, star) (wildcard_rule-IsGuarded (to_lower (trim_space entry)))
      | inr plain ↦
          rw (given, plain) (exact_rule-IsGuarded (parse_url (to_lower (trim_space entry))))
    ]
  ]

  compile_all-IsGuarded :
      (entries : List Text) (rules : List OriginRule)
      → All IsGuarded rules
      → All IsGuarded (compile_all net entries rules)
  unfolding compile_all
  compile_all-IsGuarded [] rules all = all
  compile_all-IsGuarded (o ∷ rest) rules all =
      compile_all-IsGuarded rest _ (kept (compile_origin net o) (compile_origin-IsGuarded o))
    where
      kept :
          (r : OriginRule)
          → IsGuarded r ⊎ (r ≡ no_rule)
          → All IsGuarded (
              if not (is_empty r.exact) || not (is_empty r.wildcard_suffix)
              then rules ++ r ∷ []
              else rules)
      kept r (inl (inl exact)) =
          let holds : not (is_empty r.exact) || not (is_empty r.wildcard_suffix) ≡ true =
            ground arith in
          rw holds (All-append IsGuarded rules (r ∷ []) all (inl exact, tt))
      kept r (inl (inr (c, t, e))) =
          let wild : is_empty r.wildcard_suffix ≡ false = rw e refl in
          let holds : not (is_empty r.exact) || not (is_empty r.wildcard_suffix) ≡ true =
            ground arith in
          rw holds (All-append IsGuarded rules (r ∷ []) all (inr (c, t, e), tt))
      kept r (inr e) = rw e all

  -- Whatever the entries, each rule that `Wrap` keeps is an exact origin or a suffix of a dot and
  -- at least one more character, so no rule has an empty suffix to match every host by.
  pub wrap-IsGuarded : (opts : WrapOpts) → All IsGuarded (wrap net opts).allowed_origins
  unfolding wrap
  wrap-IsGuarded opts = compile_all-IsGuarded opts.allow_origins [] tt
