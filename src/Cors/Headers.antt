-- ===== src/Cors/Headers.antt =====
-- The headers that `ServeHTTP` leaves, and who answers.
use gobase.Base.{
  ◌≡◌, refl, ap, ◌∙◌, inl, inr, Bool, true, false, ◌&&◌, some, [], ◌∷◌, ◌++◌, arith, if◌then◌else◌,
  Bool-cases, ◌==◌, nat_comparable, bool_comparable, list_comparable,
}
use gobase.Base.GoMap.{get_or, lookup, insert, lookup-insert}
use gobase.Base.Text.{Text, codes}
use gobase.Cors.{
  UrlPackage, Cors, Headers, Outcome, no_content, passed_on, allow_headers_for, credentials_for,
  allow_origin, serve_http,
}

abbrev pub headers_of : Outcome → Headers
headers_of (no_content headers) = headers
headers_of (passed_on headers) = headers

abbrev pub is_no_content : Outcome → Bool
is_no_content (no_content headers) = true
is_no_content (passed_on headers) = false

module _ (net : UrlPackage) (c : Cors) where
  open net use {to_lower}

  credentials_for-others :
      (name : Text) (headers : Headers)
      → (codes "Access-Control-Allow-Credentials" == name) ≡ false
      → lookup name (credentials_for net c headers) ≡ lookup name headers
  unfolding credentials_for
  credentials_for-others name headers other = ground (
    arith,
    lookup-insert (codes "Access-Control-Allow-Credentials") name (codes "true" ∷ []) headers,
  )

  lookup-credentials_for :
      (headers : Headers)
      → lookup (codes "Access-Control-Allow-Credentials") (credentials_for net c headers) ≡ (
          if c.cors_credentials == codes "true"
          then some (codes "true" ∷ [])
          else lookup (codes "Access-Control-Allow-Credentials") headers)
  unfolding credentials_for
  lookup-credentials_for headers = elim (Bool-cases (c.cors_credentials == codes "true")) [
    | inl on ↦ rw on (
        lookup-insert (codes "Access-Control-Allow-Credentials")
          (codes "Access-Control-Allow-Credentials") (codes "true" ∷ []) headers)
    | inr off ↦ rw off refl
  ]

  allow_headers_for-others :
      (name origin : Text) (headers : Headers)
      → (codes "Access-Control-Allow-Headers" == name) ≡ false
      → (codes "Access-Control-Allow-Methods" == name) ≡ false
      → (codes "Access-Control-Expose-Headers" == name) ≡ false
      → lookup name (allow_headers_for net c origin headers) ≡ (
          if codes "Access-Control-Allow-Origin" == name
          then some (origin ∷ [])
          else lookup name headers)
  unfolding allow_headers_for
  allow_headers_for-others name origin headers no_headers no_methods no_expose =
      simp (lookup-insert, no_headers, no_methods, no_expose)

  abbrev varied : Headers → Headers
  varied headers =
      insert (codes "Vary") (get_or [] (codes "Vary") headers ++ codes "Origin" ∷ []) headers

  abbrev answered : Text → Headers → Headers
  answered origin headers = credentials_for net c (allow_headers_for net c origin (varied headers))

  headers_of-serve_http :
      (method origin_header : Text) (headers : Headers)
      → headers_of (serve_http net c method origin_header headers) ≡ (
          if allow_origin net c (to_lower origin_header)
          then answered (to_lower origin_header) headers
          else varied headers)
  unfolding serve_http
  headers_of-serve_http method origin_header headers = ground arith

  is_no_content-serve_http :
      (method origin_header : Text) (headers : Headers)
      → is_no_content (serve_http net c method origin_header headers)
        ≡ (allow_origin net c (to_lower origin_header) && (method == codes "OPTIONS"))
  unfolding serve_http
  is_no_content-serve_http method origin_header headers = ground arith

  lookup-varied :
      (name : Text) (headers : Headers)
      → (codes "Vary" == name) ≡ false
      → lookup name (varied headers) ≡ lookup name headers
  lookup-varied name headers other = simp (lookup-insert, other)

  lookup-allow_origin :
      (origin : Text) (headers : Headers)
      → lookup (codes "Access-Control-Allow-Origin") (answered origin headers) ≡ some (origin ∷ [])
  lookup-allow_origin origin headers =
      credentials_for-others (codes "Access-Control-Allow-Origin")
        (allow_headers_for net c origin (varied headers)) refl
      ∙ allow_headers_for-others (codes "Access-Control-Allow-Origin") origin (varied headers) refl
          refl refl

  lookup-allow_credentials :
      (origin : Text) (headers : Headers)
      → lookup (codes "Access-Control-Allow-Credentials") (answered origin headers) ≡ (
          if c.cors_credentials == codes "true"
          then some (codes "true" ∷ [])
          else lookup (codes "Access-Control-Allow-Credentials") headers)
  lookup-allow_credentials origin headers =
      lookup-credentials_for (allow_headers_for net c origin (varied headers))
      ∙ ap (λ o. if c.cors_credentials == codes "true" then some (codes "true" ∷ []) else o)
          (allow_headers_for-others (codes "Access-Control-Allow-Credentials") origin
              (varied headers) refl refl refl
            ∙ lookup-varied (codes "Access-Control-Allow-Credentials") headers refl)

  lookup-vary :
      (origin : Text) (headers : Headers)
      → lookup (codes "Vary") (answered origin headers) ≡ lookup (codes "Vary") (varied headers)
  lookup-vary origin headers =
      credentials_for-others (codes "Vary") (allow_headers_for net c origin (varied headers)) refl
      ∙ allow_headers_for-others (codes "Vary") origin (varied headers) refl refl refl

  -- What a response carries after `ServeHTTP`, whatever it carried before: the lowered origin
  -- where that is allowed, the credentials header where also the option is on, `Origin` as one
  -- more value of Vary on every response, and an answer of its own exactly for an allowed
  -- preflight.
  pub serve_http-headers :
      (method origin_header : Text) (headers : Headers)
      → let after = serve_http net c method origin_header headers in
        let allowed = allow_origin net c (to_lower origin_header) in
        (lookup (codes "Access-Control-Allow-Origin") (headers_of after) ≡ (
          if allowed
          then some (to_lower origin_header ∷ [])
          else lookup (codes "Access-Control-Allow-Origin") headers))
        × (lookup (codes "Access-Control-Allow-Credentials") (headers_of after) ≡ (
            if allowed && (c.cors_credentials == codes "true")
            then some (codes "true" ∷ [])
            else lookup (codes "Access-Control-Allow-Credentials") headers))
        × (lookup (codes "Vary") (headers_of after)
            ≡ some (get_or [] (codes "Vary") headers ++ codes "Origin" ∷ []))
        × (is_no_content after ≡ (allowed && (method == codes "OPTIONS")))
  serve_http-headers method origin_header headers =
      rw
        (
          headers_of-serve_http method origin_header headers,
          is_no_content-serve_http method origin_header headers,
        )
        (elim (Bool-cases (allow_origin net c (to_lower origin_header))) [
          | inl allowed ↦
              rw (allowed, lookup-vary (to_lower origin_header) headers)
                (
                  lookup-allow_origin (to_lower origin_header) headers,
                  lookup-allow_credentials (to_lower origin_header) headers,
                  vary,
                  refl,
                )
          | inr refused ↦ rw refused (
            lookup-varied (codes "Access-Control-Allow-Origin") headers refl,
            lookup-varied (codes "Access-Control-Allow-Credentials") headers refl,
            vary,
            refl,
          )
        ])
    where
      vary :
          lookup (codes "Vary") (varied headers)
          ≡ some (get_or [] (codes "Vary") headers ++ codes "Origin" ∷ [])
      vary =
          lookup-insert (codes "Vary") (codes "Vary")
            (get_or [] (codes "Vary") headers ++ codes "Origin" ∷ []) headers
