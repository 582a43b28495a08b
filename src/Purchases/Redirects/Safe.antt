-- ===== src/Purchases/Redirects/Safe.antt =====
-- Where a checkout can lead back to.
use opod_service_backend.Prelude.{
  ◌≡◌, sym, ap, Bool, true, ◌||◌, Bool-cases, ◌⊎◌, inl, inr, Option, some, Option-cases, List, [],
  ◌∷◌, length, ◌==◌, refl, none, false, String, any, if◌then◌else◌, arith,
}
use opod_service_backend.Prelude.Text.{trim, non_empty, str_eq, eq_iff}
use opod_service_backend.Database.{ok, Result-cases}
use opod_service_backend.Purchases.Redirects.{
  Url, param, is_param, is_http, is_local, configured_origin, allowed_origins,
  checkout_redirect_url, is_success_url, is_return_url, assert_redirect, assert_checkout_redirects,
}

same_string : (a b : String) → str_eq a b ≡ true → a ≡ b
same_string a b e = (eq_iff a b).0 e

-- An address of the form `http://localhost…` or `https://127.0.0.1…`, at whatever port.
abbrev pub IsLocal : Url → Type 0
IsLocal url =
    ((url.hostname ≡ "localhost") ⊎ (url.hostname ≡ "127.0.0.1"))
    × ((url.protocol ≡ "http:") ⊎ (url.protocol ≡ "https:"))

-- The address of the page that a payment returns to, with the provider's placeholder and nothing
-- else.
abbrev pub IsPaymentReturn : Url → Type 0
IsPaymentReturn url =
    (url.pathname ≡ "/profile/payment-return")
    × (url.search_params ≡ ("checkout_id", "{CHECKOUT_ID}") ∷ [])
    × (url.hash ≡ "")

-- The address of the profile, with no query.
abbrev pub IsProfile : Url → Type 0
IsProfile url = (url.pathname ≡ "/profile") × (url.search ≡ "") × (url.hash ≡ "")

one_param :
    (name value : String) (ps : List (String × String))
    → (length ps == 1) ≡ true
    → (elim (param name ps) as (λ _. Bool) [ none ↦ false | some v ↦ str_eq v value ]) ≡ true
    → ps ≡ (name, value) ∷ []
one_param name value [] l h = ground arith
one_param name value ((n, v) ∷ (p ∷ ps)) l h = ground arith
one_param name value ((n, v) ∷ []) l h = elim (Bool-cases (str_eq n name)) [
  | inr k ↦ let h' = rw k at h in ground arith
  | inl k ↦
      let same_name = same_string n name k in
      let same_value = same_string v value (rw k at h) in rw (same_name, same_value) refl
]

no_text : (s : String) → non_empty s ≡ false → s ≡ ""
no_text String.[] e = refl
no_text (String.◌∷◌ c s) e = ground arith

http_lem : (s : String) → is_http s ≡ true → (s ≡ "http:") ⊎ (s ≡ "https:")
http_lem s e = elim (Bool-cases (str_eq s "http:")) [
  | inl k ↦ inl (same_string s "http:" k)
  | inr k ↦ inr (same_string s "https:" (rw k at e))
]

host_lem :
    (s : String)
    → (str_eq s "localhost" || str_eq s "127.0.0.1") ≡ true
    → (s ≡ "localhost") ⊎ (s ≡ "127.0.0.1")
host_lem s e = elim (Bool-cases (str_eq s "localhost")) [
  | inl k ↦ inl (same_string s "localhost" k)
  | inr k ↦ inr (same_string s "127.0.0.1" (rw k at e))
]

local_lem : (url : Url) → is_local url ≡ true → IsLocal url
local_lem url e =
    let host : (str_eq url.hostname "localhost" || str_eq url.hostname "127.0.0.1") ≡ true =
      ground arith in
    let http : is_http url.protocol ≡ true = ground arith in
    (host_lem url.hostname host, http_lem url.protocol http)

payment_return_lem :
    (parse : String → Option Url) (setting : Option String) (url : Url)
    → is_success_url parse setting url ≡ true
    → IsPaymentReturn url
payment_return_lem parse setting url e =
    let path : str_eq url.pathname "/profile/payment-return" ≡ true = ground arith in
    let one : (length url.search_params == 1) ≡ true = ground arith in
    let placed : is_param "checkout_id" "{CHECKOUT_ID}" url ≡ true = ground arith in
    let hash : non_empty url.hash ≡ false = ground arith in
    (
      same_string url.pathname "/profile/payment-return" path,
      one_param "checkout_id" "{CHECKOUT_ID}" url.search_params one placed,
      no_text url.hash hash,
    )

profile_lem :
    (parse : String → Option Url) (setting : Option String) (url : Url)
    → is_return_url parse setting url ≡ true
    → IsProfile url
profile_lem parse setting url e =
    let path : str_eq url.pathname "/profile" ≡ true = ground arith in
    let search : non_empty url.search ≡ false = ground arith in
    let hash : non_empty url.hash ≡ false = ground arith in
    (same_string url.pathname "/profile" path, no_text url.search search, no_text url.hash hash)

module _ (parse : String → Option Url) (setting : Option String) where
  -- The addresses of the service's own pages: a local one, the web application's, and the one that
  -- `WEB_APP_URL` names.
  abbrev pub IsOwn : Url → Type 0
  IsOwn url =
      IsLocal url
      ⊎ (url.origin ≡ "https://opod-web.vercel.app")
      ⊎ ((s : String) × (u : Url) × (setting ≡ some s)
          × (parse (trim s) ≡ some u)
          × ((u.protocol ≡ "http:") ⊎ (u.protocol ≡ "https:"))
          × (u.origin ≡ url.origin))

  origins-IsOwn :
      (url : Url) (origins : List String)
      → allowed_origins parse setting ≡ ok origins
      → any (λ o. str_eq o url.origin) origins ≡ true
      → IsOwn url
  unfolding allowed_origins
  origins-IsOwn url origins e h = elim (Option-cases setting) [
    | inl k ↦ inr (inl (sym (same_string _ url.origin (let e' = rw k at e in ground arith))))
    | inr (s, k) ↦ elim (Bool-cases (non_empty (trim s))) [
      | inr l ↦ inr (inl (sym (same_string _ url.origin (let e' = rw (k, l) at e in ground arith))))
      | inl l ↦ elim (Option-cases (parse (trim s))) [
        | inl m ↦ let e' = rw (k, l, if◌then◌else◌, configured_origin, m) at e in ground arith
        | inr (u, m) ↦ elim (Bool-cases (is_http u.protocol)) [
          | inr n ↦ let e' = rw (k, l, if◌then◌else◌, configured_origin, m, n) at e in ground arith
          | inl n ↦ elim (Bool-cases (str_eq "https://opod-web.vercel.app" url.origin)) [
            | inl o ↦ inr (inl (sym (same_string _ url.origin o)))
            | inr o ↦ inr (
                inr (
                  s,
                  u,
                  k,
                  m,
                  http_lem u.protocol n,
                  same_string u.origin url.origin (
                      let e' = rw (k, l, if◌then◌else◌, configured_origin, m, n) at e in
                      ground (arith, o)),
                ))
          ]
        ]
      ]
    ]
  ]

  pub redirect-IsOwn :
      (value : String) (url : Url)
      → checkout_redirect_url parse setting value ≡ ok url
      → (parse value ≡ some url) × IsOwn url
  unfolding checkout_redirect_url
  redirect-IsOwn value url e = elim (Option-cases (parse value)) [
    | inl k ↦ let e' = rw (checkout_redirect_url, k) at e in ground arith
    | inr (u, k) ↦ elim (Result-cases (allowed_origins parse setting)) [
      | inr (x, l) ↦ let e' = rw (checkout_redirect_url, k, l) at e in ground arith
      | inl (origins, l) ↦ elim (Bool-cases (is_local u)) [
        | inl m ↦
            let same : u ≡ url =
              (let e' = rw (checkout_redirect_url, k, l, m) at e in ground arith) in
            rw (sym same) (k, inl (local_lem u m))
        | inr m ↦ elim (Bool-cases (any (λ o. str_eq o u.origin) origins)) [
          | inr n ↦ let e' = rw (checkout_redirect_url, k, l, m, n) at e in ground arith
          | inl n ↦
              let same : u ≡ url =
                (let e' = rw (checkout_redirect_url, k, l, m, n) at e in ground arith) in
              rw (sym same) (k, origins-IsOwn u origins l n)
        ]
      ]
    ]
  ]

  -- A value that is not given, or an address of a form at one of the service's own pages.
  abbrev pub IsFine : (Url → Type 0) → Option String → Type 0
  IsFine Form value =
      (value ≡ none)
      ⊎ (value ≡ some "")
      ⊎ ((s : String) × (url : Url) × (value ≡ some s)
          × (parse s ≡ some url)
          × Form url
          × IsOwn url)

  accepted :
      (form : Url → Bool) (Form : Url → Type 0) (message : String) (value : Option String)
      → ((url : Url) → form url ≡ true → Form url)
      → assert_redirect parse setting form message value ≡ ok tt
      → IsFine Form value
  accepted form Form message none shape e = inl refl
  accepted form Form message (some s) shape e = elim (Bool-cases (non_empty s)) [
    | inr empty ↦ inr (inl (ap some (no_text s empty)))
    | inl given ↦ elim (Result-cases (checkout_redirect_url parse setting s)) [
      | inr (x, k) ↦ let e' = rw (given, k) at e in ground arith
      | inl (url, k) ↦
          let (parsed, own) = redirect-IsOwn s url k in
          let formed : form url ≡ true = (let e' = rw (given, k) at e in ground arith) in
          inr (inr (s, url, refl, parsed, shape url formed, own))
    ]
  ]

  -- Addresses of a checkout that are accepted lead to the service's own pages alone. Each one that is
  -- given, and not empty, parses to a URL that is local, at the web application, or at the origin
  -- that `WEB_APP_URL` names, whether the other is given or not; the one of a success is the page
  -- `/profile/payment-return` with the provider's placeholder as its only parameter, and the one of
  -- a return is `/profile` with no query; neither has a hash.
  pub redirects-IsOwn :
      (success return' : Option String)
      → assert_checkout_redirects parse setting success return' ≡ ok tt
      → IsFine IsPaymentReturn success × IsFine IsProfile return'
  unfolding assert_checkout_redirects
  redirects-IsOwn success return' e =
      elim (Result-cases (
        assert_redirect parse setting (is_success_url parse setting)
          "Checkout success URL is invalid" success)) [
            | inr (x, k) ↦ let e' = rw (assert_checkout_redirects, k) at e in ground arith
            | inl (_, k) ↦ (
              accepted (is_success_url parse setting) IsPaymentReturn
                  "Checkout success URL is invalid" success (payment_return_lem parse setting) k,
              accepted (is_return_url parse setting) IsProfile "Checkout return URL is invalid"
                  return' (profile_lem parse setting) (rw (assert_checkout_redirects, k) at e),
            )
          ]
