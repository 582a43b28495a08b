-- ===== src/Purchases/Redirects.antt =====
-- The addresses to which a checkout returns: `assertCheckoutRedirects` and `checkoutRedirectUrl` of
-- purchases/purchases.service.ts. `new URL` is the platform's: a parameter that gives a URL's parts.
pub mod Safe
use opod_service_backend.Prelude.{
  ℕ, Bool, true, false, not, ◌&&◌, ◌||◌, Option, none, some, List, [], ◌∷◌, String, ◌==◌, length,
  any, if◌then◌else◌,
}
use opod_service_backend.Prelude.Text.{trim, non_empty, str_eq}
use opod_service_backend.Database.{Result, ok, err, bad_request, conflict}

pub record Url : Type 0 where
  pub protocol : String
  pub hostname : String
  pub origin : String
  pub pathname : String
  pub search : String
  pub search_params : List (String × String)
  pub hash : String

abbrev pub is_http : String → Bool
is_http protocol = str_eq protocol "http:" || str_eq protocol "https:"

-- `searchParams.get`
abbrev pub param : String → List (String × String) → Option String
param name [] = none
param name ((n, v) ∷ rest) = if str_eq n name then some v else param name rest

abbrev pub is_param : String → String → Url → Bool
is_param name value url = elim (param name url.search_params) [
  | none ↦ false
  | some v ↦ str_eq v value
]

abbrev pub is_local : Url → Bool
is_local url =
    (str_eq url.hostname "localhost" || str_eq url.hostname "127.0.0.1") && is_http url.protocol

-- `parse` is `new URL`, none where it throws; `setting` is `WEB_APP_URL`.
module _ (parse : String → Option Url) (setting : Option String) where
  abbrev pub configured_origin : String → Result (List String)
  configured_origin s = elim (parse s) [
    | none ↦ err (conflict "Web app URL is invalid")
    | some u ↦
        if is_http u.protocol
        then ok ("https://opod-web.vercel.app" ∷ u.origin ∷ [])
        else err (conflict "Web app URL is invalid")
  ]

  unfoldable pub allowed_origins : Result (List String)
  allowed_origins = elim setting [
    | none ↦ ok ("https://opod-web.vercel.app" ∷ [])
    | some s ↦
        if non_empty (trim s)
        then configured_origin (trim s)
        else ok ("https://opod-web.vercel.app" ∷ [])
  ]

  abbrev pub from_origins : Url → Result (List String) → Result Url
  from_origins url (err e) = err e
  from_origins url (ok origins) =
      if not (is_local url) && not (any (λ o. str_eq o url.origin) origins)
      then err (bad_request "Checkout redirect origin is invalid")
      else ok url

  -- `checkoutRedirectUrl`
  unfoldable pub checkout_redirect_url : String → Result Url
  checkout_redirect_url value = elim (parse value) [
    | none ↦ err (bad_request "Checkout redirect URL is invalid")
    | some url ↦ from_origins url allowed_origins
  ]

  abbrev pub is_success_url : Url → Bool
  is_success_url url =
      str_eq url.pathname "/profile/payment-return"
      && length url.search_params == 1
      && is_param "checkout_id" "{CHECKOUT_ID}" url
      && not (non_empty url.hash)

  abbrev pub is_return_url : Url → Bool
  is_return_url url =
      str_eq url.pathname "/profile" && not (non_empty url.search) && not (non_empty url.hash)

  -- A URL that is given has the form, at an origin that is allowed.
  abbrev pub has_form : (Url → Bool) → String → Result Url → Result (Unit {0})
  has_form form message (err e) = err e
  has_form form message (ok url) = if form url then ok tt else err (bad_request message)

  abbrev pub assert_redirect : (Url → Bool) → String → Option String → Result (Unit {0})
  assert_redirect form message none = ok tt
  assert_redirect form message (some value) =
      if non_empty value then has_form form message (checkout_redirect_url value) else ok tt

  -- `assertCheckoutRedirects`
  unfoldable pub assert_checkout_redirects : Option String → Option String → Result (Unit {0})
  assert_checkout_redirects success return' =
      elim (assert_redirect is_success_url "Checkout success URL is invalid" success) [
        | err e ↦ err e
        | ok _ ↦ assert_redirect is_return_url "Checkout return URL is invalid" return'
      ]
