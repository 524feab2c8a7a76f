-- ===== src/Bitwarden/Provider.antt =====
-- internal/provider/bitwarden.go: FetchSecret, one call at a time, and NewBitwardenProvider. The server and
-- the clock are parameters.
pub mod Served
pub mod Stored
pub mod Failures
pub mod Lockout
use jasm.Base.{
  ℕ, Bool, true, false, ◌&&◌, ◌||◌, not, List, [], ◌∷◌, ◌++◌, Option, none, some, Result, ok, err,
  if◌then◌else◌,
}
use jasm.Text.{Bytes, codes, contains, to_lower, str_eq, is_empty}
use jasm.Errors.{Error, errorf, wrap, message, is_bw_rate_limited_sentinel}
use jasm.Errors.Quote.{quote}
use jasm.StrMap
use jasm.StrMap.{StrMap}
pub use jasm.Registry.{Fetch, returned, panicked, blocked}
use jasm.Metrics.{
  ProviderMetrics, success, error, record_rate_limit, recorded, new_provider_metrics, Meter,
}
use jasm.Reference.{RefError}
use jasm.Reference.Bitwarden.{BitwardenSecretReference, parse, validate, has_field, ref_message}
use jasm.Bitwarden.Items.{DecryptedItem, to_secret_map}
use jasm.Bitwarden.Crypto.{Go, ret, fail, panic}
use jasm.Bitwarden.Client.{
  BitwardenClient, new_bitwarden_client, is_cache_valid, is_authenticated, find_item,
}
use jasm.Bitwarden.Client.Session.{Environment, Call, authenticate}

-- isBWRateLimited, of an error that is not nil
unfoldable pub is_bw_rate_limited : Error → Bool
is_bw_rate_limited e =
    is_bw_rate_limited_sentinel e
    || (contains (to_lower (message e)) (codes "rate limit")
        || (contains (to_lower (message e)) (codes "429")
            || contains (to_lower (message e)) (codes "too many requests")))

abbrev pub rate_limited : Error
rate_limited = errorf (codes "rate limited by Bitwarden API")

abbrev pub folder_not_found : BitwardenSecretReference → Error
folder_not_found ref = errorf (codes "folder " ++ (quote ref.folder ++ codes " not found"))

abbrev pub item_not_found : BitwardenSecretReference → Error
item_not_found ref =
    errorf (
      codes "item " ++ (quote ref.item_name ++ (codes " not found in folder " ++ quote ref.folder)))

abbrev pub field_not_found : BitwardenSecretReference → Error
field_not_found ref =
    errorf
      (codes "field " ++ (quote ref.field ++ (codes " not found in item " ++ quote ref.item_name)))

abbrev pub no_fields : BitwardenSecretReference → Error
no_fields ref = errorf (codes "no fields found in item " ++ quote ref.item_name)

-- (p *BitwardenProvider) wrapError
unfoldable pub wrap_error : Error → BitwardenSecretReference → Error
wrap_error e ref =
    let text = message e in
    if contains text (codes "folder") && contains text (codes "not found")
    then folder_not_found ref
    else if contains text (codes "item") && contains text (codes "not found")
    then item_not_found ref
    else if contains text (codes "field") && contains text (codes "not found")
    then field_not_found ref
    else if contains text (codes "authentication") || contains text (codes "login failed")
    then errorf (codes "authentication failed: invalid email or password")
    else if contains text (codes "network") || contains text (codes "connection")
    then wrap (codes "failed to connect to Bitwarden server: ") e
    else wrap (codes "failed to fetch secret from Bitwarden: ") e

-- type BitwardenProvider, less the retry queue, which FetchSecret does not use; `locked` says that the
-- mutex is held
pub record BitwardenProvider : Type 0 where
  pub client : BitwardenClient
  pub password : Bytes
  pub metrics : ProviderMetrics
  pub locked : Bool

-- if ref.HasField(), of secrets that are not empty
abbrev pub only_field : BitwardenSecretReference → Option Bytes → Result Error (StrMap Bytes)
only_field ref none = err (field_not_found ref)
only_field ref (some value) = ok ((ref.field, value) ∷ [])

unfoldable pub select : BitwardenSecretReference → StrMap Bytes → Result Error (StrMap Bytes)
select ref [] = err (no_fields ref)
select ref (entry ∷ secrets) =
    if has_field ref
    then only_field ref (StrMap.lookup ref.field (entry ∷ secrets))
    else ok (entry ∷ secrets)

-- The result behind ToSecretMap, counted.
unfoldable pub counted :
    BitwardenSecretReference
    → Result Error (StrMap Bytes)
    → BitwardenProvider
    → Fetch × BitwardenProvider
counted ref (err e) p =
    (returned (err e), record p { metrics = recorded error ref.folder p.metrics })
counted ref (ok secrets) p =
    (returned (ok secrets), record p { metrics = recorded success ref.folder p.metrics })

-- What follows FindItem.
unfoldable pub answered :
    BitwardenSecretReference
    → Result Error DecryptedItem
    → BitwardenProvider
    → Fetch × BitwardenProvider
unfolding counted select
answered ref (err e) p =
    if is_bw_rate_limited e
    then (
      returned (err rate_limited),
      record p { metrics = record_rate_limit (recorded error ref.folder p.metrics) },
    )
    else (
      returned (err (wrap_error e ref)),
      record p { metrics = recorded error ref.folder p.metrics },
    )
answered ref (ok item) p = counted ref (select ref (to_secret_map item)) p

abbrev pub invalid_reference : RefError → Error
invalid_reference e = wrap (codes "invalid Bitwarden secret reference: ") (errorf (ref_message e))

-- What follows the call of Authenticate, where it was made: the mutex is left, but for a panic.
unfoldable pub with_client :
    BitwardenSecretReference → Call → BitwardenProvider → Fetch × BitwardenProvider
unfolding answered
with_client ref (panic, client) p = (panicked, record p { client = client; locked = true })
with_client ref (fail e, client) p = (
  returned (err (wrap (codes "failed to re-authenticate with Bitwarden: ") e)),
  record p { client = client; metrics = recorded error ref.folder p.metrics },
)
with_client ref (ret done, client) p =
    answered ref (find_item client.cache ref.folder ref.item_name) (record p { client = client })

module _ (env : Environment) (cache_now token_now : ℕ) where
  -- The client with a cache to read, authenticated again where it has to be.
  unfoldable pub ensured : Bytes → BitwardenClient → Call
  ensured password client =
      if not (is_cache_valid cache_now client) || not (is_authenticated token_now client)
      then authenticate env password client
      else (ret tt, client)

  -- p.mu.Lock() and what follows, by whether the mutex is held
  unfoldable pub fetch_locked :
      Bool → BitwardenSecretReference → BitwardenProvider → Fetch × BitwardenProvider
  unfolding with_client ensured
  fetch_locked true ref p = (blocked, p)
  fetch_locked false ref p = with_client ref (ensured p.password p.client) p

  fetch_validated :
      BitwardenSecretReference → Option RefError → BitwardenProvider → Fetch × BitwardenProvider
  unfolding fetch_locked
  fetch_validated ref (some e) p = (returned (err (invalid_reference e)), p)
  fetch_validated ref none p = fetch_locked p.locked ref p

  fetch_parsed :
      Result RefError BitwardenSecretReference → BitwardenProvider → Fetch × BitwardenProvider
  unfolding fetch_validated
  fetch_parsed (err e) p = (returned (err (invalid_reference e)), p)
  fetch_parsed (ok ref) p = fetch_validated ref (validate ref) p

  -- FetchSecret
  unfoldable pub fetch_secret : Bytes → BitwardenProvider → Fetch × BitwardenProvider
  unfolding fetch_parsed
  fetch_secret path p = fetch_parsed (parse path) p

-- What NewBitwardenProvider calls: the environment's variables, and OpenTelemetry's meter.
pub record Start : Type 0 where
  pub getenv : Bytes → Bytes
  pub meter : Meter

abbrev pub required : Bytes → Error
required name = errorf (name ++ codes " is required")

abbrev pub with_session : Bytes → ProviderMetrics → Call → Go Error BitwardenProvider
with_session password metrics (panic, client) = panic
with_session password metrics (fail e, client) =
    fail (wrap (codes "failed to authenticate with Bitwarden: ") e)
with_session password metrics (ret done, client) =
    ret (record { client = client; password = password; metrics = metrics; locked = false })

abbrev pub with_instruments :
    Environment → Start → Bytes → Bytes → Result Error ProviderMetrics → Go Error BitwardenProvider
with_instruments env s email password (err e) = fail (wrap (codes "failed to create metrics: ") e)
with_instruments env s email password (ok metrics) =
    with_session password metrics
      (authenticate env password (new_bitwarden_client (s.getenv (codes "BW_SERVER_URL")) email))

-- NewBitwardenProvider
unfoldable pub new_bitwarden_provider : Environment → Start → Go Error BitwardenProvider
new_bitwarden_provider env s =
    let email = s.getenv (codes "BW_EMAIL") in
    let password = s.getenv (codes "BW_PASSWORD") in
    if not (str_eq (s.getenv (codes "ENABLE_BITWARDEN")) (codes "true"))
    then fail (errorf (codes "Bitwarden provider not enabled (set ENABLE_BITWARDEN=true)"))
    else if is_empty email
    then fail (required (codes "BW_EMAIL"))
    else if is_empty password
    then fail (required (codes "BW_PASSWORD"))
    else with_instruments env s email password (new_provider_metrics s.meter (codes "bitwarden"))
