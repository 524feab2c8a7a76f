-- ===== src/OnePassword.antt =====
-- internal/provider/onepassword.go. The 1Password SDK is a parameter; the retry queue that the
-- provider starts is RetryQueue, and FetchSecret does not use it.
pub mod Failures
pub mod Setup
pub mod Fetch
use jasm.Base.{
  ℕ, Bool, true, false, ◌&&◌, ◌||◌, not, List, [], ◌∷◌, ◌++◌, Option, none, some, Result, ok, err,
  ◌>>=◌, map_err, if◌then◌else◌,
}
use jasm.Text.{Bytes, codes, str_eq, is_empty, contains, to_lower}
use jasm.Errors.{Error, errorf, wrap, message}
use jasm.Errors.Quote.{quote}
use jasm.StrMap
use jasm.StrMap.{StrMap}
use jasm.Metrics.{ProviderMetrics, success, error, record_rate_limit, recorded}
use jasm.Reference.{RefError}
use jasm.Reference.OnePassword.{SecretReference, parse, validate, has_field, to_string, ref_message}

-- A vault or an item as the SDK lists it.
pub record Overview : Type 0 where
  pub id : Bytes
  pub title : Bytes

-- A field of an item of the SDK.
pub record ItemField : Type 0 where
  pub title : Bytes
  pub value : Bytes

-- onepassword.Client: Vaults().List, Items().List, Items().Get and Secrets().Resolve.
pub record Sdk : Type 0 where
  pub list_vaults : Result Error (List Overview)
  pub list_items : Bytes → Result Error (List Overview)
  pub get_item : Bytes → Bytes → Result Error (List ItemField)
  pub resolve : Bytes → Result Error Bytes

-- The ID of the first that has the title.
unfoldable pub find_title : Bytes → Error → List Overview → Result Error Bytes
find_title title missing [] = err missing
find_title title missing (o ∷ rest) =
    if str_eq o.title title then ok o.id else find_title title missing rest

abbrev pub vault_missing : Bytes → Error
vault_missing name = errorf (codes "vault " ++ (quote name ++ codes " not found"))

abbrev pub item_missing : Bytes → Error
item_missing title = errorf (codes "item " ++ (quote title ++ codes " not found in vault"))

abbrev pub no_fields : Bytes → Error
no_fields item = errorf (codes "no fields found in item " ++ quote item)

-- for _, field := range item.Fields
unfoldable pub collect_fields : List ItemField → StrMap Bytes → StrMap Bytes
collect_fields [] secrets = secrets
collect_fields (field ∷ fields) secrets = collect_fields fields (
    if is_empty field.title || is_empty field.value
    then secrets
    else StrMap.insert field.title field.value secrets)

abbrev pub or_no_fields : Bytes → StrMap Bytes → Result Error (StrMap Bytes)
or_no_fields item [] = err (no_fields item)
or_no_fields item (entry ∷ secrets) = ok (entry ∷ secrets)

-- isRateLimited, of an error that is not nil
unfoldable pub is_rate_limited : Error → Bool
is_rate_limited e =
    let text = to_lower (message e) in
    contains text (codes "rate limit")
    || (contains text (codes "429") || contains text (codes "too many requests"))

abbrev pub rate_limited : Error
rate_limited = errorf (codes "rate limited by 1Password API")

abbrev pub vault_denied : SecretReference → Error
vault_denied ref =
    errorf (codes "vault " ++ (quote ref.vault ++ codes " not found or access denied"))

abbrev pub item_not_found : SecretReference → Error
item_not_found ref =
    errorf (codes "item " ++ (quote ref.item ++ (codes " not found in vault " ++ quote ref.vault)))

abbrev pub field_not_found : SecretReference → Error
field_not_found ref =
    errorf (codes "field " ++ (quote ref.field ++ (codes " not found in item " ++ quote ref.item)))

-- (p *OnePasswordProvider) wrapError
unfoldable pub wrap_error : Error → SecretReference → Error
wrap_error e ref =
    let text = message e in
    if contains text (codes "vault") && contains text (codes "not found")
    then vault_denied ref
    else if contains text (codes "item") && contains text (codes "not found")
    then item_not_found ref
    else if contains text (codes "field") && contains text (codes "not found")
    then field_not_found ref
    else if contains text (codes "unauthorized") || contains text (codes "authentication")
    then wrap (codes "authentication failed: ") e
    else if contains text (codes "network") || contains text (codes "connection")
    then wrap (codes "failed to connect to 1Password: ") e
    else wrap (codes "failed to resolve secret from 1Password: ") e

abbrev pub invalid_reference : RefError → Error
invalid_reference e = wrap (codes "invalid 1Password secret reference: ") (errorf (ref_message e))

-- The error, and the metrics, of a request that failed.
unfoldable pub failure :
    SecretReference → Error → ProviderMetrics → Result Error (StrMap Bytes) × ProviderMetrics
unfolding recorded record_rate_limit
failure ref e m =
    if is_rate_limited e
    then (err rate_limited, record_rate_limit (recorded error ref.vault m))
    else (err (wrap_error e ref), recorded error ref.vault m)

abbrev pub answered :
    SecretReference
    → Result Error (StrMap Bytes)
    → ProviderMetrics
    → Result Error (StrMap Bytes) × ProviderMetrics
answered ref (err e) m = failure ref e m
answered ref (ok secrets) m = (ok secrets, recorded success ref.vault m)

module _ (sdk : Sdk) where
  -- lookupVaultID
  unfoldable pub lookup_vault_id : Bytes → Result Error Bytes
  unfolding find_title
  lookup_vault_id name = do
    vaults ← map_err (wrap (codes "failed to list vaults: ")) sdk.list_vaults
    find_title name (vault_missing name) vaults

  -- lookupItemID
  unfoldable pub lookup_item_id : Bytes → Bytes → Result Error Bytes
  unfolding find_title
  lookup_item_id vault_id title = do
    items ← map_err (wrap (codes "failed to list items: ")) (sdk.list_items vault_id)
    find_title title (item_missing title) items

  -- fetchAllFields
  unfoldable pub fetch_all_fields : SecretReference → Result Error (StrMap Bytes)
  unfolding lookup_vault_id lookup_item_id collect_fields
  fetch_all_fields ref = do
    vault_id ← lookup_vault_id ref.vault
    item_id ← lookup_item_id vault_id ref.item
    fields ← sdk.get_item vault_id item_id
    or_no_fields ref.item (collect_fields fields [])

  -- resolveSecret, and the single entry that FetchSecret makes of its result
  unfoldable pub resolve_field : SecretReference → Result Error (StrMap Bytes)
  resolve_field ref = do secret ← sdk.resolve (to_string ref); ok ((ref.field, secret) ∷ [])

  -- FetchSecret behind the parser
  unfoldable pub fetch_reference :
      SecretReference → ProviderMetrics → Result Error (StrMap Bytes) × ProviderMetrics
  unfolding fetch_all_fields resolve_field failure
  fetch_reference ref m =
      if not (has_field ref)
      then answered ref (fetch_all_fields ref) m
      else answered ref (resolve_field ref) m

  fetch_validated :
      SecretReference
      → Option RefError
      → ProviderMetrics
      → Result Error (StrMap Bytes) × ProviderMetrics
  unfolding fetch_reference
  fetch_validated ref (some e) m = (err (invalid_reference e), m)
  fetch_validated ref none m = fetch_reference ref m

  fetch_parsed :
      Result RefError SecretReference
      → ProviderMetrics
      → Result Error (StrMap Bytes) × ProviderMetrics
  unfolding fetch_validated
  fetch_parsed (err e) m = (err (invalid_reference e), m)
  fetch_parsed (ok ref) m = fetch_validated ref (validate ref) m

  -- FetchSecret
  unfoldable pub fetch_secret :
      Bytes → ProviderMetrics → Result Error (StrMap Bytes) × ProviderMetrics
  unfolding fetch_parsed
  fetch_secret path m = fetch_parsed (parse path) m
