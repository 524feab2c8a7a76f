-- ===== src/OnePassword/Failures.antt =====
-- What FetchSecret reports when the SDK finds no item of the title.
use jasm.Base.{
  ◌≡◌, ◌≢◌, refl, ◌+◌, Bool, true, false, ◌||◌, List, [], ◌∷◌, ◌++◌, ok, err, if◌then◌else◌, All,
  arith, Bool-cases, inl, inr,
}
use jasm.Text.{Bytes, codes, contains, to_lower, has_prefix}
use jasm.Text.Laws.{str_eq_iff, contains-append_left, contains-append_right, to_lower-append}
use jasm.Errors.{Error, message}
use jasm.Errors.Quote.{quote, lower_quote-contains, too_many_code}
use jasm.Metrics.{ProviderMetrics, record_rate_limit, recorded}
use jasm.Reference.OnePassword.{SecretReference, has_field, parse}
use jasm.Reference.OnePassword.RoundTrip.{parse-validate}
use jasm.OnePassword.{
  Overview, Sdk, find_title, item_missing, is_rate_limited, rate_limited, vault_denied, wrap_error,
  lookup_vault_id, fetch_all_fields, fetch_reference, fetch_secret,
}

abbrev pub Untitled : Bytes → List Overview → Type 0
Untitled title = All (λ o. o.title ≢ title)

find_title_missing :
    (title : Bytes) (missing : Error) (os : List Overview)
    → Untitled title os
    → find_title title missing os ≡ err missing
unfolding find_title
find_title_missing title missing [] h = refl
find_title_missing title missing (o ∷ os) (ne, h) =
    ground (arith, str_eq_iff o.title title, find_title_missing title missing os h)

item_missing-contains :
    (title : Bytes)
    → (contains (message (item_missing title)) (codes "vault") ≡ true)
      × (contains (message (item_missing title)) (codes "not found") ≡ true)
unfolding message
item_missing-contains title =
    let tail = codes " not found in vault" in
    let under = λ (p : Bytes) (h : contains tail p ≡ true).
      contains-append_right (codes "item ") (quote title ++ tail) p
        (contains-append_right (quote title) tail p h) in
    (
      under (codes "vault") (unfold contains has_prefix in refl),
      under (codes "not found") (unfold contains has_prefix in refl),
    )

wrap_item_missing :
    (title : Bytes) (ref : SecretReference) → wrap_error (item_missing title) ref ≡ vault_denied ref
unfolding wrap_error
wrap_item_missing title ref = rw ((item_missing-contains title).0, (item_missing-contains title).1)

pub fetch_secret-parsed :
    (sdk : Sdk) (path : Bytes) (m : ProviderMetrics) (ref : SecretReference)
    → parse path ≡ ok ref
    → fetch_secret sdk path m ≡ fetch_reference sdk ref m
unfolding fetch_secret
fetch_secret-parsed sdk path m ref h = rw (h, (parse-validate path h).1)

second_of_three : (x y : Bool) → (x || (true || y)) ≡ true
second_of_three true y = refl
second_of_three false y = refl

-- An error that quotes a text with the digits 429 passes for a rate limit.
item_429 : (a b : Bytes) → is_rate_limited (item_missing (a ++ (codes "429" ++ b))) ≡ true
unfolding is_rate_limited message
item_429 a b =
    let t = a ++ (codes "429" ++ b) in
    let tail = codes " not found in vault" in
    let shown = lower_quote-contains a (codes "429") b too_many_code.0 too_many_code.1 in
    let low = to_lower (message (item_missing t)) in
    let parts : low ≡ to_lower (codes "item ") ++ (to_lower (quote t) ++ to_lower tail) =
      rw (to_lower-append (codes "item ") (quote t ++ tail), to_lower-append (quote t) tail) in
    let holds : contains low (codes "429") ≡ true = rw parts (
      contains-append_right (to_lower (codes "item ")) _ (codes "429")
        (contains-append_left (to_lower (quote t)) (to_lower tail) (codes "429") shown)) in
    rw holds (
      second_of_three (contains low (codes "rate limit"))
        (contains low (codes "too many requests")))

module _ (sdk : Sdk) (path : Bytes) (m : ProviderMetrics) (ref : SecretReference)
    (parsed : parse path ≡ ok ref) (whole : has_field ref ≡ false) (vault_id : Bytes)
    (vault_found : lookup_vault_id sdk ref.vault ≡ ok vault_id) (items : List Overview)
    (listed : sdk.list_items vault_id ≡ ok items) (absent : Untitled ref.item items) where
  fetch_missing : fetch_all_fields sdk ref ≡ err (item_missing ref.item)
  unfolding fetch_all_fields
  fetch_missing =
      rw (vault_found, listed, find_title_missing ref.item (item_missing ref.item) items absent)

  -- When the vault exists and the item does not, FetchSecret never says so: the text of its own lookup
  -- error names the vault, so it reports that the vault was not found or access was denied, unless the
  -- text passes for a rate limit.
  pub missing_item_blames_vault :
      (fetch_secret sdk path m).0
      ≡ err (if is_rate_limited (item_missing ref.item) then rate_limited else vault_denied ref)
  missing_item_blames_vault = rw (fetch_secret-parsed sdk path m ref parsed) (
      unfold fetch_reference in
      rw (whole, fetch_missing)
        (elim (Bool-cases (is_rate_limited (item_missing ref.item))) [
          | inl e ↦ rw e
          | inr e ↦ rw (e, wrap_item_missing ref.item ref)
        ]))

  -- When the title of the missing item holds the digits 429, FetchSecret reports a rate limit, and counts
  -- one.
  pub missing_item_429 :
      (a b : Bytes)
      → ref.item ≡ a ++ (codes "429" ++ b)
      → ((fetch_secret sdk path m).0 ≡ err rate_limited)
        × ((fetch_secret sdk path m).1.rate_limits_total ≡ m.rate_limits_total + 1)
  missing_item_429 a b e =
      let limited : is_rate_limited (item_missing ref.item) ≡ true = rw e (item_429 a b) in
      rw (fetch_secret-parsed sdk path m ref parsed) (
        unfold fetch_reference record_rate_limit recorded in
        rw (whole, fetch_missing, limited) (refl, refl))
