-- ===== src/Bitwarden/Provider/Failures.antt =====
-- What FetchSecret of internal/provider/bitwarden.go reports when there is no item of the name.
use jasm.Base.{
  ◌≡◌, refl, ap, ◌∙◌, ℕ, true, false, ◌++◌, ok, err, if◌then◌else◌, Bool-cases, inl, inr,
}
use jasm.Text.{Bytes, codes, contains, has_prefix}
use jasm.Text.Laws.{contains-append_left, contains-append_right}
use jasm.Errors.{message}
use jasm.Errors.Quote.{quote}
use jasm.Reference.Bitwarden.{BitwardenSecretReference, parse}
use jasm.Bitwarden.Client.Session.{Environment}
use jasm.Bitwarden.Client.{is_cache_valid, is_authenticated, find_item, item_missing}
use jasm.Bitwarden.Provider.{
  BitwardenProvider, returned, fetch_locked, is_bw_rate_limited, rate_limited, folder_not_found,
  wrap_error, answered, ensured, with_client, fetch_secret,
}
use jasm.Bitwarden.Provider.Served.{fetch_secret-parsed}

item_missing-contains :
    (item folder : Bytes)
    → (contains (message (item_missing item folder)) (codes "folder") ≡ true)
      × (contains (message (item_missing item folder)) (codes "not found") ≡ true)
unfolding message
item_missing-contains item folder =
    let tail = codes " not found in folder " ++ quote folder in
    let under = λ (p : Bytes) (h : contains (codes " not found in folder ") p ≡ true).
      contains-append_right (codes "item ") (quote item ++ tail) p (
        contains-append_right (quote item) tail p
          (contains-append_left (codes " not found in folder ") (quote folder) p h)) in
    (
      under (codes "folder") (unfold contains has_prefix in refl),
      under (codes "not found") (unfold contains has_prefix in refl),
    )

wrap_item_missing :
    (item folder : Bytes) (ref : BitwardenSecretReference)
    → wrap_error (item_missing item folder) ref ≡ folder_not_found ref
unfolding wrap_error
wrap_item_missing item folder ref =
    rw ((item_missing-contains item folder).0, (item_missing-contains item folder).1)

module _ (env : Environment) (cache_now token_now : ℕ) where
  missing_item_free :
      (p : BitwardenProvider) (ref : BitwardenSecretReference)
      → is_cache_valid cache_now p.client ≡ true
      → is_authenticated token_now p.client ≡ true
      → find_item p.client.cache ref.folder ref.item_name
        ≡ err (item_missing ref.item_name ref.folder)
      → (fetch_locked env cache_now token_now false ref p).0
        ≡ returned (
            err (
              if is_bw_rate_limited (item_missing ref.item_name ref.folder)
              then rate_limited
              else folder_not_found ref))
  unfolding fetch_locked ensured with_client answered
  missing_item_free p ref fresh token missing =
      rw (fresh, token, missing)
        (elim (Bool-cases (is_bw_rate_limited (item_missing ref.item_name ref.folder))) [
          | inl e ↦ rw e
          | inr e ↦ rw (e, wrap_item_missing ref.item_name ref.folder ref)
        ])

  -- When FindItem finds the folder and no item of the name in it, in a client that is ready, and the mutex
  -- is free, FetchSecret reports that the folder was not found, unless the error's text passes for a rate
  -- limit.
  pub bw_missing_item_blames_folder :
      (path : Bytes) (p : BitwardenProvider) (ref : BitwardenSecretReference)
      → parse path ≡ ok ref
      → p.locked ≡ false
      → is_cache_valid cache_now p.client ≡ true
      → is_authenticated token_now p.client ≡ true
      → find_item p.client.cache ref.folder ref.item_name
        ≡ err (item_missing ref.item_name ref.folder)
      → (fetch_secret env cache_now token_now path p).0
        ≡ returned (
            err (
              if is_bw_rate_limited (item_missing ref.item_name ref.folder)
              then rate_limited
              else folder_not_found ref))
  bw_missing_item_blames_folder path p ref parsed free fresh token missing =
      rw (fetch_secret-parsed env cache_now token_now path p ref parsed) (
        ap (λ b. (fetch_locked env cache_now token_now b ref p).0) free
        ∙ missing_item_free p ref fresh token missing)
