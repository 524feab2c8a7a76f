-- ===== src/Bitwarden/Provider/Stored.antt =====
-- From the vault that a client stored to what FetchSecret of internal/provider/bitwarden.go returns:
-- SyncVault and FindItem of bitwarden_client.go, DecryptString of bitwarden_crypto.go and ToSecretMap of
-- bitwarden_types.go, one after the other.
use jasm.Base.{
  ℕ, ◌≡◌, ◌≢◌, refl, sym, ap, ◌∙◌, subst, true, false, List, [], ◌∷◌, ◌++◌, some, Result, ok, err,
  length, All,
}
use jasm.Text.{Bytes}
use jasm.Errors.{Error}
use jasm.StrMap.{StrMap, lookup}
use jasm.Reference.Bitwarden.{BitwardenSecretReference, parse}
use jasm.Bitwarden.Crypto.{ret, Primitives, is_key_size}
use jasm.Bitwarden.Crypto.Seal.{IsCipher}
use jasm.Bitwarden.Items.{DecryptedItem, to_secret_map}
use jasm.Bitwarden.Client.{is_cache_valid, is_authenticated, find_item}
use jasm.Bitwarden.Client.Find.{StandsIn, IsFirst, Answers, find_item-Answers}
use jasm.Bitwarden.Client.Session.{Environment}
use jasm.Bitwarden.Client.Vault.{SyncResponse, sync_vault}
use jasm.Bitwarden.Client.Vault.Opened.{sync_vault-IsVaultOf}
use jasm.Bitwarden.Client.Vault.Sealed.{IsStored}
use jasm.Bitwarden.Client.Vault.Restored.{sync_vault_restores}
use jasm.Bitwarden.Provider.{
  BitwardenProvider, returned, select, counted, answered, with_client, ensured, fetch_locked,
  fetch_secret,
}
use jasm.Bitwarden.Provider.Served.{fetch_secret-parsed}

-- Nobody holds the mutex, the cache has not expired and neither has the token.
pub record IsUnlocked (cache_now token_now : ℕ) (p : BitwardenProvider) : Type 0 where
  pub unlocked : p.locked ≡ false
  pub valid : is_cache_valid cache_now p.client ≡ true
  pub authenticated : is_authenticated token_now p.client ≡ true

counted-head :
    (ref : BitwardenSecretReference) (r : Result Error (StrMap Bytes)) (p : BitwardenProvider)
    → (counted ref r p).0 ≡ returned r
unfolding counted
counted-head ref (err e) p = refl
counted-head ref (ok secrets) p = refl

-- A folder of the cache, by the only ID that has its name.
pub record IsFolder (folders : StrMap Bytes) (name id : Bytes) : Type 0 where
  pub filled : id ≢ []
  pub named : lookup id folders ≡ some name
  pub only : (other : Bytes) → lookup other folders ≡ some name → other ≡ id

-- Two lists with the same elements up to the first that stands in the folder.
first_unique :
    (folder_id item_name : Bytes) (before after : List DecryptedItem) (item : DecryptedItem)
    (front back : List DecryptedItem) (other : DecryptedItem)
    → before ++ item ∷ after ≡ front ++ other ∷ back
    → StandsIn folder_id item_name item
    → StandsIn folder_id item_name other
    → All (λ i. ¬ StandsIn folder_id item_name i) before
    → All (λ i. ¬ StandsIn folder_id item_name i) front
    → item ≡ other
first_unique f n [] after item [] back other e si so hb hf = cc e
first_unique f n [] after item (x ∷ front) back other e si so hb (hx, hf) =
    let same : item ≡ x = cc e in absurd (hx (subst (λ i. StandsIn f n i) same si))
first_unique f n (x ∷ before) after item [] back other e si so (hx, hb) hf =
    let same : other ≡ x = cc e in absurd (hx (subst (λ i. StandsIn f n i) same so))
first_unique f n (x ∷ before) after item (y ∷ front) back other e si so (hx, hb) (hy, hf) =
    first_unique f n before after item front back other (cc e) si so hb hf

none_before :
    (folder_id item_name : Bytes) (before after : List DecryptedItem) (item : DecryptedItem)
    → All (λ i. ¬ StandsIn folder_id item_name i) (before ++ item ∷ after)
    → ¬ StandsIn folder_id item_name item
none_before f n [] after item (here, rest) = here
none_before f n (x ∷ before) after item (here, rest) = none_before f n before after item rest

-- The answer that names the first item is that item.
answered_first :
    (folder_name folder_id item_name : Bytes) (items : List DecryptedItem) (item : DecryptedItem)
    (r : Result Error DecryptedItem)
    → Answers folder_name folder_id item_name items r
    → IsFirst folder_id item_name items item
    → r ≡ ok item
answered_first name f n items item (err e) (absent, text) first = absurd (
    none_before f n first.before first.after item
      (subst (λ l. All (λ i. ¬ StandsIn f n i) l) first.split absent) first.stands)
answered_first name f n items item (ok found) a first = ap ok (
    first_unique f n a.before a.after found first.before first.after item
      (sym a.split ∙ first.split) a.stands first.stands a.first first.first)

module _ (prim : Primitives) (encrypt_block : Bytes → Bytes → Bytes) (key mac_key : Bytes)
    (cipher : IsCipher prim encrypt_block) (size : is_key_size (length key) ≡ true)
    (env : Environment) (cache_now token_now : ℕ) where
  answered_unlocked :
      (p : BitwardenProvider) (ref : BitwardenSecretReference) (item : DecryptedItem)
      → IsUnlocked cache_now token_now p
      → find_item p.client.cache ref.folder ref.item_name ≡ ok item
      → (fetch_locked env cache_now token_now p.locked ref p).0
        ≡ returned (select ref (to_secret_map item))
  unfolding fetch_locked with_client ensured answered
  answered_unlocked p ref item u found =
      rw (u.unlocked, u.valid, u.authenticated, found)
        (counted-head ref (select ref (to_secret_map item)) _)

  -- FetchSecret from a vault that a client stored: where the path refers to an item, the provider is
  -- unlocked, its cache and token have not expired, its cache is what SyncVault made of a response whose
  -- texts a client had encrypted under the key and the MAC key of the session, and one folder only has the
  -- name of the reference, then it returns the field that the reference names, or every entry of the secret
  -- map, of the first item with the name of the reference that the client put into the folder.
  pub bw_fetch_secret_stored :
      (path : Bytes) (p : BitwardenProvider) (ref : BitwardenSecretReference) (sync : SyncResponse)
      (folders : StrMap Bytes) (items : List DecryptedItem) (expiry : ℕ) (id : Bytes)
      (item : DecryptedItem)
      → parse path ≡ ok ref
      → IsUnlocked cache_now token_now p
      → sync_vault prim key (some mac_key) sync expiry ≡ ret p.client.cache
      → IsStored prim encrypt_block key mac_key sync folders items
      → IsFolder folders ref.folder id
      → IsFirst id ref.item_name items item
      → (fetch_secret env cache_now token_now path p).0 ≡ returned (select ref (to_secret_map item))
  bw_fetch_secret_stored path p ref sync folders items expiry id item parsed u synced stored f
        first =
      let restored =
        sync_vault_restores prim encrypt_block key mac_key cipher size sync folders items expiry
          stored in
      let vault = sync_vault-IsVaultOf prim key (some mac_key) sync expiry p.client.cache synced in
      let same : restored.cache ≡ p.client.cache = cc (restored.synced, synced) in
      let named : (other : Bytes) → lookup other p.client.cache.folders ≡ lookup other folders =
        λ other.
          subst (λ c. lookup other c.folders ≡ lookup other folders) same (restored.named other) in
      let all : p.client.cache.items ≡ items =
        subst (λ c. c.items ≡ items) same restored.same_items in
      let answers =
        find_item-Answers p.client.cache ref.folder ref.item_name id vault.unique f.filled
          (named id ∙ f.named) (λ other h. f.only other (sym (named other) ∙ h)) in
      let found =
        answered_first ref.folder id ref.item_name items item
          (find_item p.client.cache ref.folder ref.item_name)
          (subst
            (λ l.
              Answers ref.folder id ref.item_name l
                (find_item p.client.cache ref.folder ref.item_name))
            all answers)
          first in
      ap (λ r. r.0) (fetch_secret-parsed env cache_now token_now path p ref parsed)
      ∙ answered_unlocked p ref item u found
