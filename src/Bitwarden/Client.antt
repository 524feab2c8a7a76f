-- ===== src/Bitwarden/Client.antt =====
-- internal/provider/bitwarden_client.go: the client's state, its cache and FindItem. Times are in
-- nanoseconds since the zero time.
pub mod Find
pub mod Sync
pub mod Vault
pub mod Session
use jasm.Base.{
  ℕ, ◌+◌, Bool, true, false, ◌&&◌, ◌||◌, not, List, [], ◌∷◌, ◌++◌, Option, none, some, Result, ok,
  err, ltb, leb, ◌==◌, if◌then◌else◌,
}
use jasm.Text.{Bytes, codes, str_eq, is_empty, to_lower, trim_suffix}
use jasm.Errors.{Error, errorf}
use jasm.Errors.Quote.{quote}
use jasm.StrMap.{StrMap}
use jasm.Bitwarden.Items.{DecryptedItem}

-- type VaultCache
pub record VaultCache : Type 0 where
  pub folders : StrMap Bytes
  pub items : List DecryptedItem
  pub expiry : ℕ

-- type BitwardenClient, less the HTTP client; `none` is a MAC key that is nil
pub record BitwardenClient : Type 0 where
  pub server_url : Bytes
  pub email : Bytes
  pub master_key : Bytes
  pub stretched_enc : Bytes
  pub stretched_mac : Option Bytes
  pub sym_key : Bytes
  pub sym_mac : Option Bytes
  pub access_token : Bytes
  pub token_expiry : ℕ
  pub cache : VaultCache
  pub cache_ttl : ℕ

-- defaultBitwardenURL and defaultCacheTTL
abbrev pub default_bitwarden_url : Bytes
default_bitwarden_url = codes "https://vault.bitwarden.com"

abbrev pub default_cache_ttl : ℕ
default_cache_ttl = 300_000_000_000

-- NewBitwardenClient
unfoldable pub new_bitwarden_client : Bytes → Bytes → BitwardenClient
new_bitwarden_client server_url email = record {
  server_url =
      trim_suffix (if is_empty server_url then default_bitwarden_url else server_url) (codes "/");
  email = to_lower email;
  master_key = [];
  stretched_enc = [];
  stretched_mac = none;
  sym_key = [];
  sym_mac = none;
  access_token = [];
  token_expiry = 0;
  cache = record { folders = []; items = []; expiry = 0 };
  cache_ttl = default_cache_ttl;
}

-- (c *VaultCache) Clear
unfoldable pub clear : VaultCache → VaultCache
clear c = record { folders = []; items = []; expiry = 0 }

-- (c *VaultCache) IsValid, at the time `now`
unfoldable pub is_valid : ℕ → VaultCache → Bool
is_valid now c = ltb now c.expiry

-- IsCacheValid
unfoldable pub is_cache_valid : ℕ → BitwardenClient → Bool
unfolding is_valid
is_cache_valid now c = is_valid now c.cache

-- IsAuthenticated
unfoldable pub is_authenticated : ℕ → BitwardenClient → Bool
is_authenticated now c = not (is_empty c.access_token) && ltb now c.token_expiry

-- for id, name := range c.cache.folders: the ID of the first folder with the name, or ""
unfoldable pub find_folder_id : Bytes → StrMap Bytes → Bytes
find_folder_id folder_name [] = []
find_folder_id folder_name ((id, name) ∷ folders) =
    if str_eq name folder_name then id else find_folder_id folder_name folders

-- item.FolderID != nil && *item.FolderID == folderID
unfoldable pub in_folder : Bytes → Option Bytes → Bool
in_folder folder_id none = false
in_folder folder_id (some id) = str_eq id folder_id

abbrev pub folder_missing : Bytes → Error
folder_missing folder_name = errorf (codes "folder " ++ (quote folder_name ++ codes " not found"))

abbrev pub item_missing : Bytes → Bytes → Error
item_missing item_name folder_name =
    errorf
      (codes "item " ++ (quote item_name ++ (codes " not found in folder " ++ quote folder_name)))

-- for _, item := range c.cache.items
unfoldable pub find_in_folder :
    Bytes → Bytes → Bytes → List DecryptedItem → Result Error DecryptedItem
unfolding in_folder
find_in_folder folder_name folder_id item_name [] = err (item_missing item_name folder_name)
find_in_folder folder_name folder_id item_name (item ∷ items) =
    if in_folder folder_id item.folder_id && str_eq item.name item_name
    then ok item
    else find_in_folder folder_name folder_id item_name items

-- FindItem, over the cache
unfoldable pub find_item : VaultCache → Bytes → Bytes → Result Error DecryptedItem
unfolding find_in_folder find_folder_id
find_item c folder_name item_name =
    let folder_id = find_folder_id folder_name c.folders in
    if is_empty folder_id
    then err (folder_missing folder_name)
    else find_in_folder folder_name folder_id item_name c.items
