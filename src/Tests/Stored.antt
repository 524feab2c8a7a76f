-- ===== src/Tests/Stored.antt =====
-- A fetch of internal/provider/bitwarden.go from the vault that a client encrypted.
use jasm.Base.{sym, Bool-cases, false, ◌≡◌, refl, [], ◌∷◌, some, ok, inl, inr}
use jasm.Text.{Bytes, codes, is_empty, str_eq, split, has_prefix, trim_prefix}
use jasm.Text.Laws.{str_eq_iff}
use jasm.Text.Base64.{base64_decode, base64_encode}
use jasm.Text.Escape.{path_unescape}
use jasm.StrMap.{StrMap, lookup, insert}
use jasm.Metrics.{no_measurements}
use jasm.Reference.{path_parts, decode_parts, non_empty}
use jasm.Reference.Bitwarden.{BitwardenSecretReference, parse, from_parts, has_field}
use jasm.Bitwarden.Crypto.{
  ret, parse_cipher_string, decrypt_cipher_string, decrypt_parsed, decrypt_checked, mac_accepts,
  cbc_decrypt, xor_bytes, last, unpad_last, unpad, all_equal, is_key_size,
}
use jasm.Bitwarden.Crypto.Seal.{seal, cbc_encrypt}
use jasm.Bitwarden.Items.{to_secret_map}
use jasm.Bitwarden.Client.{VaultCache, new_bitwarden_client, is_cache_valid, is_authenticated}
use jasm.Bitwarden.Client.Find.{IsFirst}
use jasm.Bitwarden.Client.Vault.{sync_vault, type_name}
use jasm.Bitwarden.Provider.{BitwardenProvider, returned, select, fetch_secret}
use jasm.Bitwarden.Provider.Stored.{IsUnlocked, IsFolder, bw_fetch_secret_stored}
use jasm.Tests.Ciphers.{plain, key, plain_encrypt, plain-IsCipher}
use jasm.Tests.Sessions.{accepting}
use jasm.Tests.Vault.{stored, item, stored-IsStored, key_size}

abbrev folders : StrMap Bytes
folders = (codes "1", codes "prod") ∷ []

abbrev vault : VaultCache
vault = record { folders = folders; items = item ∷ []; expiry = 9 }

abbrev provider : BitwardenProvider
provider = record {
  client = record (new_bitwarden_client (codes "https://b/") (codes "A@b")) {
    access_token = codes "t";
    token_expiry = 9;
    cache = vault;
  };
  password = codes "p";
  metrics = no_measurements;
  locked = false;
}

abbrev ref : BitwardenSecretReference
ref = record { folder = codes "prod"; item_name = codes "db"; field = codes "password" }

ref_parsed : parse (codes "bw://prod/db/password") ≡ ok ref
unfolding parse path_parts has_prefix trim_prefix is_empty split decode_parts non_empty
    path_unescape from_parts
ref_parsed = refl

provider-IsUnlocked : IsUnlocked 3 3 provider
unfolding is_cache_valid is_authenticated is_empty
provider-IsUnlocked = record { unlocked = refl; valid = refl; authenticated = refl }

stored_syncs : sync_vault plain key (some key) stored 9 ≡ ret vault
unfolding sync_vault parse_cipher_string base64_decode base64_encode decrypt_cipher_string
    decrypt_parsed decrypt_checked mac_accepts cbc_decrypt xor_bytes last unpad_last unpad all_equal
    is_key_size is_empty str_eq split insert seal cbc_encrypt type_name
stored_syncs = refl

only_one : (other : Bytes) → lookup other folders ≡ some (codes "prod") → other ≡ codes "1"
unfolding lookup
only_one other h = elim (Bool-cases (str_eq (codes "1") other)) [
  | inl e ↦ sym ((str_eq_iff (codes "1") other).0 e)
  | inr e ↦ cc (rw e at h)
]

prod-IsFolder : IsFolder folders (codes "prod") (codes "1")
unfolding lookup str_eq
prod-IsFolder = record { filled = λ e. cc e; named = refl; only = only_one }

item-IsFirst : IsFirst (codes "1") (codes "db") (item ∷ []) item
item-IsFirst = record { before = []; after = []; split = refl; stands = (refl, refl); first = tt }

bw_fetch_secret_stored_example :
    (fetch_secret accepting 3 3 (codes "bw://prod/db/password") provider).0
    ≡ returned (ok ((codes "password", codes "hunter2") ∷ []))
unfolding select to_secret_map is_empty insert has_field lookup str_eq
bw_fetch_secret_stored_example =
    bw_fetch_secret_stored plain plain_encrypt key key plain-IsCipher key_size accepting 3 3
      (codes "bw://prod/db/password") provider ref stored folders (item ∷ []) 9 (codes "1") item
      ref_parsed provider-IsUnlocked stored_syncs stored-IsStored prod-IsFolder item-IsFirst
