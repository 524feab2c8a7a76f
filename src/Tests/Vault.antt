-- ===== src/Tests/Vault.antt =====
-- A vault of internal/provider/bitwarden_client.go with one folder and one item.
use jasm.Base.{pos, inl, inr, true, length, ◌≡◌, refl, [], ◌∷◌, none, some}
use jasm.Text.{Bytes, codes, is_empty, str_eq, split}
use jasm.Text.Base64.{base64_decode}
use jasm.StrMap
use jasm.StrMap.{insert}
use jasm.Bitwarden.Crypto.{
  fail, mac_failed, ret, parse_cipher_string, decrypt_cipher_string, decrypt_parsed,
  decrypt_checked, mac_accepts, cbc_decrypt, xor_bytes, last, unpad_last, unpad, all_equal,
  is_key_size,
}
use jasm.Bitwarden.Client.{VaultCache}
use jasm.Bitwarden.Client.Vault.{
  Cipher, CipherLogin, decrypt_cipher, SyncResponse, sync_vault, type_name,
}
use jasm.Bitwarden.Client.Vault.Opened.{IsVaultOf, sync_vault-IsVaultOf}
use jasm.Bitwarden.Crypto.Seal.{seal}
use jasm.Bitwarden.Items.{DecryptedItem, DecryptedLogin, to_secret_map}
use jasm.Bitwarden.Client.Vault.Sealed.{IsSealed, IsStored, IsLoginOf, IsCipherOf}
use jasm.Bitwarden.Client.Vault.Dropped.{without_password, tampered_password_dropped}
use jasm.Bitwarden.Client.Vault.Restored.{IsRestored, sync_vault_restores}
use jasm.Tests.Ciphers.{plain, key, sealed, plain_encrypt, plain-IsCipher, byte_sized, are_bytes}

-- The password is no encrypted string.
abbrev pub response : SyncResponse
response = record {
  ciphers =
      record {
        id = codes "7";
        folder_id = some (codes "1");
        item_type = pos 1;
        name = sealed;
        notes = none;
        login = some record { username = sealed; password = codes "p"; totp = []; uris = [] };
        card = none;
        fields = [];
      }
      ∷ [];
  folders = record { id = codes "1"; name = sealed } ∷ [];
}

abbrev cache : VaultCache
cache = record {
  folders = (codes "1", codes "x") ∷ [];
  items =
      record {
        id = codes "7";
        name = codes "x";
        item_type = pos 1;
        type_name = codes "Login";
        notes = [];
        login = some record { username = codes "x"; password = []; totp = []; uris = [] };
        card = none;
        fields = [];
        folder_id = some (codes "1");
      }
      ∷ [];
  expiry = 9;
}

response_opens : sync_vault plain key (some key) response 9 ≡ ret cache
unfolding sync_vault parse_cipher_string base64_decode decrypt_cipher_string decrypt_parsed
    decrypt_checked mac_accepts cbc_decrypt xor_bytes last unpad_last unpad all_equal is_key_size
    is_empty str_eq split insert
response_opens = refl

sync_vault-IsVaultOf_example : IsVaultOf plain key (some key) response 9 cache
sync_vault-IsVaultOf_example =
    sync_vault-IsVaultOf plain key (some key) response 9 cache response_opens

-- A vault with a folder and a login that were encrypted under the key.
abbrev sealed_text : Bytes → Bytes
sealed_text text = seal plain_encrypt plain key key key text

abbrev stored_login : CipherLogin
stored_login = record {
  username = [];
  password = sealed_text (codes "hunter2");
  totp = [];
  uris = sealed_text (codes "u") ∷ [];
}

abbrev stored_cipher : Cipher
stored_cipher = record {
  id = codes "7";
  folder_id = some (codes "1");
  item_type = pos 1;
  name = sealed_text (codes "db");
  notes = none;
  login = some stored_login;
  card = none;
  fields = record { name = sealed_text (codes "k"); value = []; field_type = pos 0 } ∷ [];
}

abbrev pub stored : SyncResponse
stored = record {
  ciphers = stored_cipher ∷ [];
  folders = record { id = codes "1"; name = sealed_text (codes "prod") } ∷ [];
}

abbrev login : DecryptedLogin
login = record { username = []; password = codes "hunter2"; totp = []; uris = codes "u" ∷ [] }

abbrev pub item : DecryptedItem
item = record {
  id = codes "7";
  name = codes "db";
  item_type = pos 1;
  type_name = codes "Login";
  notes = [];
  login = some login;
  card = none;
  fields = record { name = codes "k"; value = []; field_type = pos 0 } ∷ [];
  folder_id = some (codes "1");
}

pub key_size : is_key_size (length key) ≡ true
unfolding is_key_size
key_size = refl

text-IsSealed :
    (text : Bytes)
    → byte_sized text ≡ true
    → IsSealed plain plain_encrypt key key (sealed_text text) text
text-IsSealed text h = record {
  iv = key;
  vector = record { size = refl; bytes = are_bytes key refl };
  bytes = are_bytes text h;
  same = refl;
}

login-IsLoginOf : IsLoginOf plain plain_encrypt key key stored_login login
login-IsLoginOf = record {
  username = inr (refl, refl);
  password = inl (text-IsSealed (codes "hunter2") refl);
  totp = inr (refl, refl);
  uris = (text-IsSealed (codes "u") refl, tt);
}

item-IsCipherOf : IsCipherOf plain plain_encrypt key key stored_cipher item
unfolding type_name
item-IsCipherOf = record {
  id = refl;
  folder_id = refl;
  item_type = refl;
  type_named = refl;
  name = inl (text-IsSealed (codes "db") refl);
  notes = refl;
  login = login-IsLoginOf;
  card = tt;
  fields = (
    record {
      name = inl (text-IsSealed (codes "k") refl);
      value = inr (refl, refl);
      field_type = refl;
    },
    tt,
  );
}

pub stored-IsStored :
    IsStored plain plain_encrypt key key stored ((codes "1", codes "prod") ∷ []) (item ∷ [])
unfolding StrMap.lookup
stored-IsStored = record {
  named = ((refl, inl (text-IsSealed (codes "prod") refl)), tt);
  unique = (refl, tt);
  kept = (item-IsCipherOf, tt);
}

sync_vault_restores_example :
    IsRestored plain plain_encrypt key key plain-IsCipher key_size stored
      ((codes "1", codes "prod") ∷ [])
      (item ∷ [])
      9
sync_vault_restores_example =
    sync_vault_restores plain plain_encrypt key key plain-IsCipher key_size stored
      ((codes "1", codes "prod") ∷ []) (item ∷ []) 9 stored-IsStored

-- An encrypted text with another MAC.
abbrev forged : Bytes
forged = codes "2.AAAAAAAAAAAAAAAAAAAAAA==|eA8PDw8PDw8PDw8PDw8PDw==|Bg=="

forged_refused : decrypt_cipher_string plain forged key (some key) ≡ fail mac_failed
unfolding parse_cipher_string base64_decode decrypt_cipher_string decrypt_parsed mac_accepts
    is_empty str_eq split
forged_refused = refl

tampered_password_dropped_example :
    (decrypt_cipher plain key
        (some key)
        (record stored_cipher { login = some (record stored_login { password = forged }) })
      ≡ ret (record item { login = some (without_password login) }))
    × (StrMap.lookup
          (codes "password")
          (to_secret_map (record item { login = some (without_password login) }))
        ≡ none)
tampered_password_dropped_example =
    tampered_password_dropped plain plain_encrypt key key plain-IsCipher key_size stored_cipher item
      stored_login login forged mac_failed item-IsCipherOf login-IsLoginOf (λ e. cc e)
      forged_refused ((λ e. cc e), tt)
