-- ===== src/Bitwarden/Client/Vault.antt =====
-- The decryption of a vault in internal/provider/bitwarden_client.go: decryptCipher, and SyncVault behind
-- the response. The types of the response are those of bitwarden_types.go, less the fields that no code
-- reads.
pub mod Dropped
pub mod Opened
pub mod Read
pub mod Restored
pub mod Sealed
use jasm.Base.{ℤ, pos, int_eq, ℕ, ◌+◌, List, [], ◌∷◌, ◌++◌, Option, none, some, ◌==◌, if◌then◌else◌}
use jasm.Text.{Bytes, codes, is_empty}
use jasm.StrMap
use jasm.StrMap.{StrMap}
use jasm.Bitwarden.Crypto.{Go, ret, fail, panic, CryptoError, Primitives, decrypt_cipher_string}
use jasm.Bitwarden.Items.{DecryptedItem, DecryptedLogin, DecryptedCard, DecryptedField}
use jasm.Bitwarden.Client.{VaultCache, BitwardenClient}
use jasm.Bitwarden.Client.Sync.{decimal_int}

-- type CipherLogin
pub record CipherLogin : Type 0 where
  pub username : Bytes
  pub password : Bytes
  pub totp : Bytes
  pub uris : List Bytes

-- type CipherCard
pub record CipherCard : Type 0 where
  pub cardholder_name : Bytes
  pub brand : Bytes
  pub number : Bytes
  pub exp_month : Bytes
  pub exp_year : Bytes
  pub code : Bytes

-- type CipherField
pub record CipherField : Type 0 where
  pub name : Bytes
  pub value : Bytes
  pub field_type : ℤ

-- type Cipher
pub record Cipher : Type 0 where
  pub id : Bytes
  pub folder_id : Option Bytes
  pub item_type : ℤ
  pub name : Bytes
  pub notes : Option Bytes
  pub login : Option CipherLogin
  pub card : Option CipherCard
  pub fields : List CipherField

-- type SyncFolder
pub record SyncFolder : Type 0 where
  pub id : Bytes
  pub name : Bytes

-- type SyncResponse
pub record SyncResponse : Type 0 where
  pub ciphers : List Cipher
  pub folders : List SyncFolder

-- What could not be decrypted.
pub data VaultError : Type 0 where
  bad_folder_name bad_name bad_notes : CryptoError → VaultError

-- A call whose error is wrapped and returned.
abbrev pub checked :
    {A B : Type 0}
    → (CryptoError → VaultError)
    → Go CryptoError A
    → (A → Go VaultError B)
    → Go VaultError B
checked around (ret a) next = next a
checked around (fail e) next = fail (around e)
checked around panic next = panic

-- x, _ := DecryptString(…): the text is empty where there is an error
abbrev pub ignored :
    {B : Type 0} → Go CryptoError Bytes → (Bytes → Go VaultError B) → Go VaultError B
ignored (ret text) next = next text
ignored (fail e) next = next []
ignored panic next = panic

-- A call whose error is returned as it is.
abbrev pub chained : {A B : Type 0} → Go VaultError A → (A → Go VaultError B) → Go VaultError B
chained (ret a) next = next a
chained (fail e) next = fail e
chained panic next = panic

-- switch cipher.Type
unfoldable pub type_name : ℤ → Bytes
type_name item_type =
    if int_eq item_type (pos 1)
    then codes "Login"
    else if int_eq item_type (pos 2)
    then codes "SecureNote"
    else if int_eq item_type (pos 3)
    then codes "Card"
    else if int_eq item_type (pos 4)
    then codes "Identity"
    else codes "Unknown(" ++ (decimal_int item_type ++ codes ")")

module _ (prim : Primitives) (sym_key : Bytes) (sym_mac : Option Bytes) where
  -- DecryptString(…, c.symKey, c.symMac)
  abbrev pub opened : Bytes → Go CryptoError Bytes
  opened s = decrypt_cipher_string prim s sym_key sym_mac

  -- if s != "" { x, _ = DecryptString(s, …) }
  unfoldable pub opened_filled : Bytes → Go CryptoError Bytes
  opened_filled s = if is_empty s then ret [] else opened s

  -- for _, u := range cipher.Login.URIs
  unfoldable pub decrypt_uris : List Bytes → Go VaultError (List Bytes)
  decrypt_uris [] = ret []
  decrypt_uris (u ∷ uris) =
      if is_empty u
      then decrypt_uris uris
      else ignored (opened u) (λ uri. chained (decrypt_uris uris) (λ rest. ret (uri ∷ rest)))

  unfoldable pub decrypt_login : Option CipherLogin → Go VaultError (Option DecryptedLogin)
  unfolding decrypt_uris opened_filled
  decrypt_login none = ret none
  decrypt_login (some l) = ignored (opened_filled l.username) (λ username.
      ignored (opened_filled l.password) (λ password. ignored (opened_filled l.totp) (λ totp.
        chained (decrypt_uris l.uris) (λ uris.
          ret (
            some
              (record { username = username; password = password; totp = totp; uris = uris }))))))

  unfoldable pub decrypt_card : Option CipherCard → Go VaultError (Option DecryptedCard)
  decrypt_card none = ret none
  decrypt_card (some c) = ignored (opened c.cardholder_name) (λ cardholder_name.
      ignored (opened c.brand) (λ brand. ignored (opened c.number) (λ number.
        ignored (opened c.exp_month) (λ exp_month. ignored (opened c.exp_year) (λ exp_year.
          ignored (opened c.code) (λ code. ret (
            some (record {
              cardholder_name = cardholder_name;
              brand = brand;
              number = number;
              exp_month = exp_month;
              exp_year = exp_year;
              code = code;
            }))))))))

  -- for _, f := range cipher.Fields
  unfoldable pub decrypt_fields : List CipherField → Go VaultError (List DecryptedField)
  decrypt_fields [] = ret []
  decrypt_fields (f ∷ fields) = ignored (opened f.name) (λ name. ignored (opened f.value) (λ value.
      chained (decrypt_fields fields)
        (λ rest. ret (record { name = name; value = value; field_type = f.field_type } ∷ rest))))

  -- if cipher.Notes != nil
  unfoldable pub decrypt_notes : Option Bytes → Go CryptoError Bytes
  decrypt_notes none = ret []
  decrypt_notes (some notes) = opened notes

  -- decryptCipher
  unfoldable pub decrypt_cipher : Cipher → Go VaultError DecryptedItem
  unfolding decrypt_notes decrypt_login decrypt_card decrypt_fields type_name
  decrypt_cipher cipher = checked bad_name (opened cipher.name) (λ name.
      checked bad_notes (decrypt_notes cipher.notes) (λ notes.
        chained (decrypt_login cipher.login) (λ login. chained (decrypt_card cipher.card) (λ card.
          chained (decrypt_fields cipher.fields) (λ fields. ret (record {
            id = cipher.id;
            name = name;
            item_type = cipher.item_type;
            type_name = type_name cipher.item_type;
            notes = notes;
            login = login;
            card = card;
            fields = fields;
            folder_id = cipher.folder_id;
          }))))))

  -- for _, folder := range sync.Folders
  unfoldable pub decrypt_folders : List SyncFolder → StrMap Bytes → Go VaultError (StrMap Bytes)
  decrypt_folders [] out = ret out
  decrypt_folders (f ∷ folders) out =
      checked bad_folder_name (opened f.name)
        (λ name. decrypt_folders folders (StrMap.insert f.id name out))

  -- for _, cipher := range sync.Ciphers
  unfoldable pub decrypt_ciphers : List Cipher → Go VaultError (List DecryptedItem)
  unfolding decrypt_cipher
  decrypt_ciphers [] = ret []
  decrypt_ciphers (c ∷ ciphers) =
      chained (decrypt_cipher c)
        (λ item. chained (decrypt_ciphers ciphers) (λ items. ret (item ∷ items)))

  -- SyncVault, from the decoded response to the cache that it writes, which expires at the time given
  unfoldable pub sync_vault : SyncResponse → ℕ → Go VaultError VaultCache
  unfolding decrypt_folders decrypt_ciphers
  sync_vault sync expiry = chained (decrypt_folders sync.folders []) (λ folders.
      chained (decrypt_ciphers sync.ciphers)
        (λ items. ret (record { folders = folders; items = items; expiry = expiry })))
