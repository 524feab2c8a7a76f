-- ===== src/Bitwarden/Client/Vault/Dropped.antt =====
-- What decryptCipher of internal/provider/bitwarden_client.go makes of a password that it cannot decrypt, and
-- what ToSecretMap of bitwarden_types.go makes of that.
use jasm.Base.{
  ◌≡◌, ◌≢◌, refl, ◌∙◌, true, false, List, [], ◌∷◌, Option, none, some, ◌⊎◌, inl, inr, length, All,
  All-append, arith, Bool-cases,
}
use jasm.Text.{Bytes, codes, str_eq, is_empty}
use jasm.Text.Laws.{str_eq_iff, is_empty-false}
use jasm.StrMap.{StrMap, lookup}
use jasm.Bitwarden.Crypto.{ret, fail, CryptoError, Primitives, is_key_size}
use jasm.Bitwarden.Crypto.Seal.{IsCipher}
use jasm.Bitwarden.Items.{
  DecryptedItem, DecryptedLogin, DecryptedCard, DecryptedField, to_secret_map,
}
use jasm.Bitwarden.Items.Data.{
  entries, login_entries, card_entries, field_entries, last_filled, to_secret_map_exact,
}
use jasm.Bitwarden.Client.Vault.{
  CipherLogin, Cipher, opened, opened_filled, decrypt_login, decrypt_cipher,
}
use jasm.Bitwarden.Client.Vault.Sealed.{IsLoginOf, IsCipherOf, decrypt_uris-sealed}
use jasm.Bitwarden.Client.Vault.Restored.{cipher_with_login, filled_text}

-- An entry that does not fill the key.
abbrev Leaves : Bytes → Bytes × Bytes → Type 0
Leaves k (j, v) = (str_eq j k ≡ false) ⊎ (v ≡ [])

last_filled-none : (k : Bytes) (m : StrMap Bytes) → All (Leaves k) m → last_filled k m ≡ none
unfolding is_empty
last_filled-none k [] h = refl
last_filled-none k ((j, v) ∷ m) (inl h, rest) = rw (last_filled-none k m rest, h) (ground arith)
last_filled-none k ((j, v) ∷ m) (inr h, rest) = rw (last_filled-none k m rest, h) (ground arith)

str_eq-apart : (s t : Bytes) → s ≢ t → str_eq s t ≡ false
str_eq-apart s t h = elim (Bool-cases (str_eq s t)) [
  | inl e ↦ absurd (h ((str_eq_iff s t).0 e))
  | inr e ↦ e
]

-- The password of the login is empty.
abbrev pub without_password : DecryptedLogin → DecryptedLogin
without_password l = record l { password = [] }

login-Leaves :
    (l : DecryptedLogin)
    → All (Leaves (codes "password")) (login_entries (some (without_password l)))
unfolding str_eq
login-Leaves l = (inl refl, (inr refl, (inl refl, tt)))

card-Leaves : (c : Option DecryptedCard) → All (Leaves (codes "password")) (card_entries c)
unfolding str_eq
card-Leaves none = tt
card-Leaves (some c) = (inl refl, (inl refl, (inl refl, (inl refl, (inl refl, (inl refl, tt))))))

fields-Leaves :
    (fields : List DecryptedField)
    → All (λ f. f.name ≢ codes "password") fields
    → All (Leaves (codes "password")) (field_entries fields)
fields-Leaves [] h = tt
fields-Leaves (f ∷ fields) (here, rest) =
    (inl (str_eq-apart f.name (codes "password") here), fields-Leaves fields rest)

-- A secret map without a password in the login has none under that key, where no field has the name.
no_password :
    (item : DecryptedItem) (l : DecryptedLogin)
    → item.login ≡ some (without_password l)
    → All (λ f. f.name ≢ codes "password") item.fields
    → lookup (codes "password") (to_secret_map item) ≡ none
unfolding str_eq
no_password item l h fields =
    (to_secret_map_exact item).0 (codes "password")
    ∙ last_filled-none (codes "password") (entries item) (
        All-append (Leaves (codes "password")) (login_entries item.login) _ (rw h (login-Leaves l))
          (All-append (Leaves (codes "password")) (card_entries item.card) _ (card-Leaves item.card)
            (All-append (Leaves (codes "password")) (field_entries item.fields) _
              (fields-Leaves item.fields fields) (inl refl, tt))))

module _ (prim : Primitives) (encrypt_block : Bytes → Bytes → Bytes) (key mac_key : Bytes)
    (cipher : IsCipher prim encrypt_block) (size : is_key_size (length key) ≡ true) where
  -- The cipher with another password.
  abbrev pub tampered : Cipher → CipherLogin → Bytes → Cipher
  tampered c lc s = record c { login = some (record lc { password = s }) }

  tampered_login :
      (lc : CipherLogin) (l : DecryptedLogin) (s : Bytes) (e : CryptoError)
      → IsLoginOf prim encrypt_block key mac_key lc l
      → s ≢ []
      → opened prim key (some mac_key) s ≡ fail e
      → decrypt_login prim key (some mac_key) (some (record lc { password = s }))
        ≡ ret (some (without_password l))
  unfolding decrypt_login opened_filled
  tampered_login lc l s e h there refused =
      rw
        (
          filled_text prim encrypt_block key mac_key cipher size lc.username l.username h.username,
          is_empty-false s there,
          refused,
          filled_text prim encrypt_block key mac_key cipher size lc.totp l.totp h.totp,
          decrypt_uris-sealed prim encrypt_block key mac_key cipher size lc.uris l.uris h.uris,
        )
        refl

  -- An item that a client stored with a login, whose password is then replaced by a text that is not empty
  -- and that DecryptString refuses, because its MAC does not fit or otherwise, is decrypted without an error
  -- to the same item with an empty password; and unless a custom field has that name, its secret map has no
  -- key `password`.
  pub tampered_password_dropped :
      (c : Cipher) (item : DecryptedItem) (lc : CipherLogin) (l : DecryptedLogin) (s : Bytes)
      (e : CryptoError)
      → IsCipherOf prim encrypt_block key mac_key c item
      → IsLoginOf prim encrypt_block key mac_key lc l
      → s ≢ []
      → opened prim key (some mac_key) s ≡ fail e
      → All (λ f. f.name ≢ codes "password") item.fields
      → (decrypt_cipher prim key (some mac_key) (tampered c lc s)
          ≡ ret (record item { login = some (without_password l) }))
        × (lookup
              (codes "password")
              (to_secret_map (record item { login = some (without_password l) }))
            ≡ none)
  tampered_password_dropped c item lc l s e h hl there refused fields = (
    cipher_with_login prim encrypt_block key mac_key cipher size c item _ _ h
        (tampered_login lc l s e hl there refused),
    no_password (record item { login = some (without_password l) }) l refl fields,
  )
