-- ===== src/Bitwarden/Client/Vault/Sealed.antt =====
-- A vault that a client of Bitwarden encrypted, as decryptCipher and SyncVault of
-- internal/provider/bitwarden_client.go read it back.
use jasm.Base.{
  Pairwise, Both, ◌≡◌, refl, ap, ◌∙◌, true, false, List, [], ◌∷◌, Option, none, some, ◌⊎◌, inl, inr,
  length, All,
}
use jasm.Text.{Bytes, is_empty}
use jasm.Text.Base64.RoundTrip.{IsByte}
use jasm.StrMap.{StrMap, Unique}
use jasm.Bitwarden.Crypto.{ret, Primitives, is_key_size, decrypt_cipher_string}
use jasm.Bitwarden.Crypto.Seal.{IsBlock, IsCipher, seal}
use jasm.Bitwarden.Crypto.Seal.Opens.{decrypt_cipher_string-seal}
use jasm.Bitwarden.Items.{DecryptedItem, DecryptedLogin, DecryptedCard, DecryptedField}
use jasm.Bitwarden.Client.Vault.{
  CipherLogin, CipherCard, CipherField, Cipher, SyncFolder, SyncResponse, type_name, opened,
  opened_filled, decrypt_uris,
}

module _ (prim : Primitives) (encrypt_block : Bytes → Bytes → Bytes) (key mac_key : Bytes) where
  -- The encryption of a text, under some vector.
  pub record IsSealed (s text : Bytes) : Type 0 where
    pub iv : Bytes
    pub vector : IsBlock iv
    pub bytes : All IsByte text
    pub same : s ≡ seal encrypt_block prim key mac_key iv text

  -- The encryption of a text, or no text.
  abbrev pub IsKept : Bytes → Bytes → Type 0
  IsKept s text = IsSealed s text ⊎ ((s ≡ []) × (text ≡ []))

  pub record IsLoginOf (c : CipherLogin) (l : DecryptedLogin) : Type 0 where
    pub username : IsKept c.username l.username
    pub password : IsKept c.password l.password
    pub totp : IsKept c.totp l.totp
    pub uris : Pairwise IsSealed c.uris l.uris

  pub record IsCardOf (c : CipherCard) (d : DecryptedCard) : Type 0 where
    pub cardholder_name : IsKept c.cardholder_name d.cardholder_name
    pub brand : IsKept c.brand d.brand
    pub number : IsKept c.number d.number
    pub exp_month : IsKept c.exp_month d.exp_month
    pub exp_year : IsKept c.exp_year d.exp_year
    pub code : IsKept c.code d.code

  pub record IsFieldOf (c : CipherField) (f : DecryptedField) : Type 0 where
    pub name : IsKept c.name f.name
    pub value : IsKept c.value f.value
    pub field_type : c.field_type ≡ f.field_type

  -- The notes, which are empty where there are none.
  abbrev pub AreNotesOf : Option Bytes → Bytes → Type 0
  AreNotesOf none text = text ≡ []
  AreNotesOf (some s) text = IsKept s text

  -- An item as it is stored.
  pub record IsCipherOf (c : Cipher) (item : DecryptedItem) : Type 0 where
    pub id : c.id ≡ item.id
    pub folder_id : c.folder_id ≡ item.folder_id
    pub item_type : c.item_type ≡ item.item_type
    pub type_named : type_name c.item_type ≡ item.type_name
    pub name : IsKept c.name item.name
    pub notes : AreNotesOf c.notes item.notes
    pub login : Both IsLoginOf c.login item.login
    pub card : Both IsCardOf c.card item.card
    pub fields : Pairwise IsFieldOf c.fields item.fields

  abbrev pub IsFolderOf : SyncFolder → Bytes × Bytes → Type 0
  IsFolderOf f (id, name) = (f.id ≡ id) × IsKept f.name name

  -- A vault as it is stored: its folders with their names, and its items.
  pub record IsStored (sync : SyncResponse) (folders : StrMap Bytes) (items : List DecryptedItem)
      : Type 0 where
    pub named : Pairwise IsFolderOf sync.folders folders
    pub unique : Unique folders
    pub kept : Pairwise IsCipherOf sync.ciphers items

  module _ (cipher : IsCipher prim encrypt_block) (size : is_key_size (length key) ≡ true) where
    opened-IsSealed :
        (s text : Bytes) → IsSealed s text → opened prim key (some mac_key) s ≡ ret text
    opened-IsSealed s text h =
        ap (λ r. opened prim key (some mac_key) r) h.same
        ∙ decrypt_cipher_string-seal prim encrypt_block cipher key mac_key h.iv text h.vector
            h.bytes size

    pub opened-IsKept :
        (s text : Bytes) → IsKept s text → opened prim key (some mac_key) s ≡ ret text
    opened-IsKept s text (inl h) = opened-IsSealed s text h
    opened-IsKept s text (inr (hs, ht)) =
        rw (hs, ht) (unfold decrypt_cipher_string is_empty in refl)

    sealed_filled : (s text : Bytes) → IsSealed s text → is_empty s ≡ false
    unfolding seal is_empty
    sealed_filled s text h = ap is_empty h.same

    pub opened_filled-IsKept :
        (s text : Bytes) → IsKept s text → opened_filled prim key (some mac_key) s ≡ ret text
    unfolding opened_filled
    opened_filled-IsKept s text (inl h) = rw (sealed_filled s text h) (opened-IsSealed s text h)
    opened_filled-IsKept s text (inr (hs, ht)) = rw (hs, ht) (unfold is_empty in refl)

    pub decrypt_uris-sealed :
        (us texts : List Bytes)
        → Pairwise IsSealed us texts
        → decrypt_uris prim key (some mac_key) us ≡ ret texts
    unfolding decrypt_uris
    decrypt_uris-sealed [] [] h = refl
    decrypt_uris-sealed [] (t ∷ texts) h = absurd h
    decrypt_uris-sealed (u ∷ us) [] h = absurd h
    decrypt_uris-sealed (u ∷ us) (t ∷ texts) (here, rest) =
        rw (sealed_filled u t here, opened-IsSealed u t here, decrypt_uris-sealed us texts rest)
          refl
