-- ===== src/Bitwarden/Client/Vault/Restored.antt =====
-- SyncVault of internal/provider/bitwarden_client.go restores the vault that a client stored.
use jasm.Base.{
  Pairwise, Both, ◌≡◌, refl, ◌∙◌, true, ℕ, List, [], ◌∷◌, Option, none, some, length, arith,
}
use jasm.Text.{Bytes}
use jasm.Text.Laws.{str_eq_iff}
use jasm.StrMap.{StrMap, lookup, insert, lookup-insert, or_old, or_old-none, Unique}
use jasm.Bitwarden.Crypto.{ret, Primitives, is_key_size}
use jasm.Bitwarden.Crypto.Seal.{IsCipher}
use jasm.Bitwarden.Items.{DecryptedItem, DecryptedLogin, DecryptedCard, DecryptedField}
use jasm.Bitwarden.Client.{VaultCache}
use jasm.Bitwarden.Client.Vault.{
  CipherLogin, CipherCard, CipherField, Cipher, SyncFolder, SyncResponse, opened, opened_filled,
  decrypt_login, decrypt_card, decrypt_fields, decrypt_notes, decrypt_cipher, decrypt_folders,
  decrypt_ciphers, sync_vault,
}
use jasm.Bitwarden.Client.Vault.Sealed.{
  IsKept, IsLoginOf, IsCardOf, IsFieldOf, AreNotesOf, IsCipherOf, IsFolderOf, IsStored,
  opened-IsKept, opened_filled-IsKept, decrypt_uris-sealed,
}

module _ (prim : Primitives) (encrypt_block : Bytes → Bytes → Bytes) (key mac_key : Bytes)
    (cipher : IsCipher prim encrypt_block) (size : is_key_size (length key) ≡ true) where
  -- A text that is kept, where the code always decrypts it and where it looks for it first.
  kept_text :
      (s text : Bytes)
      → IsKept prim encrypt_block key mac_key s text
      → opened prim key (some mac_key) s ≡ ret text
  kept_text = opened-IsKept prim encrypt_block key mac_key cipher size

  pub filled_text :
      (s text : Bytes)
      → IsKept prim encrypt_block key mac_key s text
      → opened_filled prim key (some mac_key) s ≡ ret text
  filled_text = opened_filled-IsKept prim encrypt_block key mac_key cipher size

  login_restored :
      (c : Option CipherLogin) (l : Option DecryptedLogin)
      → Both (IsLoginOf prim encrypt_block key mac_key) c l
      → decrypt_login prim key (some mac_key) c ≡ ret l
  unfolding decrypt_login
  login_restored none none h = refl
  login_restored none (some l) h = absurd h
  login_restored (some c) none h = absurd h
  login_restored (some c) (some l) h =
      rw
        (
          filled_text c.username l.username h.username,
          filled_text c.password l.password h.password,
          filled_text c.totp l.totp h.totp,
          decrypt_uris-sealed prim encrypt_block key mac_key cipher size c.uris l.uris h.uris,
        )
        refl

  card_restored :
      (c : Option CipherCard) (d : Option DecryptedCard)
      → Both (IsCardOf prim encrypt_block key mac_key) c d
      → decrypt_card prim key (some mac_key) c ≡ ret d
  unfolding decrypt_card
  card_restored none none h = refl
  card_restored none (some d) h = absurd h
  card_restored (some c) none h = absurd h
  card_restored (some c) (some d) h =
      rw
        (
          kept_text c.cardholder_name d.cardholder_name h.cardholder_name,
          kept_text c.brand d.brand h.brand,
          kept_text c.number d.number h.number,
          kept_text c.exp_month d.exp_month h.exp_month,
          kept_text c.exp_year d.exp_year h.exp_year,
          kept_text c.code d.code h.code,
        )
        refl

  fields_restored :
      (cs : List CipherField) (fs : List DecryptedField)
      → Pairwise (IsFieldOf prim encrypt_block key mac_key) cs fs
      → decrypt_fields prim key (some mac_key) cs ≡ ret fs
  unfolding decrypt_fields
  fields_restored [] [] h = refl
  fields_restored [] (f ∷ fs) h = absurd h
  fields_restored (c ∷ cs) [] h = absurd h
  fields_restored (c ∷ cs) (f ∷ fs) (here, rest) =
      rw
        (
          kept_text c.name f.name here.name,
          kept_text c.value f.value here.value,
          here.field_type,
          fields_restored cs fs rest,
        )
        refl

  notes_restored :
      (o : Option Bytes) (text : Bytes)
      → AreNotesOf prim encrypt_block key mac_key o text
      → decrypt_notes prim key (some mac_key) o ≡ ret text
  unfolding decrypt_notes
  notes_restored none text h = rw h refl
  notes_restored (some s) text h = kept_text s text h

  -- An item whose login is decrypted to a login of its own.
  pub cipher_with_login :
      (c : Cipher) (item : DecryptedItem) (o : Option CipherLogin) (l : Option DecryptedLogin)
      → IsCipherOf prim encrypt_block key mac_key c item
      → decrypt_login prim key (some mac_key) o ≡ ret l
      → decrypt_cipher prim key (some mac_key) (record c { login = o })
        ≡ ret (record item { login = l })
  unfolding decrypt_cipher
  cipher_with_login c item o l h opens =
      rw
        (
          kept_text c.name item.name h.name,
          notes_restored c.notes item.notes h.notes,
          opens,
          card_restored c.card item.card h.card,
          fields_restored c.fields item.fields h.fields,
          h.type_named,
          h.id,
          h.folder_id,
          h.item_type,
        )
        refl

  cipher_restored :
      (c : Cipher) (item : DecryptedItem)
      → IsCipherOf prim encrypt_block key mac_key c item
      → decrypt_cipher prim key (some mac_key) c ≡ ret item
  cipher_restored c item h =
      cipher_with_login c item c.login item.login h (login_restored c.login item.login h.login)

  ciphers_restored :
      (cs : List Cipher) (items : List DecryptedItem)
      → Pairwise (IsCipherOf prim encrypt_block key mac_key) cs items
      → decrypt_ciphers prim key (some mac_key) cs ≡ ret items
  unfolding decrypt_ciphers
  ciphers_restored [] [] h = refl
  ciphers_restored [] (i ∷ items) h = absurd h
  ciphers_restored (c ∷ cs) [] h = absurd h
  ciphers_restored (c ∷ cs) (i ∷ items) (here, rest) =
      rw (cipher_restored c i here, ciphers_restored cs items rest) refl

  -- A map with the entries, over an older one.
  pub record IsOver (folders out : StrMap Bytes) (fs : List SyncFolder) : Type 0 where
    pub names : StrMap Bytes
    pub decrypted : decrypt_folders prim key (some mac_key) fs out ≡ ret names
    pub each : (id : Bytes) → lookup id names ≡ or_old (lookup id folders) (lookup id out)

  folders_restored :
      (fs : List SyncFolder) (folders out : StrMap Bytes)
      → Pairwise (IsFolderOf prim encrypt_block key mac_key) fs folders
      → Unique folders
      → IsOver folders out fs
  unfolding decrypt_folders lookup
  folders_restored [] [] out h u = record { names = out; decrypted = refl; each = λ id. refl }
  folders_restored [] (e ∷ folders) out h u = absurd h
  folders_restored (f ∷ fs) [] out h u = absurd h
  folders_restored (f ∷ fs) ((id, name) ∷ folders) out ((same, here), rest) (absent, u) =
      let later = folders_restored fs folders (insert id name out) rest u in
      record {
        names = later.names;
        decrypted = rw (kept_text f.name name here, same) later.decrypted;
        each = λ k. ground (arith, later.each k, str_eq_iff id k, lookup-insert id k name out);
      }

  -- What SyncVault makes of a stored vault: each folder under its ID, each item as it was, and the expiry.
  pub record IsRestored (sync : SyncResponse) (folders : StrMap Bytes) (items : List DecryptedItem)
      (expiry : ℕ) : Type 0 where
    pub cache : VaultCache
    pub synced : sync_vault prim key (some mac_key) sync expiry ≡ ret cache
    pub named : (id : Bytes) → lookup id cache.folders ≡ lookup id folders
    pub same_items : cache.items ≡ items
    pub expires : cache.expiry ≡ expiry

  -- A vault whose texts were all encrypted under the key and the MAC key of the session, or are empty, is
  -- read back whole: SyncVault returns neither an error nor a panic, its cache holds each folder's name
  -- under its ID, the items with every text, in their order, and the expiry.
  pub sync_vault_restores :
      (sync : SyncResponse) (folders : StrMap Bytes) (items : List DecryptedItem) (expiry : ℕ)
      → IsStored prim encrypt_block key mac_key sync folders items
      → IsRestored sync folders items expiry
  unfolding sync_vault lookup
  sync_vault_restores sync folders items expiry h =
      let over = folders_restored sync.folders folders [] h.named h.unique in
      record {
        cache = record { folders = over.names; items = items; expiry = expiry };
        synced = rw (over.decrypted, ciphers_restored sync.ciphers items h.kept) refl;
        named = λ id. over.each id ∙ or_old-none (lookup id folders);
        same_items = refl;
        expires = refl;
      }
