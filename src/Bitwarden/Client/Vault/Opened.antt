-- ===== src/Bitwarden/Client/Vault/Opened.antt =====
-- What the cache holds that SyncVault of internal/provider/bitwarden_client.go writes.
use jasm.Base.{
  Pairwise, Both, sym, ap, none, if◌then◌else◌, ◌≡◌, refl, subst, ℕ, List, [], ◌∷◌, Option, some,
  inl, inr, Bool-cases,
}
use jasm.Text.{Bytes, str_eq}
use jasm.StrMap.{StrMap, lookup, insert, lookup-insert, Unique, insert-Unique}
use jasm.Bitwarden.Crypto.{ret, Primitives}
use jasm.Bitwarden.Items.{DecryptedItem}
use jasm.Bitwarden.Client.{VaultCache}
use jasm.Bitwarden.Client.Vault.{
  Cipher, SyncFolder, SyncResponse, bad_name, bad_notes, bad_folder_name, type_name, opened,
  decrypt_notes, decrypt_login, decrypt_card, decrypt_fields, decrypt_cipher, decrypt_folders,
  decrypt_ciphers, sync_vault,
}
use jasm.Bitwarden.Client.Vault.Read.{
  chained-eq-ret, checked-eq-ret, IsLoginRead, IsCardRead, IsFieldRead, decrypt_login-read,
  decrypt_card-read, decrypt_fields-read,
}

-- The last folder with the ID.
abbrev pub last_folder : Bytes → List SyncFolder → Option SyncFolder
last_folder id [] = none
last_folder id (f ∷ folders) = elim (last_folder id folders) [
  | some g ↦ some g
  | none ↦ if str_eq f.id id then some f else none
]

module _ (prim : Primitives) (sym_key : Bytes) (sym_mac : Option Bytes) where
  -- The item is the cipher with its texts decrypted.
  pub record IsOpenOf (cipher : Cipher) (item : DecryptedItem) : Type 0 where
    pub same_id : item.id ≡ cipher.id
    pub same_folder : item.folder_id ≡ cipher.folder_id
    pub same_type : item.item_type ≡ cipher.item_type
    pub type_named : item.type_name ≡ type_name cipher.item_type
    pub name : opened prim sym_key sym_mac cipher.name ≡ ret item.name
    pub notes : decrypt_notes prim sym_key sym_mac cipher.notes ≡ ret item.notes
    pub login : Both (IsLoginRead prim sym_key sym_mac) cipher.login item.login
    pub card : Both (IsCardRead prim sym_key sym_mac) cipher.card item.card
    pub fields : Pairwise (IsFieldRead prim sym_key sym_mac) cipher.fields item.fields

  decrypt_cipher-IsOpenOf :
      (cipher : Cipher) (item : DecryptedItem)
      → decrypt_cipher prim sym_key sym_mac cipher ≡ ret item
      → IsOpenOf cipher item
  unfolding decrypt_cipher
  decrypt_cipher-IsOpenOf cipher item h =
      let (name, named, h1) =
        checked-eq-ret bad_name (opened prim sym_key sym_mac cipher.name) _ h in
      let (notes, noted, h2) =
        checked-eq-ret bad_notes (decrypt_notes prim sym_key sym_mac cipher.notes) _ h1 in
      let (login, l, h3) = chained-eq-ret (decrypt_login prim sym_key sym_mac cipher.login) _ h2 in
      let (card, c, h4) = chained-eq-ret (decrypt_card prim sym_key sym_mac cipher.card) _ h3 in
      let (fields, f, h5) =
        chained-eq-ret (decrypt_fields prim sym_key sym_mac cipher.fields) _ h4 in
      let same : record {
        id = cipher.id;
        name = name;
        item_type = cipher.item_type;
        type_name = type_name cipher.item_type;
        notes = notes;
        login = login;
        card = card;
        fields = fields;
        folder_id = cipher.folder_id;
      }
          ≡ item =
        cc h5 in
      subst (λ i. IsOpenOf cipher i) same
        (record {
          same_id = refl;
          same_folder = refl;
          same_type = refl;
          type_named = refl;
          name = named;
          notes = noted;
          login = decrypt_login-read prim sym_key sym_mac cipher.login login l;
          card = decrypt_card-read prim sym_key sym_mac cipher.card card c;
          fields = decrypt_fields-read prim sym_key sym_mac cipher.fields fields f;
        })

  -- One item for each cipher, in their order.
  decrypt_ciphers-IsOpenOf :
      (ciphers : List Cipher) (items : List DecryptedItem)
      → decrypt_ciphers prim sym_key sym_mac ciphers ≡ ret items
      → Pairwise IsOpenOf ciphers items
  unfolding decrypt_ciphers
  decrypt_ciphers-IsOpenOf [] [] h = tt
  decrypt_ciphers-IsOpenOf [] (i ∷ items) h = cc h
  decrypt_ciphers-IsOpenOf (c ∷ ciphers) items h =
      let (item, one, h1) = chained-eq-ret (decrypt_cipher prim sym_key sym_mac c) _ h in
      let (rest, more, h2) = chained-eq-ret (decrypt_ciphers prim sym_key sym_mac ciphers) _ h1 in
      let same : item ∷ rest ≡ items = cc h2 in
      subst (λ l. Pairwise IsOpenOf (c ∷ ciphers) l) same
        (decrypt_cipher-IsOpenOf c item one, decrypt_ciphers-IsOpenOf ciphers rest more)

  -- What a folder of the response, or none, makes of the entry that was there.
  abbrev Renames : Option SyncFolder → Option Bytes → Option Bytes → Type 0
  Renames none old new = new ≡ old
  Renames (some f) old new =
      (name : Bytes) × (opened prim sym_key sym_mac f.name ≡ ret name) × (new ≡ some name)

  last_folder-Renames :
      (f : SyncFolder) (folders : List SyncFolder) (id text : Bytes) (out : StrMap Bytes)
      (new : Option Bytes) (o : Option SyncFolder)
      → last_folder id folders ≡ o
      → opened prim sym_key sym_mac f.name ≡ ret text
      → Renames o (lookup id (insert f.id text out)) new
      → Renames (last_folder id (f ∷ folders)) (lookup id out) new
  last_folder-Renames f folders id text out new (some g) last opens h = rw last h
  last_folder-Renames f folders id text out new none last opens h =
      elim (Bool-cases (str_eq f.id id)) [
        | inl e ↦ rw (last, e) (text, opens, rw (lookup-insert f.id id text out, e) at h)
        | inr e ↦ rw (last, e) (rw (lookup-insert f.id id text out, e) at h)
      ]

  decrypt_folders-Renames :
      (folders : List SyncFolder) (out names : StrMap Bytes)
      → decrypt_folders prim sym_key sym_mac folders out ≡ ret names
      → Unique out
      → Unique names
        × ((id : Bytes) → Renames (last_folder id folders) (lookup id out) (lookup id names))
  unfolding decrypt_folders
  decrypt_folders-Renames [] out names h u =
      let same : out ≡ names = cc h in
      (subst (λ m. Unique m) same u, λ id. ap (lookup id) (sym same))
  decrypt_folders-Renames (f ∷ folders) out names h u =
      let (text, opens, h1) =
        checked-eq-ret bad_folder_name (opened prim sym_key sym_mac f.name) _ h in
      let (unique, old) =
        decrypt_folders-Renames folders (insert f.id text out) names h1
          (insert-Unique f.id text out u) in
      (
        unique,
        λ id.
            last_folder-Renames f folders id text out (lookup id names) (last_folder id folders)
              refl opens (old id),
      )

  -- The folder's name as it is decrypted.
  abbrev pub IsNameOf : SyncFolder → Bytes → Type 0
  IsNameOf f name = opened prim sym_key sym_mac f.name ≡ ret name

  renamed : (o : Option SyncFolder) (new : Option Bytes) → Renames o none new → Both IsNameOf o new
  renamed none none h = tt
  renamed none (some name) h = cc h
  renamed (some f) none (name, opens, h) = cc h
  renamed (some f) (some other) (name, opens, h) = cc (opens, h)

  -- The cache that SyncVault writes. Its folders have unique IDs, and hold under each ID the decrypted name of
  -- the last folder of the response with the ID, and nothing where there is none; its items are those of the
  -- response in their order, with every text decrypted, or empty where DecryptString refuses a text of the
  -- login, the card or a field; and it expires at the time given.
  pub record IsVaultOf (sync : SyncResponse) (expiry : ℕ) (cache : VaultCache) : Type 0 where
    pub unique : Unique cache.folders
    pub folders :
        (id : Bytes) → Both IsNameOf (last_folder id sync.folders) (lookup id cache.folders)
    pub items : Pairwise IsOpenOf sync.ciphers cache.items
    pub expires : cache.expiry ≡ expiry

  -- A vault that SyncVault decrypts without an error or a panic is that of the response: under each ID the
  -- decrypted name of the last folder with it, and no other entry; one item for each cipher in their order,
  -- with its identity, type, decrypted name and notes, and with the login, the card and the fields of the
  -- cipher, each text decrypted, or empty where DecryptString refuses it, and no URI for an empty one; and
  -- the expiry.
  pub sync_vault-IsVaultOf :
      (sync : SyncResponse) (expiry : ℕ) (cache : VaultCache)
      → sync_vault prim sym_key sym_mac sync expiry ≡ ret cache
      → IsVaultOf sync expiry cache
  unfolding sync_vault lookup
  sync_vault-IsVaultOf sync expiry cache h =
      let (names, fs, h1) =
        chained-eq-ret (decrypt_folders prim sym_key sym_mac sync.folders []) _ h in
      let (items, cs, h2) =
        chained-eq-ret (decrypt_ciphers prim sym_key sym_mac sync.ciphers) _ h1 in
      let same : record { folders = names; items = items; expiry = expiry } ≡ cache = cc h2 in
      let (unique, each) = decrypt_folders-Renames sync.folders [] names fs tt in
      subst (λ c. IsVaultOf sync expiry c) same
        (record {
          unique = unique;
          folders = λ id. renamed (last_folder id sync.folders) (lookup id names) (each id);
          items = decrypt_ciphers-IsOpenOf sync.ciphers items cs;
          expires = refl;
        })
