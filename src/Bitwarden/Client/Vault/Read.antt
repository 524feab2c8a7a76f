-- ===== src/Bitwarden/Client/Vault/Read.antt =====
-- What decryptCipher of internal/provider/bitwarden_client.go reads of a login, a card and the fields.
use jasm.Base.{
  Pairwise, Both, none, if◌then◌else◌, ◌≡◌, refl, subst, List, [], ◌∷◌, Option, some, ◌⊎◌, inl, inr,
  Bool-cases,
}
use jasm.Text.{Bytes, is_empty}
use jasm.Bitwarden.Crypto.{Go, ret, fail, panic, CryptoError, Primitives, decrypt_cipher_string}
use jasm.Bitwarden.Items.{DecryptedLogin, DecryptedCard, DecryptedField}
use jasm.Bitwarden.Client.Vault.{
  VaultError, checked, chained, ignored, CipherLogin, CipherCard, CipherField, opened,
  opened_filled, decrypt_uris, decrypt_login, decrypt_card, decrypt_fields,
}

pub chained-eq-ret :
    {A B : Type 0} (g : Go VaultError A) (next : A → Go VaultError B) {b : B}
    → chained g next ≡ ret b
    → (a : A) × (g ≡ ret a) × (next a ≡ ret b)
chained-eq-ret (ret a) next h = (a, refl, h)
chained-eq-ret (fail e) next h = cc h
chained-eq-ret panic next h = cc h

pub checked-eq-ret :
    {A B : Type 0} (around : CryptoError → VaultError) (g : Go CryptoError A)
    (next : A → Go VaultError B) {b : B}
    → checked around g next ≡ ret b
    → (a : A) × (g ≡ ret a) × (next a ≡ ret b)
checked-eq-ret around (ret a) next h = (a, refl, h)
checked-eq-ret around (fail e) next h = cc h
checked-eq-ret around panic next h = cc h

-- The text that a call of DecryptString whose error is ignored gives: the empty one where there is an error.
abbrev pub Reads : Go CryptoError Bytes → Bytes → Type 0
Reads g text = (g ≡ ret text) ⊎ (((e : CryptoError) × (g ≡ fail e)) × (text ≡ []))

ignored-eq-ret :
    {B : Type 0} (g : Go CryptoError Bytes) (next : Bytes → Go VaultError B) {b : B}
    → ignored g next ≡ ret b
    → (text : Bytes) × Reads g text × (next text ≡ ret b)
ignored-eq-ret (ret text) next h = (text, inl refl, h)
ignored-eq-ret (fail e) next h = ([], inr ((e, refl), refl), h)
ignored-eq-ret panic next h = cc h

-- The texts of a list that are not empty.
abbrev pub filled : List Bytes → List Bytes
filled [] = []
filled (s ∷ texts) = if is_empty s then filled texts else s ∷ filled texts

module _ (prim : Primitives) (sym_key : Bytes) (sym_mac : Option Bytes) where
  abbrev pub ReadsAs : Bytes → Bytes → Type 0
  ReadsAs s text = Reads (opened prim sym_key sym_mac s) text

  pub record IsLoginRead (c : CipherLogin) (l : DecryptedLogin) : Type 0 where
    pub username : ReadsAs c.username l.username
    pub password : ReadsAs c.password l.password
    pub totp : ReadsAs c.totp l.totp
    pub uris : Pairwise ReadsAs (filled c.uris) l.uris

  pub record IsCardRead (c : CipherCard) (d : DecryptedCard) : Type 0 where
    pub cardholder_name : ReadsAs c.cardholder_name d.cardholder_name
    pub brand : ReadsAs c.brand d.brand
    pub number : ReadsAs c.number d.number
    pub exp_month : ReadsAs c.exp_month d.exp_month
    pub exp_year : ReadsAs c.exp_year d.exp_year
    pub code : ReadsAs c.code d.code

  pub record IsFieldRead (c : CipherField) (f : DecryptedField) : Type 0 where
    pub name : ReadsAs c.name f.name
    pub value : ReadsAs c.value f.value
    pub field_type : f.field_type ≡ c.field_type

  opened_filled-opened :
      (s : Bytes) → opened_filled prim sym_key sym_mac s ≡ opened prim sym_key sym_mac s
  unfolding opened_filled decrypt_cipher_string
  opened_filled-opened s = elim (Bool-cases (is_empty s)) [ inl e ↦ rw e refl | inr e ↦ rw e refl ]

  filled_read :
      (s : Bytes) {text : Bytes}
      → Reads (opened_filled prim sym_key sym_mac s) text
      → ReadsAs s text
  filled_read s {text} h = subst (λ g. Reads g text) (opened_filled-opened s) h

  decrypt_uris-read :
      (uris texts : List Bytes)
      → decrypt_uris prim sym_key sym_mac uris ≡ ret texts
      → Pairwise ReadsAs (filled uris) texts
  unfolding decrypt_uris
  decrypt_uris-read [] [] h = tt
  decrypt_uris-read [] (t ∷ texts) h = cc h
  decrypt_uris-read (u ∷ uris) texts h = elim (Bool-cases (is_empty u)) [
    | inl e ↦ rw e (decrypt_uris-read uris texts (rw e at h))
    | inr e ↦
        let (text, reads, h1) = ignored-eq-ret (opened prim sym_key sym_mac u) _ (rw e at h) in
        let (rest, more, h2) = chained-eq-ret (decrypt_uris prim sym_key sym_mac uris) _ h1 in
        let same : text ∷ rest ≡ texts = cc h2 in
        rw e (
          subst (λ l. Pairwise ReadsAs (u ∷ filled uris) l) same
            (reads, decrypt_uris-read uris rest more))
  ]

  pub decrypt_login-read :
      (c : Option CipherLogin) (l : Option DecryptedLogin)
      → decrypt_login prim sym_key sym_mac c ≡ ret l
      → Both IsLoginRead c l
  unfolding decrypt_login
  decrypt_login-read none none h = tt
  decrypt_login-read none (some l) h = cc h
  decrypt_login-read (some c) l h =
      let (username, a, h1) = ignored-eq-ret (opened_filled prim sym_key sym_mac c.username) _ h in
      let (password, b, h2) = ignored-eq-ret (opened_filled prim sym_key sym_mac c.password) _ h1 in
      let (totp, d, h3) = ignored-eq-ret (opened_filled prim sym_key sym_mac c.totp) _ h2 in
      let (uris, us, h4) = chained-eq-ret (decrypt_uris prim sym_key sym_mac c.uris) _ h3 in
      let same : some
            (record { username = username; password = password; totp = totp; uris = uris })
          ≡ l =
        cc h4 in
      subst (λ o. Both IsLoginRead (some c) o) same
        (record {
          username = filled_read c.username a;
          password = filled_read c.password b;
          totp = filled_read c.totp d;
          uris = decrypt_uris-read c.uris uris us;
        })

  pub decrypt_card-read :
      (c : Option CipherCard) (d : Option DecryptedCard)
      → decrypt_card prim sym_key sym_mac c ≡ ret d
      → Both IsCardRead c d
  unfolding decrypt_card
  decrypt_card-read none none h = tt
  decrypt_card-read none (some d) h = cc h
  decrypt_card-read (some c) d h =
      let (holder, r1, h1) = ignored-eq-ret (opened prim sym_key sym_mac c.cardholder_name) _ h in
      let (brand, r2, h2) = ignored-eq-ret (opened prim sym_key sym_mac c.brand) _ h1 in
      let (number, r3, h3) = ignored-eq-ret (opened prim sym_key sym_mac c.number) _ h2 in
      let (month, r4, h4) = ignored-eq-ret (opened prim sym_key sym_mac c.exp_month) _ h3 in
      let (year, r5, h5) = ignored-eq-ret (opened prim sym_key sym_mac c.exp_year) _ h4 in
      let (code, r6, h6) = ignored-eq-ret (opened prim sym_key sym_mac c.code) _ h5 in
      let same : some (record {
        cardholder_name = holder;
        brand = brand;
        number = number;
        exp_month = month;
        exp_year = year;
        code = code;
      })
          ≡ d =
        cc h6 in
      subst (λ o. Both IsCardRead (some c) o) same
        (record {
          cardholder_name = r1;
          brand = r2;
          number = r3;
          exp_month = r4;
          exp_year = r5;
          code = r6;
        })

  pub decrypt_fields-read :
      (cs : List CipherField) (fs : List DecryptedField)
      → decrypt_fields prim sym_key sym_mac cs ≡ ret fs
      → Pairwise IsFieldRead cs fs
  unfolding decrypt_fields
  decrypt_fields-read [] [] h = tt
  decrypt_fields-read [] (f ∷ fs) h = cc h
  decrypt_fields-read (c ∷ cs) fs h =
      let (name, r1, h1) = ignored-eq-ret (opened prim sym_key sym_mac c.name) _ h in
      let (value, r2, h2) = ignored-eq-ret (opened prim sym_key sym_mac c.value) _ h1 in
      let (rest, more, h3) = chained-eq-ret (decrypt_fields prim sym_key sym_mac cs) _ h2 in
      let same : record { name = name; value = value; field_type = c.field_type } ∷ rest ≡ fs =
        cc h3 in
      subst (λ l. Pairwise IsFieldRead (c ∷ cs) l) same
        (record { name = r1; value = r2; field_type = refl }, decrypt_fields-read cs rest more)
