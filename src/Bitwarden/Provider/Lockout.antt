-- ===== src/Bitwarden/Provider/Lockout.antt =====
-- A panic in Authenticate while FetchSecret of internal/provider/bitwarden.go holds its mutex.
use jasm.Base.{int_eq, ◌≡◌, refl, ap, ◌∙◌, ℕ, Bool, true, false, some, ok, length}
use jasm.Text.{Bytes, codes, is_empty, split, str_eq}
use jasm.Text.Base64.{base64_decode}
use jasm.Reference.Bitwarden.{BitwardenSecretReference, parse}
use jasm.Bitwarden.Crypto.{
  ret, fail, panic, Primitives, is_key_size, parse_cipher_string, decrypt_cipher_string,
  decrypt_parsed, decrypt_checked, mac_accepts,
}
use jasm.Bitwarden.Crypto.Keys.{derive_master_key, stretch_master_key}
use jasm.Bitwarden.Client.{BitwardenClient, is_cache_valid}
use jasm.Bitwarden.Client.Session.{
  PreloginResponse, TokenResponse, Environment, Call, kdf_type_pbkdf2, prelogin, derive_keys, token,
  with_token, decrypt_symmetric_key, with_login, with_prelogin, authenticate,
}
use jasm.Bitwarden.Client.Session.Settled.{derived}
use jasm.Bitwarden.Provider.{
  BitwardenProvider, panicked, blocked, ensured, with_client, fetch_locked, fetch_secret,
}
use jasm.Bitwarden.Provider.Served.{fetch_secret-parsed}

-- An encrypted string with an empty vector and an empty ciphertext.
abbrev pub hollow_key : Bytes
hollow_key = codes "2.|"

hollow_key_panics :
    (prim : Primitives) (key mac_key : Bytes)
    → is_key_size (length key) ≡ true
    → decrypt_cipher_string prim hollow_key key (some mac_key) ≡ panic
unfolding decrypt_cipher_string decrypt_parsed decrypt_checked mac_accepts parse_cipher_string
    base64_decode split str_eq is_empty
hollow_key_panics prim key mac_key size = rw size

module _ (env : Environment) where
  login_panics :
      (login : TokenResponse) (c : BitwardenClient)
      → decrypt_cipher_string env.prim login.key c.stretched_enc c.stretched_mac ≡ panic
      → (with_login env (ok login) c).0 ≡ panic
  unfolding with_login decrypt_symmetric_key with_token
  login_panics login c h = rw h

  keys_panic :
      (account : PreloginResponse) (password : Bytes) (client : BitwardenClient)
      (enc_key mac_key : Bytes) (login : TokenResponse)
      → int_eq account.kdf kdf_type_pbkdf2 ≡ true
      → stretch_master_key env.kdf
          (derive_master_key env.kdf password client.email account.kdf_iterations)
        ≡ ok (enc_key, mac_key)
      → token env password (derived env password client account enc_key mac_key) ≡ ok login
      → decrypt_cipher_string env.prim login.key enc_key (some mac_key) ≡ panic
      → (with_prelogin env password (ok account) client).0 ≡ panic
  unfolding with_prelogin derive_keys
  keys_panic account password client enc_key mac_key login pbkdf2 stretched accepted h =
      rw (pbkdf2, stretched, accepted)
        (login_panics login (derived env password client account enc_key mac_key) h)

  authenticate_panics :
      (password : Bytes) (client : BitwardenClient) (account : PreloginResponse)
      (enc_key mac_key : Bytes) (login : TokenResponse)
      → prelogin env client ≡ ok account
      → account.kdf ≡ kdf_type_pbkdf2
      → stretch_master_key env.kdf
          (derive_master_key env.kdf password client.email account.kdf_iterations)
        ≡ ok (enc_key, mac_key)
      → is_key_size (length enc_key) ≡ true
      → token env password (derived env password client account enc_key mac_key) ≡ ok login
      → login.key ≡ hollow_key
      → (authenticate env password client).0 ≡ panic
  unfolding authenticate
  authenticate_panics password client account enc_key mac_key login known pbkdf2 stretched size
        accepted key =
      ap (λ r. (with_prelogin env password r client).0) known
      ∙ keys_panic account password client enc_key mac_key login
          (ap (λ k. int_eq k kdf_type_pbkdf2) pbkdf2) stretched accepted
          (ap (λ k. decrypt_cipher_string env.prim k enc_key (some mac_key)) key
            ∙ hollow_key_panics env.prim enc_key mac_key size)

with_client_panic :
    (ref : BitwardenSecretReference) (c : Call) (p : BitwardenProvider)
    → c.0 ≡ panic
    → ((with_client ref c p).0 ≡ panicked) × ((with_client ref c p).1.locked ≡ true)
unfolding with_client
with_client_panic ref (panic, client) p h = (refl, refl)
with_client_panic ref (ret done, client) p h = cc h
with_client_panic ref (fail e, client) p h = cc h

module _ (env : Environment) (cache_now token_now : ℕ) where
  fetch_panics :
      (locked : Bool) (ref : BitwardenSecretReference) (p : BitwardenProvider)
      → locked ≡ false
      → is_cache_valid cache_now p.client ≡ false
      → (authenticate env p.password p.client).0 ≡ panic
      → ((fetch_locked env cache_now token_now locked ref p).0 ≡ panicked)
        × ((fetch_locked env cache_now token_now locked ref p).1.locked ≡ true)
  unfolding fetch_locked ensured
  fetch_panics true ref p free stale h = cc free
  fetch_panics false ref p free stale h =
      rw stale (with_client_panic ref (authenticate env p.password p.client) p h)

  stays_blocked :
      (locked : Bool) (ref : BitwardenSecretReference) (p : BitwardenProvider)
      → locked ≡ true
      → fetch_locked env cache_now token_now locked ref p ≡ (blocked, p)
  unfolding fetch_locked
  stays_blocked true ref p held = refl
  stays_blocked false ref p held = cc held

-- A server that accepts the password and sends the key `2.|` locks the provider out: the fetch of a path
-- that parses, with a cache that is not valid and the mutex free, panics, and every later fetch of a path
-- that parses waits for the mutex for ever, whatever the server then replies.
pub hollow_key_locks_out :
    (env later : Environment) (cache_now token_now cache_later token_later : ℕ)
    (path path_later : Bytes) (p : BitwardenProvider) (ref ref_later : BitwardenSecretReference)
    (account : PreloginResponse) (enc_key mac_key : Bytes) (login : TokenResponse)
    → parse path ≡ ok ref
    → parse path_later ≡ ok ref_later
    → p.locked ≡ false
    → is_cache_valid cache_now p.client ≡ false
    → prelogin env p.client ≡ ok account
    → account.kdf ≡ kdf_type_pbkdf2
    → stretch_master_key env.kdf
        (derive_master_key env.kdf p.password p.client.email account.kdf_iterations)
      ≡ ok (enc_key, mac_key)
    → is_key_size (length enc_key) ≡ true
    → token env p.password (derived env p.password p.client account enc_key mac_key) ≡ ok login
    → login.key ≡ hollow_key
    → let after = fetch_secret env cache_now token_now path p in
      (after.0 ≡ panicked)
      × (fetch_secret later cache_later token_later path_later after.1 ≡ (blocked, after.1))
hollow_key_locks_out env later cache_now token_now cache_later token_later path path_later p ref
      ref_later account enc_key mac_key login parsed parsed_later free stale known pbkdf2 stretched
      size accepted key =
    let crash =
      authenticate_panics env p.password p.client account enc_key mac_key login known pbkdf2
        stretched size accepted key in
    let (panics, held) = fetch_panics env cache_now token_now p.locked ref p free stale crash in
    rw
      (
        fetch_secret-parsed env cache_now token_now path p ref parsed,
        fetch_secret-parsed later cache_later token_later path_later
            (fetch_locked env cache_now token_now p.locked ref p).1 ref_later parsed_later,
      )
      (
        panics,
        stays_blocked later cache_later token_later
            (fetch_locked env cache_now token_now p.locked ref p).1.locked ref_later
            (fetch_locked env cache_now token_now p.locked ref p).1 held,
      )
