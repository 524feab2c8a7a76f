-- ===== src/Bitwarden/Client/Session.antt =====
-- Authenticate of internal/provider/bitwarden_client.go: Prelogin, DeriveKeys, Login, DecryptSymmetricKey
-- and SyncVault. The server is a parameter, as what it replies to the requests of one call; so are the JSON
-- decoders, the clock, and the texts of the errors of encoding/base64 and crypto/aes.
pub mod Settled
use jasm.Base.{
  ℤ, pos, negsuc, int_eq, ℕ, ◌+◌, ◌-◌, ◌*◌, ◌%◌, ◌^◌, Bool, true, false, not, [], ◌∷◌, ◌++◌, Option,
  none, some, Result, ok, err, ◌>>=◌, map_err, ltb, ◌==◌, if◌then◌else◌, length, drop,
}
use jasm.Text.{Bytes, codes}
use jasm.Errors.{Error, errorf, wrap}
use jasm.StrMap.{StrMap}
use jasm.Bitwarden.Crypto.{
  Go, ret, fail, panic, CryptoError, missing_separator, bad_format, bad_iv, bad_ciphertext, bad_mac,
  unsupported_type, mac_failed, bad_key_size, not_multiple, invalid_padding, invalid_padding_bytes,
  Primitives, decrypt_cipher_string, take,
}
use jasm.Bitwarden.Crypto.Keys.{Kdf, derive_master_key, stretch_master_key, hash_password}
use jasm.Bitwarden.Client.{VaultCache, BitwardenClient}
use jasm.Bitwarden.Client.Sync.{
  Reply, unmade, lost, response, Network, decimal, decimal_int, sync_response,
}
use jasm.Bitwarden.Client.Vault.{
  SyncResponse, VaultError, bad_folder_name, bad_name, bad_notes, sync_vault,
}

-- type PreloginResponse, as far as it is read
pub record PreloginResponse : Type 0 where
  pub kdf : ℤ
  pub kdf_iterations : ℤ

-- type TokenResponse, as far as it is read; `expires_in` is an int as its bit pattern
pub record TokenResponse : Type 0 where
  pub access_token : Bytes
  pub expires_in : ℕ
  pub key : Bytes

-- The replies to the requests of one call of Authenticate, by URL and form or header; the decoders; and
-- what time.Now returns in Login and in SyncVault.
pub record Environment : Type 0 where
  pub prim : Primitives
  pub kdf : Kdf
  pub post_prelogin : Bytes → StrMap Bytes → Reply
  pub post_token : Bytes → StrMap Bytes → Reply
  pub get_sync : Bytes → Bytes → Network
  pub decode_prelogin : Bytes → Result Error PreloginResponse
  pub decode_token : Bytes → Result Error TokenResponse
  pub decode_sync : Bytes → Result Error SyncResponse
  pub login_now : ℕ
  pub sync_now : ℕ
  pub library_text : CryptoError → Bytes

-- KdfTypePBKDF2
abbrev pub kdf_type_pbkdf2 : ℤ
kdf_type_pbkdf2 = pos 0

-- time.Now().Add(time.Duration(n) * time.Second): the product wraps around, and may be negative
unfoldable pub add_seconds : ℕ → ℕ → ℕ
add_seconds now n =
    let d = (n * 1_000_000_000) % 2 ^ 64 in if ltb d (2 ^ 63) then now + d else now + d - 2 ^ 64

-- The form that Login sends.
abbrev pub token_form : Bytes → Bytes → StrMap Bytes
token_form email password_hash =
    (codes "grant_type", codes "password")
    ∷ (codes "username", email)
    ∷ (codes "password", password_hash)
    ∷ (codes "scope", codes "api offline_access")
    ∷ (codes "client_id", codes "cli")
    ∷ (codes "deviceType", codes "10")
    ∷ (codes "deviceIdentifier", codes "aabbccdd-1234-5678-9012-aabbccddeeff")
    ∷ (codes "deviceName", codes "jasm-controller")
    ∷ []

-- A reply that must have the status 200; what is done is named in the errors.
unfoldable pub body_of : Bytes → Reply → Result Error Bytes
unfolding decimal
body_of what (unmade e) = err (wrap (codes "create " ++ (what ++ codes " request: ")) e)
body_of what (lost e) = err (wrap (what ++ codes " request: ") e)
body_of what (response status body) =
    if not (status == 200)
    then err (errorf (what ++ (codes " failed: " ++ (decimal status ++ (codes " - " ++ body)))))
    else ok body

-- A call of a method that changes the client.
abbrev pub Call : Type 0
Call = Go Error Unit × BitwardenClient

-- if err := …; err != nil { return fmt.Errorf("…: %w", err) }
abbrev pub step : Bytes → Call → (BitwardenClient → Call) → Call
step text (ret done, c) next = next c
step text (fail e, c) next = (fail (wrap text e), c)
step text (panic, c) next = (panic, c)

module _ (env : Environment) where
  -- err.Error() of the errors of bitwarden_crypto.go
  abbrev pub crypto_error : CryptoError → Error
  crypto_error missing_separator =
      errorf (codes "invalid cipher string format: missing type separator")
  crypto_error bad_format =
      errorf (codes "invalid cipher data format: expected at least iv|ciphertext")
  crypto_error bad_iv = wrap (codes "decode iv: ") (errorf (env.library_text bad_iv))
  crypto_error bad_ciphertext =
      wrap (codes "decode ciphertext: ") (errorf (env.library_text bad_ciphertext))
  crypto_error bad_mac = wrap (codes "decode mac: ") (errorf (env.library_text bad_mac))
  crypto_error (unsupported_type t) =
      errorf (codes "unsupported encryption type: " ++ (t ++ codes " (expected 2 for AES-256-CBC)"))
  crypto_error mac_failed = errorf (codes "MAC verification failed")
  crypto_error bad_key_size =
      wrap (codes "create cipher: ") (errorf (env.library_text bad_key_size))
  crypto_error not_multiple = errorf (codes "ciphertext not multiple of block size")
  crypto_error invalid_padding = errorf (codes "invalid padding")
  crypto_error invalid_padding_bytes = errorf (codes "invalid padding bytes")

  -- The errors of the second part of SyncVault.
  abbrev pub vault_error : VaultError → Error
  vault_error (bad_folder_name e) = wrap (codes "decrypt folder name: ") (crypto_error e)
  vault_error (bad_name e) =
      wrap (codes "decrypt cipher: ") (wrap (codes "decrypt name: ") (crypto_error e))
  vault_error (bad_notes e) =
      wrap (codes "decrypt cipher: ") (wrap (codes "decrypt notes: ") (crypto_error e))

  -- Prelogin
  unfoldable pub prelogin : BitwardenClient → Result Error PreloginResponse
  unfolding body_of
  prelogin c = do
    body ← body_of (codes "prelogin") (
        env.post_prelogin (c.server_url ++ codes "/identity/accounts/prelogin")
          ((codes "email", c.email) ∷ []))
    map_err (wrap (codes "decode prelogin: ")) (env.decode_prelogin body)

  abbrev pub with_stretched : Result Error (Bytes × Bytes) → BitwardenClient → Call
  with_stretched (err e) c = (fail e, record c { stretched_enc = []; stretched_mac = none })
  with_stretched (ok (enc_key, mac_key)) c =
      (ret tt, record c { stretched_enc = enc_key; stretched_mac = some mac_key })

  -- DeriveKeys
  unfoldable pub derive_keys : Bytes → ℤ → BitwardenClient → Call
  unfolding derive_master_key stretch_master_key
  derive_keys password kdf_iterations c =
      let master_key = derive_master_key env.kdf password c.email kdf_iterations in
      with_stretched (stretch_master_key env.kdf master_key) (record c { master_key = master_key })

  -- Login, to the token that it returns
  unfoldable pub token : Bytes → BitwardenClient → Result Error TokenResponse
  unfolding body_of hash_password
  token password c = do
    body ← body_of (codes "login") (
        env.post_token (c.server_url ++ codes "/identity/connect/token")
          (token_form c.email (hash_password env.kdf c.master_key password)))
    map_err (wrap (codes "decode token: ")) (env.decode_token body)

  -- Login: the token is stored
  unfoldable pub with_token : TokenResponse → BitwardenClient → BitwardenClient
  unfolding add_seconds
  with_token t c = record c {
    access_token = t.access_token;
    token_expiry = add_seconds env.login_now t.expires_in;
  }

  abbrev pub with_plaintext : Go CryptoError Bytes → BitwardenClient → Call
  with_plaintext panic c = (panic, c)
  with_plaintext (fail e) c = (fail (wrap (codes "decrypt symmetric key: ") (crypto_error e)), c)
  with_plaintext (ret plaintext) c =
      if not (length plaintext == 64)
      then (
        fail (
            errorf (
              codes "unexpected symmetric key length: "
              ++ (decimal (length plaintext) ++ codes " (expected 64)"))),
        c,
      )
      else (ret tt, record c { sym_key = take 32 plaintext; sym_mac = some (drop 32 plaintext) })

  -- DecryptSymmetricKey
  unfoldable pub decrypt_symmetric_key : Bytes → BitwardenClient → Call
  decrypt_symmetric_key encrypted_key c =
      with_plaintext (decrypt_cipher_string env.prim encrypted_key c.stretched_enc c.stretched_mac)
        c

  abbrev pub with_vault : Go VaultError VaultCache → BitwardenClient → Call
  with_vault panic c = (panic, c)
  with_vault (fail e) c = (fail (vault_error e), c)
  with_vault (ret cache) c = (ret tt, record c { cache = cache })

  abbrev pub with_response : Result Error SyncResponse → BitwardenClient → Call
  with_response (err e) c = (fail e, c)
  with_response (ok sync) c =
      with_vault (sync_vault env.prim c.sym_key c.sym_mac sync (env.sync_now + c.cache_ttl)) c

  -- SyncVault
  unfoldable pub sync : BitwardenClient → Call
  sync c =
      with_response
        (sync_response env.decode_sync
          (env.get_sync (c.server_url ++ codes "/api/sync") (codes "Bearer " ++ c.access_token)))
        c

  -- Steps 4 and 5 of Authenticate
  unfoldable pub with_login : Result Error TokenResponse → BitwardenClient → Call
  unfolding with_token decrypt_symmetric_key sync
  with_login (err e) c = (fail (wrap (codes "login: ") e), c)
  with_login (ok t) c =
      step (codes "decrypt symmetric key: ") (decrypt_symmetric_key t.key (with_token t c))
        (λ c1. step (codes "sync vault: ") (sync c1) (λ c2. (ret tt, c2)))

  -- Steps 2 and 3
  unfoldable pub with_prelogin : Bytes → Result Error PreloginResponse → BitwardenClient → Call
  unfolding derive_keys token with_login
  with_prelogin password (err e) c = (fail (wrap (codes "prelogin: ") e), c)
  with_prelogin password (ok p) c =
      if not (int_eq p.kdf kdf_type_pbkdf2)
      then (
        fail (
            errorf (
              codes "unsupported KDF type: "
              ++ (decimal_int p.kdf ++ codes " (only PBKDF2 is supported)"))),
        c,
      )
      else step (codes "derive keys: ") (derive_keys password p.kdf_iterations c)
          (λ c1. with_login (token password c1) c1)

  -- Authenticate
  unfoldable pub authenticate : Bytes → BitwardenClient → Call
  unfolding prelogin with_prelogin
  authenticate password c = with_prelogin password (prelogin c) c
