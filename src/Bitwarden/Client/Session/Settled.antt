-- ===== src/Bitwarden/Client/Session/Settled.antt =====
-- How a call of Authenticate of internal/provider/bitwarden_client.go ends.
use jasm.Base.{
  int_eq, int_eq_sound, ◌+◌, ◌≡◌, refl, ◌++◌, some, Result, ok, err, ◌==◌, length, drop, arith,
  Bool-cases, inl, inr,
}
use jasm.Text.{Bytes, codes}
use jasm.Errors.{Error}
use jasm.Bitwarden.Crypto.{Go, ret, fail, panic, CryptoError, decrypt_cipher_string, take}
use jasm.Bitwarden.Crypto.Sound.{take-append-drop, length-take, length-drop}
use jasm.Bitwarden.Crypto.Keys.{derive_master_key, stretch_master_key}
use jasm.Bitwarden.Client.{VaultCache, BitwardenClient}
use jasm.Bitwarden.Client.Sync.{sync_response}
use jasm.Bitwarden.Client.Vault.{SyncResponse, VaultError, sync_vault}
use jasm.Bitwarden.Client.Vault.Opened.{IsVaultOf, sync_vault-IsVaultOf}
use jasm.Bitwarden.Client.Session.{
  PreloginResponse, TokenResponse, Environment, kdf_type_pbkdf2, add_seconds, Call, step, prelogin,
  with_stretched, derive_keys, token, with_token, with_plaintext, decrypt_symmetric_key, with_vault,
  with_response, sync, with_login, with_prelogin, authenticate,
}

-- What no call changes, whatever it changes of the keys and the token.
pub record IsKept (before after : BitwardenClient) : Type 0 where
  pub cache : after.cache ≡ before.cache
  pub server_url : after.server_url ≡ before.server_url
  pub email : after.email ≡ before.email
  pub cache_ttl : after.cache_ttl ≡ before.cache_ttl

module _ (env : Environment) (password : Bytes) (before : BitwardenClient) where
  -- The client with the keys of the master password, as Login finds it.
  abbrev pub derived : PreloginResponse → Bytes → Bytes → BitwardenClient
  derived p enc_key mac_key = record before {
    master_key = derive_master_key env.kdf password before.email p.kdf_iterations;
    stretched_enc = enc_key;
    stretched_mac = some mac_key;
  }

  -- A session: the account uses PBKDF2, the server accepted the hash of the password, the two halves of the
  -- key in its reply are the vault's keys, and the cache is the vault that it sent, decrypted with them.
  pub record IsSession (after : BitwardenClient) : Type 0 where
    pub account : PreloginResponse
    pub enc_key : Bytes
    pub mac_key : Bytes
    pub login : TokenResponse
    pub vault : SyncResponse
    pub known : prelogin env before ≡ ok account
    pub pbkdf2 : account.kdf ≡ kdf_type_pbkdf2
    pub stretched :
        stretch_master_key env.kdf
          (derive_master_key env.kdf password before.email account.kdf_iterations)
        ≡ ok (enc_key, mac_key)
    pub accepted : token env password (derived account enc_key mac_key) ≡ ok login
    pub sym_mac : Bytes
    pub has_sym_mac : after.sym_mac ≡ some sym_mac
    pub keys :
        decrypt_cipher_string env.prim login.key enc_key (some mac_key)
        ≡ ret (after.sym_key ++ sym_mac)
    pub key_sizes : (length after.sym_key ≡ 32) × (length sym_mac ≡ 32)
    pub access : after.access_token ≡ login.access_token
    pub expiry : after.token_expiry ≡ add_seconds env.login_now login.expires_in
    pub sent :
        sync_response env.decode_sync (
          env.get_sync
            (before.server_url ++ codes "/api/sync")
            (codes "Bearer " ++ login.access_token))
        ≡ ok vault
    pub cached :
        IsVaultOf env.prim after.sym_key after.sym_mac vault
          (env.sync_now + before.cache_ttl)
          after.cache

  abbrev pub IsSettled : Call → Type 0
  IsSettled (ret done, after) = IsSession after
  IsSettled (fail e, after) = IsKept before after
  IsSettled (panic, after) = IsKept before after

  kept : IsKept before before
  kept = record { cache = refl; server_url = refl; email = refl; cache_ttl = refl }

  module _ (p : PreloginResponse) (known : prelogin env before ≡ ok p)
      (pbkdf2 : p.kdf ≡ kdf_type_pbkdf2) (enc_key mac_key : Bytes)
      (stretched : stretch_master_key env.kdf
          (derive_master_key env.kdf password before.email p.kdf_iterations)
        ≡ ok (enc_key, mac_key))
      (t : TokenResponse) (accepted : token env password (derived p enc_key mac_key) ≡ ok t) where
    abbrev logged : BitwardenClient
    logged = with_token env t (derived p enc_key mac_key)

    abbrev keyed : Bytes → BitwardenClient
    keyed plaintext = record logged {
      sym_key = take 32 plaintext;
      sym_mac = some (drop 32 plaintext);
    }

    vault-IsSettled :
        (plaintext : Bytes) (s : SyncResponse) (g : Go VaultError VaultCache)
        → decrypt_cipher_string env.prim t.key enc_key (some mac_key) ≡ ret plaintext
        → length plaintext ≡ 64
        → sync_response env.decode_sync (
            env.get_sync
              (before.server_url ++ codes "/api/sync")
              (codes "Bearer " ++ t.access_token))
          ≡ ok s
        → sync_vault env.prim
            (take 32 plaintext)
            (some (drop 32 plaintext))
            s
            (env.sync_now + before.cache_ttl)
          ≡ g
        → IsSettled
            (step (codes "sync vault: ") (with_vault env g (keyed plaintext)) (λ c2. (ret tt, c2)))
    unfolding with_token
    vault-IsSettled plaintext s (fail e) opened size sent h = record {
      cache = refl;
      server_url = refl;
      email = refl;
      cache_ttl = refl;
    }
    vault-IsSettled plaintext s panic opened size sent h = record {
      cache = refl;
      server_url = refl;
      email = refl;
      cache_ttl = refl;
    }
    vault-IsSettled plaintext s (ret cache) opened size sent h = record {
      account = p;
      enc_key = enc_key;
      mac_key = mac_key;
      login = t;
      vault = s;
      known = known;
      pbkdf2 = pbkdf2;
      stretched = stretched;
      accepted = accepted;
      sym_mac = drop 32 plaintext;
      has_sym_mac = refl;
      keys = rw (take-append-drop 32 plaintext) opened;
      key_sizes = (length-take 32 plaintext (omega arith), omega (arith, length-drop 32 plaintext));
      access = refl;
      expiry = refl;
      sent = sent;
      cached =
          sync_vault-IsVaultOf env.prim (take 32 plaintext) (some (drop 32 plaintext)) s
            (env.sync_now + before.cache_ttl) cache h;
    }

    response-IsSettled :
        (plaintext : Bytes) (r : Result Error SyncResponse)
        → decrypt_cipher_string env.prim t.key enc_key (some mac_key) ≡ ret plaintext
        → length plaintext ≡ 64
        → sync_response env.decode_sync (
            env.get_sync
              (before.server_url ++ codes "/api/sync")
              (codes "Bearer " ++ t.access_token))
          ≡ r
        → IsSettled (
            step
              (codes "sync vault: ")
              (with_response env r (keyed plaintext))
              (λ c2. (ret tt, c2)))
    unfolding with_token
    response-IsSettled plaintext (err e) opened size sent = record {
      cache = refl;
      server_url = refl;
      email = refl;
      cache_ttl = refl;
    }
    response-IsSettled plaintext (ok s) opened size sent =
        vault-IsSettled plaintext s
          (sync_vault env.prim (take 32 plaintext) (some (drop 32 plaintext)) s
            (env.sync_now + before.cache_ttl))
          opened size sent refl

    key-IsSettled :
        (g : Go CryptoError Bytes)
        → decrypt_cipher_string env.prim t.key enc_key (some mac_key) ≡ g
        → IsSettled (
            step
              (codes "decrypt symmetric key: ")
              (with_plaintext env g logged)
              (λ c1. step (codes "sync vault: ") (sync env c1) (λ c2. (ret tt, c2))))
    unfolding with_token sync
    key-IsSettled panic opened = record {
      cache = refl;
      server_url = refl;
      email = refl;
      cache_ttl = refl;
    }
    key-IsSettled (fail e) opened = record {
      cache = refl;
      server_url = refl;
      email = refl;
      cache_ttl = refl;
    }
    key-IsSettled (ret plaintext) opened = elim (Bool-cases (length plaintext == 64)) [
      | inr short ↦
          rw short (record { cache = refl; server_url = refl; email = refl; cache_ttl = refl })
      | inl full ↦ rw full (
          response-IsSettled plaintext
            (sync_response env.decode_sync (
              env.get_sync (before.server_url ++ codes "/api/sync")
                (codes "Bearer " ++ t.access_token)))
            opened (ground arith) refl)
    ]

  login-IsSettled :
      (p : PreloginResponse) (enc_key mac_key : Bytes) (r : Result Error TokenResponse)
      → prelogin env before ≡ ok p
      → p.kdf ≡ kdf_type_pbkdf2
      → stretch_master_key env.kdf
          (derive_master_key env.kdf password before.email p.kdf_iterations)
        ≡ ok (enc_key, mac_key)
      → token env password (derived p enc_key mac_key) ≡ r
      → IsSettled (with_login env r (derived p enc_key mac_key))
  unfolding with_login decrypt_symmetric_key with_token
  login-IsSettled p enc_key mac_key (err e) known pbkdf2 stretched accepted = record {
    cache = refl;
    server_url = refl;
    email = refl;
    cache_ttl = refl;
  }
  login-IsSettled p enc_key mac_key (ok t) known pbkdf2 stretched accepted =
      key-IsSettled p known pbkdf2 enc_key mac_key stretched t accepted
        (decrypt_cipher_string env.prim t.key enc_key (some mac_key)) refl

  keys-IsSettled :
      (p : PreloginResponse) (r : Result Error (Bytes × Bytes))
      → prelogin env before ≡ ok p
      → p.kdf ≡ kdf_type_pbkdf2
      → stretch_master_key env.kdf
          (derive_master_key env.kdf password before.email p.kdf_iterations)
        ≡ r
      → IsSettled (
          step
            (codes "derive keys: ")
            (with_stretched env r (record before {
              master_key = derive_master_key env.kdf password before.email p.kdf_iterations;
            }))
            (λ c1. with_login env (token env password c1) c1))
  keys-IsSettled p (err e) known pbkdf2 stretched = record {
    cache = refl;
    server_url = refl;
    email = refl;
    cache_ttl = refl;
  }
  keys-IsSettled p (ok (enc_key, mac_key)) known pbkdf2 stretched =
      login-IsSettled p enc_key mac_key (token env password (derived p enc_key mac_key)) known
        pbkdf2 stretched refl

  prelogin-IsSettled :
      (r : Result Error PreloginResponse)
      → prelogin env before ≡ r
      → IsSettled (with_prelogin env password r before)
  unfolding with_prelogin derive_keys
  prelogin-IsSettled (err e) known = kept
  prelogin-IsSettled (ok p) known = elim (Bool-cases (int_eq p.kdf kdf_type_pbkdf2)) [
    | inr other ↦ rw other kept
    | inl same ↦ rw same (
        keys-IsSettled p
          (stretch_master_key env.kdf
            (derive_master_key env.kdf password before.email p.kdf_iterations))
          known (int_eq_sound p.kdf kdf_type_pbkdf2 same) refl)
  ]

  -- Authenticate ends in one of two ways. Without an error it leaves a session: the account uses PBKDF2, the
  -- server accepted the hash of the password, both vault keys are the 32-byte halves of the decrypted key of
  -- the reply, and the cache is the decrypted vault of the server, valid for the cache's time. With an error
  -- or a panic the cache, the URL, the address and the cache's time are what they were.
  pub authenticate-IsSettled : IsSettled (authenticate env password before)
  unfolding authenticate
  authenticate-IsSettled = prelogin-IsSettled (prelogin env before) refl
