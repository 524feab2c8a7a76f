-- ===== src/Bitwarden/Crypto/Keys.antt =====
-- The keys of internal/provider/bitwarden_crypto.go. PBKDF2 and HKDF-Expand of golang.org/x/crypto, with
-- SHA-256, are parameters.
use jasm.Base.{ℤ, pos, ℕ, Result, ok, ◌>>=◌, map_err}
use jasm.Text.{Bytes, codes, to_lower}
use jasm.Text.Base64.{base64_encode}
use jasm.Errors.{Error, wrap}

-- pbkdf2.Key of a password, a salt, a number of iterations and a length; hkdf.Expand of a key and an info,
-- and io.ReadFull of so many bytes.
pub record Kdf : Type 0 where
  pub pbkdf2_key : Bytes → Bytes → ℤ → ℕ → Bytes
  pub hkdf_read : Bytes → Bytes → ℕ → Result Error Bytes

module _ (kdf : Kdf) where
  -- DeriveMasterKey
  unfoldable pub derive_master_key : Bytes → Bytes → ℤ → Bytes
  derive_master_key password email iterations =
      kdf.pbkdf2_key password (to_lower email) iterations 32

  -- StretchMasterKey: the encryption key and the MAC key
  unfoldable pub stretch_master_key : Bytes → Result Error (Bytes × Bytes)
  stretch_master_key master_key = do
    enc_key ← map_err (wrap (codes "hkdf enc: ")) (kdf.hkdf_read master_key (codes "enc") 32)
    mac_key ← map_err (wrap (codes "hkdf mac: ")) (kdf.hkdf_read master_key (codes "mac") 32)
    ok (enc_key, mac_key)

  -- HashPassword
  unfoldable pub hash_password : Bytes → Bytes → Bytes
  hash_password master_key password = base64_encode (kdf.pbkdf2_key master_key password (pos 1) 32)
