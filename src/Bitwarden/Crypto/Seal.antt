-- ===== src/Bitwarden/Crypto/Seal.antt =====
-- What a client of Bitwarden does to encrypt a text, as the description that DecryptCipherString of
-- internal/provider/bitwarden_crypto.go is held against: PKCS#7 padding, CBC over a block encryption, a MAC
-- of the vector and the ciphertext, and the three of them in base64.
pub mod Chain
pub mod Opens
use Prim.Native.Nat.{bit_xor}
use jasm.Base.{ℕ, zero, suc, ◌+◌, ◌-◌, ◌*◌, ◌/◌, ◌%◌, ◌≡◌, [], ◌∷◌, ◌++◌, length, drop, All}
use jasm.Text.{Bytes, codes}
use jasm.Text.Base64.{base64_encode}
use jasm.Text.Base64.RoundTrip.{IsByte}
use jasm.Bitwarden.Crypto.{Primitives, block_size, take, xor_bytes}
use jasm.Bitwarden.Crypto.Sound.{replicate}

-- The padding of a text of so many bytes.
abbrev pub padding : ℕ → ℕ
padding n = block_size - n % block_size

abbrev pub pad : Bytes → Bytes
pad text = text ++ replicate (padding (length text)) (padding (length text))

-- A block of bytes.
pub record IsBlock (block : Bytes) : Type 0 where
  pub size : length block ≡ block_size
  pub bytes : All IsByte block

-- A block encryption that the block decryption undoes, and a MAC made of bytes: what FIPS 197 and RFC 2104
-- say of AES and HMAC.
pub record IsCipher (prim : Primitives) (encrypt_block : Bytes → Bytes → Bytes) : Type 0 where
  pub undone :
      (key block : Bytes)
      → IsBlock block
      → prim.aes_decrypt_block key (encrypt_block key block) ≡ block
  pub block : (key block : Bytes) → IsBlock block → IsBlock (encrypt_block key block)
  pub mac : (key message : Bytes) → All IsByte (prim.hmac_sha256 key message)

module _ (encrypt_block : Bytes → Bytes → Bytes) where
  unfoldable pub cbc_encrypt : Bytes → ℕ → Bytes → Bytes → Bytes
  cbc_encrypt key zero previous s = []
  cbc_encrypt key (suc blocks) previous s =
      let block = encrypt_block key (xor_bytes (take block_size s) previous) in
      block ++ cbc_encrypt key blocks block (drop block_size s)

  -- The ciphertext of a text.
  abbrev pub enciphered : Bytes → Bytes → Bytes → Bytes
  enciphered key iv text = cbc_encrypt key (length text / block_size + 1) iv (pad text)

  -- 2.iv|ciphertext|mac
  unfoldable pub seal : Primitives → Bytes → Bytes → Bytes → Bytes → Bytes
  unfolding cbc_encrypt
  seal prim key mac_key iv text =
      codes "2."
      ++ (base64_encode iv
          ++ b'|'
            ∷ (base64_encode (enciphered key iv text)
                ++ b'|' ∷ base64_encode (prim.hmac_sha256 mac_key (iv ++ enciphered key iv text))))
