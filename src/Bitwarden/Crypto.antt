-- ===== src/Bitwarden/Crypto.antt =====
-- internal/provider/bitwarden_crypto.go: encrypted strings `2.iv|ciphertext|mac`. The block cipher and
-- the MAC are those of crypto/aes and crypto/hmac with SHA-256, as parameters; the modes, the padding
-- and the panics of the code around them are modelled.
pub mod Sound
pub mod Opened
pub mod Panics
pub mod Keys
pub mod Seal
use Prim.Native.Nat.{bit_xor}
use jasm.Base.{
  ℕ, zero, suc, ◌+◌, ◌-◌, ◌*◌, ◌/◌, ◌%◌, Bool, true, false, ◌&&◌, ◌||◌, not, List, [], ◌∷◌, ◌++◌,
  Option, none, some, Result, ok, err, ◌>>=◌, ltb, ◌==◌, if◌then◌else◌, length, drop,
}
pub use jasm.Base.{Go, ret, fail, panic}
use jasm.Text.{Bytes, codes, str_eq, is_empty, split, to_lower}
use jasm.Text.Base64.{base64_decode}

-- The errors of this file.
pub data CryptoError : Type 0 where
  missing_separator bad_format bad_iv bad_ciphertext bad_mac : CryptoError
  unsupported_type : Bytes → CryptoError
  mac_failed bad_key_size not_multiple invalid_padding invalid_padding_bytes : CryptoError

-- type CipherString
pub record CipherString : Type 0 where
  pub enc_type : Bytes
  pub iv : Bytes
  pub ciphertext : Bytes
  pub mac : Bytes

-- strings.SplitN(s, ".", 2): the text before and behind the first dot
cut_dot : Bytes → Option (Bytes × Bytes)
cut_dot [] = none
cut_dot (c ∷ s) = elim (c == b'.') [
  | true ↦ some ([], s)
  | false ↦ elim (cut_dot s) [ none ↦ none | some (a, b) ↦ some (c ∷ a, b) ]
]

or_error : CryptoError → Option Bytes → Result CryptoError Bytes
or_error e none = err e
or_error e (some b) = ok b

-- dataParts: the initialisation vector, the ciphertext, and the MAC if there is one
from_data_parts : Bytes → List Bytes → Result CryptoError CipherString
unfolding or_error
from_data_parts enc_type [] = err bad_format
from_data_parts enc_type (p ∷ []) = err bad_format
from_data_parts enc_type (p ∷ q ∷ []) = do
  iv ← or_error bad_iv (base64_decode p)
  ciphertext ← or_error bad_ciphertext (base64_decode q)
  ok (record { enc_type = enc_type; iv = iv; ciphertext = ciphertext; mac = [] })
from_data_parts enc_type (p ∷ q ∷ r ∷ _) = do
  iv ← or_error bad_iv (base64_decode p)
  ciphertext ← or_error bad_ciphertext (base64_decode q)
  mac ← or_error bad_mac (base64_decode r)
  ok (record { enc_type = enc_type; iv = iv; ciphertext = ciphertext; mac = mac })

from_cut : Option (Bytes × Bytes) → Result CryptoError CipherString
unfolding from_data_parts
from_cut none = err missing_separator
from_cut (some (enc_type, rest)) =
    if not (str_eq enc_type (codes "2"))
    then err (unsupported_type enc_type)
    else from_data_parts enc_type (split b'|' rest)

-- ParseCipherString, of a text that is not empty; for the empty one it returns nil
unfoldable pub parse_cipher_string : Bytes → Result CryptoError CipherString
unfolding cut_dot from_cut
parse_cipher_string s = from_cut (cut_dot s)

-- aes.BlockSize
abbrev pub block_size : ℕ
block_size = 16

abbrev pub take : ℕ → Bytes → Bytes
take zero s = []
take (suc n) [] = []
take (suc n) (c ∷ s) = c ∷ take n s

-- The last byte; `none` is an index out of range.
unfoldable pub last : Bytes → Option ℕ
last [] = none
last (c ∷ []) = some c
last (c ∷ d ∷ s) = last (d ∷ s)

unfoldable pub xor_bytes : Bytes → Bytes → Bytes
xor_bytes (a ∷ s) (b ∷ t) = bit_xor a b ∷ xor_bytes s t
xor_bytes _ _ = []

-- Every byte equals the padding.
unfoldable pub all_equal : ℕ → Bytes → Bool
all_equal n [] = true
all_equal n (c ∷ s) = c == n && all_equal n s

-- The sizes that aes.NewCipher takes.
unfoldable pub is_key_size : ℕ → Bool
is_key_size n = n == 16 || (n == 24 || n == 32)

-- The padding bytes are checked and removed.
unfoldable pub unpad : ℕ → Bytes → Go CryptoError Bytes
unpad padding plaintext =
    if ltb block_size padding || padding == 0
    then fail invalid_padding
    else if not (all_equal padding (drop (length plaintext - padding) plaintext))
    then fail invalid_padding_bytes
    else ret (take (length plaintext - padding) plaintext)

-- plaintext[len(plaintext)-1], and what follows
unfoldable pub unpad_last : Option ℕ → Bytes → Go CryptoError Bytes
unfolding unpad
unpad_last none plaintext = panic
unpad_last (some padding) plaintext = unpad padding plaintext

-- The two primitives: one block of AES decryption under a key, and HMAC-SHA256 of a message.
pub record Primitives : Type 0 where
  pub aes_decrypt_block : Bytes → Bytes → Bytes
  pub hmac_sha256 : Bytes → Bytes → Bytes

module _ (prim : Primitives) where
  -- cipher.NewCBCDecrypter and CryptBlocks: so many blocks, each decrypted and combined with the
  -- ciphertext of the block before it
  unfoldable pub cbc_decrypt : Bytes → ℕ → Bytes → Bytes → Bytes
  unfolding xor_bytes
  cbc_decrypt key zero previous s = []
  cbc_decrypt key (suc blocks) previous s =
      xor_bytes (prim.aes_decrypt_block key (take block_size s)) previous
      ++ cbc_decrypt key blocks (take block_size s) (drop block_size s)

  -- Behind the MAC: a vector that has not the block's length makes NewCBCDecrypter panic.
  unfoldable pub decrypt_checked : CipherString → Bytes → Go CryptoError Bytes
  unfolding cbc_decrypt unpad_last last
  decrypt_checked cs enc_key =
      if not (is_key_size (length enc_key))
      then fail bad_key_size
      else if not (length cs.ciphertext % block_size == 0)
      then fail not_multiple
      else if not (length cs.iv == block_size)
      then panic
      else let plaintext =
          cbc_decrypt enc_key (length cs.ciphertext / block_size) cs.iv cs.ciphertext in
        unpad_last (last plaintext) plaintext

  -- if len(cs.MAC) > 0 && macKey != nil
  unfoldable pub mac_accepts : CipherString → Option Bytes → Bool
  mac_accepts cs none = true
  mac_accepts cs (some mac_key) =
      is_empty cs.mac || str_eq cs.mac (prim.hmac_sha256 mac_key (cs.iv ++ cs.ciphertext))

  unfoldable pub decrypt_parsed :
      Result CryptoError CipherString → Bytes → Option Bytes → Go CryptoError Bytes
  unfolding decrypt_checked mac_accepts
  decrypt_parsed (err e) enc_key mac_key = fail e
  decrypt_parsed (ok cs) enc_key mac_key =
      if mac_accepts cs mac_key then decrypt_checked cs enc_key else fail mac_failed

  -- DecryptCipherString and DecryptString, whose strings are bytes; a nil result is the empty one
  unfoldable pub decrypt_cipher_string : Bytes → Bytes → Option Bytes → Go CryptoError Bytes
  unfolding decrypt_parsed
  decrypt_cipher_string cipher_str enc_key mac_key =
      if is_empty cipher_str
      then ret []
      else decrypt_parsed (parse_cipher_string cipher_str) enc_key mac_key
