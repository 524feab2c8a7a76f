-- ===== src/Tests/Ciphers.antt =====
-- Encrypted strings and items of internal/provider/bitwarden_crypto.go and bitwarden_types.go.
use jasm.Base.{
  pos, All, Bool, true, ltb, ◌&&◌, arith, false, ◌≡◌, refl, [], ◌∷◌, none, some, ok, false,
}
use jasm.Text.{Bytes, codes, is_empty, str_eq, split}
use jasm.Text.Base64.{base64_decode}
use jasm.Text.Base64.RoundTrip.{IsByte}
use jasm.StrMap.{lookup, Unique}
use jasm.Bitwarden.Crypto.{
  CipherString, Primitives, ret, panic, parse_cipher_string, decrypt_cipher_string, decrypt_parsed,
  decrypt_checked, mac_accepts, cbc_decrypt, xor_bytes, last, unpad_last, unpad, all_equal,
  is_key_size,
}
use jasm.Bitwarden.Crypto.Sound.{IsBlockCipher}
use jasm.Bitwarden.Crypto.Panics.{
  IsOpened, IsFatal, decrypt_cipher_string-IsOpened, decrypt_panics_exactly,
}
use jasm.Bitwarden.Crypto.Seal.{IsCipher}
use jasm.Bitwarden.Items.{DecryptedItem, to_secret_map}
use jasm.Bitwarden.Items.Data.{entries, last_filled, to_secret_map_exact}

-- A cipher that leaves each block as it is, and a MAC that is always one byte.
abbrev pub plain : Primitives
plain = record { aes_decrypt_block = λ key block. block; hmac_sha256 = λ key message. 7 ∷ [] }

plain-IsBlockCipher : IsBlockCipher plain
plain-IsBlockCipher = record { block_length = λ key block h. h }

abbrev pub key : Bytes
key = codes "0123456789abcdef"

abbrev pub sealed : Bytes
sealed = codes "2.AAAAAAAAAAAAAAAAAAAAAA==|eA8PDw8PDw8PDw8PDw8PDw==|Bw=="

sealed_opens : decrypt_cipher_string plain sealed key (some key) ≡ ret (codes "x")
unfolding parse_cipher_string base64_decode decrypt_cipher_string decrypt_parsed decrypt_checked
    mac_accepts cbc_decrypt xor_bytes last unpad_last unpad all_equal is_key_size is_empty str_eq
    split
sealed_opens = refl

sealed_filled : is_empty sealed ≡ false
unfolding is_empty
sealed_filled = refl

decrypt_cipher_string-IsOpened_example :
    IsOpened plain plain-IsBlockCipher sealed key (some key) (codes "x")
decrypt_cipher_string-IsOpened_example =
    decrypt_cipher_string-IsOpened plain plain-IsBlockCipher sealed key (some key) (codes "x")
      sealed_filled sealed_opens

abbrev hollow : CipherString
hollow = record { enc_type = codes "2"; iv = []; ciphertext = []; mac = [] }

hollow_filled : is_empty (codes "2.|") ≡ false
unfolding is_empty
hollow_filled = refl

hollow_parsed : parse_cipher_string (codes "2.|") ≡ ok hollow
unfolding parse_cipher_string base64_decode str_eq split
hollow_parsed = refl

decrypt_panics_exactly_example :
    (decrypt_cipher_string plain (codes "2.|") key (some key) ≡ panic
      → IsFatal plain hollow key (some key))
    × (IsFatal plain hollow key (some key)
        → decrypt_cipher_string plain (codes "2.|") key (some key) ≡ panic)
decrypt_panics_exactly_example =
    decrypt_panics_exactly plain plain-IsBlockCipher (codes "2.|") key (some key) hollow
      hollow_filled hollow_parsed

-- The encryption that leaves each block as it is, too.
abbrev pub plain_encrypt : Bytes → Bytes → Bytes
plain_encrypt k block = block

pub plain-IsCipher : IsCipher plain plain_encrypt
plain-IsCipher = record {
  undone = λ k block h. refl;
  block = λ k block h. h;
  mac = λ k message. (omega arith, tt);
}

abbrev pub byte_sized : Bytes → Bool
byte_sized [] = true
byte_sized (c ∷ s) = ltb c 256 && byte_sized s

pub are_bytes : (s : Bytes) → byte_sized s ≡ true → All IsByte s
are_bytes [] h = tt
are_bytes (c ∷ s) h = (ground arith, are_bytes s (ground arith))

-- The code does panic there.
hollow_panics : decrypt_cipher_string plain (codes "2.|") key (some key) ≡ panic
unfolding parse_cipher_string base64_decode decrypt_cipher_string decrypt_parsed decrypt_checked
    mac_accepts cbc_decrypt xor_bytes last unpad_last unpad all_equal is_key_size is_empty str_eq
    split
hollow_panics = refl

abbrev account : DecryptedItem
account = record {
  id = codes "1";
  name = codes "db";
  item_type = pos 1;
  type_name = codes "Login";
  notes = codes "n";
  login = some record { username = codes "u"; password = codes "p"; totp = []; uris = [] };
  card = none;
  fields = record { name = codes "password"; value = codes "q"; field_type = pos 0 } ∷ [];
  folder_id = none;
}

to_secret_map_exact_example :
    ((k : Bytes) → lookup k (to_secret_map account) ≡ last_filled k (entries account))
    × Unique (to_secret_map account)
to_secret_map_exact_example = to_secret_map_exact account

-- The custom field replaces the login's password.
field_wins : last_filled (codes "password") (entries account) ≡ some (codes "q")
unfolding is_empty str_eq
field_wins = refl
