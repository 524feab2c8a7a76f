-- ===== src/Bitwarden/Crypto/Seal/Opens.antt =====
-- DecryptCipherString of bitwarden_crypto.go reads back what was encrypted.
use jasm.Base.{
  ℕ, zero, suc, ◌+◌, ◌-◌, ◌*◌, ◌/◌, ◌%◌, ◌≤◌, ◌≡◌, refl, ap, ◌∙◌, Bool, true, false, ◌||◌, [], ◌∷◌,
  ◌++◌, some, ok, ltb, ◌==◌, ==_refl, length, length-append, drop, drop-append, All, All-append,
  arith,
}
use jasm.Text.{Bytes, codes, str_eq, is_empty, split, join}
use jasm.Text.Laws.{str_eq_refl, split-join, Lacks}
use jasm.Text.Base64.{base64_encode}
use jasm.Text.Base64.RoundTrip.{IsByte, IsCode, base64_encode-IsCode, base64_decode-base64_encode}
use jasm.Bitwarden.Crypto.{
  ret, CipherString, Primitives, block_size, take, last, all_equal, is_key_size, unpad, unpad_last,
  parse_cipher_string, decrypt_checked, mac_accepts, decrypt_parsed, decrypt_cipher_string,
}
use jasm.Bitwarden.Crypto.Sound.{replicate}
use jasm.Bitwarden.Crypto.Seal.{padding, pad, IsBlock, IsCipher, enciphered, seal}
use jasm.Bitwarden.Crypto.Seal.Chain.{take-append, cbc_decrypt-cbc_encrypt, length-cbc_encrypt}

length-replicate : (n c : ℕ) → length (replicate n c) ≡ n
length-replicate zero c = refl
length-replicate (suc n) c = omega (arith, length-replicate n c)

replicate-bytes : (n c : ℕ) → IsByte c → All IsByte (replicate n c)
replicate-bytes zero c h = tt
replicate-bytes (suc n) c h = (h, replicate-bytes n c h)

all_equal-replicate : (n c : ℕ) → all_equal c (replicate n c) ≡ true
unfolding all_equal
all_equal-replicate zero c = refl
all_equal-replicate (suc n) c = rw (==_refl, all_equal-replicate n c)

last-replicate : (n c : ℕ) → 1 ≤ n → last (replicate n c) ≡ some c
unfolding last
last-replicate zero c h = absurd (omega arith)
last-replicate (suc zero) c h = refl
last-replicate (suc (suc n)) c h = last-replicate (suc n) c (omega arith)

last-append : (s t : Bytes) {c : ℕ} → last t ≡ some c → last (s ++ t) ≡ some c
unfolding last
last-append [] t h = h
last-append (a ∷ []) [] h = cc h
last-append (a ∷ []) (b ∷ t) h = h
last-append (a ∷ b ∷ s) t h = last-append (b ∷ s) t h

length-pad : (text : Bytes) → length (pad text) ≡ (length text / block_size + 1) * block_size
length-pad text = omega (
  arith,
  length-append text (replicate (padding (length text)) (padding (length text))),
  length-replicate (padding (length text)) (padding (length text)),
)

last-pad : (text : Bytes) → last (pad text) ≡ some (padding (length text))
last-pad text =
    let n = padding (length text) in
    last-append text (replicate n n) (last-replicate n n (omega arith))

-- The padding is recognised and removed.
unpad-pad : (text : Bytes) → unpad (padding (length text)) (pad text) ≡ ret text
unfolding unpad
unpad-pad text =
    let n = padding (length text) in
    let size : length (pad text) - n ≡ length text = omega (arith, length-pad text) in
    let kept : take (length (pad text) - n) (pad text) ≡ text =
      ap (λ k. take k (pad text)) size ∙ take-append text (replicate n n) in
    let pads : drop (length (pad text) - n) (pad text) ≡ replicate n n =
      ap (λ k. drop k (pad text)) size ∙ drop-append text (replicate n n) in
    let range : (ltb block_size n || n == 0) ≡ false = ground arith in
    rw (range, pads, kept, all_equal-replicate n n) refl

either_true : (b : Bool) → (b || true) ≡ true
either_true true = refl
either_true false = refl

Lacks-bar : (s : Bytes) → All IsCode s → Lacks b'|' s
Lacks-bar [] h = tt
Lacks-bar (c ∷ s) (hc, h) = (hc.2, Lacks-bar s h)

module _ (prim : Primitives) (encrypt_block : Bytes → Bytes → Bytes)
    (cipher : IsCipher prim encrypt_block) (key mac_key iv text : Bytes) (vector : IsBlock iv)
    (bytes : All IsByte text) where
  abbrev sealed : CipherString
  sealed = record {
    enc_type = codes "2";
    iv = iv;
    ciphertext = enciphered encrypt_block key iv text;
    mac = prim.hmac_sha256 mac_key (iv ++ enciphered encrypt_block key iv text);
  }

  pad-bytes : All IsByte (pad text)
  pad-bytes =
      All-append IsByte text (replicate (padding (length text)) (padding (length text))) bytes
        (replicate-bytes (padding (length text)) (padding (length text)) (omega arith))

  shape :
      (length sealed.ciphertext ≡ (length text / block_size + 1) * block_size)
      × All IsByte sealed.ciphertext
  shape =
      length-cbc_encrypt prim encrypt_block cipher key (length text / block_size + 1) iv (pad text)
        (length-pad text) pad-bytes vector

  mac_bytes : All IsByte sealed.mac
  mac_bytes = cipher.mac mac_key (iv ++ sealed.ciphertext)

  cut_parts :
      split b'|' (
        base64_encode iv
        ++ b'|' ∷ (base64_encode sealed.ciphertext ++ b'|' ∷ base64_encode sealed.mac))
      ≡ base64_encode iv ∷ base64_encode sealed.ciphertext ∷ base64_encode sealed.mac ∷ []
  unfolding join
  cut_parts =
      split-join b'|' (base64_encode iv)
        (base64_encode sealed.ciphertext ∷ base64_encode sealed.mac ∷ [])
        (Lacks-bar (base64_encode iv) (base64_encode-IsCode iv vector.bytes))
        (
          Lacks-bar (base64_encode sealed.ciphertext)
              (base64_encode-IsCode sealed.ciphertext shape.1),
          (Lacks-bar (base64_encode sealed.mac) (base64_encode-IsCode sealed.mac mac_bytes), tt),
        )

  parse-seal : parse_cipher_string (seal encrypt_block prim key mac_key iv text) ≡ ok sealed
  unfolding parse_cipher_string seal str_eq
  parse-seal =
      rw
        (
          cut_parts,
          base64_decode-base64_encode iv vector.bytes,
          base64_decode-base64_encode sealed.ciphertext shape.1,
          base64_decode-base64_encode sealed.mac mac_bytes,
        )
        refl

  checked-sealed : is_key_size (length key) ≡ true → decrypt_checked prim sealed key ≡ ret text
  unfolding decrypt_checked unpad_last
  checked-sealed size =
      let length_known = shape.0 in
      let whole : (length sealed.ciphertext % block_size == 0) ≡ true = ground arith in
      let blocks : length sealed.ciphertext / block_size ≡ length text / block_size + 1 =
        omega arith in
      let full : (length iv == block_size) ≡ true = ground (arith, vector.size) in
      rw
        (
          size,
          whole,
          full,
          blocks,
          cbc_decrypt-cbc_encrypt prim encrypt_block cipher key (length text / block_size + 1) iv
              (pad text) (length-pad text) pad-bytes vector,
          last-pad text,
        )
        (unpad-pad text)

  filled : is_empty (seal encrypt_block prim key mac_key iv text) ≡ false
  unfolding seal is_empty
  filled = refl

  -- A text that was encrypted, with its MAC, under a key of a size of AES, is read back: DecryptCipherString
  -- of `2.iv|ciphertext|mac` returns it, for any text of bytes and any vector of sixteen bytes.
  pub decrypt_cipher_string-seal :
      is_key_size (length key) ≡ true
      → decrypt_cipher_string prim (seal encrypt_block prim key mac_key iv text) key (some mac_key)
        ≡ ret text
  unfolding decrypt_cipher_string decrypt_parsed mac_accepts
  decrypt_cipher_string-seal size =
      rw (filled, parse-seal, str_eq_refl, either_true) (checked-sealed size)
