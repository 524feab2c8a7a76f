-- ===== src/Bitwarden/Crypto/Panics.antt =====
-- What DecryptCipherString returns, and when it panics instead.
use jasm.Base.{
  ℕ, ◌%◌, ◌≡◌, refl, sym, ap, ◌∙◌, true, false, [], ◌∷◌, ◌++◌, Option, none, some, Result, ok, err,
  ◌==◌, length, arith, Bool-cases, Option-cases, ◌⊎◌, inl, inr,
}
use jasm.Text.{Bytes, is_empty}
use jasm.Bitwarden.Crypto.{
  ret, panic, CryptoError, CipherString, Primitives, block_size, last, is_key_size, unpad_last,
  decrypt_checked, mac_accepts, decrypt_parsed, decrypt_cipher_string, parse_cipher_string,
}
use jasm.Bitwarden.Crypto.Sound.{IsBlockCipher, IsPadded}
use jasm.Bitwarden.Crypto.Opened.{
  opened_text, length-opened_text, decrypt_checked_sound, mac_accepts_sound, last-none,
  unpad-ne-panic,
}

-- Where a text came from: the parsed string, which carries no MAC, is not checked, or has the MAC of
-- its vector and ciphertext; and the padding that was removed.
pub record IsOpened (prim : Primitives) (cipher : IsBlockCipher prim) (cipher_str key : Bytes)
    (mac_key : Option Bytes) (text : Bytes) : Type 0 where
  pub cs : CipherString
  pub parsed : parse_cipher_string cipher_str ≡ ok cs
  pub authentic :
      (cs.mac ≡ [])
      ⊎ ((mac_key ≡ none)
          ⊎ ((k : Bytes) × (mac_key ≡ some k)
              × (cs.mac ≡ prim.hmac_sha256 k (cs.iv ++ cs.ciphertext))))
  pub padded : IsPadded (opened_text prim cipher cs key) text

-- The strings on which the code indexes out of range, or hands crypto/cipher a vector that it refuses.
pub record IsFatal (prim : Primitives) (cs : CipherString) (key : Bytes) (mac_key : Option Bytes)
    : Type 0 where
  pub accepted : mac_accepts prim cs mac_key ≡ true
  pub key_size : is_key_size (length key) ≡ true
  pub whole_blocks : (length cs.ciphertext % block_size == 0) ≡ true
  pub broken : ((length cs.iv == block_size) ≡ false) ⊎ (cs.ciphertext ≡ [])

no_last : (s : Bytes) {n : ℕ} → length s ≡ 0 → last s ≡ some n → ⊥
unfolding last
no_last [] z g = cc
no_last (c ∷ s) z g = omega arith

length_nil : (s : Bytes) → length s ≡ 0 → s ≡ []
length_nil [] h = refl
length_nil (c ∷ s) h = absurd (omega arith)

module _ (prim : Primitives) (cipher : IsBlockCipher prim) where
  parsed_sound :
      (cipher_str key : Bytes) (mac_key : Option Bytes) (r : Result CryptoError CipherString)
      (text : Bytes)
      → parse_cipher_string cipher_str ≡ r
      → decrypt_parsed prim r key mac_key ≡ ret text
      → IsOpened prim cipher cipher_str key mac_key text
  unfolding decrypt_parsed
  parsed_sound cipher_str key mac_key (err e) text p h = cc
  parsed_sound cipher_str key mac_key (ok cs) text p h =
      elim (Bool-cases (mac_accepts prim cs mac_key)) [
        | inr e ↦ cc (rw e at h)
        | inl e ↦ record {
          cs = cs;
          parsed = p;
          authentic = mac_accepts_sound prim cs mac_key e;
          padded = decrypt_checked_sound prim cipher cs key text (rw e at h);
        }
      ]

  -- A text that is returned for a string that is not empty is the CBC decryption of the parsed
  -- ciphertext less one to sixteen bytes of padding, each of which holds their number; and the MAC, where
  -- the string carries one and a MAC key is given, is that of the vector and the ciphertext.
  pub decrypt_cipher_string-IsOpened :
      (cipher_str key : Bytes) (mac_key : Option Bytes) (text : Bytes)
      → is_empty cipher_str ≡ false
      → decrypt_cipher_string prim cipher_str key mac_key ≡ ret text
      → IsOpened prim cipher cipher_str key mac_key text
  unfolding decrypt_cipher_string
  decrypt_cipher_string-IsOpened cipher_str key mac_key text filled h =
      parsed_sound cipher_str key mac_key (parse_cipher_string cipher_str) text refl
        (rw filled at h)

  checked_fatal :
      (cs : CipherString) (key : Bytes) (mac_key : Option Bytes)
      → IsFatal prim cs key mac_key
      → decrypt_checked prim cs key ≡ panic
  unfolding decrypt_checked unpad_last
  checked_fatal cs key mac_key f = elim (Bool-cases (length cs.iv == block_size)) [
    | inr c ↦ rw (f.key_size, f.whole_blocks, c)
    | inl c ↦ elim f.broken [
      | inl d ↦ cc
      | inr d ↦
          let size = length-opened_text prim cipher cs key c f.whole_blocks in
          elim (Option-cases (last (opened_text prim cipher cs key))) [
            | inl g ↦ rw (f.key_size, f.whole_blocks, c, g)
            | inr (n, g) ↦
                absurd (no_last (opened_text prim cipher cs key) (size ∙ ap (length {0}) d) g)
          ]
    ]
  ]

  checked_panics :
      (cs : CipherString) (key : Bytes)
      → decrypt_checked prim cs key ≡ panic
      → (is_key_size (length key) ≡ true)
        × ((length cs.ciphertext % block_size == 0) ≡ true)
        × (((length cs.iv == block_size) ≡ false) ⊎ (cs.ciphertext ≡ []))
  unfolding decrypt_checked unpad_last
  checked_panics cs key h = elim (Bool-cases (is_key_size (length key))) [
    | inr a ↦ cc (rw a at h)
    | inl a ↦ elim (Bool-cases (length cs.ciphertext % block_size == 0)) [
      | inr b ↦ cc (rw (a, b) at h)
      | inl b ↦ elim (Bool-cases (length cs.iv == block_size)) [
        | inr c ↦ (a, b, inl c)
        | inl c ↦ elim (Option-cases (last (opened_text prim cipher cs key))) [
          | inl d ↦
              let size = length-opened_text prim cipher cs key c b in
              let none_left = ap (length {0}) (last-none (opened_text prim cipher cs key) d) in
              (a, b, inr (length_nil cs.ciphertext (sym size ∙ none_left)))
          | inr (n, d) ↦
              absurd (unpad-ne-panic n (opened_text prim cipher cs key) (rw (a, b, c, d) at h))
        ]
      ]
    ]
  ]

  -- A string that parses makes the code panic exactly when its MAC is accepted, the key has a size of AES
  -- and the ciphertext is made of whole blocks, and its vector has not the length of a block or its
  -- ciphertext is empty.
  pub decrypt_panics_exactly :
      (cipher_str key : Bytes) (mac_key : Option Bytes) (cs : CipherString)
      → is_empty cipher_str ≡ false
      → parse_cipher_string cipher_str ≡ ok cs
      → (decrypt_cipher_string prim cipher_str key mac_key ≡ panic → IsFatal prim cs key mac_key)
        × (IsFatal prim cs key mac_key → decrypt_cipher_string prim cipher_str key mac_key ≡ panic)
  unfolding decrypt_cipher_string decrypt_parsed
  decrypt_panics_exactly cipher_str key mac_key cs filled parsed =
      rw (filled, parsed)
        (
          λ h. elim (Bool-cases (mac_accepts prim cs mac_key)) [
            | inr e ↦ cc (rw e at h)
            | inl e ↦
                let (a, b, c) = checked_panics cs key (rw e at h) in
                record { accepted = e; key_size = a; whole_blocks = b; broken = c }
          ],
          λ f. rw f.accepted (checked_fatal cs key mac_key f),
        )
