-- ===== src/Bitwarden/Crypto/Opened.antt =====
-- What stands behind the MAC check of DecryptCipherString: the length of the opened text, and its padding.
use jasm.Base.{
  ℕ, zero, suc, ◌*◌, ◌/◌, ◌%◌, ◌≤◌, ◌≡◌, ◌≢◌, refl, sym, ◌∙◌, true, [], ◌∷◌, ◌++◌, Option, none,
  some, ◌==◌, length, length-append, drop, arith, Bool-cases, Option-cases, ◌⊎◌, inl, inr,
}
use jasm.Text.{Bytes, is_empty}
use jasm.Text.Laws.{str_eq_iff, is_empty_iff}
use jasm.Bitwarden.Crypto.{
  ret, panic, CipherString, Primitives, block_size, take, last, xor_bytes, is_key_size, unpad,
  unpad_last, cbc_decrypt, decrypt_checked, mac_accepts,
}
use jasm.Bitwarden.Crypto.Sound.{
  IsBlockCipher, IsPadded, unpad_sound, length-take, length-drop, length-xor_bytes,
}

last-some : (s : Bytes) {n : ℕ} → last s ≡ some n → 1 ≤ length s
unfolding last
last-some [] h = cc
last-some (c ∷ s) h = omega arith

pub last-none : (s : Bytes) → last s ≡ none → s ≡ []
unfolding last
last-none [] h = refl
last-none (c ∷ []) h = cc
last-none (c ∷ d ∷ s) h = cc (last-none (d ∷ s) h)

pub unpad-ne-panic : (n : ℕ) (s : Bytes) → unpad n s ≢ panic
unfolding unpad
unpad-ne-panic n s h = ground arith

pub mac_accepts_sound :
    (prim : Primitives) (cs : CipherString) (mac_key : Option Bytes)
    → mac_accepts prim cs mac_key ≡ true
    → (cs.mac ≡ [])
      ⊎ ((mac_key ≡ none)
          ⊎ ((k : Bytes) × (mac_key ≡ some k)
              × (cs.mac ≡ prim.hmac_sha256 k (cs.iv ++ cs.ciphertext))))
unfolding mac_accepts
mac_accepts_sound prim cs none h = inr (inl refl)
mac_accepts_sound prim cs (some k) h = elim (Bool-cases (is_empty cs.mac)) [
  | inl e ↦ inl ((is_empty_iff cs.mac).0 e)
  | inr e ↦ inr (
      inr
        (k, refl, (str_eq_iff cs.mac (prim.hmac_sha256 k (cs.iv ++ cs.ciphertext))).0 (rw e at h)))
]

module _ (prim : Primitives) (cipher : IsBlockCipher prim) where
  length-cbc_decrypt :
      (key : Bytes) (n : ℕ) (previous s : Bytes)
      → length previous ≡ block_size
      → length s ≡ n * block_size
      → length (cbc_decrypt prim key n previous s) ≡ n * block_size
  unfolding cbc_decrypt
  length-cbc_decrypt key zero previous s hp hs = omega arith
  length-cbc_decrypt key (suc n) previous s hp hs =
      let block = take block_size s in
      let one : length block ≡ block_size = length-take block_size s (omega arith) in
      let rest : length (drop block_size s) ≡ n * block_size =
        omega (arith, length-drop block_size s) in
      let open_block = prim.aes_decrypt_block key block in
      let opened : length open_block ≡ block_size = cipher.block_length key block one in
      let mixed = xor_bytes open_block previous in
      omega (
        arith,
        length-append mixed (cbc_decrypt prim key n block (drop block_size s)),
        length-xor_bytes open_block previous (opened ∙ sym hp),
        length-cbc_decrypt key n block (drop block_size s) one rest,
      )

  module _ (cs : CipherString) (key : Bytes) where
    abbrev pub opened_text : Bytes
    opened_text = cbc_decrypt prim key (length cs.ciphertext / block_size) cs.iv cs.ciphertext

    pub length-opened_text :
        (length cs.iv == block_size) ≡ true
        → (length cs.ciphertext % block_size == 0) ≡ true
        → length opened_text ≡ length cs.ciphertext
    length-opened_text vector multiple =
        let v : length cs.iv ≡ block_size = ground arith in
        let m : length cs.ciphertext % block_size ≡ 0 = ground arith in
        omega (
          arith,
          length-cbc_decrypt key (length cs.ciphertext / block_size) cs.iv cs.ciphertext v
              (omega arith),
        )

    pub decrypt_checked_sound :
        (text : Bytes) → decrypt_checked prim cs key ≡ ret text → IsPadded opened_text text
    unfolding decrypt_checked unpad_last
    decrypt_checked_sound text h = elim (Bool-cases (is_key_size (length key))) [
      | inr a ↦ cc (rw a at h)
      | inl a ↦ elim (Bool-cases (length cs.ciphertext % block_size == 0)) [
        | inr b ↦ cc (rw (a, b) at h)
        | inl b ↦ elim (Bool-cases (length cs.iv == block_size)) [
          | inr c ↦ cc (rw (a, b, c) at h)
          | inl c ↦ elim (Option-cases (last opened_text)) [
            | inl d ↦ cc (rw (a, b, c, d) at h)
            | inr (n, d) ↦
                let size = length-opened_text c b in
                let some_byte = last-some opened_text d in
                let m : length cs.ciphertext % block_size ≡ 0 = ground arith in
                unpad_sound n opened_text text (omega arith) (rw (a, b, c, d) at h)
          ]
        ]
      ]
    ]
