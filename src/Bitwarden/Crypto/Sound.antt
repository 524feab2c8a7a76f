-- ===== src/Bitwarden/Crypto/Sound.antt =====
-- What DecryptCipherString returns: authenticated text without its padding.
use jasm.Base.{
  ℕ, zero, suc, ◌-◌, ◌≤◌, ◌≡◌, refl, ap, ◌∙◌, true, false, ◌||◌, [], ◌∷◌, ◌++◌, ltb, ◌==◌, length,
  drop, arith, Bool-cases, inl, inr,
}
use jasm.Text.{Bytes}
use jasm.Bitwarden.Crypto.{ret, Primitives, block_size, take, xor_bytes, all_equal, unpad}

-- What crypto/aes documents: a block is decrypted to a block.
pub record IsBlockCipher (prim : Primitives) : Type 0 where
  pub block_length :
      (key block : Bytes)
      → length block ≡ block_size
      → length (prim.aes_decrypt_block key block) ≡ block_size

abbrev pub replicate : ℕ → ℕ → Bytes
replicate zero c = []
replicate (suc n) c = c ∷ replicate n c

pub take-append-drop : (n : ℕ) (s : Bytes) → take n s ++ drop n s ≡ s
take-append-drop zero s = refl
take-append-drop (suc n) [] = refl
take-append-drop (suc n) (c ∷ s) = ap (λ t. c ∷ t) (take-append-drop n s)

pub length-take : (n : ℕ) (s : Bytes) → n ≤ length s → length (take n s) ≡ n
length-take zero s h = refl
length-take (suc n) [] h = absurd (omega arith)
length-take (suc n) (c ∷ s) h = omega (arith, length-take n s (omega arith))

pub length-drop : (n : ℕ) (s : Bytes) → length (drop n s) ≡ length s - n
length-drop zero s = omega arith
length-drop (suc n) [] = omega arith
length-drop (suc n) (c ∷ s) = omega (arith, length-drop n s)

pub length-xor_bytes : (s t : Bytes) → length s ≡ length t → length (xor_bytes s t) ≡ length s
unfolding xor_bytes
length-xor_bytes [] t h = refl
length-xor_bytes (a ∷ s) [] h = absurd (omega arith)
length-xor_bytes (a ∷ s) (b ∷ t) h = omega (arith, length-xor_bytes s t (omega arith))

all_equal-replicate : (n : ℕ) (s : Bytes) → all_equal n s ≡ true → s ≡ replicate (length s) n
unfolding all_equal
all_equal-replicate n [] h = refl
all_equal-replicate n (c ∷ s) h = ground (arith, all_equal-replicate n s)

-- The padding that was removed.
pub record IsPadded (plaintext text : Bytes) : Type 0 where
  pub count : ℕ
  pub at_least_one : 1 ≤ count
  pub at_most_block : count ≤ block_size
  pub split : plaintext ≡ text ++ replicate count count

padding_range : (n : ℕ) → (ltb block_size n || n == 0) ≡ false → (1 ≤ n) × (n ≤ block_size)
padding_range n h = ground arith

pub unpad_sound :
    (n : ℕ) (plaintext text : Bytes)
    → block_size ≤ length plaintext
    → unpad n plaintext ≡ ret text
    → IsPadded plaintext text
unfolding unpad
unpad_sound n plaintext text long h = elim (Bool-cases (ltb block_size n || n == 0)) [
  | inl e ↦ cc (rw e at h)
  | inr e ↦ elim (Bool-cases (all_equal n (drop (length plaintext - n) plaintext))) [
    | inr f ↦ cc (rw (e, f) at h)
    | inl f ↦
        let (low, high) = padding_range n e in
        let rest = drop (length plaintext - n) plaintext in
        let size : length rest ≡ n = omega (arith, length-drop (length plaintext - n) plaintext) in
        let pads : rest ≡ replicate n n =
          all_equal-replicate n rest f ∙ ap (λ k. replicate k n) size in
        let kept : take (length plaintext - n) plaintext ≡ text = cc (rw (e, f) at h) in
        record {
          count = n;
          at_least_one = low;
          at_most_block = high;
          split = cc (take-append-drop (length plaintext - n) plaintext, pads, kept);
        }
  ]
]
