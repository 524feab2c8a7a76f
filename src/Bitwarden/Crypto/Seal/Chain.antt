-- ===== src/Bitwarden/Crypto/Seal/Chain.antt =====
-- CBC: the decryption of bitwarden_crypto.go undoes the encryption.
use jasm.Base.{
  ℕ, zero, suc, ◌*◌, ◌≤◌, ◌≡◌, refl, sym, ap, ◌∙◌, [], ◌∷◌, ◌++◌, length, length-append, drop,
  drop-append, All, All-append, arith,
}
use jasm.Base.Xor.{bit_xor-bit_xor, bit_xor-lt}
use jasm.Text.{Bytes}
use jasm.Text.Base64.RoundTrip.{IsByte}
use jasm.Bitwarden.Crypto.{Primitives, block_size, take, xor_bytes, cbc_decrypt}
use jasm.Bitwarden.Crypto.Sound.{take-append-drop, length-take, length-drop, length-xor_bytes}
use jasm.Bitwarden.Crypto.Seal.{IsBlock, IsCipher, cbc_encrypt}

xor_bytes-xor_bytes : (s t : Bytes) → length s ≡ length t → xor_bytes (xor_bytes s t) t ≡ s
unfolding xor_bytes
xor_bytes-xor_bytes [] t h = refl
xor_bytes-xor_bytes (a ∷ s) [] h = absurd (omega arith)
xor_bytes-xor_bytes (a ∷ s) (b ∷ t) h =
    rw (bit_xor-bit_xor a b, xor_bytes-xor_bytes s t (omega arith))

xor_bytes-bytes : (s t : Bytes) → All IsByte s → All IsByte t → All IsByte (xor_bytes s t)
unfolding xor_bytes
xor_bytes-bytes [] t hs ht = tt
xor_bytes-bytes (a ∷ s) [] hs ht = tt
xor_bytes-bytes (a ∷ s) (b ∷ t) (ha, hs) (hb, ht) =
    (bit_xor-lt a b ha hb, xor_bytes-bytes s t hs ht)

pub take-append : (s t : Bytes) → take (length s) (s ++ t) ≡ s
take-append [] t = refl
take-append (c ∷ s) t = ap (λ r. c ∷ r) (take-append s t)

take-bytes : (n : ℕ) (s : Bytes) → All IsByte s → All IsByte (take n s)
take-bytes zero s h = tt
take-bytes (suc n) [] h = tt
take-bytes (suc n) (c ∷ s) (hc, h) = (hc, take-bytes n s h)

drop-bytes : (n : ℕ) (s : Bytes) → All IsByte s → All IsByte (drop n s)
drop-bytes zero s h = h
drop-bytes (suc n) [] h = tt
drop-bytes (suc n) (c ∷ s) (hc, h) = drop-bytes n s h

-- The next block that is encrypted.
mixed-IsBlock :
    (s previous : Bytes)
    → block_size ≤ length s
    → All IsByte s
    → IsBlock previous
    → IsBlock (xor_bytes (take block_size s) previous)
mixed-IsBlock s previous long bytes p =
    let size = length-take block_size s long in
    record {
      size = length-xor_bytes (take block_size s) previous (size ∙ sym p.size) ∙ size;
      bytes = xor_bytes-bytes (take block_size s) previous (take-bytes block_size s bytes) p.bytes;
    }

module _ (prim : Primitives) (encrypt_block : Bytes → Bytes → Bytes)
    (cipher : IsCipher prim encrypt_block) (key : Bytes) where
  -- The first step of the decryption, on a block and what follows it.
  decrypt_first :
      (n : ℕ) (previous block rest : Bytes)
      → IsBlock block
      → cbc_decrypt prim key (suc n) previous (block ++ rest)
        ≡ xor_bytes (prim.aes_decrypt_block key block) previous ++ cbc_decrypt prim key n block rest
  unfolding cbc_decrypt
  decrypt_first n previous block rest b =
      let head : take block_size (block ++ rest) ≡ block =
        ap (λ k. take k (block ++ rest)) (sym b.size) ∙ take-append block rest in
      let tail : drop block_size (block ++ rest) ≡ rest =
        ap (λ k. drop k (block ++ rest)) (sym b.size) ∙ drop-append block rest in
      rw (head, tail)

  pub cbc_decrypt-cbc_encrypt :
      (n : ℕ) (previous s : Bytes)
      → length s ≡ n * block_size
      → All IsByte s
      → IsBlock previous
      → cbc_decrypt prim key n previous (cbc_encrypt encrypt_block key n previous s) ≡ s
  unfolding cbc_encrypt
  cbc_decrypt-cbc_encrypt zero previous [] size bytes p = unfold cbc_decrypt in refl
  cbc_decrypt-cbc_encrypt zero previous (c ∷ s) size bytes p = absurd (omega arith)
  cbc_decrypt-cbc_encrypt (suc n) previous s size bytes p =
      let mixed = xor_bytes (take block_size s) previous in
      let m = mixed-IsBlock s previous (omega arith) bytes p in
      let block = encrypt_block key mixed in
      let b = cipher.block key mixed m in
      let rest : length (drop block_size s) ≡ n * block_size =
        omega (arith, length-drop block_size s) in
      let same : length (take block_size s) ≡ length previous =
        length-take block_size s (omega arith) ∙ sym p.size in
      rw
        (
          decrypt_first n previous block (cbc_encrypt encrypt_block key n block (drop block_size s))
              b,
          cipher.undone key mixed m,
          xor_bytes-xor_bytes (take block_size s) previous same,
          cbc_decrypt-cbc_encrypt n block (drop block_size s) rest (drop-bytes block_size s bytes)
              b,
        )
        (take-append-drop block_size s)

  -- The ciphertext is made of so many blocks of bytes.
  pub length-cbc_encrypt :
      (n : ℕ) (previous s : Bytes)
      → length s ≡ n * block_size
      → All IsByte s
      → IsBlock previous
      → (length (cbc_encrypt encrypt_block key n previous s) ≡ n * block_size)
        × All IsByte (cbc_encrypt encrypt_block key n previous s)
  unfolding cbc_encrypt
  length-cbc_encrypt zero previous s size bytes p = (omega arith, tt)
  length-cbc_encrypt (suc n) previous s size bytes p =
      let mixed = xor_bytes (take block_size s) previous in
      let m = mixed-IsBlock s previous (omega arith) bytes p in
      let block = encrypt_block key mixed in
      let b = cipher.block key mixed m in
      let tail = cbc_encrypt encrypt_block key n block (drop block_size s) in
      let rest : length (drop block_size s) ≡ n * block_size =
        omega (arith, length-drop block_size s) in
      let (count, more) =
        length-cbc_encrypt n block (drop block_size s) rest (drop-bytes block_size s bytes) b in
      (omega (arith, length-append block tail, b.size), All-append IsByte block tail b.bytes more)
