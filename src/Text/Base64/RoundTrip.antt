-- ===== src/Text/Base64/RoundTrip.antt =====
-- base64: what EncodeToString writes is read back, and holds none of the bytes that are left out.
use jasm.Base.{
  ℕ, ◌+◌, ◌*◌, ◌/◌, ◌%◌, ◌<◌, ◌≡◌, ◌≢◌, refl, ap, false, [], ◌∷◌, some, ◌==◌, All, arith,
}
use jasm.Text.{Bytes}
use jasm.Text.Base64.{sextet, no_breaks, padded, groups, base64_decode, letter, base64_encode}

abbrev pub IsByte : ℕ → Type 0
IsByte c = c < 256

-- A letter of the alphabet, or the padding: no line break, no dot and no bar.
abbrev pub IsCode : ℕ → Type 0
IsCode c = (c ≢ b'\n') × (c ≢ b'\r') × (c ≢ b'|')

sextet-letter : (v : ℕ) → v < 64 → sextet (letter v) ≡ some v
unfolding sextet letter
sextet-letter v h = ground arith

letter-ne_pad : (v : ℕ) → (letter v == b'=') ≡ false
unfolding letter
letter-ne_pad v = ground arith

letter-IsCode : (v : ℕ) → v < 64 → IsCode (letter v)
unfolding letter
letter-IsCode v h = ground arith

pub base64_encode-IsCode : (s : Bytes) → All IsByte s → All IsCode (base64_encode s)
unfolding base64_encode
base64_encode-IsCode [] h = tt
base64_encode-IsCode (x ∷ []) (hx, h) =
    (letter-IsCode (x / 4) (omega arith), (letter-IsCode (x % 4 * 16) (omega arith), omega arith))
base64_encode-IsCode (x ∷ y ∷ []) (hx, (hy, h)) = (
  letter-IsCode (x / 4) (omega arith),
  (
    letter-IsCode (x % 4 * 16 + y / 16) (omega arith),
    (letter-IsCode (y % 16 * 4) (omega arith), omega arith),
  ),
)
base64_encode-IsCode (x ∷ y ∷ z ∷ s) (hx, (hy, (hz, h))) = (
  letter-IsCode (x / 4) (omega arith),
  (
    letter-IsCode (x % 4 * 16 + y / 16) (omega arith),
    (
      letter-IsCode (y % 16 * 4 + z / 64) (omega arith),
      (letter-IsCode (z % 64) (omega arith), base64_encode-IsCode s h),
    ),
  ),
)

no_breaks-code : (s : Bytes) → All IsCode s → no_breaks s ≡ s
unfolding no_breaks
no_breaks-code [] h = refl
no_breaks-code (c ∷ s) (hc, h) = ground (arith, no_breaks-code s h)

groups-base64_encode : (s : Bytes) → All IsByte s → groups (base64_encode s) ≡ some s
unfolding base64_encode groups padded
groups-base64_encode [] h = refl
groups-base64_encode (x ∷ []) (hx, h) =
    rw (sextet-letter (x / 4) (omega arith), sextet-letter (x % 4 * 16) (omega arith))
      (ap (λ (k : ℕ). some (k ∷ [])) (omega arith))
groups-base64_encode (x ∷ y ∷ []) (hx, (hy, h)) =
    let first : x / 4 * 4 + (x % 4 * 16 + y / 16) / 16 ≡ x = omega arith in
    let second : (x % 4 * 16 + y / 16) % 16 * 16 + y % 16 * 4 / 4 ≡ y = omega arith in
    rw
      (
        letter-ne_pad (y % 16 * 4),
        sextet-letter (x / 4) (omega arith),
        sextet-letter (x % 4 * 16 + y / 16) (omega arith),
        sextet-letter (y % 16 * 4) (omega arith),
      )
      (cc (first, second))
groups-base64_encode (x ∷ y ∷ z ∷ s) (hx, (hy, (hz, h))) =
    let first : x / 4 * 4 + (x % 4 * 16 + y / 16) / 16 ≡ x = omega arith in
    let second : (x % 4 * 16 + y / 16) % 16 * 16 + (y % 16 * 4 + z / 64) / 4 ≡ y = omega arith in
    let third : (y % 16 * 4 + z / 64) % 4 * 64 + z % 64 ≡ z = omega arith in
    rw
      (
        letter-ne_pad (z % 64),
        sextet-letter (x / 4) (omega arith),
        sextet-letter (x % 4 * 16 + y / 16) (omega arith),
        sextet-letter (y % 16 * 4 + z / 64) (omega arith),
        sextet-letter (z % 64) (omega arith),
        groups-base64_encode s h,
      )
      (cc (first, second, third))

-- What EncodeToString writes of bytes, DecodeString reads back.
pub base64_decode-base64_encode :
    (s : Bytes) → All IsByte s → base64_decode (base64_encode s) ≡ some s
unfolding base64_decode
base64_decode-base64_encode s h =
    rw (no_breaks-code (base64_encode s) (base64_encode-IsCode s h)) (groups-base64_encode s h)
