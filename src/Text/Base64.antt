-- ===== src/Text/Base64.antt =====
-- base64.StdEncoding.DecodeString of encoding/base64: line breaks are skipped, the text is read in
-- groups of four with `=` as padding at the end, and bits that are left over are dropped; and
-- EncodeToString.
pub mod RoundTrip
use jasm.Base.{
  ℕ, ◌+◌, ◌-◌, ◌*◌, ◌/◌, ◌%◌, ◌&&◌, ◌||◌, [], ◌∷◌, Option, none, some, leb, ltb, ◌==◌,
  if◌then◌else◌,
}
use jasm.Text.{Bytes}

-- The value of a letter of the alphabet.
unfoldable pub sextet : ℕ → Option ℕ
sextet c =
    if leb b'A' c && leb c b'Z'
    then some (c - b'A')
    else if leb b'a' c && leb c b'z'
    then some (c - b'a' + 26)
    else if leb b'0' c && leb c b'9'
    then some (c - b'0' + 52)
    else if c == b'+'
    then some 62
    else if c == b'/'
    then some 63
    else none

unfoldable pub no_breaks : Bytes → Bytes
no_breaks [] = []
no_breaks (c ∷ s) = let rest = no_breaks s in if c == b'\n' || c == b'\r' then rest else c ∷ rest

abbrev pub one_byte : Option ℕ → Option ℕ → Option Bytes
one_byte (some a) (some b) = some ((a * 4 + b / 16) ∷ [])
one_byte _ _ = none

abbrev pub two_bytes : Option ℕ → Option ℕ → Option ℕ → Option Bytes
two_bytes (some a) (some b) (some c) = some ((a * 4 + b / 16) ∷ (b % 16 * 16 + c / 4) ∷ [])
two_bytes _ _ _ = none

abbrev pub three_bytes : Option ℕ → Option ℕ → Option ℕ → Option ℕ → Option Bytes → Option Bytes
three_bytes (some a) (some b) (some c) (some d) (some rest) =
    some ((a * 4 + b / 16) ∷ (b % 16 * 16 + c / 4) ∷ (c % 4 * 64 + d) ∷ rest)
three_bytes _ _ _ _ _ = none

-- A group that ends in `=`, which must be the last.
unfoldable pub padded : ℕ → ℕ → ℕ → Bytes → Option Bytes
unfolding sextet
padded a b c [] =
    if c == b'=' then one_byte (sextet a) (sextet b) else two_bytes (sextet a) (sextet b) (sextet c)
padded a b c (d ∷ s) = none

unfoldable pub groups : Bytes → Option Bytes
unfolding padded sextet
groups [] = some []
groups (a ∷ b ∷ c ∷ d ∷ s) =
    let rest = groups s in
    if d == b'='
    then padded a b c s
    else three_bytes (sextet a) (sextet b) (sextet c) (sextet d) rest
groups _ = none

unfoldable pub base64_decode : Bytes → Option Bytes
unfolding groups no_breaks
base64_decode s = groups (no_breaks s)

-- The letter of a value.
unfoldable pub letter : ℕ → ℕ
letter v =
    if ltb v 26
    then v + b'A'
    else if ltb v 52
    then v - 26 + b'a'
    else if ltb v 62
    then v - 52 + b'0'
    else if v == 62
    then b'+'
    else b'/'

-- base64.StdEncoding.EncodeToString
unfoldable pub base64_encode : Bytes → Bytes
unfolding letter
base64_encode [] = []
base64_encode (x ∷ []) = letter (x / 4) ∷ letter (x % 4 * 16) ∷ b'=' ∷ b'=' ∷ []
base64_encode (x ∷ y ∷ []) =
    letter (x / 4) ∷ letter (x % 4 * 16 + y / 16) ∷ letter (y % 16 * 4) ∷ b'=' ∷ []
base64_encode (x ∷ y ∷ z ∷ s) =
    letter (x / 4)
    ∷ letter (x % 4 * 16 + y / 16)
    ∷ letter (y % 16 * 4 + z / 64)
    ∷ letter (z % 64)
    ∷ base64_encode s
