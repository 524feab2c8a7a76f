-- ===== src/Text/Escape.antt =====
-- url.PathUnescape of net/url: `%` and two hexadecimal digits stand for one byte, every other byte
-- for itself.
use jasm.Base.{
  ℕ, ◌+◌, ◌-◌, ◌*◌, ◌/◌, ◌%◌, ◌<◌, Bool, true, false, ◌&&◌, ◌||◌, [], ◌∷◌, Option, none, some, ltb,
  leb, ◌==◌, if◌then◌else◌, ◌≡◌, ◌≢◌, refl, arith, not, All, ==_ne,
}
use mathlib.Core.Option
use jasm.Text.{Bytes}

abbrev pub percent : ℕ
percent = b'%'

is_digit : ℕ → Bool
is_digit c = leb b'0' c && leb c b'9'

is_hex : ℕ → Bool
unfolding is_digit
is_hex c = is_digit c || (leb b'a' c && leb c b'f') || (leb b'A' c && leb c b'F')

unhex : ℕ → ℕ
unfolding is_digit
unhex c =
    if is_digit c
    then c - b'0'
    else if leb b'a' c && leb c b'f'
    then c - b'a' + 10
    else c - b'A' + 10

-- How much of an escape has been read: nothing, the `%`, or the value of the first digit too.
pub data Mode : Type 0 where
  plain : Mode
  opened : Mode
  half : ℕ → Mode

unescape : Mode → Bytes → Option Bytes
unfolding is_hex unhex
unescape plain [] = some []
unescape opened [] = none
unescape (half h) [] = none
unescape plain (c ∷ s) =
    let escape = unescape opened s in
    let copy = Option.map (λ t. c ∷ t) (unescape plain s) in if c == percent then escape else copy
unescape opened (c ∷ s) = let rest = unescape (half (unhex c)) s in if is_hex c then rest else none
unescape (half h) (c ∷ s) =
    let rest = Option.map (λ t. (h * 16 + unhex c) ∷ t) (unescape plain s) in
    if is_hex c then rest else none

-- The decoded text; `none` is the error of an escape that is cut short or not hexadecimal.
unfoldable pub path_unescape : Bytes → Option Bytes
unfolding unescape
path_unescape s = unescape plain s

hex_digit : ℕ → ℕ
hex_digit n = if ltb n 10 then n + b'0' else n - 10 + b'A'

-- A text with every byte written as an escape.
unfoldable pub escape_all : Bytes → Bytes
unfolding hex_digit
escape_all [] = []
escape_all (c ∷ s) = percent ∷ hex_digit (c / 16) ∷ hex_digit (c % 16) ∷ escape_all s

hex_digit_lem : (n : ℕ) → n < 16 → (is_hex (hex_digit n) ≡ true) × (unhex (hex_digit n) ≡ n)
unfolding hex_digit is_hex unhex
hex_digit_lem n h = ground arith

-- Text with no escape is its own decoding.
pub path_unescape_plain : (s : Bytes) → All (λ c. c ≢ percent) s → path_unescape s ≡ some s
unfolding path_unescape
path_unescape_plain [] h = refl
path_unescape_plain (c ∷ s) (hc, hs) = rw (==_ne c percent hc, path_unescape_plain s hs)

-- A byte written as an escape is read back.
pub path_unescape-escape_all :
    (s : Bytes) → All (λ c. c < 256) s → path_unescape (escape_all s) ≡ some s
unfolding path_unescape escape_all
path_unescape-escape_all [] h = refl
path_unescape-escape_all (c ∷ s) (hc, hs) =
    let a = hex_digit_lem (c / 16) (omega arith) in
    let b = hex_digit_lem (c % 16) (omega arith) in
    rw (a.0, a.1, b.0, b.1, path_unescape-escape_all s hs) (ground arith)

hex_digit-ne-slash : (n : ℕ) → n < 16 → hex_digit n ≢ b'/'
unfolding hex_digit
hex_digit-ne-slash n h e = ground arith

-- A fully escaped text holds no slash.
pub escape_all-lacks_slash : (s : Bytes) → All (λ c. c < 256) s → All (λ c. c ≢ b'/') (escape_all s)
unfolding escape_all
escape_all-lacks_slash [] h = tt
escape_all-lacks_slash (c ∷ s) (hc, hs) = (
  λ e. omega arith,
  (
    hex_digit-ne-slash (c / 16) (omega arith),
    (hex_digit-ne-slash (c % 16) (omega arith), escape_all-lacks_slash s hs),
  ),
)

valid_pair : Bytes → Bool
unfolding is_hex
valid_pair (a ∷ b ∷ s) = is_hex a && is_hex b
valid_pair _ = false

-- At most three bytes.
take_three : Bytes → Bytes
take_three (a ∷ b ∷ c ∷ s) = a ∷ b ∷ c ∷ []
take_three s = s

-- The text of the url.EscapeError: the first escape that is cut short or not hexadecimal.
unfoldable pub bad_escape_text : Bytes → Bytes
unfolding valid_pair take_three
bad_escape_text [] = []
bad_escape_text (c ∷ s) =
    let rest = bad_escape_text s in
    if c == percent && not (valid_pair s) then take_three (c ∷ s) else rest
