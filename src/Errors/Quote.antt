-- ===== src/Errors/Quote.antt =====
-- The verb %q of fmt, which is strconv.Quote: the text between quotation marks, with quotation marks,
-- backslashes and control characters escaped. A byte above 0x7f is taken for part of a printable
-- character.
use jasm.Base.{
  ℕ, ◌+◌, ◌-◌, ◌/◌, ◌%◌, [], ◌∷◌, ◌++◌, ltb, ◌==◌, if◌then◌else◌, ◌||◌, ◌≡◌, refl, sym, true,
  append_assoc,
}
use jasm.Text.{Bytes, codes, contains, to_lower}
use jasm.Text.Laws.{to_lower-append, contains_middle}

hex_lower : ℕ → ℕ
hex_lower n = if ltb n 10 then n + b'0' else n - 10 + b'a'

quote_byte : ℕ → Bytes
unfolding hex_lower
quote_byte c =
    if c == b'"' || c == b'\\'
    then b'\\' ∷ c ∷ []
    else if c == 7
    then codes "\\a"
    else if c == 8
    then codes "\\b"
    else if c == 12
    then codes "\\f"
    else if c == 10
    then codes "\\n"
    else if c == 13
    then codes "\\r"
    else if c == 9
    then codes "\\t"
    else if c == 11
    then codes "\\v"
    else if ltb c 32 || c == 127
    then codes "\\x" ++ hex_lower (c / 16) ∷ hex_lower (c % 16) ∷ []
    else c ∷ []

pub quote_bytes : Bytes → Bytes
unfolding quote_byte
quote_bytes [] = []
quote_bytes (c ∷ s) = quote_byte c ++ quote_bytes s

unfoldable pub quote : Bytes → Bytes
unfolding quote_bytes
quote s = b'"' ∷ (quote_bytes s ++ b'"' ∷ [])

quote_bytes-append : (s t : Bytes) → quote_bytes (s ++ t) ≡ quote_bytes s ++ quote_bytes t
unfolding quote_bytes
quote_bytes-append [] t = refl
quote_bytes-append (c ∷ s) t =
    rw (quote_bytes-append s t) (sym (append_assoc (quote_byte c) (quote_bytes s) (quote_bytes t)))

-- A part of a text that is written as it is when quoted, and in lower case, shows in the quoted text
-- in lower case.
pub lower_quote-contains :
    (a p b : Bytes)
    → quote_bytes p ≡ p
    → to_lower p ≡ p
    → contains (to_lower (quote (a ++ (p ++ b)))) p ≡ true
unfolding quote
lower_quote-contains a p b plain low =
    let tail = quote_bytes b ++ b'"' ∷ [] in
    let split : quote (a ++ (p ++ b)) ≡ (b'"' ∷ quote_bytes a) ++ (p ++ tail) = rw (
      quote_bytes-append a (p ++ b),
      quote_bytes-append p b,
      plain,
      append_assoc (quote_bytes a) (p ++ quote_bytes b) (b'"' ∷ []),
      append_assoc p (quote_bytes b) (b'"' ∷ []),
    ) in
    rw (split, to_lower-append (b'"' ∷ quote_bytes a) (p ++ tail), to_lower-append p tail, low)
      (contains_middle (to_lower (b'"' ∷ quote_bytes a)) p (to_lower tail))

-- The digits that the providers look for in error texts.
pub too_many_code :
    (quote_bytes (codes "429") ≡ codes "429") × (to_lower (codes "429") ≡ codes "429")
unfolding quote_bytes to_lower
too_many_code = (refl, refl)
