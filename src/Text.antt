-- ===== src/Text.antt =====
-- Go's strings as lists of bytes, and the functions of the packages strings, net/url and strconv
-- that the code calls. Letters are folded and quoted as for ASCII text; a byte above 0x7f stands
-- for itself.
pub mod Laws
pub mod Escape
pub mod Base64
use Prim.Native.Char.{code}
use Prim.Native.String.{String}
use jasm.Base.{
  ℕ, ◌+◌, ◌-◌, ◌*◌, ◌/◌, ◌%◌, Bool, true, false, ◌&&◌, ◌||◌, List, [], ◌∷◌, ◌++◌, Option, none,
  some, length, drop, ltb, leb, ◌==◌, if◌then◌else◌,
}

abbrev pub Bytes : Type 0
Bytes = List ℕ

-- A literal; its code points are its bytes when the text is ASCII.
abbrev pub codes : String → Bytes
codes String.[] = []
codes (String.◌∷◌ c s) = code c ∷ codes s

-- s == t
unfoldable pub str_eq : Bytes → Bytes → Bool
str_eq [] [] = true
str_eq (a ∷ s) (b ∷ t) = a == b && str_eq s t
str_eq _ _ = false

-- s == ""
unfoldable pub is_empty : Bytes → Bool
is_empty [] = true
is_empty (c ∷ s) = false

-- strings.HasPrefix(s, prefix)
unfoldable pub has_prefix : Bytes → Bytes → Bool
has_prefix s [] = true
has_prefix [] (p ∷ prefix) = false
has_prefix (c ∷ s) (p ∷ prefix) = c == p && has_prefix s prefix

-- strings.TrimPrefix(s, prefix)
unfoldable pub trim_prefix : Bytes → Bytes → Bytes
trim_prefix s prefix = if has_prefix s prefix then drop (length prefix) s else s

-- strings.TrimSuffix(s, suffix), for a suffix that is not empty
unfoldable pub trim_suffix : Bytes → Bytes → Bytes
trim_suffix [] suffix = []
trim_suffix (c ∷ s) suffix =
    let rest = trim_suffix s suffix in if str_eq (c ∷ s) suffix then [] else c ∷ rest

-- strings.Contains(s, substr)
unfoldable pub contains : Bytes → Bytes → Bool
contains [] substr = has_prefix [] substr
contains (c ∷ s) substr = has_prefix (c ∷ s) substr || contains s substr

abbrev push_head : ℕ → List Bytes → List Bytes
push_head c [] = (c ∷ []) ∷ []
push_head c (p ∷ ps) = (c ∷ p) ∷ ps

-- strings.Split(s, sep) for a separator of one byte
unfoldable pub split : ℕ → Bytes → List Bytes
split sep [] = [] ∷ []
split sep (c ∷ s) = let rest = split sep s in if c == sep then [] ∷ rest else push_head c rest

-- The part that stands behind the last of some texts joined by a separator.
unfoldable pub join : ℕ → List Bytes → Bytes
join sep [] = []
join sep (p ∷ []) = p
join sep (p ∷ q ∷ ps) = p ++ sep ∷ join sep (q ∷ ps)

unfoldable pub lower : ℕ → ℕ
lower c = if leb b'A' c && leb c b'Z' then c + 32 else c

-- strings.ToLower(s)
unfoldable pub to_lower : Bytes → Bytes
unfolding lower
to_lower [] = []
to_lower (c ∷ s) = lower c ∷ to_lower s
