-- ===== src/Tests/Names.antt =====
-- References of internal/provider/onepassword_ref.go and bitwarden_ref.go.
use jasm.Base.{ℕ, ◌≡◌, ◌≢◌, refl, [], ◌∷◌, ◌++◌, ok, err, arith}
use jasm.Text.{codes, join, has_prefix, trim_prefix, is_empty, split}
use jasm.Text.Escape.{escape_all, path_unescape, percent, bad_escape_text}
use jasm.Errors.Quote.{quote}
use jasm.Reference.{path_parts, decode_parts, non_empty, bad_escape}
use jasm.Reference.Parts.{IsPlain}
use jasm.Reference.OnePassword
use jasm.Reference.OnePassword.{SecretReference}
use jasm.Reference.OnePassword.RoundTrip.{in_section, parse-to_string, parse-escape_all}
use jasm.Reference.Bitwarden
use jasm.Reference.Bitwarden.{BitwardenSecretReference}
use jasm.Reference.Bitwarden.RoundTrip.{one_field, bw_parse-to_string}

abbrev ref : SecretReference
ref = record { vault = codes "v"; item = codes "i"; section = codes "s"; field = codes "f" }

-- One letter is a plain name.
letter : (c : ℕ) → c ≢ b'/' → c ≢ percent → IsPlain (c ∷ [])
letter c slash pct = (λ e. cc e, (slash, tt), (pct, tt))

pub v-IsPlain : IsPlain (codes "v")
v-IsPlain = letter b'v' (omega arith) (omega arith)

pub i-IsPlain : IsPlain (codes "i")
i-IsPlain = letter b'i' (omega arith) (omega arith)

pub s-IsPlain : IsPlain (codes "s")
s-IsPlain = letter b's' (omega arith) (omega arith)

pub f-IsPlain : IsPlain (codes "f")
f-IsPlain = letter b'f' (omega arith) (omega arith)

parse-to_string_example : OnePassword.parse (OnePassword.to_string ref) ≡ ok ref
parse-to_string_example = parse-to_string ref (
    in_section (codes "v") (codes "i") (codes "s") (codes "f") v-IsPlain i-IsPlain s-IsPlain
      f-IsPlain)

whole_item :
    OnePassword.parse (codes "op://v//i/")
    ≡ ok (record { vault = codes "v"; item = codes "i"; section = []; field = [] })
unfolding OnePassword.parse path_parts has_prefix trim_prefix is_empty split decode_parts non_empty
    path_unescape OnePassword.from_parts
whole_item = refl

-- The escape `%zz` is refused.
refused_escape : OnePassword.parse (codes "op://v/%zz") ≡ err (bad_escape (codes "%zz"))
unfolding OnePassword.parse path_parts has_prefix trim_prefix is_empty split decode_parts
    path_unescape
refused_escape = refl

refused_escape_message :
    OnePassword.ref_message (bad_escape (codes "%zz"))
    ≡ codes
        "invalid 1Password secret reference: failed to decode \"%zz\": invalid URL escape \"%zz\""
unfolding OnePassword.ref_message quote bad_escape_text
refused_escape_message = refl

-- A space, and a slash, in names.
parse-escape_all_example :
    OnePassword.parse (
      OnePassword.scheme
      ++ join b'/'
          (escape_all (codes "a b") ∷ escape_all (codes "c/d") ∷ escape_all (codes "f") ∷ []))
    ≡ ok (record { vault = codes "a b"; item = codes "c/d"; section = []; field = codes "f" })
parse-escape_all_example =
    parse-escape_all (codes "a b") (codes "c/d") (codes "f") (λ e. cc e, omega arith)
      (λ e. cc e, omega arith) (λ e. cc e, omega arith)

abbrev bw_ref : BitwardenSecretReference
bw_ref = record { folder = codes "v"; item_name = codes "i"; field = codes "f" }

bw_parse-to_string_example : Bitwarden.parse (Bitwarden.to_string bw_ref) ≡ ok bw_ref
bw_parse-to_string_example =
    bw_parse-to_string bw_ref
      (one_field (codes "v") (codes "i") (codes "f") v-IsPlain i-IsPlain f-IsPlain)

bw_whole_item :
    Bitwarden.parse (codes "bw://v/i")
    ≡ ok (record { folder = codes "v"; item_name = codes "i"; field = [] })
unfolding Bitwarden.parse path_parts has_prefix trim_prefix is_empty split decode_parts non_empty
    path_unescape Bitwarden.from_parts
bw_whole_item = refl
