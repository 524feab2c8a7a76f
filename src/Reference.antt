-- ===== src/Reference.antt =====
-- The steps that both reference parsers share: `ParseSecretReference` in
-- internal/provider/onepassword_ref.go and `ParseBitwardenReference` in
-- internal/provider/bitwarden_ref.go cut a path into parts with the same lines.
pub mod OnePassword
pub mod Bitwarden
pub mod Parts
use jasm.Base.{◌&&◌, not, List, [], ◌∷◌, Option, none, some, ok, err, Result, ◌>>=◌, if◌then◌else◌}
use jasm.Text.{Bytes, codes, has_prefix, trim_prefix, is_empty, split}
use jasm.Text.Escape.{path_unescape}

-- The errors that the parsers and `Validate` return.
pub data RefError : Type 0 where
  wrong_scheme empty_path missing_both missing_item too_many container_required item_required :
      RefError
  bad_escape : Bytes → RefError

pub decoded : Bytes → Option Bytes → Result RefError Bytes
decoded part none = err (bad_escape part)
decoded part (some d) = ok d

-- for i, part := range parts { … parts[i] = decoded }
unfoldable pub decode_parts : List Bytes → Result RefError (List Bytes)
unfolding decoded
decode_parts [] = ok []
decode_parts (part ∷ parts) = do
  d ← decoded part (path_unescape part)
  ds ← decode_parts parts
  ok (d ∷ ds)

-- for _, p := range parts { if p != "" { … } }
unfoldable pub non_empty : List Bytes → List Bytes
non_empty [] = []
non_empty (p ∷ ps) = let rest = non_empty ps in if is_empty p then rest else p ∷ rest

-- The decoded parts of a reference that begins with the scheme.
unfoldable pub path_parts : Bytes → Bytes → Result RefError (List Bytes)
path_parts scheme ref =
    if not (has_prefix ref scheme)
    then err wrong_scheme
    else let path = trim_prefix ref scheme in
      if is_empty path
      then err empty_path
      else (do parts ← decode_parts (split b'/' path); ok (non_empty parts))
