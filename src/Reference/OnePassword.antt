-- ===== src/Reference/OnePassword.antt =====
-- internal/provider/onepassword_ref.go: references `op://vault/item[[/section]/field]`.
pub mod RoundTrip
use jasm.Base.{
  ◌++◌, Bool, not, List, [], ◌∷◌, ok, err, Result, ◌>>=◌, if◌then◌else◌, Option, none, some,
}
use jasm.Text.{Bytes, codes, is_empty, join}
use jasm.Text.Escape.{bad_escape_text}
use jasm.Errors.Quote.{quote}
use jasm.Reference.{
  wrong_scheme, empty_path, bad_escape, RefError, missing_both, missing_item, too_many,
  container_required, item_required, path_parts,
}

-- err.Error() of the errors of the parser and of Validate
unfoldable pub ref_message : RefError → Bytes
ref_message wrong_scheme = codes "invalid 1Password secret reference: must start with op://"
ref_message empty_path = codes "invalid 1Password secret reference: empty path"
ref_message (bad_escape part) =
    codes "invalid 1Password secret reference: failed to decode "
    ++ (quote part ++ (codes ": invalid URL escape " ++ quote (bad_escape_text part)))
ref_message missing_both = codes "invalid 1Password secret reference: missing vault and item"
ref_message missing_item = codes "invalid 1Password secret reference: missing item"
ref_message too_many = codes "invalid 1Password secret reference: too many path components"
ref_message container_required = codes "vault name is required"
ref_message item_required = codes "item name is required"

-- type SecretReference
pub record SecretReference : Type 0 where
  pub vault : Bytes
  pub item : Bytes
  pub section : Bytes
  pub field : Bytes

abbrev pub scheme : Bytes
scheme = codes "op://"

-- (r *SecretReference) String: `fmt.Sprintf` of a format that joins its operands by slashes
unfoldable pub to_string : SecretReference → Bytes
to_string r =
    if not (is_empty r.section)
    then scheme ++ join b'/' (r.vault ∷ r.item ∷ r.section ∷ r.field ∷ [])
    else if not (is_empty r.field)
    then scheme ++ join b'/' (r.vault ∷ r.item ∷ r.field ∷ [])
    else scheme ++ join b'/' (r.vault ∷ r.item ∷ [])

-- (r *SecretReference) HasField
unfoldable pub has_field : SecretReference → Bool
has_field r = not (is_empty r.field)

-- (r *SecretReference) Validate: the error, or `none` for nil
unfoldable pub validate : SecretReference → Option RefError
validate r =
    if is_empty r.vault
    then some container_required
    else if is_empty r.item
    then some item_required
    else none

-- switch len(parts)
unfoldable pub from_parts : List Bytes → Result RefError SecretReference
from_parts [] = err missing_both
from_parts (v ∷ []) = err missing_item
from_parts (v ∷ i ∷ []) = ok (record { vault = v; item = i; section = []; field = [] })
from_parts (v ∷ i ∷ f ∷ []) = ok (record { vault = v; item = i; section = []; field = f })
from_parts (v ∷ i ∷ s ∷ f ∷ []) = ok (record { vault = v; item = i; section = s; field = f })
from_parts (_ ∷ _ ∷ _ ∷ _ ∷ _ ∷ _) = err too_many

-- ParseSecretReference
unfoldable pub parse : Bytes → Result RefError SecretReference
parse ref = do parts ← path_parts scheme ref; from_parts parts
