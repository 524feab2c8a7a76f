-- ===== src/Reference/Bitwarden.antt =====
-- internal/provider/bitwarden_ref.go: references `bw://folder/item[/field]`.
pub mod RoundTrip
use jasm.Base.{
  ◌++◌, Bool, not, List, [], ◌∷◌, ok, err, Result, ◌>>=◌, if◌then◌else◌, Option, none, some,
}
use jasm.Text.{Bytes, codes, is_empty, join}
use jasm.Text.Escape.{bad_escape_text}
use jasm.Errors.Quote.{quote}
use jasm.Reference.{
  wrong_scheme, empty_path, bad_escape, RefError, missing_both, missing_item, too_many,
  container_required, item_required, path_parts,
}

-- err.Error() of the errors of the parser and of Validate
unfoldable pub ref_message : RefError → Bytes
ref_message wrong_scheme = codes "invalid Bitwarden secret reference: must start with bw://"
ref_message empty_path = codes "invalid Bitwarden secret reference: empty path"
ref_message (bad_escape part) =
    codes "invalid Bitwarden secret reference: failed to decode "
    ++ (quote part ++ (codes ": invalid URL escape " ++ quote (bad_escape_text part)))
ref_message missing_both = codes "invalid Bitwarden secret reference: empty path after parsing"
ref_message missing_item =
    codes "invalid Bitwarden secret reference: missing item name (format: bw://folder/item)"
ref_message too_many =
    codes
      "invalid Bitwarden secret reference: too many path components (format: bw://folder/item[/field])"
ref_message container_required = codes "folder name is required"
ref_message item_required = codes "item name is required"

-- type BitwardenSecretReference
pub record BitwardenSecretReference : Type 0 where
  pub folder : Bytes
  pub item_name : Bytes
  pub field : Bytes

abbrev pub scheme : Bytes
scheme = codes "bw://"

-- (r *BitwardenSecretReference) String
unfoldable pub to_string : BitwardenSecretReference → Bytes
to_string r =
    if not (is_empty r.field)
    then scheme ++ join b'/' (r.folder ∷ r.item_name ∷ r.field ∷ [])
    else scheme ++ join b'/' (r.folder ∷ r.item_name ∷ [])

-- (r *BitwardenSecretReference) HasField
unfoldable pub has_field : BitwardenSecretReference → Bool
has_field r = not (is_empty r.field)

-- (r *BitwardenSecretReference) Validate: the error, or `none` for nil
unfoldable pub validate : BitwardenSecretReference → Option RefError
validate r =
    if is_empty r.folder
    then some container_required
    else if is_empty r.item_name
    then some item_required
    else none

-- if len(parts) == 0 { … }; switch len(parts)
unfoldable pub from_parts : List Bytes → Result RefError BitwardenSecretReference
from_parts [] = err missing_both
from_parts (v ∷ []) = err missing_item
from_parts (v ∷ i ∷ []) = ok (record { folder = v; item_name = i; field = [] })
from_parts (v ∷ i ∷ f ∷ []) = ok (record { folder = v; item_name = i; field = f })
from_parts (_ ∷ _ ∷ _ ∷ _ ∷ _) = err too_many

-- ParseBitwardenReference
unfoldable pub parse : Bytes → Result RefError BitwardenSecretReference
parse ref = do parts ← path_parts scheme ref; from_parts parts
