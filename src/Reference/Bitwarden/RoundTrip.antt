-- ===== src/Reference/Bitwarden/RoundTrip.antt =====
-- What `ParseBitwardenReference` accepts, and that it reads back what `String` writes.
use jasm.Base.{◌≡◌, ◌≢◌, false, List, [], ◌∷◌, ok, none, All, arith, >>=-eq-ok, ◌++◌}
use jasm.Text.{Bytes, is_empty, join}
use jasm.Text.Laws.{is_empty_iff}
use jasm.Reference.{path_parts}
use jasm.Reference.Parts.{IsPlain, IsPlain-Decodes, path_parts-join, path_parts-All}
use jasm.Reference.Bitwarden.{
  BitwardenSecretReference, scheme, to_string, validate, from_parts, parse,
}

-- The names are plain, and the field is plain or absent.
pub data IsCanonical : BitwardenSecretReference → Type 0 where
  whole :
      (d i : Bytes)
      → IsPlain d
      → IsPlain i
      → IsCanonical (record { folder = d; item_name = i; field = [] })
  one_field :
      (d i f : Bytes)
      → IsPlain d
      → IsPlain i
      → IsPlain f
      → IsCanonical (record { folder = d; item_name = i; field = f })

not_empty : (s : Bytes) → s ≢ [] → is_empty s ≡ false
not_empty s h = ground (arith, is_empty_iff s)

parse-join_plain :
    (p : Bytes) (ps : List Bytes)
    → All IsPlain (p ∷ ps)
    → parse (scheme ++ join b'/' (p ∷ ps)) ≡ from_parts (p ∷ ps)
unfolding parse
parse-join_plain p ps h = rw (path_parts-join scheme p p ps ps (IsPlain-Decodes (p ∷ ps) h))

-- Parsing the string of a reference whose names hold no slash and no percent sign gives the reference
-- back, with or without a field.
pub bw_parse-to_string : (r : BitwardenSecretReference) → IsCanonical r → parse (to_string r) ≡ ok r
unfolding to_string from_parts is_empty
bw_parse-to_string _ (whole d i hd hi) = parse-join_plain d (i ∷ []) (hd, (hi, tt))
bw_parse-to_string _ (one_field d i f hd hi hf) =
    rw (not_empty f hf.0, parse-join_plain d (i ∷ f ∷ []) (hd, (hi, (hf, tt))))

abbrev pub IsParsed : BitwardenSecretReference → Type 0
IsParsed r = (r.folder ≢ []) × (r.item_name ≢ [])

from_parts-IsParsed :
    (ps : List Bytes) {r : BitwardenSecretReference}
    → All (λ p. p ≢ []) ps
    → from_parts ps ≡ ok r
    → IsParsed r
unfolding from_parts
from_parts-IsParsed [] h e = cc
from_parts-IsParsed (v ∷ []) h e = cc
from_parts-IsParsed (v ∷ i ∷ []) h e = ground arith
from_parts-IsParsed (v ∷ i ∷ f ∷ []) h e = ground arith
from_parts-IsParsed (_ ∷ _ ∷ _ ∷ _ ∷ _) h e = cc

-- Whatever text is parsed, a reference that the parser returns names a folder and an item, and passes
-- `Validate`.
pub bw_parse-validate :
    (ref : Bytes) {r : BitwardenSecretReference}
    → parse ref ≡ ok r
    → IsParsed r × (validate r ≡ none)
unfolding validate parse
bw_parse-validate ref {r} h =
    let (ps, cut, built) = >>=-eq-ok (path_parts scheme ref) from_parts h in
    let (d, i) = from_parts-IsParsed ps {r = r} (path_parts-All scheme ref cut) built in
    ((d, i), rw (not_empty r.folder d, not_empty r.item_name i))
