-- ===== src/Reference/OnePassword/RoundTrip.antt =====
-- What `ParseSecretReference` accepts, and when `String` gives back a reference to the same secret.
use jasm.Base.{◌<◌, ◌++◌, ◌≡◌, ◌≢◌, false, List, [], ◌∷◌, ok, none, All, arith, >>=-eq-ok}
use mathlib.Core.List.{map}
use jasm.Text.{Bytes, is_empty, join}
use jasm.Text.Escape.{escape_all, path_unescape-escape_all, escape_all-lacks_slash}
use jasm.Text.Laws.{is_empty_iff}
use jasm.Reference.{path_parts}
use jasm.Reference.Parts.{Decodes, IsPlain, IsPlain-Decodes, path_parts-join, path_parts-All}
use jasm.Reference.OnePassword.{SecretReference, scheme, to_string, validate, from_parts, parse}

-- A name: some bytes.
abbrev pub IsName : Bytes → Type 0
IsName s = (s ≢ []) × All (λ c. c < 256) s

-- The names are plain where they are present, and a section comes with a field.
pub data IsCanonical : SecretReference → Type 0 where
  whole :
      (v i : Bytes)
      → IsPlain v
      → IsPlain i
      → IsCanonical (record { vault = v; item = i; section = []; field = [] })
  one_field :
      (v i f : Bytes)
      → IsPlain v
      → IsPlain i
      → IsPlain f
      → IsCanonical (record { vault = v; item = i; section = []; field = f })
  in_section :
      (v i s f : Bytes)
      → IsPlain v
      → IsPlain i
      → IsPlain s
      → IsPlain f
      → IsCanonical (record { vault = v; item = i; section = s; field = f })

not_empty : (s : Bytes) → s ≢ [] → is_empty s ≡ false
not_empty s h = ground (arith, is_empty_iff s)

parse-join :
    (r d : Bytes) (rs ds : List Bytes)
    → Decodes (r ∷ rs) (d ∷ ds)
    → parse (scheme ++ join b'/' (r ∷ rs)) ≡ from_parts (d ∷ ds)
unfolding parse
parse-join r d rs ds h = rw (path_parts-join scheme r d rs ds h)

pub parse-join_plain :
    (p : Bytes) (ps : List Bytes)
    → All IsPlain (p ∷ ps)
    → parse (scheme ++ join b'/' (p ∷ ps)) ≡ from_parts (p ∷ ps)
parse-join_plain p ps h = parse-join p p ps ps (IsPlain-Decodes (p ∷ ps) h)

-- Parsing the string of a reference whose names hold no slash and no percent sign, with no empty
-- name but an absent section or field, gives the reference back.
pub parse-to_string : (r : SecretReference) → IsCanonical r → parse (to_string r) ≡ ok r
unfolding to_string from_parts is_empty
parse-to_string _ (whole v i hv hi) = parse-join_plain v (i ∷ []) (hv, (hi, tt))
parse-to_string _ (one_field v i f hv hi hf) =
    rw (not_empty f hf.0, parse-join_plain v (i ∷ f ∷ []) (hv, (hi, (hf, tt))))
parse-to_string _ (in_section v i s f hv hi hs hf) =
    rw (not_empty s hs.0, parse-join_plain v (i ∷ s ∷ f ∷ []) (hv, (hi, (hs, (hf, tt)))))

-- The references that the parser can return.
pub record IsParsed (r : SecretReference) : Type 0 where
  pub vault_present : r.vault ≢ []
  pub item_present : r.item ≢ []
  pub section_has_field : r.section ≢ [] → r.field ≢ []

from_parts-IsParsed :
    (ps : List Bytes) {r : SecretReference}
    → All (λ p. p ≢ []) ps
    → from_parts ps ≡ ok r
    → IsParsed r
unfolding from_parts
from_parts-IsParsed [] h e = cc
from_parts-IsParsed (v ∷ []) h e = cc
from_parts-IsParsed (v ∷ i ∷ []) h e = ground arith
from_parts-IsParsed (v ∷ i ∷ f ∷ []) h e = ground arith
from_parts-IsParsed (v ∷ i ∷ s ∷ f ∷ []) h e = ground arith
from_parts-IsParsed (_ ∷ _ ∷ _ ∷ _ ∷ _ ∷ _) h e = cc

pub parse-IsParsed : (ref : Bytes) {r : SecretReference} → parse ref ≡ ok r → IsParsed r
unfolding parse
parse-IsParsed ref h =
    let (ps, cut, built) = >>=-eq-ok (path_parts scheme ref) from_parts h in
    from_parts-IsParsed ps (path_parts-All scheme ref cut) built

-- Whatever text is parsed, a reference that the parser returns names a vault and an item, has a field
-- if it has a section, and passes `Validate`.
pub parse-validate :
    (ref : Bytes) {r : SecretReference} → parse ref ≡ ok r → IsParsed r × (validate r ≡ none)
unfolding validate
parse-validate ref {r} h =
    let p = parse-IsParsed ref h in
    (p, rw (not_empty r.vault p.vault_present, not_empty r.item p.item_present))

escape_all-Decodes : (ds : List Bytes) → All IsName ds → Decodes (map escape_all ds) ds
escape_all-Decodes [] h = tt
escape_all-Decodes (d ∷ ds) ((ne, small), hs) =
    (escape_all-lacks_slash d small, path_unescape-escape_all d small, ne, escape_all-Decodes ds hs)

-- Whatever bytes the names of a vault, an item and a field hold, they have a reference if none is
-- empty: the names with every byte percent-encoded, joined by slashes.
pub parse-escape_all :
    (v i f : Bytes)
    → IsName v
    → IsName i
    → IsName f
    → parse (scheme ++ join b'/' (escape_all v ∷ escape_all i ∷ escape_all f ∷ []))
      ≡ ok (record { vault = v; item = i; section = []; field = f })
unfolding from_parts
parse-escape_all v i f hv hi hf =
    parse-join (escape_all v) v _ (i ∷ f ∷ [])
      (escape_all-Decodes (v ∷ i ∷ f ∷ []) (hv, (hi, (hf, tt))))
