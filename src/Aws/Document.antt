-- ===== src/Aws/Document.antt =====
-- What FetchSecret of internal/provider/aws.go makes of a JSON document.
use jasm.Base.{
  ◌≡◌, refl, sym, ap, ◌∙◌, subst, [], ◌∷◌, Option, none, some, Result, ok, err, map_err, >>=-eq-ok,
  arith,
}
use jasm.Text.{Bytes}
use jasm.Text.Laws.{str_eq_iff}
use jasm.StrMap.{StrMap, lookup, insert, lookup-insert, or_old, or_old-none, Unique, insert-Unique}
use jasm.Aws.{Json, Library, to_text, convert, with_string, fetch_secret}

map_err-eq-ok {ℓ} :
    {E F A : Type ℓ} (around : E → F) (r : Result E A) {a : A} → map_err around r ≡ ok a → r ≡ ok a
map_err-eq-ok around (ok b) h = cc h
map_err-eq-ok around (err e) h = cc h

module _ {N C : Type 0} (lib : Library N C) where
  abbrev pub text_of : Option (Json N C) → Option Bytes
  text_of none = none
  text_of (some v) = some (to_text lib v)

  convert_lem :
      (raw : StrMap (Json N C)) (out : StrMap Bytes) (k : Bytes)
      → Unique raw
      → lookup k (convert lib raw out) ≡ or_old (text_of (lookup k raw)) (lookup k out)
  unfolding convert lookup
  convert_lem [] out k h = refl
  convert_lem ((j, v) ∷ raw) out k (hj, h) = ground (
    arith,
    str_eq_iff j k,
    convert_lem raw (insert j (to_text lib v) out) k h,
    lookup-insert j k (to_text lib v) out,
  )

  convert-Unique :
      (raw : StrMap (Json N C)) (out : StrMap Bytes) → Unique out → Unique (convert lib raw out)
  unfolding convert
  convert-Unique [] out h = h
  convert-Unique ((j, v) ∷ raw) out h =
      convert-Unique raw (insert j (to_text lib v) out) (insert-Unique j (to_text lib v) out h)

  -- The document that a path holds, and the text of each of its values.
  pub record IsDocument (path : Bytes) (secrets : StrMap Bytes) : Type 0 where
    pub text : Bytes
    pub raw : StrMap (Json N C)
    pub got : lib.get_secret_value path ≡ ok (some text)
    pub parsed : lib.unmarshal text ≡ ok raw
    pub each : (k : Bytes) → lookup k secrets ≡ text_of (lookup k raw)
    pub unique : Unique secrets

  -- json.Unmarshal makes a map, so each key stands once.
  abbrev pub MakesMaps : Type 0
  MakesMaps = (text : Bytes) (raw : StrMap (Json N C)) → lib.unmarshal text ≡ ok raw → Unique raw

  string_there :
      (path : Bytes) (o : Option Bytes) {text : Bytes}
      → with_string lib path o ≡ ok text
      → o ≡ some text
  string_there path none h = cc h
  string_there path (some s) h = cc h

  -- The secrets of a fetch that succeeds are the texts of the document's values under its keys, whatever the
  -- order in which Go visits the map.
  pub fetch_secret-IsDocument :
      (path : Bytes) (secrets : StrMap Bytes)
      → MakesMaps
      → fetch_secret lib path ≡ ok secrets
      → IsDocument path secrets
  unfolding fetch_secret lookup
  fetch_secret-IsDocument path secrets maps h =
      let (result, got, h1) = >>=-eq-ok (map_err _ (lib.get_secret_value path)) _ h in
      let (text, there, h2) = >>=-eq-ok (with_string lib path result) _ h1 in
      let (raw, parsed, h3) = >>=-eq-ok (map_err _ (lib.unmarshal text)) _ h2 in
      let same : convert lib raw [] ≡ secrets = cc h3 in
      let document = map_err-eq-ok _ (lib.unmarshal text) parsed in
      record {
        text = text;
        raw = raw;
        got =
            map_err-eq-ok _ (lib.get_secret_value path) got
            ∙ ap ok (string_there path result there);
        parsed = document;
        each = λ k.
            ap (lookup k) (sym same)
            ∙ convert_lem raw [] k (maps text raw document)
            ∙ or_old-none (text_of (lookup k raw));
        unique = subst (λ m. Unique m) same (convert-Unique raw [] tt);
      }
