-- ===== src/OnePassword/Fetch.antt =====
-- What FetchSecret returns and counts.
use jasm.Base.{
  ◌≡◌, ◌≢◌, refl, sym, ap, ◌∙◌, false, ◌||◌, List, [], ◌∷◌, ◌++◌, Option, none, some, Result, ok,
  err, >>=-eq-ok, if◌then◌else◌, arith, Bool-cases, inl, inr,
}
use jasm.Text.{Bytes, str_eq, is_empty, join}
use jasm.Text.Escape.{escape_all}
use jasm.Text.Laws.{join-head_append, is_empty_iff}
use jasm.Errors.{Error}
use jasm.StrMap.{StrMap, lookup, insert, lookup-insert, or_old, or_old-none}
use jasm.Metrics.{ProviderMetrics, IsCounted, success, error, record_rate_limit, recorded}
use jasm.Reference.Parts.{IsPlain}
use jasm.Reference.OnePassword.{SecretReference, has_field, parse, to_string, from_parts, scheme}
use jasm.Reference.OnePassword.RoundTrip.{IsName, parse-escape_all, parse-join_plain}
use jasm.OnePassword.{
  ItemField, Sdk, collect_fields, or_no_fields, failure, answered, lookup_vault_id, lookup_item_id,
  fetch_all_fields, resolve_field, fetch_reference, fetch_secret, is_rate_limited,
}
use jasm.OnePassword.Failures.{fetch_secret-parsed}

-- The value of the last field with the title, of those with a title and a value.
abbrev pub last_value : Bytes → List ItemField → Option Bytes
last_value k [] = none
last_value k (field ∷ fields) = elim (last_value k fields) [
  | some v ↦ some v
  | none ↦
      if is_empty field.title || is_empty field.value
      then none
      else if str_eq field.title k
      then some field.value
      else none
]

collect_fields_lem :
    (fields : List ItemField) (out : StrMap Bytes) (k : Bytes)
    → lookup k (collect_fields fields out) ≡ or_old (last_value k fields) (lookup k out)
unfolding collect_fields
collect_fields_lem [] out k = refl
collect_fields_lem (field ∷ fields) out k = ground (
  arith,
  collect_fields_lem fields out k,
  collect_fields_lem fields (insert field.title field.value out) k,
  lookup-insert field.title k field.value out,
)

-- The item that a fetch of all fields read, and what it made of the fields.
pub record IsWholeItem (sdk : Sdk) (ref : SecretReference) (secrets : StrMap Bytes) : Type 0 where
  pub vault_id : Bytes
  pub item_id : Bytes
  pub fields : List ItemField
  pub vault_found : lookup_vault_id sdk ref.vault ≡ ok vault_id
  pub item_found : lookup_item_id sdk vault_id ref.item ≡ ok item_id
  pub item_read : sdk.get_item vault_id item_id ≡ ok fields
  pub some_secret : secrets ≢ []
  pub each : (k : Bytes) → lookup k secrets ≡ last_value k fields

kept_fields :
    (item : Bytes) (collected : StrMap Bytes) {secrets : StrMap Bytes}
    → or_no_fields item collected ≡ ok secrets
    → (collected ≡ secrets) × (secrets ≢ [])
kept_fields item [] h = cc
kept_fields item (e ∷ collected) h = (cc, λ z. cc (h, z))

-- A fetch of all fields that succeeds has looked the vault and the item up by their titles and read the
-- item; it returns at least one entry, and under each title the last value that is not empty.
pub fetch_all_fields_exact :
    (sdk : Sdk) (ref : SecretReference) {secrets : StrMap Bytes}
    → fetch_all_fields sdk ref ≡ ok secrets
    → IsWholeItem sdk ref secrets
unfolding fetch_all_fields lookup
fetch_all_fields_exact sdk ref {secrets} h =
    let (vault_id, v, h1) = >>=-eq-ok (lookup_vault_id sdk ref.vault) _ h in
    let (item_id, i, h2) = >>=-eq-ok (lookup_item_id sdk vault_id ref.item) _ h1 in
    let (fields, g, h3) = >>=-eq-ok (sdk.get_item vault_id item_id) _ h2 in
    let (same, present) = kept_fields ref.item (collect_fields fields []) h3 in
    record {
      vault_id = vault_id;
      item_id = item_id;
      fields = fields;
      vault_found = v;
      item_found = i;
      item_read = g;
      some_secret = present;
      each = λ k.
          ap (lookup k) (sym same)
          ∙ collect_fields_lem fields [] k
          ∙ or_old-none (last_value k fields);
    }

answered-IsCounted :
    (ref : SecretReference) (r : Result Error (StrMap Bytes)) (m : ProviderMetrics)
    → IsCounted m ref.vault (answered ref r m)
unfolding failure recorded record_rate_limit
answered-IsCounted ref (ok secrets) m = record {
  status = success;
  requests = refl;
  durations = refl;
  verdict = inl ((secrets, refl), refl);
  rate_limits = inl refl;
}
answered-IsCounted ref (err e) m = elim (Bool-cases (is_rate_limited e)) [
  | inl limited ↦ rw limited (record {
    status = error;
    requests = refl;
    durations = refl;
    verdict = inr ((_, refl), refl);
    rate_limits = inr refl;
  })
  | inr other ↦ rw other (record {
    status = error;
    requests = refl;
    durations = refl;
    verdict = inr ((_, refl), refl);
    rate_limits = inl refl;
  })
]

-- A fetch whose path parses counts one request and one duration for its vault, both with the status of
-- its result, and at most one rate limit.
pub fetch_secret-IsCounted :
    (sdk : Sdk) (path : Bytes) (m : ProviderMetrics) (ref : SecretReference)
    → parse path ≡ ok ref
    → IsCounted m ref.vault (fetch_secret sdk path m)
fetch_secret-IsCounted sdk path m ref h = rw (fetch_secret-parsed sdk path m ref h) (
    unfold fetch_reference in
    elim (Bool-cases (has_field ref)) [
      | inl e ↦ rw e (answered-IsCounted ref (resolve_field sdk ref) m)
      | inr e ↦ rw e (answered-IsCounted ref (fetch_all_fields sdk ref) m)
    ])

not_empty : (s : Bytes) → s ≢ [] → is_empty s ≡ false
not_empty s h = ground (arith, is_empty_iff s)

field_fetched :
    (sdk : Sdk) (path : Bytes) (m : ProviderMetrics) (ref : SecretReference) (secret : Bytes)
    → parse path ≡ ok ref
    → ref.field ≢ []
    → sdk.resolve (to_string ref) ≡ ok secret
    → (fetch_secret sdk path m).0 ≡ ok ((ref.field, secret) ∷ [])
field_fetched sdk path m ref secret h ne e =
    rw (fetch_secret-parsed sdk path m ref h)
      (unfold fetch_reference has_field resolve_field in rw (not_empty ref.field ne, e))

abbrev in_section : Bytes → Bytes → Bytes → Bytes → SecretReference
in_section a b i f = record { vault = a; item = b; section = i; field = f }

abbrev with_slash : Bytes → Bytes → Bytes → Bytes → SecretReference
with_slash a b i f = record { vault = a ++ b'/' ∷ b; item = i; section = []; field = f }

parse_section :
    (a b i f : Bytes)
    → IsPlain a
    → IsPlain b
    → IsPlain i
    → IsPlain f
    → parse (scheme ++ join b'/' (a ∷ b ∷ i ∷ f ∷ [])) ≡ ok (in_section a b i f)
unfolding from_parts
parse_section a b i f pa pb pi pf = parse-join_plain a (b ∷ i ∷ f ∷ []) (pa, (pb, (pi, (pf, tt))))

same_string :
    (a b i f : Bytes)
    → i ≢ []
    → f ≢ []
    → (to_string (in_section a b i f) ≡ scheme ++ join b'/' (a ∷ b ∷ i ∷ f ∷ []))
      × (to_string (with_slash a b i f) ≡ scheme ++ join b'/' (a ∷ b ∷ i ∷ f ∷ []))
unfolding to_string is_empty
same_string a b i f ni nf =
    (rw (not_empty i ni), rw (not_empty f nf, join-head_append b'/' a b i (f ∷ [])))

-- The field `f` of the item `i` in the vault `a/b`, written with percent-encoded names, and the field `f`
-- of the section `i` of the item `b` in the vault `a`: whatever the secret that the SDK returns for the
-- second, a fetch of the first returns it too.
pub fetch_crosses_vaults :
    (sdk : Sdk) (a b i f : Bytes) (secret : Bytes) (m : ProviderMetrics)
    → IsPlain a
    → IsPlain b
    → IsPlain i
    → IsPlain f
    → IsName (a ++ b'/' ∷ b)
    → IsName i
    → IsName f
    → sdk.resolve (scheme ++ join b'/' (a ∷ b ∷ i ∷ f ∷ [])) ≡ ok secret
    → ((fetch_secret sdk (scheme ++ join b'/' (a ∷ b ∷ i ∷ f ∷ [])) m).0 ≡ ok ((f, secret) ∷ []))
      × ((fetch_secret sdk
            (scheme ++ join b'/' (escape_all (a ++ b'/' ∷ b) ∷ escape_all i ∷ escape_all f ∷ []))
            m).0
          ≡ ok ((f, secret) ∷ []))
fetch_crosses_vaults sdk a b i f secret m pa pb pi pf na ni nf e =
    let (plain, slash) = same_string a b i f ni.0 nf.0 in
    (
      field_fetched sdk _ m (in_section a b i f) secret (parse_section a b i f pa pb pi pf) nf.0
          (rw plain e),
      field_fetched sdk _ m (with_slash a b i f) secret
          (parse-escape_all (a ++ b'/' ∷ b) i f na ni nf) nf.0 (rw slash e),
    )
