-- ===== src/Controller/Contents.antt =====
-- What stands in the secret that Reconcile writes.
use jasm.Base.{◌≡◌, ◌≢◌, refl, [], ◌∷◌, Option, none, some, if◌then◌else◌, arith, ◌∙◌, sym}
use jasm.Text.{Bytes, codes, str_eq}
use jasm.Text.Laws.{str_eq_iff, str_eq_refl}
use jasm.StrMap.{
  StrMap, lookup, insert, lookup-insert, lookup-insert_self, lookup-insert_ne, Unique,
}
use jasm.Annotation.{SecretSyncRequest}
use jasm.Controller.Target.{
  Secret, map_keys, copy_keys, put_found, secret_string_data, desired, managed_by_label,
  managed_by_value, source_path_annotation, synced_at_annotation,
}

-- The value, or the older one.
abbrev or_else : Option Bytes → Option Bytes → Option Bytes
or_else none old = old
or_else (some v) old = some v

abbrev mapped : StrMap Bytes → Option Bytes → Option Bytes → Option Bytes
mapped fetched none old = old
mapped fetched (some source) old = or_else (lookup source fetched) old

lookup-put_found :
    (j k : Bytes) (value : Option Bytes) (out : StrMap Bytes)
    → lookup k (put_found j value out)
      ≡ (if str_eq j k then or_else value (lookup k out) else lookup k out)
lookup-put_found j k none out = ground arith
lookup-put_found j k (some v) out = lookup-insert j k v out

map_keys_lem :
    (mapping fetched out : StrMap Bytes) (k : Bytes)
    → Unique mapping
    → lookup k (map_keys mapping fetched out) ≡ mapped fetched (lookup k mapping) (lookup k out)
unfolding map_keys lookup
map_keys_lem [] fetched out k h = refl
map_keys_lem ((j, source) ∷ mapping) fetched out k (hj, hm) = ground (
  arith,
  str_eq_iff j k,
  map_keys_lem mapping fetched (put_found j (lookup source fetched) out) k hm,
  lookup-put_found j k (lookup source fetched) out,
)

copy_keys_lem :
    (fetched out : StrMap Bytes) (k : Bytes)
    → Unique fetched
    → lookup k (copy_keys fetched out) ≡ or_else (lookup k fetched) (lookup k out)
unfolding copy_keys lookup
copy_keys_lem [] out k h = refl
copy_keys_lem ((j, v) ∷ fetched) out k (hj, hm) =
    ground
      (arith, str_eq_iff j k, copy_keys_lem fetched (insert j v out) k hm, lookup-insert j k v out)

abbrev pub through : StrMap Bytes → Option Bytes → Option Bytes
through fetched none = none
through fetched (some source) = lookup source fetched

-- What a key of the secret is to hold: with no mapping, the value fetched under the key; with a
-- mapping, the value fetched under the name that the mapping gives for the key.
abbrev pub wanted : StrMap Bytes → StrMap Bytes → Bytes → Option Bytes
wanted [] fetched k = lookup k fetched
wanted (entry ∷ mapping) fetched k = through fetched (lookup k (entry ∷ mapping))

none_there : (k : Bytes) → lookup {V = Bytes} k [] ≡ none
unfolding lookup
none_there k = refl

or_else_nothing : (o : Option Bytes) (k : Bytes) → or_else o (lookup k []) ≡ o
unfolding lookup
or_else_nothing none k = refl
or_else_nothing (some v) k = refl

mapped_nothing :
    (fetched : StrMap Bytes) (o : Option Bytes) (k : Bytes)
    → mapped fetched o (lookup k []) ≡ through fetched o
mapped_nothing fetched none k = unfold lookup in refl
mapped_nothing fetched (some source) k = or_else_nothing (lookup source fetched) k

string_data_lem :
    (mapping fetched : StrMap Bytes) (k : Bytes)
    → Unique mapping
    → Unique fetched
    → lookup k (secret_string_data mapping fetched) ≡ wanted mapping fetched k
unfolding secret_string_data
string_data_lem [] fetched k hm hf =
    copy_keys_lem fetched [] k hf ∙ or_else_nothing (lookup k fetched) k
string_data_lem (entry ∷ mapping) fetched k hm hf =
    map_keys_lem (entry ∷ mapping) fetched [] k hm
    ∙ mapped_nothing fetched (lookup k (entry ∷ mapping)) k

-- Two lists with the same entries: one Go map, visited in two orders.
abbrev pub SameMap : StrMap Bytes → StrMap Bytes → Type 0
SameMap m n = (k : Bytes) → lookup k m ≡ lookup k n

lookup-head : (e : Bytes × Bytes) (m : StrMap Bytes) → lookup e.0 (e ∷ m) ≡ some e.1
unfolding lookup
lookup-head (k, v) m = rw str_eq_refl

through-same : (f g : StrMap Bytes) (o : Option Bytes) → SameMap f g → through f o ≡ through g o
through-same f g none h = refl
through-same f g (some source) h = h source

wanted-same :
    (m n f g : StrMap Bytes) (k : Bytes) → SameMap m n → SameMap f g → wanted m f k ≡ wanted n g k
wanted-same [] [] f g k hm hf = hf k
wanted-same [] (e ∷ n) f g k hm hf = cc (hm e.0, lookup-head e n, none_there e.0)
wanted-same (e ∷ m) [] f g k hm hf = cc (hm e.0, lookup-head e m, none_there e.0)
wanted-same (e ∷ m) (d ∷ n) f g k hm hf = rw (hm k) (through-same f g (lookup k (d ∷ n)) hf)

-- A key of the secret's data holds the value that is wanted for it, and a key for which none is wanted
-- is absent; and the data are the same in whatever order the mapping and the fetched map are visited.
pub lookup-secret_string_data :
    (m n f g : StrMap Bytes)
    → Unique m
    → Unique n
    → Unique f
    → Unique g
    → SameMap m n
    → SameMap f g
    → ((k : Bytes) → lookup k (secret_string_data m f) ≡ wanted m f k)
      × SameMap (secret_string_data m f) (secret_string_data n g)
lookup-secret_string_data m n f g um un uf ug hm hf = (
  λ k. string_data_lem m f k um uf,
  λ k.
      string_data_lem m f k um uf ∙ wanted-same m n f g k hm hf ∙ sym (string_data_lem n g k un ug),
)

-- What an update of the secret `s` to `t` marks and keeps.
pub record Keeps (r : SecretSyncRequest) (now : Bytes) (s t : Secret) : Type 0 where
  pub managed : lookup managed_by_label t.labels ≡ some managed_by_value
  pub source_noted : lookup source_path_annotation t.annotations ≡ some r.secret_path
  pub time_noted : lookup synced_at_annotation t.annotations ≡ some now
  pub other_labels : (k : Bytes) → k ≢ managed_by_label → lookup k t.labels ≡ lookup k s.labels
  pub other_annotations :
      (k : Bytes)
      → k ≢ source_path_annotation
      → k ≢ synced_at_annotation
      → lookup k t.annotations ≡ lookup k s.annotations
  pub same_name : t.name ≡ s.name
  pub same_namespace : t.namespace ≡ s.namespace
  pub same_rest : t.rest ≡ s.rest

source-ne-time : source_path_annotation ≢ synced_at_annotation
source-ne-time e = cc e

pub desired-Keeps :
    (r : SecretSyncRequest) (f : StrMap Bytes) (now : Bytes) (s : Secret)
    → Keeps r now s (desired r f now s)
unfolding desired
desired-Keeps r f now s =
    let noted = insert source_path_annotation r.secret_path s.annotations in
    record {
      managed = lookup-insert_self managed_by_label managed_by_value s.labels;
      source_noted =
          lookup-insert_ne synced_at_annotation source_path_annotation now noted source-ne-time
          ∙ lookup-insert_self source_path_annotation r.secret_path s.annotations;
      time_noted = lookup-insert_self synced_at_annotation now noted;
      other_labels = λ k h. lookup-insert_ne managed_by_label k managed_by_value s.labels h;
      other_annotations = λ k h g.
          lookup-insert_ne synced_at_annotation k now noted g
          ∙ lookup-insert_ne source_path_annotation k r.secret_path s.annotations h;
      same_name = refl;
      same_namespace = refl;
      same_rest = refl;
    }

-- What an update of the secret `s` to `t` marks, keeps and writes.
pub record IsSynced (r : SecretSyncRequest) (f : StrMap Bytes) (now : Bytes) (s t : Secret)
    : Type 0 where
  pub keeps : Keeps r now s t
  pub is_opaque : t.secret_type ≡ codes "Opaque"
  pub holds : (k : Bytes) → lookup k t.string_data ≡ wanted r.key_mapping f k

pub desired-IsSynced :
    (r : SecretSyncRequest) (f : StrMap Bytes) (now : Bytes) (s : Secret)
    → Unique r.key_mapping
    → Unique f
    → IsSynced r f now s (desired r f now s)
unfolding desired
desired-IsSynced r f now s hm hf = record {
  keeps = desired-Keeps r f now s;
  is_opaque = refl;
  holds = λ k. string_data_lem r.key_mapping f k hm hf;
}
