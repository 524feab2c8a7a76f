-- ===== src/Tests/Cluster.antt =====
-- A small cluster with one pod, a decoder and a provider, for the handlers of
-- internal/controller/podsecret_controller.go.
use jasm.Base.{◌≡◌, refl, ◌&&◌, List, [], ◌∷◌, none, Result, ok, err, if◌then◌else◌, arith, inl}
use jasm.Text.{Bytes, codes, str_eq, is_empty}
use jasm.Text.Laws.{str_eq_iff}
use jasm.Errors.{Error}
use jasm.StrMap
use jasm.StrMap.{StrMap}
use jasm.Annotation.{
  PodAnnotation, SecretSyncRequest, annotation_key, IsRequestFor, parse_annotation, validated,
  parse_annotation-IsRequestFor,
}
use jasm.Registry
use jasm.Registry.{returned, SecretProvider, ProviderRegistry, register, new_provider_registry}
use jasm.Controller.Target.{Secret, desired, fresh, secret_string_data}
use jasm.Controller.Contents.{SameMap, wanted, lookup-secret_string_data, desired-Keeps}
use jasm.Controller.Laws.{Answers, Confined, reconcile-Confined}
use jasm.Controller.Reports.{IsReported, reconcile-IsReported}
use jasm.Controller.Sync.{
  IsReady, synced, made, reconcile_creates_watched, IsSelfQueued, update_feeds_itself,
}
use jasm.Controller.Watch.{Elem, Found, find_pods_for_secret_exact}
use jasm.Controller.{
  Pod, ApiError, not_found, Client, NamespacedName, reconcile, find_pods_for_secret, watched,
  secret_changed,
}

abbrev annotation : PodAnnotation
annotation = record {
  provider = codes "p";
  path = codes "a";
  secret_name = codes "s";
  keys = (codes "K", codes "k") ∷ [];
}

abbrev unmarshal : Bytes → Result Error PodAnnotation
unmarshal value = ok annotation

abbrev pub web : Pod
web = record {
  name = codes "web";
  namespace = codes "d";
  uid = codes "1";
  annotations = (annotation_key, codes "y") ∷ [];
}

abbrev request : SecretSyncRequest
request = record {
  provider = codes "p";
  secret_path = codes "a";
  secret_name = codes "s";
  namespace = codes "d";
  pod_name = codes "web";
  pod_uid = codes "1";
  key_mapping = (codes "K", codes "k") ∷ [];
}

abbrev fetched : StrMap Bytes
fetched = (codes "k", codes "v") ∷ (codes "l", codes "w") ∷ []

abbrev provider : SecretProvider
provider = record { name = codes "p"; fetch_secret = λ path. returned (ok fetched) }

abbrev registry : ProviderRegistry
registry = record { providers = (codes "p", provider) ∷ [] }

abbrev read_pod : Bytes → Bytes → Result ApiError Pod
read_pod n k = if str_eq web.namespace n && str_eq web.name k then ok web else err not_found

abbrev read_secret : Bytes → Bytes → List Secret → Result ApiError Secret
read_secret n k [] = err not_found
read_secret n k (s ∷ secrets) =
    if str_eq s.namespace n && str_eq s.name k then ok s else read_secret n k secrets

-- The state is the list of secrets, the newest first.
abbrev pub cluster : Client (List Secret)
cluster = record {
  get_pod = λ w n k. read_pod n k;
  get_secret = λ w n k. read_secret n k w;
  list_pods = λ w n. ok (web ∷ []);
  create = λ w s. (s ∷ w, none);
  update = λ w s. (s ∷ w, none);
}

cluster_pod_key : (n k : Bytes) (p : Pod) → read_pod n k ≡ ok p → (p.namespace ≡ n) × (p.name ≡ k)
cluster_pod_key n k p h = ground (arith, str_eq_iff web.namespace n, str_eq_iff web.name k)

cluster_secret_key :
    (w : List Secret) (n k : Bytes) (s : Secret)
    → read_secret n k w ≡ ok s
    → (s.namespace ≡ n) × (s.name ≡ k)
cluster_secret_key [] n k s h = cc
cluster_secret_key (t ∷ w) n k s h =
    ground (arith, str_eq_iff t.namespace n, str_eq_iff t.name k, cluster_secret_key w n k s)

cluster-Answers : Answers cluster
cluster-Answers = record { pod_key = λ w. cluster_pod_key; secret_key = cluster_secret_key }

abbrev pub now : Bytes
now = codes "t"

abbrev pub key : NamespacedName
key = record { namespace = codes "d"; name = codes "web" }

reconcile-Confined_example :
    Confined cluster (codes "d") [] (reconcile cluster unmarshal registry now key []).world
reconcile-Confined_example =
    reconcile-Confined cluster unmarshal registry now cluster-Answers key []

reconcile-IsReported_example :
    IsReported cluster unmarshal registry now key []
      (reconcile cluster unmarshal registry now key [])
reconcile-IsReported_example = reconcile-IsReported cluster unmarshal registry now key []

ready : IsReady cluster unmarshal registry key []
unfolding parse_annotation validated is_empty StrMap.lookup Registry.get str_eq
ready = record {
  pod = web;
  value = codes "y";
  request = request;
  provider = provider;
  fetched = fetched;
  present = refl;
  annotated = refl;
  parsed = refl;
  registered = refl;
  returned = refl;
}

abbrev wanted_secret : Secret
wanted_secret = desired request fetched now (fresh request)

reconcile_creates_watched_example :
    (reconcile cluster unmarshal registry now key []
      ≡ synced cluster unmarshal registry now key [] (wanted_secret ∷ []) ready)
    × Elem key (
        watched cluster unmarshal
          (secret_changed (made cluster unmarshal registry now key [] (wanted_secret ∷ []) ready))
          (wanted_secret ∷ []))
unfolding ready
reconcile_creates_watched_example =
    reconcile_creates_watched cluster unmarshal registry now key [] (wanted_secret ∷ []) ready
      (web ∷ []) refl refl refl (inl refl)

abbrev old_secret : Secret
old_secret = record {
  name = codes "s";
  namespace = codes "d";
  labels = (codes "team", codes "x") ∷ [];
  annotations = [];
  string_data = [];
  secret_type = [];
  rest = 7;
}

abbrev new_secret : Secret
new_secret = desired request fetched now old_secret

ready_again : IsReady cluster unmarshal registry key (old_secret ∷ [])
unfolding ready
ready_again = record {
  pod = web;
  value = codes "y";
  request = request;
  provider = provider;
  fetched = fetched;
  present = ready.present;
  annotated = ready.annotated;
  parsed = ready.parsed;
  registered = ready.registered;
  returned = ready.returned;
}

update_feeds_itself_example :
    IsSelfQueued cluster unmarshal registry now key
      (old_secret ∷ [])
      (new_secret ∷ old_secret ∷ [])
      ready_again
      old_secret
unfolding ready_again str_eq StrMap.lookup
update_feeds_itself_example =
    update_feeds_itself cluster unmarshal registry now key (old_secret ∷ [])
      (new_secret ∷ old_secret ∷ []) ready_again old_secret (web ∷ []) cluster-Answers (refl, tt)
      (refl, (refl, tt)) refl (λ e. cc e) refl refl (inl refl)

abbrev turned : StrMap Bytes
turned = (codes "l", codes "w") ∷ (codes "k", codes "v") ∷ []

turned-same : SameMap fetched turned
unfolding StrMap.lookup
turned-same k = ground (arith, str_eq_iff (codes "k") k, str_eq_iff (codes "l") k)

lookup-secret_string_data_example :
    ((k : Bytes)
      → StrMap.lookup k (secret_string_data request.key_mapping fetched)
        ≡ wanted request.key_mapping fetched k)
    × SameMap
        (secret_string_data request.key_mapping fetched)
        (secret_string_data request.key_mapping turned)
unfolding StrMap.lookup str_eq
lookup-secret_string_data_example =
    lookup-secret_string_data request.key_mapping request.key_mapping fetched turned (refl, tt)
      (refl, tt) (refl, (refl, tt)) (refl, (refl, tt)) (λ k. refl) turned-same

find_pods_for_secret_exact_example :
    (Elem key (find_pods_for_secret cluster unmarshal new_secret [])
      → Found unmarshal cluster (codes "s") (web ∷ []) key)
    × (Found unmarshal cluster (codes "s") (web ∷ []) key
        → Elem key (find_pods_for_secret cluster unmarshal new_secret []))
unfolding desired
find_pods_for_secret_exact_example =
    find_pods_for_secret_exact unmarshal cluster new_secret [] (web ∷ []) key
      (desired-Keeps request fetched now old_secret).managed refl

parse_annotation-IsRequestFor_example : IsRequestFor (codes "d") (codes "web") (codes "1") request
unfolding parse_annotation validated is_empty
parse_annotation-IsRequestFor_example =
    parse_annotation-IsRequestFor unmarshal (codes "y") (codes "d") (codes "web") (codes "1") refl
