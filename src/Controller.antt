-- ===== src/Controller.antt =====
-- internal/controller/podsecret_controller.go. The API server, the YAML decoder, the clock and the
-- providers are parameters; the state is the server's, and what a call of the handler does is the
-- server's new state, the events it emits and the result that it returns, or that it does not return,
-- since a provider panicked or waits for ever.
pub mod Target
pub mod Contents
pub mod Laws
pub mod Reports
pub mod Sync
pub mod Watch
use jasm.Base.{
  ℕ, Bool, true, false, ◌&&◌, not, List, [], ◌∷◌, ◌++◌, Option, none, some, Result, ok, err,
  if◌then◌else◌,
}
use mathlib.Core.Option
use jasm.Text.{Bytes, codes, str_eq}
use jasm.Errors.{Error, errorf, message}
use jasm.StrMap
use jasm.StrMap.{StrMap}
use jasm.Annotation.{
  PodAnnotation, SecretSyncRequest, AnnotationError, annotation_key, annotation_message,
  parse_annotation,
}
use jasm.Registry
use jasm.Registry.{SecretProvider, ProviderRegistry, Fetch, returned, panicked, blocked}
use jasm.Events.{
  Event, emit_secret_sync_success, emit_annotation_invalid, emit_secret_fetch_failed,
  emit_provider_not_found,
}
use Target.{Secret, managed_by_label, managed_by_value, fresh, desired}

-- What the handlers read of a corev1.Pod.
pub record Pod : Type 0 where
  pub name : Bytes
  pub namespace : Bytes
  pub uid : Bytes
  pub annotations : StrMap Bytes

-- An error of the API server: apierrors.IsNotFound, or another.
pub data ApiError : Type 0 where
  not_found : ApiError
  failed : Error → ApiError

-- client.Client, over the states of the API server. A write that fails may have changed the state.
pub record Client (W : Type 0) : Type 0 where
  pub get_pod : W → Bytes → Bytes → Result ApiError Pod
  pub get_secret : W → Bytes → Bytes → Result ApiError Secret
  pub list_pods : W → Bytes → Result ApiError (List Pod)
  pub create : W → Secret → W × Option Error
  pub update : W → Secret → W × Option Error

-- Whether a call of Reconcile returns, or its call of FetchSecret panics or waits for ever.
pub data Ending : Type 0 where
  returns panics waits : Ending

-- What a call of Reconcile leaves, and what it returns if it does.
pub record Outcome (W : Type 0) : Type 0 where
  pub world : W
  pub ending : Ending
  pub events : List Event
  pub requeue : Bool
  pub error : Option Error

-- return ctrl.Result{}, nil
abbrev pub done : {W : Type 0} → W → List Event → Outcome W
done w events = record {
  world = w;
  ending = returns;
  events = events;
  requeue = false;
  error = none;
}

-- return ctrl.Result{}, err
abbrev pub failing : {W : Type 0} → W → Error → Outcome W
failing w e = record { world = w; ending = returns; events = []; requeue = false; error = some e }

-- A call that does not return.
abbrev pub unreturned : {W : Type 0} → Ending → W → Outcome W
unreturned ending w = record {
  world = w;
  ending = ending;
  events = [];
  requeue = false;
  error = none;
}

-- type NamespacedName
pub record NamespacedName : Type 0 where
  pub namespace : Bytes
  pub name : Bytes

namespace_mismatch : Bytes → Bytes → Bytes
namespace_mismatch ours theirs =
    codes "annotation namespace mismatch: annotation specifies "
    ++ (ours ++ (codes " but pod is in " ++ theirs))

module _ {W : Type 0} (c : Client W) (unmarshal : Bytes → Result Error PodAnnotation)
    (registry : ProviderRegistry) (now : Bytes) where
  -- The result of r.Update or r.Create, and the last event.
  finish_write : SecretSyncRequest → W × Option Error → Outcome W
  finish_write r (w, some e) = failing w e
  finish_write r (w, none) =
      done w (emit_secret_sync_success r.secret_name r.provider r.secret_path ∷ [])

  -- r.Get of the secret, then r.Update or r.Create
  write_secret : SecretSyncRequest → StrMap Bytes → Result ApiError Secret → W → Outcome W
  unfolding finish_write
  write_secret r fetched (err (failed e)) w = failing w e
  write_secret r fetched (err not_found) w =
      finish_write r (c.create w (desired r fetched now (fresh r)))
  write_secret r fetched (ok existing) w =
      finish_write r (c.update w (desired r fetched now existing))

  -- What follows FetchSecret.
  with_fetched : SecretSyncRequest → Fetch → W → Outcome W
  unfolding write_secret
  with_fetched r panicked w = unreturned panics w
  with_fetched r blocked w = unreturned waits w
  with_fetched r (returned (err e)) w = record {
    world = w;
    ending = returns;
    events = emit_secret_fetch_failed r.provider r.secret_path (message e) ∷ [];
    requeue = true;
    error = some e;
  }
  with_fetched r (returned (ok fetched)) w =
      write_secret r fetched (c.get_secret w r.namespace r.secret_name) w

  -- What follows ProviderRegistry.Get.
  with_provider : SecretSyncRequest → Option SecretProvider → W → Outcome W
  unfolding with_fetched
  with_provider r none w = done w (emit_provider_not_found r.provider ∷ [])
  with_provider r (some p) w = with_fetched r (p.fetch_secret r.secret_path) w

  -- What follows ParseAnnotation.
  with_request : Pod → Result AnnotationError SecretSyncRequest → W → Outcome W
  unfolding with_provider namespace_mismatch
  with_request pod (err e) w = done w (emit_annotation_invalid (annotation_message e) ∷ [])
  with_request pod (ok r) w =
      if not (str_eq r.namespace pod.namespace)
      then done w (emit_annotation_invalid (namespace_mismatch r.namespace pod.namespace) ∷ [])
      else with_provider r (Registry.get registry r.provider) w

  -- pod.Annotations[AnnotationKey]
  with_annotation : Pod → Option Bytes → W → Outcome W
  unfolding with_request
  with_annotation pod none w = done w []
  with_annotation pod (some value) w =
      with_request pod (parse_annotation unmarshal value pod.namespace pod.name pod.uid) w

  -- r.Get of the pod, and client.IgnoreNotFound
  with_pod : Result ApiError Pod → W → Outcome W
  unfolding with_annotation
  with_pod (err not_found) w = done w []
  with_pod (err (failed e)) w = failing w e
  with_pod (ok pod) w = with_annotation pod (StrMap.lookup annotation_key pod.annotations) w

  -- Reconcile
  unfoldable pub reconcile : NamespacedName → W → Outcome W
  unfolding with_pod
  reconcile request w = with_pod (c.get_pod w request.namespace request.name) w

-- The key of the pod, if its annotation parsed to a request for the secret.
abbrev pub refers_to : Bytes → Pod → Result AnnotationError SecretSyncRequest → List NamespacedName
refers_to name pod (err e) = []
refers_to name pod (ok r) =
    if str_eq r.secret_name name
    then record { namespace = pod.namespace; name = pod.name } ∷ []
    else []

module _ {W : Type 0} (c : Client W) (unmarshal : Bytes → Result Error PodAnnotation) where
  -- One round of the loop of findPodsForSecret.
  pod_requests : Bytes → Pod → Option Bytes → List NamespacedName
  pod_requests name pod none = []
  pod_requests name pod (some value) =
      refers_to name pod (parse_annotation unmarshal value pod.namespace pod.name pod.uid)

  collect_requests : Bytes → List Pod → List NamespacedName
  unfolding pod_requests
  collect_requests name [] = []
  collect_requests name (pod ∷ pods) =
      pod_requests name pod (StrMap.lookup annotation_key pod.annotations)
      ++ collect_requests name pods

  listed_requests : Bytes → Result ApiError (List Pod) → List NamespacedName
  unfolding collect_requests
  listed_requests name (err e) = []
  listed_requests name (ok pods) = collect_requests name pods

  -- findPodsForSecret; a label that is not there reads as ""
  unfoldable pub find_pods_for_secret : Secret → W → List NamespacedName
  unfolding listed_requests
  find_pods_for_secret secret w =
      if str_eq (Option.get_or (StrMap.lookup managed_by_label secret.labels) []) managed_by_value
      then listed_requests secret.name (c.list_pods w secret.namespace)
      else []

-- A change that SetupWithManager has the controller watch for.
pub data Change : Type 0 where
  pod_changed : Pod → Change
  secret_changed : Secret → Change

-- SetupWithManager: the requests that a change queues
unfoldable pub watched :
    {W : Type 0}
    → Client W
    → (Bytes → Result Error PodAnnotation)
    → Change
    → W
    → List NamespacedName
watched c unmarshal (pod_changed pod) w = record { namespace = pod.namespace; name = pod.name } ∷ []
watched c unmarshal (secret_changed secret) w = find_pods_for_secret c unmarshal secret w
