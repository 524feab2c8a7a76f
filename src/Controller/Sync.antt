-- ===== src/Controller/Sync.antt =====
-- When Reconcile succeeds, and that the watch on secrets leads back to the pod.
use jasm.Base.{◌≡◌, ◌≢◌, refl, sym, ap, ◌∙◌, true, List, [], ◌∷◌, none, some, Result, ok, err}
use jasm.Text.{Bytes, str_eq}
use jasm.Text.Laws.{str_eq_iff}
use jasm.Errors.{Error}
use jasm.StrMap.{StrMap, lookup, Unique}
use jasm.Annotation.{
  PodAnnotation, SecretSyncRequest, annotation_key, parse_annotation, parse_annotation-IsRequestFor,
}
use jasm.Registry
use jasm.Registry.{SecretProvider, ProviderRegistry, returned}
use jasm.Events.{emit_secret_sync_success}
use jasm.Controller.Target.{Secret, fresh, desired, synced_at_annotation}
use jasm.Controller.Laws.{Answers}
use jasm.Controller.Contents.{desired-Keeps, IsSynced, desired-IsSynced}
use jasm.Controller.Watch.{Elem, Found, key_of, find_pods_for_secret_exact}
use jasm.Controller.{
  Pod, not_found, Client, Outcome, done, NamespacedName, reconcile, watched, secret_changed,
}

-- The pod is there, its annotation parses, and its provider is registered and returns the secret.
pub record IsReady {W : Type 0} (c : Client W) (unmarshal : Bytes → Result Error PodAnnotation)
    (registry : ProviderRegistry) (n : NamespacedName) (w : W) : Type 0 where
  pub pod : Pod
  pub value : Bytes
  pub request : SecretSyncRequest
  pub provider : SecretProvider
  pub fetched : StrMap Bytes
  pub present : c.get_pod w n.namespace n.name ≡ ok pod
  pub annotated : lookup annotation_key pod.annotations ≡ some value
  pub parsed : parse_annotation unmarshal value pod.namespace pod.name pod.uid ≡ ok request
  pub registered : Registry.get registry request.provider ≡ some provider
  pub returned : provider.fetch_secret request.secret_path ≡ returned (ok fetched)

module _ {W : Type 0} (c : Client W) (unmarshal : Bytes → Result Error PodAnnotation)
    (registry : ProviderRegistry) (now : Bytes) (n : NamespacedName) (w v : W)
    (ready : IsReady c unmarshal registry n w) where
  open ready use {pod, request, fetched}

  same_namespace : str_eq request.namespace pod.namespace ≡ true
  same_namespace =
      let r =
        parse_annotation-IsRequestFor unmarshal ready.value pod.namespace pod.name pod.uid
          ready.parsed in
      (str_eq_iff _ _).1 r.in_namespace

  abbrev pub synced : Outcome W
  synced =
      done v
        (emit_secret_sync_success request.secret_name request.provider request.secret_path ∷ [])

  pub reconcile_creates :
      c.get_secret w request.namespace request.secret_name ≡ err not_found
      → c.create w (desired request fetched now (fresh request)) ≡ (v, none)
      → reconcile c unmarshal registry now n w ≡ synced
  unfolding reconcile
  reconcile_creates absent written = rw (
    ready.present, ready.annotated, ready.parsed, same_namespace, ready.registered, ready.returned,
    absent, written,
  )

  abbrev pub made : Secret
  made = desired request fetched now (fresh request)

  -- If the pod is ready to be served, its secret does not exist and the API server creates it, the call
  -- ends with the created secret and one success event; and as long as the pod is listed, a later change
  -- of that secret queues the pod again.
  pub reconcile_creates_watched :
      (pods : List Pod)
      → c.get_secret w request.namespace request.secret_name ≡ err not_found
      → c.create w made ≡ (v, none)
      → c.list_pods v made.namespace ≡ ok pods
      → Elem pod pods
      → (reconcile c unmarshal registry now n w ≡ synced)
        × Elem (key_of pod) (watched c unmarshal (secret_changed made) v)
  unfolding watched
  reconcile_creates_watched pods absent written listed member =
      let sync = desired-Keeps request fetched now (fresh request) in
      let found : Found unmarshal c made.name pods (key_of pod) = record {
        pod = pod;
        listed = member;
        refers = record {
          value = ready.value;
          request = request;
          annotated = ready.annotated;
          parsed = ready.parsed;
          names_it = unfold desired fresh in refl;
        };
        keyed = refl;
      } in
      (
        reconcile_creates absent written,
        (find_pods_for_secret_exact unmarshal c made v pods (key_of pod) sync.managed listed).1
            found,
      )

  reconcile_updates :
      (existing : Secret)
      → c.get_secret w request.namespace request.secret_name ≡ ok existing
      → c.update w (desired request fetched now existing) ≡ (v, none)
      → reconcile c unmarshal registry now n w ≡ synced
  unfolding reconcile
  reconcile_updates existing found written = rw (
    ready.present, ready.annotated, ready.parsed, same_namespace, ready.registered, ready.returned,
    found, written,
  )

  -- What an update of an existing secret leaves: the call succeeds, the secret that it writes has the data
  -- that are wanted and keeps the rest, it differs from the one that was read, and its change queues the pod
  -- again.
  pub record IsSelfQueued (existing : Secret) : Type 0 where
    pub reconciled : reconcile c unmarshal registry now n w ≡ synced
    pub contents : IsSynced request fetched now existing (desired request fetched now existing)
    pub changed : existing ≢ desired request fetched now existing
    pub queued_again :
        Elem
          (key_of pod)
          (watched c unmarshal (secret_changed (desired request fetched now existing)) v)

  -- If the pod is ready to be served, its secret exists with another time of its last sync than the present
  -- one, and the API server updates it, the call ends with one success event; the secret it writes is labelled
  -- as managed, has the type Opaque and the wanted data, and keeps everything that the code does not set; and
  -- this secret is not the one that was read, so that the update is a change, and as long as the pod is
  -- listed, a change of this secret queues the pod again: every sync asks for the next one.
  pub update_feeds_itself :
      (existing : Secret) (pods : List Pod)
      → Answers c
      → Unique request.key_mapping
      → Unique fetched
      → c.get_secret w request.namespace request.secret_name ≡ ok existing
      → lookup synced_at_annotation existing.annotations ≢ some now
      → c.update w (desired request fetched now existing) ≡ (v, none)
      → c.list_pods v request.namespace ≡ ok pods
      → Elem pod pods
      → IsSelfQueued existing
  update_feeds_itself existing pods answers hm hf found before written listed member =
      let next = desired request fetched now existing in
      let keeps = desired-Keeps request fetched now existing in
      let (in_namespace, named) =
        answers.secret_key w request.namespace request.secret_name existing found in
      let refers : Found unmarshal c next.name pods (key_of pod) = record {
        pod = pod;
        listed = member;
        refers = record {
          value = ready.value;
          request = request;
          annotated = ready.annotated;
          parsed = ready.parsed;
          names_it = sym (keeps.same_name ∙ named);
        };
        keyed = refl;
      } in
      let there : c.list_pods v next.namespace ≡ ok pods =
        ap (c.list_pods v) (keeps.same_namespace ∙ in_namespace) ∙ listed in
      record {
        reconciled = reconcile_updates existing found written;
        contents = desired-IsSynced request fetched now existing hm hf;
        changed = λ same.
            before (ap (λ s. lookup synced_at_annotation s.annotations) same ∙ keeps.time_noted);
        queued_again =
            unfold watched in
            (find_pods_for_secret_exact unmarshal c next v pods (key_of pod) keeps.managed there).1
              refers;
      }
