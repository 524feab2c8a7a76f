-- ===== src/Controller/Reports.antt =====
-- What Reconcile returns and reports to the user.
use jasm.Base.{◌≡◌, refl, true, [], ◌∷◌, Option, none, some, Result, ok, err}
use jasm.Text.{Bytes}
use jasm.Text.Laws.{str_eq_iff}
use jasm.Errors.{Error}
use jasm.StrMap.{StrMap, lookup}
use jasm.Annotation.{
  PodAnnotation, SecretSyncRequest, AnnotationError, annotation_key, parse_annotation,
  parse_annotation-IsRequestFor,
}
use jasm.Registry
use jasm.Registry.{SecretProvider, ProviderRegistry, Fetch, returned, panicked, blocked}
use jasm.Events.{
  Event, normal, warning, secret_sync_success, secret_fetch_failed, annotation_invalid,
  provider_unsupported, emit_secret_sync_success, emit_annotation_invalid, emit_secret_fetch_failed,
  emit_provider_not_found,
}
use jasm.Controller.Target.{Secret, fresh, desired}
use jasm.Controller.{
  Pod, ApiError, not_found, failed, Client, Outcome, returns, panics, waits, done, failing,
  unreturned, NamespacedName, finish_write, write_secret, with_fetched, with_provider, with_request,
  with_annotation, with_pod, reconcile,
}

module _ {W : Type 0} (c : Client W) (unmarshal : Bytes → Result Error PodAnnotation)
    (registry : ProviderRegistry) (now : Bytes) (n : NamespacedName) (w : W) where
  -- The pod is there and its annotation is the text.
  pub record IsAnnotated (pod : Pod) (value : Bytes) : Type 0 where
    pub present : c.get_pod w n.namespace n.name ≡ ok pod
    pub annotated : lookup annotation_key pod.annotations ≡ some value

  -- The annotation of the pod asks for this.
  pub record IsAsked (r : SecretSyncRequest) : Type 0 where
    pub pod : Pod
    pub value : Bytes
    pub there : IsAnnotated pod value
    pub parsed : parse_annotation unmarshal value pod.namespace pod.name pod.uid ≡ ok r

  -- What the provider of the request does.
  pub record IsAnswered (r : SecretSyncRequest) (answer : Fetch) : Type 0 where
    pub asked : IsAsked r
    pub provider : SecretProvider
    pub registered : Registry.get registry r.provider ≡ some provider
    pub answers : provider.fetch_secret r.secret_path ≡ answer

  -- The secret is created, or the one that is there is updated, to the one that the code wants; `p` is what
  -- the API server then does.
  pub data IsWrite (r : SecretSyncRequest) (f : StrMap Bytes) (p : W × Option Error) : Type 0 where
    creates :
        c.get_secret w r.namespace r.secret_name ≡ err not_found
        → c.create w (desired r f now (fresh r)) ≡ p
        → IsWrite r f p
    updates :
        (existing : Secret)
        → c.get_secret w r.namespace r.secret_name ≡ ok existing
        → c.update w (desired r f now existing) ≡ p
        → IsWrite r f p

  -- The ways in which a call of Reconcile ends, and when.
  pub data IsReported (o : Outcome W) : Type 0 where
    -- the pod is gone or has no annotation
    gone : c.get_pod w n.namespace n.name ≡ err not_found → o ≡ done w [] → IsReported o
    unannotated :
        (pod : Pod)
        → c.get_pod w n.namespace n.name ≡ ok pod
        → lookup annotation_key pod.annotations ≡ none
        → o ≡ done w []
        → IsReported o
    -- a mistake of the user, which a second try would not mend
    bad_annotation :
        (pod : Pod) (value : Bytes) (x : AnnotationError) (e : Event)
        → IsAnnotated pod value
        → parse_annotation unmarshal value pod.namespace pod.name pod.uid ≡ err x
        → e.event_type ≡ warning
        → e.reason ≡ annotation_invalid
        → o ≡ done w (e ∷ [])
        → IsReported o
    no_provider :
        (r : SecretSyncRequest) (e : Event)
        → IsAsked r
        → Registry.get registry r.provider ≡ none
        → e.event_type ≡ warning
        → e.reason ≡ provider_unsupported
        → o ≡ done w (e ∷ [])
        → IsReported o
    -- the provider failed, and the pod is queued again
    fetch_failed :
        (r : SecretSyncRequest) (e : Event) (x : Error)
        → IsAnswered r (returned (err x))
        → e.event_type ≡ warning
        → e.reason ≡ secret_fetch_failed
        → o
          ≡ record { world = w; ending = returns; events = e ∷ []; requeue = true; error = some x }
        → IsReported o
    -- the provider did not return
    fetch_panicked :
        (r : SecretSyncRequest) → IsAnswered r panicked → o ≡ unreturned panics w → IsReported o
    fetch_blocked :
        (r : SecretSyncRequest) → IsAnswered r blocked → o ≡ unreturned waits w → IsReported o
    -- the API server failed
    pod_unread :
        (x : Error)
        → c.get_pod w n.namespace n.name ≡ err (failed x)
        → o ≡ failing w x
        → IsReported o
    secret_unread :
        (r : SecretSyncRequest) (f : StrMap Bytes) (x : Error)
        → IsAnswered r (returned (ok f))
        → c.get_secret w r.namespace r.secret_name ≡ err (failed x)
        → o ≡ failing w x
        → IsReported o
    unwritten :
        (r : SecretSyncRequest) (f : StrMap Bytes) (v : W) (x : Error)
        → IsAnswered r (returned (ok f))
        → IsWrite r f (v, some x)
        → o ≡ failing v x
        → IsReported o
    -- the secret is written
    synced :
        (r : SecretSyncRequest) (f : StrMap Bytes) (v : W) (e : Event)
        → IsAnswered r (returned (ok f))
        → IsWrite r f (v, none)
        → e.event_type ≡ normal
        → e.reason ≡ secret_sync_success
        → o ≡ done v (e ∷ [])
        → IsReported o

  finish_write-IsReported :
      (r : SecretSyncRequest) (f : StrMap Bytes) (p : W × Option Error)
      → IsAnswered r (returned (ok f))
      → IsWrite r f p
      → IsReported (finish_write c unmarshal registry now r p)
  unfolding finish_write emit_secret_sync_success
  finish_write-IsReported r f (v, none) a h = synced r f v _ a h refl refl refl
  finish_write-IsReported r f (v, some x) a h = unwritten r f v x a h refl

  write_secret-IsReported :
      (r : SecretSyncRequest) (f : StrMap Bytes) (read : Result ApiError Secret)
      → IsAnswered r (returned (ok f))
      → c.get_secret w r.namespace r.secret_name ≡ read
      → IsReported (write_secret c unmarshal registry now r f read w)
  unfolding write_secret
  write_secret-IsReported r f (err (failed x)) a h = secret_unread r f x a h refl
  write_secret-IsReported r f (err not_found) a h =
      finish_write-IsReported r f (c.create w (desired r f now (fresh r))) a (creates h refl)
  write_secret-IsReported r f (ok s) a h =
      finish_write-IsReported r f (c.update w (desired r f now s)) a (updates s h refl)

  with_fetched-IsReported :
      (r : SecretSyncRequest) (answer : Fetch)
      → IsAnswered r answer
      → IsReported (with_fetched c unmarshal registry now r answer w)
  unfolding with_fetched emit_secret_fetch_failed
  with_fetched-IsReported r (returned (ok f)) a =
      write_secret-IsReported r f (c.get_secret w r.namespace r.secret_name) a refl
  with_fetched-IsReported r (returned (err x)) a = fetch_failed r _ x a refl refl refl
  with_fetched-IsReported r panicked a = fetch_panicked r a refl
  with_fetched-IsReported r blocked a = fetch_blocked r a refl

  with_provider-IsReported :
      (r : SecretSyncRequest) (p : Option SecretProvider)
      → IsAsked r
      → Registry.get registry r.provider ≡ p
      → IsReported (with_provider c unmarshal registry now r p w)
  unfolding with_provider emit_provider_not_found
  with_provider-IsReported r none a h = no_provider r _ a h refl refl refl
  with_provider-IsReported r (some p) a h =
      with_fetched-IsReported r (p.fetch_secret r.secret_path)
        (record { asked = a; provider = p; registered = h; answers = refl })

  with_request-IsReported :
      (pod : Pod) (value : Bytes) (parsed : Result AnnotationError SecretSyncRequest)
      → IsAnnotated pod value
      → parse_annotation unmarshal value pod.namespace pod.name pod.uid ≡ parsed
      → IsReported (with_request c unmarshal registry now pod parsed w)
  unfolding with_request emit_annotation_invalid
  with_request-IsReported pod value (err x) a h = bad_annotation pod value x _ a h refl refl refl
  with_request-IsReported pod value (ok r) a h =
      let same =
        (parse_annotation-IsRequestFor unmarshal value pod.namespace pod.name pod.uid
          h).in_namespace in
      rw ((str_eq_iff r.namespace pod.namespace).1 same) (
        with_provider-IsReported r (Registry.get registry r.provider)
          (record { pod = pod; value = value; there = a; parsed = h }) refl)

  with_annotation-IsReported :
      (pod : Pod) (value : Option Bytes)
      → c.get_pod w n.namespace n.name ≡ ok pod
      → lookup annotation_key pod.annotations ≡ value
      → IsReported (with_annotation c unmarshal registry now pod value w)
  unfolding with_annotation
  with_annotation-IsReported pod none p h = unannotated pod p h refl
  with_annotation-IsReported pod (some value) p h =
      with_request-IsReported pod value
        (parse_annotation unmarshal value pod.namespace pod.name pod.uid)
        (record { present = p; annotated = h }) refl

  with_pod-IsReported :
      (read : Result ApiError Pod)
      → c.get_pod w n.namespace n.name ≡ read
      → IsReported (with_pod c unmarshal registry now read w)
  unfolding with_pod
  with_pod-IsReported (err not_found) h = gone h refl
  with_pod-IsReported (err (failed x)) h = pod_unread x h refl
  with_pod-IsReported (ok pod) h =
      with_annotation-IsReported pod (lookup annotation_key pod.annotations) h refl

  -- How a call of Reconcile ends, and when. Where the pod is gone or has no annotation, nothing happens.
  -- Where the annotation does not parse or its provider is not registered, there is a warning and no second
  -- try. Where the provider returns an error, there is a warning, the error and a second try; where it panics
  -- or waits for ever, so does the call. In all these cases the cluster is unchanged. Where the API server
  -- fails to read the pod or the secret, or to write the secret, its error is returned. In the case left,
  -- the secret that the code wants has been created, if there was none, or updated, and one success is
  -- reported. A request for another namespace than the pod's does not occur.
  pub reconcile-IsReported : IsReported (reconcile c unmarshal registry now n w)
  unfolding reconcile
  reconcile-IsReported = with_pod-IsReported (c.get_pod w n.namespace n.name) refl
