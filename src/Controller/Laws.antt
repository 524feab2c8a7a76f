-- ===== src/Controller/Laws.antt =====
-- What Reconcile may write, what it reports, and when it succeeds.
use jasm.Base.{◌≡◌, refl, ◌∙◌, subst, Option, none, some, Result, ok, err}
use jasm.Text.{Bytes}
use jasm.Text.Laws.{str_eq_iff}
use jasm.Errors.{Error}
use jasm.StrMap.{StrMap, lookup}
use jasm.Annotation.{
  PodAnnotation, SecretSyncRequest, AnnotationError, annotation_key, parse_annotation-IsRequestFor,
}
use jasm.Registry
use jasm.Registry.{SecretProvider, ProviderRegistry, Fetch, returned, panicked, blocked}
use jasm.Controller.Target.{Secret, fresh, desired, managed_by_label, managed_by_value}
use jasm.Controller.Contents.{desired-Keeps}
use jasm.Controller.{
  Pod, ApiError, not_found, failed, Client, NamespacedName, finish_write, write_secret,
  with_fetched, with_provider, with_request, with_annotation, with_pod, reconcile,
}

-- What the API server documents: an object that is read has the key that was asked for.
pub record Answers {W : Type 0} (c : Client W) : Type 0 where
  pub pod_key :
      (w : W) (n k : Bytes) (p : Pod) → c.get_pod w n k ≡ ok p → (p.namespace ≡ n) × (p.name ≡ k)
  pub secret_key :
      (w : W) (n k : Bytes) (s : Secret)
      → c.get_secret w n k ≡ ok s
      → (s.namespace ≡ n) × (s.name ≡ k)

-- The state that writing the secret `s` leaves.
pub data Wrote {W : Type 0} (c : Client W) (w v : W) (s : Secret) : Type 0 where
  created : v ≡ (c.create w s).0 → Wrote c w v s
  updated : v ≡ (c.update w s).0 → Wrote c w v s

-- Nothing was written, or one secret was, in the namespace and with the managed-by label.
pub data Confined {W : Type 0} (c : Client W) (namespace : Bytes) (w v : W) : Type 0 where
  unchanged : v ≡ w → Confined c namespace w v
  one_secret :
      (s : Secret)
      → s.namespace ≡ namespace
      → lookup managed_by_label s.labels ≡ some managed_by_value
      → Wrote c w v s
      → Confined c namespace w v

module _ {W : Type 0} (c : Client W) (unmarshal : Bytes → Result Error PodAnnotation)
    (registry : ProviderRegistry) (now : Bytes) where
  finish_write_world :
      (r : SecretSyncRequest) (p : W × Option Error)
      → (finish_write c unmarshal registry now r p).world ≡ p.0
  unfolding finish_write
  finish_write_world r (w, none) = refl
  finish_write_world r (w, some e) = refl

  module _ (answers : Answers c) where
    write_secret-Confined :
        (r : SecretSyncRequest) (f : StrMap Bytes) (read : Result ApiError Secret) (w : W)
        → c.get_secret w r.namespace r.secret_name ≡ read
        → Confined c r.namespace w (write_secret c unmarshal registry now r f read w).world
    unfolding write_secret
    write_secret-Confined r f (err (failed e)) w h = unchanged refl
    write_secret-Confined r f (err not_found) w h =
        let s = desired r f now (fresh r) in
        let synced = desired-Keeps r f now (fresh r) in
        one_secret s (unfold fresh in synced.same_namespace) synced.managed
          (created (finish_write_world r (c.create w s)))
    write_secret-Confined r f (ok existing) w h =
        let s = desired r f now existing in
        let synced = desired-Keeps r f now existing in
        one_secret s (synced.same_namespace ∙ (answers.secret_key w _ _ existing h).0)
          synced.managed (updated (finish_write_world r (c.update w s)))

    with_fetched-Confined :
        (r : SecretSyncRequest) (fetched : Fetch) (w : W)
        → Confined c r.namespace w (with_fetched c unmarshal registry now r fetched w).world
    unfolding with_fetched
    with_fetched-Confined r panicked w = unchanged refl
    with_fetched-Confined r blocked w = unchanged refl
    with_fetched-Confined r (returned (err e)) w = unchanged refl
    with_fetched-Confined r (returned (ok f)) w = write_secret-Confined r f _ w refl

    with_provider-Confined :
        (r : SecretSyncRequest) (p : Option SecretProvider) (w : W)
        → Confined c r.namespace w (with_provider c unmarshal registry now r p w).world
    unfolding with_provider
    with_provider-Confined r none w = unchanged refl
    with_provider-Confined r (some p) w = with_fetched-Confined r (p.fetch_secret r.secret_path) w

    with_request-Confined :
        (pod : Pod) (parsed : Result AnnotationError SecretSyncRequest) (w : W)
        → ((r : SecretSyncRequest) → parsed ≡ ok r → r.namespace ≡ pod.namespace)
        → Confined c pod.namespace w (with_request c unmarshal registry now pod parsed w).world
    unfolding with_request
    with_request-Confined pod (err e) w h = unchanged refl
    with_request-Confined pod (ok r) w h =
        let same = h r refl in
        let passes = (str_eq_iff r.namespace pod.namespace).1 same in
        rw passes (
          subst
            (λ n.
              Confined c n w
                (with_provider c unmarshal registry now r (Registry.get registry r.provider)
                  w).world)
            same (with_provider-Confined r (Registry.get registry r.provider) w))

    with_annotation-Confined :
        (pod : Pod) (value : Option Bytes) (w : W)
        → Confined c pod.namespace w (with_annotation c unmarshal registry now pod value w).world
    unfolding with_annotation
    with_annotation-Confined pod none w = unchanged refl
    with_annotation-Confined pod (some value) w = with_request-Confined pod _ w (λ r h.
        (parse_annotation-IsRequestFor unmarshal value pod.namespace pod.name pod.uid
          h).in_namespace)

    with_pod-Confined :
        (n : NamespacedName) (read : Result ApiError Pod) (w : W)
        → c.get_pod w n.namespace n.name ≡ read
        → Confined c n.namespace w (with_pod c unmarshal registry now read w).world
    unfolding with_pod
    with_pod-Confined n (err not_found) w h = unchanged refl
    with_pod-Confined n (err (failed e)) w h = unchanged refl
    with_pod-Confined n (ok pod) w h =
        subst
          (λ m.
            Confined c m w
              (with_annotation c unmarshal registry now pod (lookup annotation_key pod.annotations)
                w).world)
          (answers.pod_key w _ _ pod h).0
          (with_annotation-Confined pod (lookup annotation_key pod.annotations) w)

    -- Whatever the pod's annotation says and whatever the providers return, a call of Reconcile writes
    -- nothing, or writes one secret, in the namespace of the pod and labelled as managed, where the API
    -- server answers a read with the object that was asked for.
    pub reconcile-Confined :
        (n : NamespacedName) (w : W)
        → Confined c n.namespace w (reconcile c unmarshal registry now n w).world
    unfolding reconcile
    reconcile-Confined n w = with_pod-Confined n (c.get_pod w n.namespace n.name) w refl
