-- ===== src/Controller/Watch.antt =====
-- The pods that are reconciled when a managed secret changes.
use jasm.Base.{
  ◌≡◌, refl, subst, List, [], ◌∷◌, ◌++◌, Option, none, some, Result, ok, err, ◌⊎◌, inl, inr,
  Bool-cases,
}
use jasm.Text.{Bytes, str_eq}
use jasm.Text.Laws.{str_eq_iff, str_eq_refl}
use jasm.Errors.{Error}
use jasm.StrMap.{lookup}
use jasm.Annotation.{
  PodAnnotation, SecretSyncRequest, AnnotationError, annotation_key, parse_annotation,
}
use jasm.Controller.Target.{Secret, managed_by_label, managed_by_value}
use jasm.Controller.{
  Pod, Client, NamespacedName, refers_to, pod_requests, collect_requests, find_pods_for_secret,
}

abbrev pub key_of : Pod → NamespacedName
key_of pod = record { namespace = pod.namespace; name = pod.name }

abbrev pub Elem : {A : Type 0} → A → List A → Type 0
Elem a [] = ⊥
Elem a (x ∷ xs) = (x ≡ a) ⊎ Elem a xs

Elem-append_left : {A : Type 0} (a : A) (xs ys : List A) → Elem a xs → Elem a (xs ++ ys)
Elem-append_left a [] ys h = absurd h
Elem-append_left a (x ∷ xs) ys (inl e) = inl e
Elem-append_left a (x ∷ xs) ys (inr h) = inr (Elem-append_left a xs ys h)

Elem-append_right : {A : Type 0} (a : A) (xs ys : List A) → Elem a ys → Elem a (xs ++ ys)
Elem-append_right a [] ys h = h
Elem-append_right a (x ∷ xs) ys h = inr (Elem-append_right a xs ys h)

Elem-append_cases :
    {A : Type 0} (a : A) (xs ys : List A) → Elem a (xs ++ ys) → Elem a xs ⊎ Elem a ys
Elem-append_cases a [] ys h = inr h
Elem-append_cases a (x ∷ xs) ys (inl e) = inl (inl e)
Elem-append_cases a (x ∷ xs) ys (inr h) = elim (Elem-append_cases a xs ys h) [
  | inl l ↦ inl (inr l)
  | inr r ↦ inr r
]

module _ (unmarshal : Bytes → Result Error PodAnnotation) where
  -- The pod's annotation parses to a request for the secret `name`.
  pub record Refers (name : Bytes) (pod : Pod) : Type 0 where
    pub value : Bytes
    pub request : SecretSyncRequest
    pub annotated : lookup annotation_key pod.annotations ≡ some value
    pub parsed : parse_annotation unmarshal value pod.namespace pod.name pod.uid ≡ ok request
    pub names_it : request.secret_name ≡ name

  module _ {W : Type 0} (c : Client W) where
    pod_requests_complete :
        (name : Bytes) (pod : Pod)
        → Refers name pod
        → pod_requests c unmarshal name pod (lookup annotation_key pod.annotations)
          ≡ key_of pod ∷ []
    unfolding pod_requests
    pod_requests_complete name pod r =
        rw (r.annotated, r.parsed, (str_eq_iff r.request.secret_name name).1 r.names_it)

    collect_complete :
        (name : Bytes) (pod : Pod) (pods : List Pod)
        → Refers name pod
        → Elem pod pods
        → Elem (key_of pod) (collect_requests c unmarshal name pods)
    unfolding collect_requests
    collect_complete name pod [] r h = absurd h
    collect_complete name pod (p ∷ pods) r (inr h) =
        Elem-append_right (key_of pod)
          (pod_requests c unmarshal name p (lookup annotation_key p.annotations)) _
          (collect_complete name pod pods r h)
    collect_complete name pod (p ∷ pods) r (inl e) =
        rw (e, pod_requests_complete name pod r) (inl refl)

    -- A listed pod that refers to the secret, by its key.
    pub record Found (name : Bytes) (pods : List Pod) (k : NamespacedName) : Type 0 where
      pub pod : Pod
      pub listed : Elem pod pods
      pub refers : Refers name pod
      pub keyed : key_of pod ≡ k

    refers_to_sound :
        (name : Bytes) (pod : Pod) (read : Result AnnotationError SecretSyncRequest)
        (k : NamespacedName)
        → Elem k (refers_to name pod read)
        → (r : SecretSyncRequest) × (read ≡ ok r) × (r.secret_name ≡ name) × (key_of pod ≡ k)
    refers_to_sound name pod (err e) k h = absurd h
    refers_to_sound name pod (ok r) k h = elim (Bool-cases (str_eq r.secret_name name)) [
      | inl e ↦ (
        r,
        refl,
        (str_eq_iff r.secret_name name).0 e,
        (elim (rw e at h) [ inl p ↦ p | inr n ↦ absurd n ]),
      )
      | inr e ↦ absurd (rw e at h)
    ]

    pod_requests_sound :
        (name : Bytes) (pod : Pod) (value : Option Bytes) (k : NamespacedName)
        → lookup annotation_key pod.annotations ≡ value
        → Elem k (pod_requests c unmarshal name pod value)
        → Refers name pod × (key_of pod ≡ k)
    unfolding pod_requests
    pod_requests_sound name pod none k e h = absurd h
    pod_requests_sound name pod (some value) k e h =
        let (r, parsed, named, keyed) =
          refers_to_sound name pod (parse_annotation unmarshal value pod.namespace pod.name pod.uid)
            k h in
        (
          record { value = value; request = r; annotated = e; parsed = parsed; names_it = named },
          keyed,
        )

    collect_sound :
        (name : Bytes) (pods : List Pod) (k : NamespacedName)
        → Elem k (collect_requests c unmarshal name pods)
        → Found name pods k
    unfolding collect_requests
    collect_sound name [] k h = absurd h
    collect_sound name (p ∷ pods) k h =
        let mine = pod_requests c unmarshal name p (lookup annotation_key p.annotations) in
        let ih = collect_sound name pods k in
        elim (Elem-append_cases k mine (collect_requests c unmarshal name pods) h) [
          | inl l ↦
              let (refers, keyed) = pod_requests_sound name p _ k refl l in
              record { pod = p; listed = inl refl; refers = refers; keyed = keyed }
          | inr r ↦
              let f = ih r in
              record { pod = f.pod; listed = inr f.listed; refers = f.refers; keyed = f.keyed }
        ]

    -- A change of a secret labelled as managed queues exactly the pods of its namespace whose annotation
    -- parses to a request for a secret of that name.
    pub find_pods_for_secret_exact :
        (s : Secret) (w : W) (pods : List Pod) (k : NamespacedName)
        → lookup managed_by_label s.labels ≡ some managed_by_value
        → c.list_pods w s.namespace ≡ ok pods
        → (Elem k (find_pods_for_secret c unmarshal s w) → Found s.name pods k)
          × (Found s.name pods k → Elem k (find_pods_for_secret c unmarshal s w))
    unfolding find_pods_for_secret
    find_pods_for_secret_exact s w pods k managed listed =
        rw (managed, listed, str_eq_refl)
          (
            collect_sound s.name pods k,
            λ f.
                subst (λ j. Elem j (collect_requests c unmarshal s.name pods)) f.keyed
                  (collect_complete s.name f.pod pods f.refers f.listed),
          )

    -- A secret without the label queues nothing.
    pub find_pods_for_secret_unmanaged :
        (s : Secret) (w : W)
        → lookup managed_by_label s.labels ≡ none
        → find_pods_for_secret c unmarshal s w ≡ []
    unfolding find_pods_for_secret str_eq
    find_pods_for_secret_unmanaged s w h = rw h
