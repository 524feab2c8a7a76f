-- ===== src/Annotation.antt =====
-- internal/annotation/parser.go. The YAML decoder is gopkg.in/yaml.v3, a parameter.
use jasm.Base.{
  ◌≡◌, ◌≢◌, Result, ok, err, ◌>>=◌, map_err, if◌then◌else◌, [], arith, ◌++◌, Bool-cases, inl, inr,
  >>=-eq-ok,
}
use jasm.Text.{Bytes, codes, is_empty}
use jasm.Text.Laws.{is_empty_iff}
use jasm.Errors.{Error, message}
use jasm.StrMap.{StrMap}

-- type PodAnnotation
pub record PodAnnotation : Type 0 where
  pub provider : Bytes
  pub path : Bytes
  pub secret_name : Bytes
  pub keys : StrMap Bytes

-- type SecretSyncRequest
pub record SecretSyncRequest : Type 0 where
  pub provider : Bytes
  pub secret_path : Bytes
  pub secret_name : Bytes
  pub namespace : Bytes
  pub pod_name : Bytes
  pub pod_uid : Bytes
  pub key_mapping : StrMap Bytes

-- The errors of ParseAnnotation.
pub data AnnotationError : Type 0 where
  empty_annotation provider_required path_required secret_name_required : AnnotationError
  bad_yaml : Error → AnnotationError

-- AnnotationKey
abbrev pub annotation_key : Bytes
annotation_key = codes "jasm.io/secret-sync"

-- The required fields, and the request.
unfoldable pub validated :
    PodAnnotation → Bytes → Bytes → Bytes → Result AnnotationError SecretSyncRequest
validated a namespace pod_name pod_uid =
    if is_empty a.provider
    then err provider_required
    else if is_empty a.path
    then err path_required
    else if is_empty a.secret_name
    then err secret_name_required
    else ok (record {
      provider = a.provider;
      secret_path = a.path;
      secret_name = a.secret_name;
      namespace = namespace;
      pod_name = pod_name;
      pod_uid = pod_uid;
      key_mapping = a.keys;
    })

-- err.Error() of these errors
unfoldable pub annotation_message : AnnotationError → Bytes
annotation_message empty_annotation = codes "annotation value is empty"
annotation_message provider_required = codes "provider field is required"
annotation_message path_required = codes "path field is required"
annotation_message secret_name_required = codes "secretName field is required"
annotation_message (bad_yaml e) = codes "failed to parse annotation YAML: " ++ message e

-- A request is complete, and carries what it was parsed for.
pub record IsRequestFor (namespace pod_name pod_uid : Bytes) (r : SecretSyncRequest) : Type 0 where
  pub has_provider : r.provider ≢ []
  pub has_path : r.secret_path ≢ []
  pub has_name : r.secret_name ≢ []
  pub in_namespace : r.namespace ≡ namespace
  pub of_pod : r.pod_name ≡ pod_name
  pub with_uid : r.pod_uid ≡ pod_uid

validated_sound :
    (a : PodAnnotation) (namespace pod_name pod_uid : Bytes) {r : SecretSyncRequest}
    → validated a namespace pod_name pod_uid ≡ ok r
    → IsRequestFor namespace pod_name pod_uid r
unfolding validated
validated_sound a namespace pod_name pod_uid h =
    ground (arith, is_empty_iff a.provider, is_empty_iff a.path, is_empty_iff a.secret_name)

module _ (unmarshal : Bytes → Result Error PodAnnotation) where
  -- ParseAnnotation
  unfoldable pub parse_annotation :
      Bytes → Bytes → Bytes → Bytes → Result AnnotationError SecretSyncRequest
  parse_annotation value namespace pod_name pod_uid =
      if is_empty value
      then err empty_annotation
      else (do a ← map_err bad_yaml (unmarshal value); validated a namespace pod_name pod_uid)

  -- A request that the parser returns names a provider, a path and a secret, and carries the namespace,
  -- the name and the UID that it was given, whatever the YAML decoder returns.
  pub parse_annotation-IsRequestFor :
      (value namespace pod_name pod_uid : Bytes) {r : SecretSyncRequest}
      → parse_annotation value namespace pod_name pod_uid ≡ ok r
      → IsRequestFor namespace pod_name pod_uid r
  unfolding parse_annotation
  parse_annotation-IsRequestFor value namespace pod_name pod_uid h =
      elim (Bool-cases (is_empty value)) [
        | inl e ↦ cc (rw e at h)
        | inr e ↦
            let (a, decoded, built) =
              >>=-eq-ok (map_err bad_yaml (unmarshal value))
                (λ a. validated a namespace pod_name pod_uid) (rw e at h) in
            validated_sound a namespace pod_name pod_uid built
      ]
