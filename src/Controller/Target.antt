-- ===== src/Controller/Target.antt =====
-- The secret that Reconcile of internal/controller/podsecret_controller.go writes.
use jasm.Base.{ℕ, [], ◌∷◌, Option, none, some}
use jasm.Text.{Bytes, codes}
use jasm.StrMap
use jasm.StrMap.{StrMap}
use jasm.Annotation.{SecretSyncRequest}

-- corev1.Secret; `rest` stands for the fields that the code does not name.
pub record Secret : Type 0 where
  pub name : Bytes
  pub namespace : Bytes
  pub labels : StrMap Bytes
  pub annotations : StrMap Bytes
  pub string_data : StrMap Bytes
  pub secret_type : Bytes
  pub rest : ℕ

abbrev pub managed_by_label : Bytes
managed_by_label = codes "app.kubernetes.io/managed-by"

abbrev pub managed_by_value : Bytes
managed_by_value = codes "jasm"

abbrev pub source_path_annotation : Bytes
source_path_annotation = codes "jasm.io/source-path"

abbrev pub synced_at_annotation : Bytes
synced_at_annotation = codes "jasm.io/synced-at"

abbrev pub opaque_type : Bytes
opaque_type = codes "Opaque"

-- secret := &corev1.Secret{…}, with nothing but its key
unfoldable pub fresh : SecretSyncRequest → Secret
fresh r = record {
  name = r.secret_name;
  namespace = r.namespace;
  labels = [];
  annotations = [];
  string_data = [];
  secret_type = [];
  rest = 0;
}

-- if value, exists := secretData[awsSecretKey]; exists
abbrev pub put_found : Bytes → Option Bytes → StrMap Bytes → StrMap Bytes
put_found k none out = out
put_found k (some value) out = StrMap.insert k value out

-- for kubernetesKey, awsSecretKey := range syncRequest.KeyMapping
unfoldable pub map_keys : StrMap Bytes → StrMap Bytes → StrMap Bytes → StrMap Bytes
map_keys [] fetched out = out
map_keys ((kubernetes_key, aws_secret_key) ∷ mapping) fetched out =
    map_keys mapping fetched (put_found kubernetes_key (StrMap.lookup aws_secret_key fetched) out)

-- for k, v := range secretData
unfoldable pub copy_keys : StrMap Bytes → StrMap Bytes → StrMap Bytes
copy_keys [] out = out
copy_keys ((k, v) ∷ fetched) out = copy_keys fetched (StrMap.insert k v out)

-- secretStringData
unfoldable pub secret_string_data : StrMap Bytes → StrMap Bytes → StrMap Bytes
unfolding map_keys copy_keys
secret_string_data [] fetched = copy_keys fetched []
secret_string_data (entry ∷ mapping) fetched = map_keys (entry ∷ mapping) fetched []

-- The secret to write, from the one that was read or the fresh one.
unfoldable pub desired : SecretSyncRequest → StrMap Bytes → Bytes → Secret → Secret
desired r fetched now secret = record secret {
  labels = StrMap.insert managed_by_label managed_by_value secret.labels;
  annotations =
      StrMap.insert synced_at_annotation now
        (StrMap.insert source_path_annotation r.secret_path secret.annotations);
  string_data = secret_string_data r.key_mapping fetched;
  secret_type = opaque_type;
}
