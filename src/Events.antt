-- ===== src/Events.antt =====
-- internal/events/recorder.go: the Kubernetes events of the controller.
use jasm.Base.{◌++◌}
use jasm.Text.{Bytes, codes}

pub data EventType : Type 0 where
  normal warning : EventType

pub data Reason : Type 0 where
  secret_sync_success annotation_invalid provider_unsupported secret_fetch_failed : Reason

-- One call of `Eventf` on the pod.
pub record Event : Type 0 where
  pub event_type : EventType
  pub reason : Reason
  pub text : Bytes

-- EmitSecretSyncSuccess
unfoldable pub emit_secret_sync_success : Bytes → Bytes → Bytes → Event
emit_secret_sync_success secret_name provider path = record {
  event_type = normal;
  reason = secret_sync_success;
  text =
      codes "Successfully synchronized secret '"
      ++ (secret_name
          ++ (codes "' from " ++ (provider ++ (codes " (path: " ++ (path ++ codes ")")))));
}

-- EmitAnnotationInvalid
unfoldable pub emit_annotation_invalid : Bytes → Event
emit_annotation_invalid error_text = record {
  event_type = warning;
  reason = annotation_invalid;
  text = codes "Invalid secret sync annotation: " ++ error_text;
}

-- EmitSecretFetchFailed
unfoldable pub emit_secret_fetch_failed : Bytes → Bytes → Bytes → Event
emit_secret_fetch_failed provider path error_text = record {
  event_type = warning;
  reason = secret_fetch_failed;
  text =
      codes "Failed to fetch secret from "
      ++ (provider ++ (codes " (path: " ++ (path ++ (codes "): " ++ error_text))));
}

-- EmitProviderNotFound
unfoldable pub emit_provider_not_found : Bytes → Event
emit_provider_not_found provider = record {
  event_type = warning;
  reason = provider_unsupported;
  text = codes "Provider '" ++ (provider ++ codes "' not found in registry");
}
