-- ===== src/Tests/Startup.antt =====
-- A start of the controller with the AWS provider and Bitwarden, and a secret that it delivers.
use jasm.Base.{false, ret, subst, ℕ, ◌≡◌, refl, [], ◌∷◌, none, some, Result, ok, err, if◌then◌else◌}
use jasm.Text.{Bytes, codes, str_eq, is_empty}
use jasm.Errors.{Error, errorf}
use jasm.StrMap
use jasm.StrMap.{StrMap}
use jasm.Annotation.{PodAnnotation, SecretSyncRequest, parse_annotation, validated}
use jasm.Registry.{
  returned, SecretProvider, Setup, Started, provider, aws_name, bitwarden_name, get, register,
  new_provider_registry, add_started, has_token, bitwarden_enabled, with_configured,
  default_provider_registry,
}
use jasm.Registry.Default.{IsDefault, default_provider_registry-IsDefault}
use jasm.Aws.{
  Json, string, number, Library, to_text, convert, fetch_secret, new_aws_secrets_manager_provider,
}
use jasm.Aws.Document.{MakesMaps}
use jasm.Controller.Target.{Secret, desired, fresh}
use jasm.Controller.Sync.{IsReady}
use jasm.Main.{Options, Manager, default_flags, main}
use jasm.Main.Serves.{Ends, main_serves}
use jasm.Delivery.{IsDelivered, delivers}
use jasm.Tests.Cluster.{web, cluster, now, key}

abbrev document : StrMap (Json ℕ Bytes)
document = (codes "user", string (codes "u")) ∷ (codes "port", number 1) ∷ []

abbrev library : Library ℕ Bytes
library = record {
  load_default_config = none;
  get_secret_value = λ path. ok (some (codes "text"));
  unmarshal = λ text. ok document;
  format_number = λ n. codes "1";
  marshal = λ c. c;
}

abbrev setup : Setup
setup = record {
  getenv = λ name. if str_eq name (codes "ENABLE_BITWARDEN") then codes "true" else [];
  new_aws_secrets_manager_provider = new_aws_secrets_manager_provider library;
  new_one_password_provider = err (errorf (codes "no token"));
  new_bitwarden_provider = ret (λ path. returned (ok []));
}

default_provider_registry-IsDefault_example : IsDefault setup (default_provider_registry setup)
default_provider_registry-IsDefault_example = default_provider_registry-IsDefault setup

abbrev ready_manager : Manager
ready_manager = record {
  setup_with_manager = λ registry. none;
  add_healthz_check = λ name. none;
  add_readyz_check = λ name. none;
  start = none;
}

abbrev new_manager : Options → Result Error Manager
new_manager options = ok ready_manager

main_serves_example :
    Ends setup
      (new_manager (record {
        bind_address = codes ":8080";
        health_probe_bind_address = codes ":8081";
        leader_election = false;
        leader_election_id = codes "jasm.io";
      }))
      (main setup new_manager default_flags)
main_serves_example = main_serves setup new_manager default_flags

abbrev aws : SecretProvider
aws = provider aws_name (λ path. returned (fetch_secret library path))

abbrev start : Started
start = record {
  registry = record {
    providers =
        (aws_name, aws) ∷ (bitwarden_name, provider bitwarden_name (λ path. returned (ok []))) ∷ [];
  };
  started = bitwarden_name ∷ [];
}

setup_starts : default_provider_registry setup ≡ ret start
unfolding default_provider_registry with_configured has_token bitwarden_enabled add_started register
    new_provider_registry new_aws_secrets_manager_provider StrMap.insert str_eq is_empty
setup_starts = refl

abbrev unmarshal : Bytes → Result Error PodAnnotation
unmarshal value = ok (record {
  provider = aws_name;
  path = codes "a";
  secret_name = codes "s";
  keys = (codes "K", codes "user") ∷ [];
})

abbrev request : SecretSyncRequest
request = record {
  provider = aws_name;
  secret_path = codes "a";
  secret_name = codes "s";
  namespace = codes "d";
  pod_name = codes "web";
  pod_uid = codes "1";
  key_mapping = (codes "K", codes "user") ∷ [];
}

abbrev fetched : StrMap Bytes
fetched = (codes "user", codes "u") ∷ (codes "port", codes "1") ∷ []

ready : IsReady cluster unmarshal start.registry key []
unfolding parse_annotation validated is_empty StrMap.lookup get str_eq fetch_secret convert to_text
    StrMap.insert
ready = record {
  pod = web;
  value = codes "y";
  request = request;
  provider = aws;
  fetched = fetched;
  present = refl;
  annotated = refl;
  parsed = refl;
  registered = refl;
  returned = refl;
}

abbrev delivered : Secret
delivered = desired request fetched now (fresh request)

library-MakesMaps : MakesMaps library
unfolding StrMap.lookup str_eq
library-MakesMaps text raw h =
    let same : document ≡ raw = cc h in subst (λ m. StrMap.Unique m) same (refl, (refl, tt))

delivers_example :
    IsDelivered library setup refl cluster unmarshal start now key [] (delivered ∷ []) ready
unfolding ready StrMap.lookup
delivers_example =
    delivers library setup refl cluster unmarshal start now key [] (delivered ∷ []) ready
      library-MakesMaps setup_starts refl (refl, tt) refl refl
