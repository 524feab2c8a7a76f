-- ===== src/Delivery.antt =====
-- From a document in AWS Secrets Manager to the data of a secret in the cluster: DefaultProviderRegistry of
-- internal/provider/provider.go, FetchSecret of internal/provider/aws.go and Reconcile of
-- internal/controller/podsecret_controller.go, one after the other.
use jasm.Base.{
  lifted, ret, ◌≡◌, refl, sym, true, ap, ◌∙◌, subst, [], ◌∷◌, Option, none, some, Result, err,
}
use jasm.Text.{Bytes, str_eq}
use jasm.Errors.{Error}
use jasm.StrMap.{StrMap, lookup, Unique}
use jasm.Annotation.{PodAnnotation}
use jasm.Registry.{
  returned, SecretProvider, get, Setup, Started, aws_name, default_provider_registry,
}
use jasm.Registry.Default.{IsDefault, made_if, default_provider_registry-IsDefault}
use jasm.Aws.{Json, Library, fetch_secret, with_config, new_aws_secrets_manager_provider}
use jasm.Aws.Document.{text_of, IsDocument, MakesMaps, fetch_secret-IsDocument}
use jasm.Controller.Target.{desired, fresh}
use jasm.Controller.Contents.{wanted, through, lookup-secret_string_data}
use jasm.Controller.Sync.{IsReady, synced, made, reconcile_creates}
use jasm.Controller.{Client, not_found, NamespacedName, reconcile}

-- The provider that a registry holds under the name of AWS, once its constructor is that of aws.go.
made_fetch :
    {N C : Type 0} (lib : Library N C) (configured : Option Error) {p : SecretProvider}
    → made_if aws_name true (lifted (with_config lib configured)) ≡ some p
    → p.fetch_secret ≡ (λ path. returned (fetch_secret lib path))
made_fetch lib none h = cc h
made_fetch lib (some e) h = cc h

module _ {N C : Type 0} (lib : Library N C) (s : Setup)
    (is_aws : s.new_aws_secrets_manager_provider ≡ new_aws_secrets_manager_provider lib) where
  aws_registered :
      (t : Started) {p : SecretProvider}
      → default_provider_registry s ≡ ret t
      → get t.registry aws_name ≡ some p
      → p.fetch_secret ≡ (λ path. returned (fetch_secret lib path))
  unfolding new_aws_secrets_manager_provider str_eq
  aws_registered t h registered =
      let all : IsDefault s (ret t) =
        subst (λ r. IsDefault s r) h (default_provider_registry-IsDefault s) in
      made_fetch lib lib.load_default_config (
        ap (λ r. made_if aws_name true (lifted r)) (sym is_aws) ∙ sym (all.0 aws_name) ∙ registered)

  abbrev source_text : StrMap (Json N C) → Option Bytes → Option Bytes
  source_text raw none = none
  source_text raw (some source) = text_of lib (lookup source raw)

  through-text :
      (secrets : StrMap Bytes) (raw : StrMap (Json N C)) (o : Option Bytes)
      → ((j : Bytes) → lookup j secrets ≡ text_of lib (lookup j raw))
      → through secrets o ≡ source_text raw o
  through-text secrets raw none each = refl
  through-text secrets raw (some source) each = each source

  -- The text wanted for a key of the secret, of a document and a mapping of keys.
  abbrev pub wanted_text : StrMap Bytes → StrMap (Json N C) → Bytes → Option Bytes
  wanted_text [] raw k = text_of lib (lookup k raw)
  wanted_text (entry ∷ mapping) raw k = source_text raw (lookup k (entry ∷ mapping))

  wanted-text :
      (mapping secrets : StrMap Bytes) (raw : StrMap (Json N C)) (k : Bytes)
      → ((j : Bytes) → lookup j secrets ≡ text_of lib (lookup j raw))
      → wanted mapping secrets k ≡ wanted_text mapping raw k
  wanted-text [] secrets raw k each = each k
  wanted-text (entry ∷ mapping) secrets raw k each =
      through-text secrets raw (lookup k (entry ∷ mapping)) each

  module _ {W : Type 0} (c : Client W) (unmarshal : Bytes → Result Error PodAnnotation)
      (t : Started) (now : Bytes) (n : NamespacedName) (w v : W)
      (ready : IsReady c unmarshal t.registry n w) where
    open ready use {request, fetched}

    -- What a delivery leaves: the document that the path holds, and under each key of the created secret
    -- the text of the value that the document has for it.
    pub record IsDelivered : Type 0 where
      pub document : IsDocument lib request.secret_path fetched
      pub reconciled :
          reconcile c unmarshal t.registry now n w ≡ synced c unmarshal t.registry now n w v ready
      pub written :
          (k : Bytes)
          → lookup k (made c unmarshal t.registry now n w v ready).string_data
            ≡ wanted_text request.key_mapping document.raw k

    -- If the controller starts with the AWS provider of aws.go, a pod that names it is ready to be served,
    -- its secret does not exist and the API server creates it, then Reconcile ends with the created secret,
    -- whose data hold under each key that the annotation maps, or under each key of the document where it
    -- maps none, the text of the value in the JSON document at the pod's path, and nothing else.
    pub delivers :
        MakesMaps lib
        → default_provider_registry s ≡ ret t
        → request.provider ≡ aws_name
        → Unique request.key_mapping
        → c.get_secret w request.namespace request.secret_name ≡ err not_found
        → c.create w (desired request fetched now (fresh request)) ≡ (v, none)
        → IsDelivered
    unfolding desired
    delivers maps started named unique absent created =
        let fetches =
          aws_registered t started
            (subst (λ name. get t.registry name ≡ some ready.provider) named ready.registered) in
        let d =
          fetch_secret-IsDocument lib request.secret_path fetched maps
            (cc (ap (λ fetch. fetch request.secret_path) fetches, ready.returned)) in
        record {
          document = d;
          reconciled = reconcile_creates c unmarshal t.registry now n w v ready absent created;
          written = λ k.
              (lookup-secret_string_data request.key_mapping request.key_mapping fetched fetched
                  unique unique d.unique d.unique (λ j. refl) (λ j. refl)).0
                k
              ∙ wanted-text request.key_mapping fetched d.raw k d.each;
        }
