-- ===== src/Aws.antt =====
-- internal/provider/aws.go. The AWS SDK, the JSON codec and fmt's text of a float64 are parameters.
pub mod Document
use jasm.Base.{
  Bool, true, false, List, [], ◌∷◌, ◌++◌, Option, none, some, Result, ok, err, ◌>>=◌, map_err,
}
use jasm.Text.{Bytes, codes}
use jasm.Errors.{Error, errorf, wrap}
use jasm.StrMap
use jasm.StrMap.{StrMap}
use jasm.Registry.{Fetcher, returned}

-- A value that json.Unmarshal puts into an interface{}: `compound` is an object or an array.
pub data Json (N C : Type 0) : Type 0 where
  string : Bytes → Json N C
  number : N → Json N C
  bool : Bool → Json N C
  null : Json N C
  compound : C → Json N C

-- secretsmanager.Client.GetSecretValue, to SecretString, which may be nil; config.LoadDefaultConfig's
-- error; json.Unmarshal of an object; the verb %v of fmt on a float64; json.Marshal.
pub record Library (N C : Type 0) : Type 0 where
  pub load_default_config : Option Error
  pub get_secret_value : Bytes → Result Error (Option Bytes)
  pub unmarshal : Bytes → Result Error (StrMap (Json N C))
  pub format_number : N → Bytes
  pub marshal : C → Bytes

module _ {N C : Type 0} (lib : Library N C) where
  -- switch v := value.(type)
  unfoldable pub to_text : Json N C → Bytes
  to_text (string s) = s
  to_text (number n) = lib.format_number n
  to_text (bool true) = codes "true"
  to_text (bool false) = codes "false"
  to_text null = []
  to_text (compound c) = lib.marshal c

  -- for key, value := range rawData
  unfoldable pub convert : StrMap (Json N C) → StrMap Bytes → StrMap Bytes
  unfolding to_text
  convert [] secret_data = secret_data
  convert ((key, value) ∷ raw_data) secret_data =
      convert raw_data (StrMap.insert key (to_text value) secret_data)

  abbrev pub with_string : Bytes → Option Bytes → Result Error Bytes
  with_string path none =
      err (errorf (codes "secret " ++ (path ++ codes " does not contain a string value")))
  with_string path (some text) = ok text

  -- FetchSecret
  unfoldable pub fetch_secret : Bytes → Result Error (StrMap Bytes)
  unfolding convert
  fetch_secret path = do
    result ←
        map_err (wrap (codes "failed to fetch secret from AWS Secrets Manager: "))
          (lib.get_secret_value path)
    text ← with_string path result
    raw_data ← map_err (wrap (codes "failed to parse secret JSON: ")) (lib.unmarshal text)
    ok (convert raw_data [])

  abbrev pub with_config : Option Error → Result Error Fetcher
  with_config (some e) = err (wrap (codes "failed to load AWS config: ") e)
  with_config none = ok (λ path. returned (fetch_secret path))

  -- NewAWSSecretsManagerProvider
  unfoldable pub new_aws_secrets_manager_provider : Result Error Fetcher
  unfolding fetch_secret
  new_aws_secrets_manager_provider = with_config lib.load_default_config
