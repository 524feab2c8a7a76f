-- ===== src/Registry.antt =====
-- internal/provider/provider.go: the interface of providers and their registry.
pub mod Default
use jasm.Base.{
  Result, ok, err, Go, ret, fail, panic, lifted, and_then, if◌then◌else◌, List, [], ◌∷◌, ◌++◌, not,
  Option, Bool,
}
use jasm.Text.{Bytes, codes, is_empty, str_eq}
use jasm.Errors.{Error, wrap}
use jasm.StrMap
use jasm.StrMap.{StrMap, lookup-insert}

-- How a call of FetchSecret ends: it returns, it panics, or it waits for a mutex for ever.
pub data Fetch : Type 0 where
  returned : Result Error (StrMap Bytes) → Fetch
  panicked blocked : Fetch

-- interface SecretProvider: what `Name` returns, and how `FetchSecret` ends.
pub record SecretProvider : Type 0 where
  pub name : Bytes
  pub fetch_secret : Bytes → Fetch

-- type ProviderRegistry
pub record ProviderRegistry : Type 0 where
  pub providers : StrMap SecretProvider

-- NewProviderRegistry
unfoldable pub new_provider_registry : ProviderRegistry
new_provider_registry = record { providers = [] }

-- Register
unfoldable pub register : SecretProvider → ProviderRegistry → ProviderRegistry
register p r = record { providers = StrMap.insert p.name p r.providers }

-- Get: `none` for a nil provider
unfoldable pub get : ProviderRegistry → Bytes → Option SecretProvider
get r name = StrMap.lookup name r.providers

-- List
unfoldable pub list_names : ProviderRegistry → List Bytes
list_names r = StrMap.keys r.providers

-- FetchSecret of a provider.
abbrev pub Fetcher : Type 0
Fetcher = Bytes → Fetch

-- What DefaultProviderRegistry calls: the environment's variables and the constructors of the three
-- providers, whose value is known by its FetchSecret. That of Bitwarden authenticates, and may panic.
pub record Setup : Type 0 where
  pub getenv : Bytes → Bytes
  pub new_aws_secrets_manager_provider : Result Error Fetcher
  pub new_one_password_provider : Result Error Fetcher
  pub new_bitwarden_provider : Go Error Fetcher

-- The names that the three methods `Name` return.
abbrev pub aws_name : Bytes
aws_name = codes "aws-secretsmanager"

abbrev pub one_password_name : Bytes
one_password_name = codes "1password"

abbrev pub bitwarden_name : Bytes
bitwarden_name = codes "bitwarden"

-- The registry, and the providers whose `Start` was called.
pub record Started : Type 0 where
  pub registry : ProviderRegistry
  pub started : List Bytes

abbrev pub provider : Bytes → Fetcher → SecretProvider
provider name fetch = record { name = name; fetch_secret = fetch }

-- registry.Register(p); p.Start(ctx)
unfoldable pub add_started : SecretProvider → Started → Started
unfolding register
add_started p t = record { registry = register p t.registry; started = t.started ++ p.name ∷ [] }

unfoldable pub has_token : Setup → Bool
has_token s = not (is_empty (s.getenv (codes "OP_SERVICE_ACCOUNT_TOKEN")))

unfoldable pub bitwarden_enabled : Setup → Bool
bitwarden_enabled s = str_eq (s.getenv (codes "ENABLE_BITWARDEN")) (codes "true")

-- fmt.Errorf("failed to create … provider: %w", err)
abbrev pub not_created : Bytes → Error → Error
not_created title = wrap (codes "failed to create " ++ (title ++ codes " provider: "))

-- What follows the constructor of one of the two providers that must be configured.
abbrev pub with_made : Bytes → Bytes → Go Error Fetcher → Started → Go Error Started
with_made title name (ret fetch) t = ret (add_started (provider name fetch) t)
with_made title name (fail e) t = fail (not_created title e)
with_made title name panic t = panic

unfoldable pub with_configured :
    Bytes → Bytes → Bool → Go Error Fetcher → Started → Go Error Started
unfolding add_started
with_configured title name configured made t =
    if configured then with_made title name made t else ret t

-- registry.Register(awsProvider), of a new registry
abbrev pub with_aws : Fetcher → Started
with_aws aws = record {
  registry = register (provider aws_name aws) new_provider_registry;
  started = [];
}

-- What follows NewAWSSecretsManagerProvider.
abbrev pub with_configured_both : Setup → Result Error Fetcher → Go Error Started
with_configured_both s (err e) = fail (not_created (codes "AWS") e)
with_configured_both s (ok aws) =
    and_then
      (with_configured (codes "1Password") one_password_name (has_token s)
        (lifted s.new_one_password_provider) (with_aws aws))
      (with_configured (codes "Bitwarden") bitwarden_name (bitwarden_enabled s)
        s.new_bitwarden_provider)

-- DefaultProviderRegistry
unfoldable pub default_provider_registry : Setup → Go Error Started
unfolding with_configured has_token bitwarden_enabled
default_provider_registry s = with_configured_both s s.new_aws_secrets_manager_provider
