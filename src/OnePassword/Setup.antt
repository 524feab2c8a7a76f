-- ===== src/OnePassword/Setup.antt =====
-- NewOnePasswordProvider of internal/provider/onepassword.go.
use jasm.Base.{◌++◌, Result, ok, err, ◌>>=◌, map_err, if◌then◌else◌}
use jasm.Text.{Bytes, codes, is_empty}
use jasm.Errors.{Error, errorf, wrap}
use jasm.Metrics.{ProviderMetrics, Meter, new_provider_metrics}
use jasm.OnePassword.{Sdk}

-- type OnePasswordProvider; its retry queue is RetryQueue.
pub record OnePasswordProvider : Type 0 where
  pub client : Sdk
  pub metrics : ProviderMetrics

abbrev pub op_service_account_env : Bytes
op_service_account_env = codes "OP_SERVICE_ACCOUNT_TOKEN"

-- What follows the test of the token.
abbrev pub with_token :
    (Bytes → Result Error Sdk) → Meter → Bytes → Result Error OnePasswordProvider
with_token new_client meter token = do
  client ← map_err (wrap (codes "failed to create 1Password client: ")) (new_client token)
  metrics ←
      map_err (wrap (codes "failed to create metrics: "))
        (new_provider_metrics meter (codes "1password"))
  ok (record { client = client; metrics = metrics })

-- NewOnePasswordProvider, over the environment, the SDK's NewClient on a token, and the meter
unfoldable pub new_one_password_provider :
    (Bytes → Bytes) → (Bytes → Result Error Sdk) → Meter → Result Error OnePasswordProvider
new_one_password_provider getenv new_client meter =
    let token = getenv op_service_account_env in
    if is_empty token
    then err (
        errorf (
          codes "1Password service account token not configured (set "
          ++ (op_service_account_env ++ codes ")")))
    else with_token new_client meter token
