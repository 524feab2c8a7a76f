-- ===== src/Tests/Sessions.antt =====
-- A server that accepts every password, for Authenticate of internal/provider/bitwarden_client.go.
use jasm.Base.{pos, ◌≡◌, refl, [], none, ok}
use jasm.Text.{Bytes, codes, is_empty, str_eq, split, to_lower, trim_suffix}
use jasm.Text.Base64.{base64_decode}
use jasm.StrMap.{insert}
use jasm.Bitwarden.Crypto.{
  ret, parse_cipher_string, decrypt_cipher_string, decrypt_parsed, decrypt_checked, mac_accepts,
  cbc_decrypt, xor_bytes, last, unpad_last, unpad, all_equal, is_key_size,
}
use jasm.Bitwarden.Client.{BitwardenClient, new_bitwarden_client}
use jasm.Bitwarden.Client.Sync.{response, sync_response}
use jasm.Bitwarden.Client.Vault.{sync_vault}
use jasm.Bitwarden.Client.Session.{Environment, authenticate}
use jasm.Bitwarden.Client.Session.Settled.{IsSettled, authenticate-IsSettled}
use jasm.Tests.Ciphers.{plain}
use jasm.Tests.Vault

abbrev pub long_key : Bytes
long_key = codes "0123456789abcdef0123456789abcdef"

-- The key of the account: 64 bytes and their padding.
abbrev account_key : Bytes
account_key =
    codes
      "2.AAAAAAAAAAAAAAAAAAAAAA==|QUJDREVGR0hJSktMTU5PUBAQEBAQEBAQEBAQEBAQEDBxcnN0dXZ3eHl6e3x9fn9AAAAAAAAAAAAAAEtNT01LdRAQEBAQEBAQEBBbXV9dW2U=|Bw=="

abbrev pub accepting : Environment
accepting = record {
  prim = plain;
  kdf = record {
    pbkdf2_key = λ password salt iterations size. long_key;
    hkdf_read = λ key info size. ok long_key;
  };
  post_prelogin = λ url form. response 200 [];
  post_token = λ url form. response 200 [];
  get_sync = λ url header. record {
    reply = λ attempt. response 200 [];
    context_error = λ attempt time. none;
  };
  decode_prelogin = λ body. ok (record { kdf = pos 0; kdf_iterations = pos 1 });
  decode_token =
      λ body. ok (record { access_token = codes "t"; expires_in = 60; key = account_key });
  decode_sync = λ body. ok Vault.response;
  login_now = 5;
  sync_now = 6;
  library_text = λ e. [];
}

abbrev new : BitwardenClient
new = new_bitwarden_client (codes "https://b/") (codes "A@b")

new_address : (new.email ≡ codes "a@b") × (new.server_url ≡ codes "https://b")
unfolding new_bitwarden_client is_empty to_lower str_eq trim_suffix
new_address = (refl, refl)

session_begins : (authenticate accepting (codes "p") new).0 ≡ ret tt
unfolding authenticate new_bitwarden_client parse_cipher_string base64_decode decrypt_cipher_string
    decrypt_parsed decrypt_checked mac_accepts cbc_decrypt xor_bytes last unpad_last unpad all_equal
    is_key_size is_empty str_eq split insert sync_response sync_vault
session_begins = refl

authenticate-IsSettled_example :
    IsSettled accepting (codes "p") new (authenticate accepting (codes "p") new)
authenticate-IsSettled_example = authenticate-IsSettled accepting (codes "p") new
