-- ===== src/Tests/Folders.antt =====
-- Fetches of internal/provider/bitwarden.go from the cache of bitwarden_client.go.
use jasm.Base.{
  pos, false, ◌≡◌, ◌≢◌, refl, [], ◌∷◌, none, some, ok, err, if◌then◌else◌, inl, inr, sym,
  Bool-cases,
}
use jasm.Text.Laws.{str_eq_iff}
use jasm.Text.{Bytes, codes, is_empty, str_eq, split, has_prefix, trim_prefix}
use jasm.Text.Escape.{path_unescape}
use jasm.StrMap.{lookup, insert}
use jasm.Metrics.{no_measurements}
use jasm.Reference.{path_parts, decode_parts, non_empty}
use jasm.Reference.Bitwarden.{BitwardenSecretReference, parse, from_parts, has_field, validate}
use jasm.Bitwarden.Items.{DecryptedItem, to_secret_map}
use jasm.Bitwarden.Crypto.{is_key_size}
use jasm.Bitwarden.Crypto.Keys.{stretch_master_key}
use jasm.Bitwarden.Client.Session.{Environment, prelogin, token}
use jasm.Tests.Sessions.{accepting, long_key}
use jasm.Bitwarden.Provider.Lockout.{hollow_key, hollow_key_locks_out}
use jasm.Bitwarden.Client.{
  VaultCache, new_bitwarden_client, is_cache_valid, is_authenticated, find_item, item_missing,
}
use jasm.Bitwarden.Client.Find.{Answers, find_item-Answers, find_item_order}
use jasm.Bitwarden.Provider.{
  BitwardenProvider, returned, panicked, blocked, is_bw_rate_limited, rate_limited,
  folder_not_found, fetch_secret,
}
use jasm.Bitwarden.Provider.Served.{
  IsServed, Counts, bw_fetch_secret-IsServed, bw_fetch_secret-Counts,
}
use jasm.Bitwarden.Provider.Failures.{bw_missing_item_blames_folder}

abbrev db : DecryptedItem
db = record {
  id = codes "7";
  name = codes "db";
  item_type = pos 1;
  type_name = codes "Login";
  notes = [];
  login = some record { username = []; password = codes "p"; totp = []; uris = [] };
  card = none;
  fields = [];
  folder_id = some (codes "1");
}

abbrev vault : VaultCache
vault = record { folders = (codes "1", codes "f") ∷ []; items = db ∷ []; expiry = 9 }

abbrev provider : BitwardenProvider
provider = record {
  client = record (new_bitwarden_client (codes "https://b/") (codes "A@b")) {
    access_token = codes "t";
    token_expiry = 9;
    cache = vault;
  };
  password = codes "p";
  metrics = no_measurements;
  locked = false;
}

abbrev password_ref : BitwardenSecretReference
password_ref = record { folder = codes "f"; item_name = codes "db"; field = codes "password" }

abbrev absent_ref : BitwardenSecretReference
absent_ref = record { folder = codes "f"; item_name = codes "dc"; field = [] }

password_parsed : parse (codes "bw://f/db/password") ≡ ok password_ref
unfolding parse path_parts has_prefix trim_prefix is_empty split decode_parts non_empty
    path_unescape from_parts
password_parsed = refl

absent_parsed : parse (codes "bw://f/dc") ≡ ok absent_ref
unfolding parse path_parts has_prefix trim_prefix is_empty split decode_parts non_empty
    path_unescape from_parts
absent_parsed = refl

password_served :
    (fetch_secret accepting 3 3 (codes "bw://f/db/password") provider).0
    ≡ returned (ok ((codes "password", codes "p") ∷ []))
unfolding fetch_secret parse path_parts has_prefix trim_prefix is_empty split decode_parts non_empty
    path_unescape from_parts is_cache_valid is_authenticated find_item str_eq to_secret_map insert
    lookup has_field validate new_bitwarden_client
password_served = refl

bw_fetch_secret-IsServed_example :
    IsServed accepting 3 3 password_ref provider
      (fetch_secret accepting 3 3 (codes "bw://f/db/password") provider).1.client
      ((codes "password", codes "p") ∷ [])
bw_fetch_secret-IsServed_example =
    bw_fetch_secret-IsServed accepting 3 3 (codes "bw://f/db/password") provider password_ref
      ((codes "password", codes "p") ∷ []) password_parsed password_served

bw_fetch_secret-Counts_example :
    Counts absent_ref no_measurements (fetch_secret accepting 3 3 (codes "bw://f/dc") provider)
bw_fetch_secret-Counts_example =
    bw_fetch_secret-Counts accepting 3 3 (codes "bw://f/dc") provider absent_ref absent_parsed

bw_missing_item_blames_folder_example :
    (fetch_secret accepting 3 3 (codes "bw://f/dc") provider).0
    ≡ returned (
        err (
          if is_bw_rate_limited (item_missing (codes "dc") (codes "f"))
          then rate_limited
          else folder_not_found absent_ref))
unfolding is_cache_valid is_authenticated is_empty find_item str_eq new_bitwarden_client
bw_missing_item_blames_folder_example =
    bw_missing_item_blames_folder accepting 3 3 (codes "bw://f/dc") provider absent_ref
      absent_parsed refl refl refl refl

-- The same server with a key that opens to nothing.
abbrev hollow : Environment
hollow = record accepting {
  decode_token =
      λ body. ok (record { access_token = codes "t"; expires_in = 60; key = hollow_key });
}

abbrev idle : BitwardenProvider
idle = record provider { client = new_bitwarden_client (codes "https://b/") (codes "A@b") }

hollow_key_locks_out_example :
    let after = fetch_secret hollow 3 3 (codes "bw://f/dc") idle in
    (after.0 ≡ panicked)
    × (fetch_secret accepting 4 4 (codes "bw://f/db/password") after.1 ≡ (blocked, after.1))
unfolding is_cache_valid prelogin stretch_master_key is_key_size token new_bitwarden_client
hollow_key_locks_out_example =
    hollow_key_locks_out hollow accepting 3 3 4 4 (codes "bw://f/dc") (codes "bw://f/db/password")
      idle absent_ref password_ref (record { kdf = pos 0; kdf_iterations = pos 1 }) long_key
      long_key (record { access_token = codes "t"; expires_in = 60; key = hollow_key })
      absent_parsed password_parsed refl refl refl refl refl refl refl refl

only_one : (other : Bytes) → lookup other vault.folders ≡ some (codes "f") → other ≡ codes "1"
unfolding lookup
only_one other h = elim (Bool-cases (str_eq (codes "1") other)) [
  | inl e ↦ sym ((str_eq_iff (codes "1") other).0 e)
  | inr e ↦ cc (rw e at h)
]

find_item-Answers_example :
    Answers
      (codes "f")
      (codes "1")
      (codes "db")
      vault.items
      (find_item vault (codes "f") (codes "db"))
unfolding lookup str_eq
find_item-Answers_example =
    find_item-Answers vault (codes "f") (codes "db") (codes "1") (refl, tt) (λ e. cc e) refl
      only_one

two-ne-one : codes "2" ≢ codes "1"
unfolding str_eq
two-ne-one e = cc ((str_eq_iff (codes "2") (codes "1")).1 e)

find_item_order_example :
    (find_item
        (record {
          folders = (codes "1", codes "f") ∷ (codes "2", codes "f") ∷ [];
          items = db ∷ [];
          expiry = 9;
        })
        (codes "f")
        (codes "db")
      ≡ ok db)
    × (find_item
          (record {
            folders = (codes "2", codes "f") ∷ (codes "1", codes "f") ∷ [];
            items = db ∷ [];
            expiry = 9;
          })
          (codes "f")
          (codes "db")
        ≡ err (item_missing (codes "db") (codes "f")))
find_item_order_example =
    find_item_order (codes "2") (codes "1") (codes "f") db 9 (λ e. cc e) (λ e. cc e) two-ne-one refl
