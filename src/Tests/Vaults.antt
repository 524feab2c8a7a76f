-- ===== src/Tests/Vaults.antt =====
-- Fetches of internal/provider/onepassword.go.
use jasm.Base.{◌≡◌, ◌+◌, refl, [], ◌∷◌, ◌++◌, ok, err, if◌then◌else◌, arith}
use jasm.Text.{codes, str_eq, join, has_prefix, trim_prefix, is_empty, split}
use jasm.Text.Escape.{escape_all, path_unescape}
use jasm.Metrics.{no_measurements, IsCounted}
use jasm.Reference.{path_parts, decode_parts, non_empty}
use jasm.Reference.OnePassword.{SecretReference, parse, from_parts, has_field, scheme}
use jasm.StrMap.{insert}
use jasm.OnePassword.{
  Sdk, lookup_vault_id, fetch_secret, fetch_all_fields, item_missing, is_rate_limited, rate_limited,
  vault_denied,
}
use jasm.OnePassword.Failures.{missing_item_blames_vault, missing_item_429}
use jasm.OnePassword.Fetch.{
  IsWholeItem, fetch_all_fields_exact, fetch_secret-IsCounted, fetch_crosses_vaults,
}
use jasm.Tests.Names.{i-IsPlain, v-IsPlain, s-IsPlain, f-IsPlain}

abbrev sdk : Sdk
sdk = record {
  list_vaults = ok (record { id = codes "1"; title = codes "v" } ∷ []);
  list_items = λ vault. ok (record { id = codes "2"; title = codes "i" } ∷ []);
  get_item = λ vault item. ok (record { title = codes "f"; value = codes "x" } ∷ []);
  resolve = λ reference. ok (codes "x");
}

abbrev here : SecretReference
here = record { vault = codes "v"; item = codes "i"; section = []; field = [] }

abbrev gone : SecretReference
gone = record { vault = codes "v"; item = codes "j429"; section = []; field = [] }

gone_parsed : parse (codes "op://v/j429") ≡ ok gone
unfolding parse path_parts has_prefix trim_prefix is_empty split decode_parts non_empty
    path_unescape from_parts
gone_parsed = refl

missing_item_blames_vault_example :
    (fetch_secret sdk (codes "op://v/j429") no_measurements).0
    ≡ err
        (if is_rate_limited (item_missing (codes "j429")) then rate_limited else vault_denied gone)
unfolding has_field is_empty lookup_vault_id str_eq
missing_item_blames_vault_example =
    missing_item_blames_vault sdk (codes "op://v/j429") no_measurements gone gone_parsed refl
      (codes "1") refl (record { id = codes "2"; title = codes "i" } ∷ []) refl ((λ e. cc e), tt)

missing_item_429_example :
    ((fetch_secret sdk (codes "op://v/j429") no_measurements).0 ≡ err rate_limited)
    × ((fetch_secret sdk (codes "op://v/j429") no_measurements).1.rate_limits_total
        ≡ no_measurements.rate_limits_total + 1)
unfolding has_field is_empty lookup_vault_id str_eq
missing_item_429_example =
    missing_item_429 sdk (codes "op://v/j429") no_measurements gone gone_parsed refl (codes "1")
      refl (record { id = codes "2"; title = codes "i" } ∷ []) refl ((λ e. cc e), tt) (codes "j") []
      refl

fetch_secret-IsCounted_example :
    IsCounted no_measurements (codes "v") (fetch_secret sdk (codes "op://v/j429") no_measurements)
fetch_secret-IsCounted_example =
    fetch_secret-IsCounted sdk (codes "op://v/j429") no_measurements gone gone_parsed

fetch_all_fields_exact_example : IsWholeItem sdk here ((codes "f", codes "x") ∷ [])
unfolding fetch_all_fields str_eq is_empty insert
fetch_all_fields_exact_example = fetch_all_fields_exact sdk here refl

fetch_crosses_vaults_example :
    ((fetch_secret sdk
        (scheme ++ join b'/' (codes "v" ∷ codes "i" ∷ codes "s" ∷ codes "f" ∷ []))
        no_measurements).0
      ≡ ok ((codes "f", codes "x") ∷ []))
    × ((fetch_secret sdk
          (scheme
            ++ join b'/'
                (escape_all (codes "v/i") ∷ escape_all (codes "s") ∷ escape_all (codes "f") ∷ []))
          no_measurements).0
        ≡ ok ((codes "f", codes "x") ∷ []))
fetch_crosses_vaults_example =
    fetch_crosses_vaults sdk (codes "v") (codes "i") (codes "s") (codes "f") (codes "x")
      no_measurements v-IsPlain i-IsPlain s-IsPlain f-IsPlain (λ e. cc e, omega arith)
      (λ e. cc e, omega arith) (λ e. cc e, omega arith) refl
