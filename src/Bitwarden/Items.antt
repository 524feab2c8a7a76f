-- ===== src/Bitwarden/Items.antt =====
-- internal/provider/bitwarden_types.go: the decrypted items and the secret data made of them.
pub mod Data
use jasm.Base.{ℤ, Bool, true, false, ◌&&◌, not, List, [], ◌∷◌, Option, none, some, if◌then◌else◌}
use jasm.Text.{Bytes, codes, is_empty}
use jasm.StrMap
use jasm.StrMap.{StrMap}

-- type DecryptedLogin
pub record DecryptedLogin : Type 0 where
  pub username : Bytes
  pub password : Bytes
  pub totp : Bytes
  pub uris : List Bytes

-- type DecryptedCard
pub record DecryptedCard : Type 0 where
  pub cardholder_name : Bytes
  pub brand : Bytes
  pub number : Bytes
  pub exp_month : Bytes
  pub exp_year : Bytes
  pub code : Bytes

-- type DecryptedField
pub record DecryptedField : Type 0 where
  pub name : Bytes
  pub value : Bytes
  pub field_type : ℤ

-- type DecryptedItem
pub record DecryptedItem : Type 0 where
  pub id : Bytes
  pub name : Bytes
  pub item_type : ℤ
  pub type_name : Bytes
  pub notes : Bytes
  pub login : Option DecryptedLogin
  pub card : Option DecryptedCard
  pub fields : List DecryptedField
  pub folder_id : Option Bytes

-- if value != "" { result[key] = value }
unfoldable pub put_filled : Bytes → Bytes → StrMap Bytes → StrMap Bytes
put_filled key value result =
    if not (is_empty value) then StrMap.insert key value result else result

unfoldable pub put_login : Option DecryptedLogin → StrMap Bytes → StrMap Bytes
put_login none result = result
put_login (some l) result =
    put_filled (codes "totp") l.totp
      (put_filled (codes "password") l.password (put_filled (codes "username") l.username result))

unfoldable pub put_card : Option DecryptedCard → StrMap Bytes → StrMap Bytes
put_card none result = result
put_card (some c) result = put_filled (codes "code") c.code (
    put_filled (codes "expYear") c.exp_year (
      put_filled (codes "expMonth") c.exp_month (
        put_filled (codes "number") c.number (
          put_filled (codes "brand") c.brand
            (put_filled (codes "cardholderName") c.cardholder_name result)))))

-- for _, field := range item.Fields
unfoldable pub put_fields : List DecryptedField → StrMap Bytes → StrMap Bytes
put_fields [] result = result
put_fields (field ∷ fields) result = put_fields fields (
    if not (is_empty field.name) && not (is_empty field.value)
    then StrMap.insert field.name field.value result
    else result)

-- ToSecretMap
unfoldable pub to_secret_map : DecryptedItem → StrMap Bytes
unfolding put_login put_card put_fields put_filled
to_secret_map item =
    put_filled (codes "notes") item.notes
      (put_fields item.fields (put_card item.card (put_login item.login [])))
