-- ===== src/Bitwarden/Items/Data.antt =====
-- ToSecretMap against a list of the item's entries.
use jasm.Base.{
  ◌≡◌, refl, sym, ◌∙◌, ◌&&◌, ◌||◌, not, List, [], ◌∷◌, ◌++◌, Option, none, some, if◌then◌else◌,
  arith, Bool-cases, inl, inr,
}
use jasm.Text.{Bytes, codes, is_empty, str_eq}
use jasm.StrMap.{StrMap, lookup, insert, lookup-insert, or_old, or_old-none, Unique, insert-Unique}
use jasm.Bitwarden.Items.{
  DecryptedLogin, DecryptedCard, DecryptedField, DecryptedItem, put_filled, put_login, put_card,
  put_fields, to_secret_map,
}

abbrev pub login_entries : Option DecryptedLogin → StrMap Bytes
login_entries none = []
login_entries (some l) =
    (codes "username", l.username) ∷ (codes "password", l.password) ∷ (codes "totp", l.totp) ∷ []

abbrev pub card_entries : Option DecryptedCard → StrMap Bytes
card_entries none = []
card_entries (some c) =
    (codes "cardholderName", c.cardholder_name)
    ∷ (codes "brand", c.brand)
    ∷ (codes "number", c.number)
    ∷ (codes "expMonth", c.exp_month)
    ∷ (codes "expYear", c.exp_year)
    ∷ (codes "code", c.code)
    ∷ []

abbrev pub field_entries : List DecryptedField → StrMap Bytes
field_entries [] = []
field_entries (f ∷ fields) = (f.name, f.value) ∷ field_entries fields

-- All that an item says, in the order of the code: the login, the card, the custom fields, the notes.
abbrev pub entries : DecryptedItem → StrMap Bytes
entries item =
    login_entries item.login
    ++ (card_entries item.card ++ (field_entries item.fields ++ (codes "notes", item.notes) ∷ []))

-- The last entry with the key whose key and value are not empty.
abbrev pub last_filled : Bytes → StrMap Bytes → Option Bytes
last_filled k [] = none
last_filled k ((j, v) ∷ m) = elim (last_filled k m) [
  | some w ↦ some w
  | none ↦ if is_empty j || is_empty v then none else if str_eq j k then some v else none
]

-- Entries written one after the other, but for those with an empty key or value.
write_all : StrMap Bytes → StrMap Bytes → StrMap Bytes
write_all [] out = out
write_all ((j, v) ∷ m) out =
    write_all m (if not (is_empty j) && not (is_empty v) then insert j v out else out)

write_all-append : (m n out : StrMap Bytes) → write_all (m ++ n) out ≡ write_all n (write_all m out)
unfolding write_all
write_all-append [] n out = refl
write_all-append ((j, v) ∷ m) n out =
    write_all-append m n (if not (is_empty j) && not (is_empty v) then insert j v out else out)

put_fields-write_all :
    (fields : List DecryptedField) (out : StrMap Bytes)
    → put_fields fields out ≡ write_all (field_entries fields) out
unfolding put_fields write_all
put_fields-write_all [] out = refl
put_fields-write_all (f ∷ fields) out =
    put_fields-write_all fields
      (if not (is_empty f.name) && not (is_empty f.value) then insert f.name f.value out else out)

put_login-write_all :
    (l : Option DecryptedLogin) (out : StrMap Bytes)
    → put_login l out ≡ write_all (login_entries l) out
unfolding put_login write_all put_filled is_empty
put_login-write_all none out = refl
put_login-write_all (some l) out = refl

put_card-write_all :
    (c : Option DecryptedCard) (out : StrMap Bytes)
    → put_card c out ≡ write_all (card_entries c) out
unfolding put_card write_all put_filled is_empty
put_card-write_all none out = refl
put_card-write_all (some c) out = refl

put_filled-write_all :
    (v : Bytes) (out : StrMap Bytes)
    → put_filled (codes "notes") v out ≡ write_all ((codes "notes", v) ∷ []) out
unfolding write_all put_filled is_empty
put_filled-write_all v out = refl

to_secret_map-write_all : (item : DecryptedItem) → to_secret_map item ≡ write_all (entries item) []
unfolding to_secret_map
to_secret_map-write_all item =
    let logged = write_all (login_entries item.login) [] in
    let carded = write_all (card_entries item.card) logged in
    rw (put_login-write_all, put_card-write_all, put_fields-write_all, put_filled-write_all)
      (sym (
        write_all-append (login_entries item.login) _ []
        ∙ write_all-append (card_entries item.card) _ logged
        ∙ write_all-append (field_entries item.fields) _ carded))

lookup-write_all :
    (m out : StrMap Bytes) (k : Bytes)
    → lookup k (write_all m out) ≡ or_old (last_filled k m) (lookup k out)
unfolding write_all
lookup-write_all [] out k = refl
lookup-write_all ((j, v) ∷ m) out k = ground (
  arith,
  lookup-write_all m out k,
  lookup-write_all m (insert j v out) k,
  lookup-insert j k v out,
)

write_all-Unique : (m out : StrMap Bytes) → Unique out → Unique (write_all m out)
unfolding write_all
write_all-Unique [] out h = h
write_all-Unique ((j, v) ∷ m) out h = elim (Bool-cases (not (is_empty j) && not (is_empty v))) [
  | inl e ↦ rw e (write_all-Unique m (insert j v out) (insert-Unique j v out h))
  | inr e ↦ rw e (write_all-Unique m out h)
]

-- The secret map of an item holds under each key the last value that is not empty among the login's, the
-- card's, the custom fields' and the notes' entries with that key, no other key, and each key once.
pub to_secret_map_exact :
    (item : DecryptedItem)
    → ((k : Bytes) → lookup k (to_secret_map item) ≡ last_filled k (entries item))
      × Unique (to_secret_map item)
unfolding lookup
to_secret_map_exact item = rw (to_secret_map-write_all item) (
  λ k. lookup-write_all (entries item) [] k ∙ or_old-none (last_filled k (entries item)),
  write_all-Unique (entries item) [] tt,
)
