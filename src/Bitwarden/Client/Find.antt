-- ===== src/Bitwarden/Client/Find.antt =====
-- What FindItem of internal/provider/bitwarden_client.go finds.
use jasm.Base.{
  ℕ, ◌≡◌, ◌≢◌, ◌↔◌, refl, ap, true, false, ◌&&◌, List, [], ◌∷◌, ◌++◌, Option, none, some, Result,
  ok, err, arith, Bool-cases, inl, inr, All,
}
use jasm.Text.{Bytes, str_eq}
use jasm.Text.Laws.{str_eq_iff, str_eq_refl, is_empty-false}
use jasm.Errors.{Error}
use jasm.StrMap.{StrMap, lookup, Unique}
use jasm.Bitwarden.Items.{DecryptedItem}
use jasm.Bitwarden.Client.{
  VaultCache, find_folder_id, in_folder, find_in_folder, find_item, item_missing,
}

-- The item stands in the folder under the name.
abbrev pub StandsIn : Bytes → Bytes → DecryptedItem → Type 0
StandsIn folder_id item_name item = (item.folder_id ≡ some folder_id) × (item.name ≡ item_name)

-- What an answer for a folder says of the items: one of them that stands there, with none before it, or
-- that none does.
pub record IsFirst (folder_id item_name : Bytes) (items : List DecryptedItem) (item : DecryptedItem)
    : Type 0 where
  pub before : List DecryptedItem
  pub after : List DecryptedItem
  pub split : items ≡ before ++ item ∷ after
  pub stands : StandsIn folder_id item_name item
  pub first : All (λ other. ¬ StandsIn folder_id item_name other) before

abbrev pub Answers :
    Bytes → Bytes → Bytes → List DecryptedItem → Result Error DecryptedItem → Type 0
Answers folder_name folder_id item_name items (ok item) = IsFirst folder_id item_name items item
Answers folder_name folder_id item_name items (err e) =
    All (λ other. ¬ StandsIn folder_id item_name other) items
    × (e ≡ item_missing item_name folder_name)

named_folder :
    (folder_name id : Bytes) (folders : StrMap Bytes)
    → Unique folders
    → lookup id folders ≡ some folder_name
    → lookup (find_folder_id folder_name folders) folders ≡ some folder_name
unfolding find_folder_id lookup
named_folder n id [] u h = cc
named_folder n id ((j, name) ∷ folders) (fresh, u) h = ground (
  arith,
  named_folder n id folders u,
  str_eq_iff name n,
  str_eq_iff j (find_folder_id n folders),
  str_eq_refl j,
)

in_folder_iff :
    (folder_id : Bytes) (f : Option Bytes) → (in_folder folder_id f ≡ true) ↔ (f ≡ some folder_id)
unfolding in_folder
in_folder_iff folder_id none = (λ h. cc h, λ h. cc h)
in_folder_iff folder_id (some f) =
    (λ h. ap (λ s. some s) ((str_eq_iff f folder_id).0 h), λ h. (str_eq_iff f folder_id).1 (cc h))

test_iff :
    (folder_id item_name : Bytes) (item : DecryptedItem)
    → (in_folder folder_id item.folder_id && str_eq item.name item_name ≡ true)
      ↔ StandsIn folder_id item_name item
test_iff folder_id item_name item =
    ground (arith, in_folder_iff folder_id item.folder_id, str_eq_iff item.name item_name)

later :
    (folder_name folder_id item_name : Bytes) (item : DecryptedItem)
    (r : Result Error DecryptedItem) (items : List DecryptedItem)
    → ¬ StandsIn folder_id item_name item
    → Answers folder_name folder_id item_name items r
    → Answers folder_name folder_id item_name (item ∷ items) r
later n id i item (err e) items absent (none_here, text) = ((absent, none_here), text)
later n id i item (ok found) items absent f = record {
  before = item ∷ f.before;
  after = f.after;
  split = ap (λ s. item ∷ s) f.split;
  stands = f.stands;
  first = (absent, f.first);
}

find_in_folder-Answers :
    (folder_name folder_id item_name : Bytes) (items : List DecryptedItem)
    → Answers folder_name folder_id item_name items
        (find_in_folder folder_name folder_id item_name items)
unfolding find_in_folder
find_in_folder-Answers n id i [] = (tt, refl)
find_in_folder-Answers n id i (item ∷ items) =
    elim (Bool-cases (in_folder id item.folder_id && str_eq item.name i)) [
      | inl e ↦ rw e (record {
        before = [];
        after = items;
        split = refl;
        stands = (test_iff id i item).0 e;
        first = tt;
      })
      | inr e ↦ rw e (
          later n id i item (find_in_folder n id i items) items
            (λ s. cc (e, (test_iff id i item).1 s)) (find_in_folder-Answers n id i items))
    ]

-- FindItem, in a cache whose folders have unique IDs and where one folder, whose ID is not empty, has the
-- name: it returns the first item that stands in the folder under the item's name, and an error that
-- names both exactly when there is none.
pub find_item-Answers :
    (c : VaultCache) (folder_name item_name folder_id : Bytes)
    → Unique c.folders
    → folder_id ≢ []
    → lookup folder_id c.folders ≡ some folder_name
    → ((other : Bytes) → lookup other c.folders ≡ some folder_name → other ≡ folder_id)
    → Answers folder_name folder_id item_name c.items (find_item c folder_name item_name)
unfolding find_item
find_item-Answers c n i id unique filled named only =
    let same = only (find_folder_id n c.folders) (named_folder n id c.folders unique named) in
    rw (same, is_empty-false id filled) (find_in_folder-Answers n id i c.items)

-- With two folders of one name, the order in which Go visits the map decides: an item that stands in one
-- of them is found when that folder is visited first, and reported missing when the other is.
pub find_item_order :
    (a b folder_name : Bytes) (item : DecryptedItem) (expiry : ℕ)
    → a ≢ []
    → b ≢ []
    → a ≢ b
    → item.folder_id ≡ some b
    → (find_item
          (record {
            folders = (b, folder_name) ∷ (a, folder_name) ∷ [];
            items = item ∷ [];
            expiry = expiry;
          })
          folder_name
          item.name
        ≡ ok item)
      × (find_item
            (record {
              folders = (a, folder_name) ∷ (b, folder_name) ∷ [];
              items = item ∷ [];
              expiry = expiry;
            })
            folder_name
            item.name
          ≡ err (item_missing item.name folder_name))
unfolding find_item find_folder_id find_in_folder
find_item_order a b n item expiry filled_a filled_b apart inside =
    let here : in_folder b item.folder_id ≡ true = (in_folder_iff b item.folder_id).1 inside in
    let elsewhere : in_folder a item.folder_id ≡ false =
      elim (Bool-cases (in_folder a item.folder_id)) [
        | inr e ↦ e
        | inl e ↦ absurd (apart (cc ((in_folder_iff a item.folder_id).0 e, inside)))
      ] in
    rw
      (
        str_eq_refl n,
        is_empty-false a filled_a,
        is_empty-false b filled_b,
        here,
        elsewhere,
        str_eq_refl item.name,
      )
      (refl, refl)
