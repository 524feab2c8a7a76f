-- ===== src/StrMap.antt =====
-- Go's maps with string keys, as association lists in the order in which a `range` visits them. Go
-- leaves that order open: theorems about loops over a map hold for every list with unique keys.
use jasm.Base.{◌≡◌, ◌≢◌, refl, List, [], ◌∷◌, Option, none, some, if◌then◌else◌, arith}
use jasm.Text.{Bytes, str_eq}
use jasm.Text.Laws.{str_eq_iff, str_eq_refl}

abbrev pub StrMap {ℓ} : Type ℓ → Type ℓ
StrMap V = List (Bytes × V)

module _ {ℓ} {V : Type ℓ} where
  -- value, ok := m[key]
  unfoldable pub lookup : Bytes → StrMap V → Option V
  lookup key [] = none
  lookup key ((head, value) ∷ rest) = if str_eq head key then some value else lookup key rest

  -- m[key] = value: the entry of the key is replaced, or a new one is visited last
  unfoldable pub insert : Bytes → V → StrMap V → StrMap V
  insert key value [] = (key, value) ∷ []
  insert key value ((head, old) ∷ rest) =
      if str_eq head key then (head, value) ∷ rest else (head, old) ∷ insert key value rest

  -- The keys in the order of a `range`.
  unfoldable pub keys : StrMap V → List Bytes
  keys [] = []
  keys ((head, value) ∷ rest) = head ∷ keys rest

  -- Only the entry of the key changes.
  pub lookup-insert :
      (key other : Bytes) (value : V) (m : StrMap V)
      → lookup other (insert key value m)
        ≡ (if str_eq key other then some value else lookup other m)
  unfolding insert lookup
  lookup-insert key other value [] = refl
  lookup-insert key other value ((head, old) ∷ rest) = ground (
    arith,
    lookup-insert key other value rest,
    str_eq_iff head other,
    str_eq_iff key other,
    str_eq_iff head key,
  )

  -- Every key stands once, as in any Go map.
  abbrev pub Unique : StrMap V → Type ℓ
  Unique [] = Unit
  Unique ((k, v) ∷ m) = (lookup k m ≡ none) × Unique m

  pub insert-Unique : (k : Bytes) (v : V) (m : StrMap V) → Unique m → Unique (insert k v m)
  unfolding insert lookup
  insert-Unique k v [] h = (refl, tt)
  insert-Unique k v ((j, w) ∷ m) (hj, hm) =
      ground (arith, str_eq_iff j k, str_eq_iff k j, lookup-insert k j v m, insert-Unique k v m hm)

  pub lookup-insert_self : (k : Bytes) (v : V) (m : StrMap V) → lookup k (insert k v m) ≡ some v
  lookup-insert_self k v m = rw (lookup-insert, str_eq_refl)

  pub lookup-insert_ne :
      (k j : Bytes) (v : V) (m : StrMap V) → j ≢ k → lookup j (insert k v m) ≡ lookup j m
  lookup-insert_ne k j v m h = ground (arith, lookup-insert k j v m, str_eq_iff k j)

  -- The value that was written, or the one that was there.
  abbrev pub or_old : Option V → Option V → Option V
  or_old none old = old
  or_old (some v) old = some v

  pub or_old-none : (o : Option V) → or_old o none ≡ o
  or_old-none none = refl
  or_old-none (some v) = refl
