-- ===== src/Reference/Parts.antt =====
-- What the shared steps of the parsers return.
use jasm.Base.{
  ◌++◌, ◌≡◌, ◌≢◌, refl, List, [], ◌∷◌, some, ok, err, ok_injective, subst, Result, ◌>>=◌, arith,
  All, drop-append, Bool-cases, inl, inr,
}
use jasm.Text.{Bytes, has_prefix, trim_prefix, is_empty, join}
use jasm.Text.Escape.{path_unescape, path_unescape_plain, percent}
use jasm.Text.Laws.{is_empty-false, Lacks, split-join, has_prefix-append, is_empty_iff}
use jasm.Reference.{RefError, decode_parts, non_empty, path_parts}

-- A raw part decodes to a name that is not empty, and holds no slash itself.
abbrev pub Decodes : List Bytes → List Bytes → Type 0
Decodes [] [] = Unit
Decodes (r ∷ rs) (d ∷ ds) = Lacks b'/' r × (path_unescape r ≡ some d) × (d ≢ []) × Decodes rs ds
Decodes _ _ = ⊥

-- A name that needs no escape.
abbrev pub IsPlain : Bytes → Type 0
IsPlain s = (s ≢ []) × Lacks b'/' s × Lacks percent s

pub IsPlain-Decodes : (ps : List Bytes) → All IsPlain ps → Decodes ps ps
IsPlain-Decodes [] h = tt
IsPlain-Decodes (p ∷ ps) ((ne, slash, pct), hs) =
    (slash, path_unescape_plain p pct, ne, IsPlain-Decodes ps hs)

Decodes-Lacks : (rs ds : List Bytes) → Decodes rs ds → All (Lacks b'/') rs
Decodes-Lacks [] [] h = tt
Decodes-Lacks (r ∷ rs) (d ∷ ds) (slash, _, _, hs) = (slash, Decodes-Lacks rs ds hs)
Decodes-Lacks [] (d ∷ ds) h = absurd h
Decodes-Lacks (r ∷ rs) [] h = absurd h

decode_parts_lem : (rs ds : List Bytes) → Decodes rs ds → decode_parts rs ≡ ok ds
unfolding decode_parts
decode_parts_lem [] [] h = refl
decode_parts_lem (r ∷ rs) (d ∷ ds) (_, e, _, hs) = rw (e, decode_parts_lem rs ds hs)
decode_parts_lem [] (d ∷ ds) h = absurd h
decode_parts_lem (r ∷ rs) [] h = absurd h

non_empty_lem : (rs ds : List Bytes) → Decodes rs ds → non_empty ds ≡ ds
unfolding non_empty
non_empty_lem [] [] h = refl
non_empty_lem (r ∷ rs) (d ∷ ds) (_, _, ne, hs) = rw (is_empty-false d ne, non_empty_lem rs ds hs)
non_empty_lem [] (d ∷ ds) h = absurd h
non_empty_lem (r ∷ rs) [] h = absurd h

raw-ne-nil : (r d : Bytes) → path_unescape r ≡ some d → d ≢ [] → r ≢ []
unfolding path_unescape
raw-ne-nil [] d e ne z = ne (ground arith)
raw-ne-nil (c ∷ r) d e ne z = cc

join-ne-nil : (r : Bytes) (rs : List Bytes) → r ≢ [] → join b'/' (r ∷ rs) ≢ []
unfolding join
join-ne-nil [] rs h e = h refl
join-ne-nil (c ∷ r) [] h e = cc
join-ne-nil (c ∷ r) (q ∷ rs) h e = cc

module _ (scheme : Bytes) where
  -- A joined list of raw parts behind the scheme gives their decoded names.
  pub path_parts-join :
      (r d : Bytes) (rs ds : List Bytes)
      → Decodes (r ∷ rs) (d ∷ ds)
      → path_parts scheme (scheme ++ join b'/' (r ∷ rs)) ≡ ok (d ∷ ds)
  unfolding path_parts trim_prefix
  path_parts-join r d rs ds h =
      let path = join b'/' (r ∷ rs) in
      rw (
        has_prefix-append scheme path,
        drop-append scheme path,
        is_empty-false path (join-ne-nil r rs (raw-ne-nil r d h.1 h.2)),
        split-join b'/' r rs h.0 (Decodes-Lacks rs ds h.3),
        decode_parts_lem (r ∷ rs) (d ∷ ds) h,
        non_empty_lem (r ∷ rs) (d ∷ ds) h,
      )

pub non_empty-All : (ps : List Bytes) → All (λ p. p ≢ []) (non_empty ps)
unfolding non_empty
non_empty-All [] = tt
non_empty-All (p ∷ ps) = elim (Bool-cases (is_empty p)) [
  | inl e ↦ rw e (non_empty-All ps)
  | inr e ↦ rw e ((λ z. ground (arith, is_empty_iff p)), non_empty-All ps)
]

kept_parts :
    (m : Result RefError (List Bytes)) {ps : List Bytes}
    → (m >>= λ parts. ok (non_empty parts)) ≡ ok ps
    → All (λ p. p ≢ []) ps
kept_parts (ok parts) h = subst (All (λ p. p ≢ [])) (ok_injective h) (non_empty-All parts)
kept_parts (err e) h = cc

-- No part that the shared steps return is empty.
pub path_parts-All :
    (scheme ref : Bytes) {ps : List Bytes} → path_parts scheme ref ≡ ok ps → All (λ p. p ≢ []) ps
unfolding path_parts
path_parts-All scheme ref h = elim (Bool-cases (has_prefix ref scheme)) [
  | inr e ↦ cc (rw e at h)
  | inl e ↦ elim (Bool-cases (is_empty (trim_prefix ref scheme))) [
    | inl f ↦ cc (rw (e, f) at h)
    | inr f ↦ kept_parts _ (rw (e, f) at h)
  ]
]
