-- ===== src/Text/Laws.antt =====
-- Laws of the text functions.
use jasm.Base.{
  ℕ, true, false, ◌≡◌, ◌≢◌, refl, ◌↔◌, List, [], ◌∷◌, ◌++◌, arith, All, ==_refl, append_assoc,
  ==_ne,
}
use jasm.Text.{Bytes, str_eq, is_empty, has_prefix, contains, split, join, lower, to_lower}

pub str_eq_refl : (s : Bytes) → str_eq s s ≡ true
unfolding str_eq
str_eq_refl [] = refl
str_eq_refl (a ∷ s) = ground (arith, str_eq_refl s)

pub str_eq_sound : (s t : Bytes) → str_eq s t ≡ true → s ≡ t
unfolding str_eq
str_eq_sound [] [] h = refl
str_eq_sound (a ∷ s) (b ∷ t) h = ground (arith, str_eq_sound s t)
str_eq_sound _ _ h = cc

pub str_eq_iff : (s t : Bytes) → (str_eq s t ≡ true) ↔ (s ≡ t)
str_eq_iff s t = (str_eq_sound s t, λ e. rw e (str_eq_refl t))

pub is_empty-false : (s : Bytes) → s ≢ [] → is_empty s ≡ false
unfolding is_empty
is_empty-false [] h = absurd (h refl)
is_empty-false (c ∷ s) h = refl

pub is_empty_iff : (s : Bytes) → (is_empty s ≡ true) ↔ (s ≡ [])
unfolding is_empty
is_empty_iff [] = ground arith
is_empty_iff (c ∷ s) = ground arith

pub has_prefix-append : (p s : Bytes) → has_prefix (p ++ s) p ≡ true
unfolding has_prefix
has_prefix-append [] s = refl
has_prefix-append (c ∷ p) s = ground (arith, has_prefix-append p s)

pub contains_prefix : (s sub : Bytes) → has_prefix s sub ≡ true → contains s sub ≡ true
unfolding contains
contains_prefix [] sub h = h
contains_prefix (c ∷ s) sub h = ground arith

-- A text that holds a part still holds it behind any other text.
pub contains-append_right : (p s sub : Bytes) → contains s sub ≡ true → contains (p ++ s) sub ≡ true
unfolding contains
contains-append_right [] s sub h = h
contains-append_right (c ∷ p) s sub h = ground (arith, contains-append_right p s sub h)

has_prefix-append_left :
    (s t sub : Bytes) → has_prefix s sub ≡ true → has_prefix (s ++ t) sub ≡ true
unfolding has_prefix
has_prefix-append_left s t [] h = refl
has_prefix-append_left [] t (p ∷ sub) h = cc
has_prefix-append_left (c ∷ s) t (p ∷ sub) h = ground (arith, has_prefix-append_left s t sub)

-- And in front of any other text.
pub contains-append_left : (s t sub : Bytes) → contains s sub ≡ true → contains (s ++ t) sub ≡ true
unfolding contains
contains-append_left [] t sub h = contains_prefix t sub (has_prefix-append_left [] t sub h)
contains-append_left (c ∷ s) t sub h =
    ground (arith, has_prefix-append_left (c ∷ s) t sub, contains-append_left s t sub)

module _ (sep : ℕ) where
  abbrev pub Lacks : Bytes → Type 0
  Lacks = All (λ c. c ≢ sep)

  split_last : (p : Bytes) → Lacks p → split sep p ≡ p ∷ []
  unfolding split
  split_last [] h = refl
  split_last (c ∷ p) (hc, hp) = rw (==_ne c sep hc, split_last p hp)

  split-append : (p s : Bytes) → Lacks p → split sep (p ++ sep ∷ s) ≡ p ∷ split sep s
  unfolding split
  split-append [] s h = rw ==_refl
  split-append (c ∷ p) s (hc, hp) = rw (==_ne c sep hc, split-append p s hp)

  -- Splitting a joined list of parts that lack the separator gives the parts.
  pub split-join :
      (p : Bytes) (ps : List Bytes)
      → Lacks p
      → All Lacks ps
      → split sep (join sep (p ∷ ps)) ≡ p ∷ ps
  unfolding join
  split-join p [] h _ = split_last p h
  split-join p (q ∷ ps) h (hq, hs) = rw (split-append p _ h, split-join q ps hq hs)

-- A separator inside the first part reads as a cut between two parts.
pub join-head_append :
    (sep : ℕ) (a b p : Bytes) (ps : List Bytes)
    → join sep ((a ++ sep ∷ b) ∷ p ∷ ps) ≡ join sep (a ∷ b ∷ p ∷ ps)
unfolding join
join-head_append sep a b p ps = append_assoc a (sep ∷ b) (sep ∷ join sep (p ∷ ps))

lower_idem : (c : ℕ) → lower (lower c) ≡ lower c
unfolding lower
lower_idem c = ground arith

pub to_lower_idem : (s : Bytes) → to_lower (to_lower s) ≡ to_lower s
unfolding to_lower
to_lower_idem [] = refl
to_lower_idem (c ∷ s) = cc (lower_idem c, to_lower_idem s)

pub to_lower-append : (s t : Bytes) → to_lower (s ++ t) ≡ to_lower s ++ to_lower t
unfolding to_lower
to_lower-append [] t = refl
to_lower-append (c ∷ s) t = rw (to_lower-append s t)

-- A text holds what stands in its middle.
pub contains_middle : (s p t : Bytes) → contains (s ++ (p ++ t)) p ≡ true
contains_middle s p t =
    contains-append_right s (p ++ t) p (contains_prefix (p ++ t) p (has_prefix-append p t))
