-- ===== src/Signing/Squeeze.antt =====
-- The loops of stripExcessSpaces over one value.
use rolesanywhere_credential.Prelude.{
  ℕ, zero, suc, ◌≡◌, refl, sym, ap, ◌∙◌, inl, inr, Bool, true, false, ◌&&◌, List, [], ◌∷◌, Option,
  none, some, Bool-cases, if◌then◌else◌,
}
use rolesanywhere_credential.Signing.{
  is_space, starts_with_space, prepend, trim_trailing, trim_leading, behind, split_at_double_space,
  squeeze, squeeze_from,
}

-- No space behind a space (or the start), and none at the end.
abbrev is_single_from : Bool → List ℕ → Bool
is_single_from true [] = false
is_single_from false [] = true
is_single_from true (b ∷ bytes) = if is_space b then false else is_single_from false bytes
is_single_from false (b ∷ bytes) = is_single_from (is_space b) bytes

-- No leading space, no trailing one, and never two in a row.
abbrev pub is_single_spaced : List ℕ → Bool
is_single_spaced [] = true
is_single_spaced (b ∷ bytes) = is_single_from true (b ∷ bytes)

abbrev pub drop_spaces : List ℕ → List ℕ
drop_spaces [] = []
drop_spaces (b ∷ bytes) = if is_space b then drop_spaces bytes else b ∷ drop_spaces bytes

-- The last byte is there and is no space.
abbrev ends_well : List ℕ → Bool
ends_well [] = false
ends_well (b ∷ []) = if is_space b then false else true
ends_well (b ∷ d ∷ rest) = ends_well (d ∷ rest)

abbrev pub is_trimmed : List ℕ → Bool
is_trimmed [] = true
is_trimmed (b ∷ bytes) = if is_space b then false else ends_well (b ∷ bytes)

abbrev empty_or_ends_well : List ℕ → Bool
empty_or_ends_well [] = true
empty_or_ends_well (b ∷ bytes) = ends_well (b ∷ bytes)

single_ends : (b : ℕ) → is_space b ≡ false → ends_well (b ∷ []) ≡ true
single_ends b e = ap (λ t. if t then false else true) e

pub prepend_byte : (b : ℕ) → is_space b ≡ false → prepend b [] ≡ b ∷ []
prepend_byte b e = rw e refl

pub prepend_space : (b : ℕ) → is_space b ≡ true → prepend b [] ≡ []
prepend_space b e = rw e refl

prepend_ends :
    (b : ℕ) (bytes : List ℕ)
    → empty_or_ends_well bytes ≡ true
    → empty_or_ends_well (prepend b bytes) ≡ true
prepend_ends b [] h = elim (Bool-cases (is_space b)) [
  | inl e ↦ ap empty_or_ends_well (prepend_space b e)
  | inr e ↦ ap empty_or_ends_well (prepend_byte b e) ∙ single_ends b e
]
prepend_ends b (d ∷ rest) h = h

pub trim_trailing_ends : (bytes : List ℕ) → empty_or_ends_well (trim_trailing bytes) ≡ true
unfolding trim_trailing
trim_trailing_ends [] = refl
trim_trailing_ends (b ∷ bytes) = prepend_ends b (trim_trailing bytes) (trim_trailing_ends bytes)

pub trim_leading_space :
    (b : ℕ) (bytes : List ℕ) → is_space b ≡ true → trim_leading (b ∷ bytes) ≡ trim_leading bytes
unfolding trim_leading
trim_leading_space b bytes e = rw e refl

pub trim_leading_byte :
    (b : ℕ) (bytes : List ℕ) → is_space b ≡ false → trim_leading (b ∷ bytes) ≡ b ∷ bytes
unfolding trim_leading
trim_leading_byte b bytes e = rw e refl

trimmed_byte :
    (b : ℕ) (bytes : List ℕ)
    → is_space b ≡ false
    → ends_well (b ∷ bytes) ≡ true
    → is_trimmed (b ∷ bytes) ≡ true
trimmed_byte b bytes e h = ap (λ t. if t then false else ends_well (b ∷ bytes)) e ∙ h

pub trim_leading_trimmed :
    (bytes : List ℕ) → empty_or_ends_well bytes ≡ true → is_trimmed (trim_leading bytes) ≡ true
trim_leading_trimmed [] h = unfold trim_leading in refl
trim_leading_trimmed (b ∷ []) h = elim (Bool-cases (is_space b)) [
  | inl e ↦ ap is_trimmed (trim_leading_space b [] e) ∙ trim_leading_trimmed [] refl
  | inr e ↦ ap is_trimmed (trim_leading_byte b [] e) ∙ trimmed_byte b [] e h
]
trim_leading_trimmed (b ∷ d ∷ rest) h = elim (Bool-cases (is_space b)) [
  | inl e ↦ ap is_trimmed (trim_leading_space b (d ∷ rest) e) ∙ trim_leading_trimmed (d ∷ rest) h
  | inr e ↦ ap is_trimmed (trim_leading_byte b (d ∷ rest) e) ∙ trimmed_byte b (d ∷ rest) e h
]

tail_ends :
    (b : ℕ) (bytes : List ℕ) → ends_well (b ∷ bytes) ≡ true → empty_or_ends_well bytes ≡ true
tail_ends b [] h = refl
tail_ends b (d ∷ rest) h = h

tail_ends_well :
    (b : ℕ) (bytes : List ℕ)
    → is_space b ≡ true
    → ends_well (b ∷ bytes) ≡ true
    → ends_well bytes ≡ true
tail_ends_well b [] e h = let h' = rw e at h in cc h'
tail_ends_well b (d ∷ rest) e h = h

pub squeeze_first :
    (b : ℕ) (bytes : List ℕ)
    → is_space b ≡ true
    → squeeze 0 (b ∷ bytes) ≡ (b ∷ (squeeze 1 bytes).0, (squeeze 1 bytes).1)
unfolding squeeze
squeeze_first b bytes e = rw e refl

pub squeeze_next :
    (n b : ℕ) (bytes : List ℕ)
    → is_space b ≡ true
    → squeeze (suc n) (b ∷ bytes) ≡ squeeze (suc (suc n)) bytes
unfolding squeeze
squeeze_next n b bytes e = rw e refl

pub squeeze_byte :
    (n b : ℕ) (bytes : List ℕ)
    → is_space b ≡ false
    → squeeze n (b ∷ bytes) ≡ (b ∷ (squeeze 0 bytes).0, (squeeze 0 bytes).1)
unfolding squeeze
squeeze_byte n b bytes e = rw e refl

-- Behind a byte that is no space, the count does not matter.
squeeze_keep :
    (n : ℕ) (bytes : List ℕ)
    → starts_with_space bytes ≡ false
    → (squeeze n bytes).0 ≡ (squeeze 0 bytes).0
unfolding squeeze
squeeze_keep n [] h = refl
squeeze_keep n (b ∷ bytes) h =
    ap (λ r. r.0) (squeeze_byte n b bytes h ∙ sym (squeeze_byte 0 b bytes h))

squeeze_ends : (n : ℕ) (bytes : List ℕ) → ends_well bytes ≡ true → (squeeze n bytes).1 ≡ 0
squeeze_ends n [] h = cc h
squeeze_ends zero (b ∷ []) h = elim (Bool-cases (is_space b)) [
  | inl e ↦ let h' = rw e at h in cc h'
  | inr e ↦ ap (λ r. r.1) (squeeze_byte 0 b [] e) ∙ (unfold squeeze in refl)
]
squeeze_ends (suc n) (b ∷ []) h = elim (Bool-cases (is_space b)) [
  | inl e ↦ let h' = rw e at h in cc h'
  | inr e ↦ ap (λ r. r.1) (squeeze_byte (suc n) b [] e) ∙ (unfold squeeze in refl)
]
squeeze_ends zero (b ∷ d ∷ rest) h = elim (Bool-cases (is_space b)) [
  | inl e ↦ ap (λ r. r.1) (squeeze_first b (d ∷ rest) e) ∙ squeeze_ends 1 (d ∷ rest) h
  | inr e ↦ ap (λ r. r.1) (squeeze_byte 0 b (d ∷ rest) e) ∙ squeeze_ends 0 (d ∷ rest) h
]
squeeze_ends (suc n) (b ∷ d ∷ rest) h = elim (Bool-cases (is_space b)) [
  | inl e ↦ ap (λ r. r.1) (squeeze_next n b (d ∷ rest) e) ∙ squeeze_ends (suc (suc n)) (d ∷ rest) h
  | inr e ↦ ap (λ r. r.1) (squeeze_byte (suc n) b (d ∷ rest) e) ∙ squeeze_ends 0 (d ∷ rest) h
]

split_double :
    (b : ℕ) (bytes : List ℕ)
    → (is_space b && starts_with_space bytes) ≡ true
    → split_at_double_space (b ∷ bytes) ≡ some ([], b ∷ bytes)
unfolding split_at_double_space
split_double b bytes e = rw e refl

split_single :
    (b : ℕ) (bytes : List ℕ)
    → (is_space b && starts_with_space bytes) ≡ false
    → split_at_double_space (b ∷ bytes) ≡ behind b (split_at_double_space bytes)
unfolding split_at_double_space
split_single b bytes e = rw e refl

behind_lem :
    (b : ℕ) (bytes : List ℕ) (o : Option (List ℕ × List ℕ))
    → squeeze_from 0 (b ∷ bytes) (behind b o)
      ≡ (b ∷ (squeeze_from 0 bytes o).0, (squeeze_from 0 bytes o).1)
behind_lem b bytes none = refl
behind_lem b bytes (some (before, from)) = refl

squeeze_behind :
    (b : ℕ) (bytes : List ℕ)
    → (is_space b && starts_with_space bytes) ≡ false
    → squeeze_from 0 (b ∷ bytes) (split_at_double_space (b ∷ bytes)) ≡ (
      b ∷ (squeeze_from 0 bytes (split_at_double_space bytes)).0,
      (squeeze_from 0 bytes (split_at_double_space bytes)).1,
    )
squeeze_behind b bytes s =
    ap (squeeze_from 0 (b ∷ bytes)) (split_single b bytes s)
    ∙ behind_lem b bytes (split_at_double_space bytes)

squeeze_cons :
    (b : ℕ) (bytes : List ℕ)
    → (is_space b && starts_with_space bytes) ≡ false
    → (squeeze 0 (b ∷ bytes)).0 ≡ b ∷ (squeeze 0 bytes).0
squeeze_cons b bytes s = elim (Bool-cases (is_space b)) [
  | inl e ↦
      let s' = rw e at s in
      ap (λ r. r.0) (squeeze_first b bytes e) ∙ ap (λ r. b ∷ r) (squeeze_keep 1 bytes s')
  | inr e ↦ ap (λ r. r.0) (squeeze_byte 0 b bytes e)
]

-- The text before the first double space is left alone by the loop as well.
pub squeeze_from_lem :
    (bytes : List ℕ) → (squeeze_from 0 bytes (split_at_double_space bytes)).0 ≡ (squeeze 0 bytes).0
squeeze_from_lem [] = unfold split_at_double_space squeeze in refl
squeeze_from_lem (b ∷ bytes) = elim (Bool-cases (is_space b && starts_with_space bytes)) [
  | inl s ↦ ap (λ o. (squeeze_from 0 (b ∷ bytes) o).0) (split_double b bytes s)
  | inr s ↦
      ap (λ r. r.0) (squeeze_behind b bytes s)
      ∙ ap (λ r. b ∷ r) (squeeze_from_lem bytes)
      ∙ sym (squeeze_cons b bytes s)
]

pub squeeze_from_ends :
    (bytes : List ℕ)
    → empty_or_ends_well bytes ≡ true
    → (squeeze_from 0 bytes (split_at_double_space bytes)).1 ≡ 0
squeeze_from_ends [] h = unfold split_at_double_space in refl
squeeze_from_ends (b ∷ bytes) h = elim (Bool-cases (is_space b && starts_with_space bytes)) [
  | inl s ↦
      ap (λ o. (squeeze_from 0 (b ∷ bytes) o).1) (split_double b bytes s)
      ∙ squeeze_ends 0 (b ∷ bytes) h
  | inr s ↦ ap (λ r. r.1) (squeeze_behind b bytes s) ∙ squeeze_from_ends bytes (tail_ends b bytes h)
]

-- The loop leaves single spaces, behind a byte and behind a space.
squeeze_single :
    (bytes : List ℕ)
    → (empty_or_ends_well bytes ≡ true → is_single_from false (squeeze 0 bytes).0 ≡ true)
      × ((n : ℕ) → ends_well bytes ≡ true → is_single_from true (squeeze (suc n) bytes).0 ≡ true)
squeeze_single [] = (λ h. unfold squeeze in refl, λ n h. cc h)
squeeze_single (b ∷ bytes) = elim (Bool-cases (is_space b)) [
  | inl e ↦ (
    λ h.
        ap (λ r. is_single_from false r.0) (squeeze_first b bytes e)
        ∙ ap (λ t. is_single_from t (squeeze 1 bytes).0) e
        ∙ (squeeze_single bytes).1 0 (tail_ends_well b bytes e h),
    λ n h.
        ap (λ r. is_single_from true r.0) (squeeze_next n b bytes e)
        ∙ (squeeze_single bytes).1 (suc n) (tail_ends_well b bytes e h),
  )
  | inr e ↦ (
    λ h.
        ap (λ r. is_single_from false r.0) (squeeze_byte 0 b bytes e)
        ∙ ap (λ t. is_single_from t (squeeze 0 bytes).0) e
        ∙ (squeeze_single bytes).0 (tail_ends b bytes h),
    λ n h.
        ap (λ r. is_single_from true r.0) (squeeze_byte (suc n) b bytes e)
        ∙ ap (λ t. if t then false else is_single_from false (squeeze 0 bytes).0) e
        ∙ (squeeze_single bytes).0 (tail_ends b bytes h),
  )
]

pub squeeze_trimmed :
    (bytes : List ℕ) → is_trimmed bytes ≡ true → is_single_spaced (squeeze 0 bytes).0 ≡ true
squeeze_trimmed [] h = unfold squeeze in refl
squeeze_trimmed (b ∷ bytes) h = elim (Bool-cases (is_space b)) [
  | inl e ↦ let h' = rw e at h in cc h'
  | inr e ↦
      let h' = rw e at h in
      ap (λ r. is_single_spaced r.0) (squeeze_byte 0 b bytes e)
      ∙ ap (λ t. if t then false else is_single_from false (squeeze 0 bytes).0) e
      ∙ (squeeze_single bytes).0 (tail_ends b bytes h')
]

pub trimmed_ends : (bytes : List ℕ) → is_trimmed bytes ≡ true → empty_or_ends_well bytes ≡ true
trimmed_ends [] h = refl
trimmed_ends (b ∷ bytes) h = elim (Bool-cases (is_space b)) [
  | inl e ↦ let h' = rw e at h in cc h'
  | inr e ↦ let h' = rw e at h in h'
]
