-- ===== src/Signing/Spaces.antt =====
-- What stripExcessSpaces leaves of the bytes of a value.
use rolesanywhere_credential.Prelude.{
  ℕ, zero, suc, ◌≡◌, refl, sym, ap, ◌∙◌, inl, inr, true, List, [], ◌∷◌, Bool-cases, if◌then◌else◌,
}
use rolesanywhere_credential.Signing.{
  is_space, prepend, trim_trailing, trim_leading, trim, squeeze, strip_value, strip_rounds,
  strip_excess_spaces,
}
use rolesanywhere_credential.Signing.Squeeze.{
  is_single_spaced, drop_spaces, is_trimmed, prepend_byte, prepend_space, trim_trailing_ends,
  trim_leading_space, trim_leading_byte, trim_leading_trimmed, squeeze_first, squeeze_next,
  squeeze_byte, squeeze_from_lem, squeeze_from_ends, squeeze_trimmed, trimmed_ends,
}

drop_space :
    (b : ℕ) (bytes : List ℕ) → is_space b ≡ true → drop_spaces (b ∷ bytes) ≡ drop_spaces bytes
drop_space b bytes e = ap (λ t. if t then drop_spaces bytes else b ∷ drop_spaces bytes) e

drop_cons :
    (b : ℕ) (xs ys : List ℕ)
    → drop_spaces xs ≡ drop_spaces ys
    → drop_spaces (b ∷ xs) ≡ drop_spaces (b ∷ ys)
drop_cons b xs ys h = ap (λ r. if is_space b then r else b ∷ r) h

drop_prepend : (b : ℕ) (bytes : List ℕ) → drop_spaces (prepend b bytes) ≡ drop_spaces (b ∷ bytes)
drop_prepend b [] = elim (Bool-cases (is_space b)) [
  | inl e ↦ ap drop_spaces (prepend_space b e) ∙ sym (drop_space b [] e)
  | inr e ↦ ap drop_spaces (prepend_byte b e)
]
drop_prepend b (d ∷ rest) = refl

drop_trim_trailing : (bytes : List ℕ) → drop_spaces (trim_trailing bytes) ≡ drop_spaces bytes
unfolding trim_trailing
drop_trim_trailing [] = refl
drop_trim_trailing (b ∷ bytes) =
    drop_prepend b (trim_trailing bytes)
    ∙ drop_cons b (trim_trailing bytes) bytes (drop_trim_trailing bytes)

drop_trim_leading : (bytes : List ℕ) → drop_spaces (trim_leading bytes) ≡ drop_spaces bytes
drop_trim_leading [] = unfold trim_leading in refl
drop_trim_leading (b ∷ bytes) = elim (Bool-cases (is_space b)) [
  | inl e ↦
      ap drop_spaces (trim_leading_space b bytes e)
      ∙ drop_trim_leading bytes
      ∙ sym (drop_space b bytes e)
  | inr e ↦ ap drop_spaces (trim_leading_byte b bytes e)
]

drop_squeeze : (n : ℕ) (bytes : List ℕ) → drop_spaces (squeeze n bytes).0 ≡ drop_spaces bytes
drop_squeeze n [] = unfold squeeze in refl
drop_squeeze zero (b ∷ bytes) = elim (Bool-cases (is_space b)) [
  | inl e ↦
      ap (λ r. drop_spaces r.0) (squeeze_first b bytes e)
      ∙ drop_cons b (squeeze 1 bytes).0 bytes (drop_squeeze 1 bytes)
  | inr e ↦
      ap (λ r. drop_spaces r.0) (squeeze_byte 0 b bytes e)
      ∙ drop_cons b (squeeze 0 bytes).0 bytes (drop_squeeze 0 bytes)
]
drop_squeeze (suc n) (b ∷ bytes) = elim (Bool-cases (is_space b)) [
  | inl e ↦
      ap (λ r. drop_spaces r.0) (squeeze_next n b bytes e)
      ∙ drop_squeeze (suc (suc n)) bytes
      ∙ sym (drop_space b bytes e)
  | inr e ↦
      ap (λ r. drop_spaces r.0) (squeeze_byte (suc n) b bytes e)
      ∙ drop_cons b (squeeze 0 bytes).0 bytes (drop_squeeze 0 bytes)
]

trim_trimmed : (str : List ℕ) → is_trimmed (trim str) ≡ true
trim_trimmed str = trim_leading_trimmed (trim_trailing str) (trim_trailing_ends str)

strip_value_text : (str : List ℕ) → (strip_value 0 str).0 ≡ (squeeze 0 (trim str)).0
unfolding strip_value
strip_value_text str = squeeze_from_lem (trim str)

-- No round leaves a count for the next one.
strip_value_count : (str : List ℕ) → (strip_value 0 str).1 ≡ 0
unfolding strip_value
strip_value_count str = squeeze_from_ends (trim str) (trimmed_ends (trim str) (trim_trimmed str))

-- What a value becomes: single-spaced, with the same other bytes.
abbrev pub IsStripped : List ℕ → List ℕ → Type 0
IsStripped str stripped =
    (is_single_spaced stripped ≡ true) × (drop_spaces stripped ≡ drop_spaces str)

abbrev pub AllStripped : List (List ℕ) → List (List ℕ) → Type 0
AllStripped [] [] = Unit
AllStripped [] (s ∷ rest) = ⊥
AllStripped (str ∷ vals) [] = ⊥
AllStripped (str ∷ vals) (s ∷ rest) = IsStripped str s × AllStripped vals rest

strip_value-IsStripped : (str : List ℕ) → IsStripped str (strip_value 0 str).0
strip_value-IsStripped str = (
  ap is_single_spaced (strip_value_text str) ∙ squeeze_trimmed (trim str) (trim_trimmed str),
  ap drop_spaces (strip_value_text str)
      ∙ drop_squeeze 0 (trim str)
      ∙ drop_trim_leading (trim_trailing str)
      ∙ drop_trim_trailing str,
)

strip_rounds_cons :
    (str : List ℕ) (vals : List (List ℕ))
    → strip_rounds 0 (str ∷ vals) ≡ (strip_value 0 str).0 ∷ strip_rounds 0 vals
unfolding strip_rounds
strip_rounds_cons str vals =
    ap (λ n. (strip_value 0 str).0 ∷ strip_rounds n vals) (strip_value_count str)

-- stripExcessSpaces rewrites each value to one without a leading, a trailing or a double space and
-- with the same other bytes in the same order: neither the early exit for a value without a double
-- space nor the count of spaces that is never set back between two values changes this.
pub strip_excess_spaces-AllStripped :
    (vals : List (List ℕ)) → AllStripped vals (strip_excess_spaces vals)
strip_excess_spaces-AllStripped [] = unfold strip_rounds in tt
strip_excess_spaces-AllStripped (str ∷ vals) =
    rw (strip_rounds_cons str vals)
      (strip_value-IsStripped str, strip_excess_spaces-AllStripped vals)
