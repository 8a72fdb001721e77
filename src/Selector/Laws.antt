-- ===== src/Selector/Laws.antt =====
-- The map of a certificate selector.
use rolesanywhere_credential.Prelude.{
  ◌≡◌, refl, ap, ◌∙◌, inl, inr, true, String, List, [], ◌∷◌, Option, none, some, insert, All,
  HasDistinctKeys, insert-HasDistinctKeys, insert-All, Bool-cases,
}
use mathlib.Core.Path.{subst}
use rolesanywhere_credential.Results.{Result, ok, err, returned, panicked}
use rolesanywhere_credential.Selector.{
  Reading, is_valid_key, add_entries, named, Loop, insert_value, add_value, add_key, add_strings,
  get_string_map,
}

-- A map that a selector may give: its keys are distinct, and each is one of the three.
abbrev pub IsSelectorMap : List (String × String) → Type 0
IsSelectorMap m = HasDistinctKeys m × All (λ e. is_valid_key e.0 ≡ true) m

insert-IsSelectorMap :
    (key value : String) (m : List (String × String))
    → is_valid_key key ≡ true
    → IsSelectorMap m
    → IsSelectorMap (insert key value m)
insert-IsSelectorMap key value m e h = (
  insert-HasDistinctKeys key value m h.0,
  insert-All (λ e. is_valid_key e.0 ≡ true) key value m e h.1,
)

add_entries-IsSelectorMap :
    (m entries : List (String × String)) {result : List (String × String)}
    → IsSelectorMap m
    → add_entries m entries ≡ ok result
    → IsSelectorMap result
unfolding add_entries
add_entries-IsSelectorMap m [] v h = subst IsSelectorMap (cc h) v
add_entries-IsSelectorMap m ((key, value) ∷ rest) v h = elim (Bool-cases (is_valid_key key)) [
  | inl e ↦
      let h' = rw e at h in
      add_entries-IsSelectorMap (insert key value m) rest (insert-IsSelectorMap key value m e v) h'
  | inr e ↦ let h' = rw e at h in cc h'
]

module _ (g : Reading) where
  abbrev IsGood : Loop g → Type 0
  IsGood loop =
      (m : List (String × String)) (result : List (String × String))
      → IsSelectorMap m
      → loop m ≡ returned (ok result)
      → IsSelectorMap result

  insert_value-IsSelectorMap :
      (key : String) (m : List (String × String)) (loop : Loop g) (value : Result String)
      {result : List (String × String)}
      → is_valid_key key ≡ true
      → IsGood loop
      → IsSelectorMap m
      → insert_value g key m loop value ≡ returned (ok result)
      → IsSelectorMap result
  unfolding insert_value
  insert_value-IsSelectorMap key m loop (err e) e' l v h = cc h
  insert_value-IsSelectorMap key m loop (ok value) {result} e l v h =
      l (insert key value m) result (insert-IsSelectorMap key value m e v) h

  add_value-IsSelectorMap :
      (key : String) (m : List (String × String)) (loop : Loop g) (token : Option String)
      {result : List (String × String)}
      → is_valid_key key ≡ true
      → IsGood loop
      → IsSelectorMap m
      → add_value g key m loop token ≡ returned (ok result)
      → IsSelectorMap result
  unfolding add_value
  add_value-IsSelectorMap key m loop none e l v h = cc h
  add_value-IsSelectorMap key m loop (some token) e l v h =
      insert_value-IsSelectorMap key m loop
        (named g "Value" "invalid cert selector map value" (g.split token "=")) e l v h

  add_key-IsSelectorMap :
      (m : List (String × String)) (loop : Loop g) (token : Option String) (key : Result String)
      {result : List (String × String)}
      → IsGood loop
      → IsSelectorMap m
      → add_key g m loop token key ≡ returned (ok result)
      → IsSelectorMap result
  unfolding add_key
  add_key-IsSelectorMap m loop token (err e) l v h = cc h
  add_key-IsSelectorMap m loop token (ok key) l v h = elim (Bool-cases (is_valid_key key)) [
    | inl e ↦ let h' = rw e at h in add_value-IsSelectorMap key m loop token e l v h'
    | inr e ↦ let h' = rw e at h in cc h'
  ]

  add_strings-IsSelectorMap : (entries : List String) → IsGood (add_strings g entries)
  unfolding add_strings
  add_strings-IsSelectorMap [] m result v h = subst IsSelectorMap (cc h) v
  add_strings-IsSelectorMap (e ∷ rest) m result v h =
      add_key-IsSelectorMap m (add_strings g rest) (g.cut e ",").1
        (named g "Key" "invalid cert selector map key" (g.split (g.cut e ",").0 "="))
        (add_strings-IsSelectorMap rest) v h

  -- A selector string that is accepted gives a map with distinct keys, each of them one of
  -- x509Subject, x509Issuer and x509Serial.
  pub get_string_map-IsSelectorMap :
      (s : String) {result : List (String × String)}
      → get_string_map g s ≡ returned (ok result)
      → IsSelectorMap result
  unfolding get_string_map
  get_string_map-IsSelectorMap s {result} h =
      add_strings-IsSelectorMap ((g.split s " ").0 ∷ (g.split s " ").1) [] result (tt, tt) h

  -- An entry with a valid key and no comma makes the selector's parser panic, once the entries
  -- before it are accepted: the value is read at index 1 of a slice of one element.
  pub add_strings_panics :
      (e : String) (rest : List String) (m : List (String × String)) (part : String) {key : String}
      → g.cut e "," ≡ (part, none)
      → named g "Key" "invalid cert selector map key" (g.split part "=") ≡ ok key
      → is_valid_key key ≡ true
      → add_strings g (e ∷ rest) m ≡ panicked
  unfolding add_strings add_key add_value
  add_strings_panics e rest m part {key} no_comma h valid =
      ap
        (λ c.
          add_key g m (add_strings g rest) c.1
            (named g "Key" "invalid cert selector map key" (g.split c.0 "=")))
        no_comma
      ∙ ap (add_key g m (add_strings g rest) none) h
      ∙ (rw valid refl)
