-- ===== src/Tokens/Bounds.antt =====
-- The search of InsertToken, and what its removal keeps of the token map.
use rolesanywhere_credential.Prelude.{
  ◌≡◌, refl, ap, ◌∙◌, eq_refl, ◌⊎◌, Bool, true, false, String, [], ◌∷◌, none, some, inl, inr,
  length, lookup, insert, erase, All, HasDistinctKeys, eqb, if◌then◌else◌, arith, eq_iff,
  erase-HasDistinctKeys, erase_absent, erase-All, Bool-cases,
}
use rolesanywhere_credential.Prelude.Int.{◌≤ℤ◌}
use rolesanywhere_credential.Clock.{Clock, lt_of_after, le_of_not_after}
use rolesanywhere_credential.Tokens.{
  max_tokens, TokenMap, earliest_from, earliest_expiring_token, make_room, insert_token,
}

module _ (c : Clock) where
  open c use {Time, instant, after, unix_max, after_lem}

  -- The start value of InsertToken's search lies after no expiration of the map.
  abbrev pub IsNotBeforeMax : TokenMap c → Type 0
  IsNotBeforeMax tokens = All (λ e. after unix_max e.1 ≡ false) tokens

  pub earliest_from_stays :
      (token : String) (tokens : TokenMap c)
      → IsNotBeforeMax tokens
      → earliest_from c (token, unix_max) tokens ≡ (token, unix_max)
  unfolding earliest_from
  earliest_from_stays token [] h = refl
  earliest_from_stays token ((k, v) ∷ rest) h = rw h.0 (earliest_from_stays token rest h.1)

  -- An entry of the tail is one of the whole map.
  lookup_tail :
      (k j : String) (v w : Time) (rest : TokenMap c)
      → lookup k rest ≡ none
      → lookup j rest ≡ some v
      → lookup j ((k, w) ∷ rest) ≡ some v
  unfolding lookup
  lookup_tail k j v w rest absent h = ground (arith, eq_iff k j)

  -- The search answers with an entry of the map, or with the entry that it started from.
  pub earliest_from-mem :
      (start : String × Time) (tokens : TokenMap c)
      → HasDistinctKeys tokens
      → (lookup (earliest_from c start tokens).0 tokens ≡ some (earliest_from c start tokens).1)
        ⊎ (earliest_from c start tokens ≡ start)
  unfolding earliest_from
  earliest_from-mem (t, v) [] d = inr refl
  earliest_from-mem (t, v) ((k, w) ∷ rest) d = elim (Bool-cases (after v w)) [
    | inl e ↦ rw e (elim (earliest_from-mem (k, w) rest d.1) [
      | inl h ↦ inl (lookup_tail k _ _ w rest d.0 h)
      | inr h ↦ inl (rw h (unfold lookup in rw (eq_refl k)))
    ])
    | inr e ↦ rw e (elim (earliest_from-mem (t, v) rest d.1) [
      | inl h ↦ inl (lookup_tail k _ _ w rest d.0 h)
      | inr h ↦ inr h
    ])
  ]

  -- The answer is not after the start, nor after any expiration of the map.
  pub earliest_from-le :
      (start : String × Time) (tokens : TokenMap c)
      → (instant (earliest_from c start tokens).1 ≤ℤ instant start.1)
        × All (λ e. instant (earliest_from c start tokens).1 ≤ℤ instant e.1) tokens
  unfolding earliest_from
  earliest_from-le (t, v) [] = (omega arith, tt)
  earliest_from-le (t, v) ((k, w) ∷ rest) =
      by_test (after v w) refl (earliest_from-le (k, w) rest) (earliest_from-le (t, v) rest)
    where
      IsEarliest : String × Time → Time → Type 0
      IsEarliest start u =
          (instant (earliest_from c start rest).1 ≤ℤ instant u)
          × All (λ e. instant (earliest_from c start rest).1 ≤ℤ instant e.1) rest

      by_test :
          (b : Bool)
          → after v w ≡ b
          → IsEarliest (k, w) w
          → IsEarliest (t, v) v
          → let r = earliest_from c (if b then (k, w) else (t, v)) rest in
            (instant r.1 ≤ℤ instant v)
            × ((instant r.1 ≤ℤ instant w) × All (λ e. instant r.1 ≤ℤ instant e.1) rest)
      by_test true e (le, all) _ = (omega (arith, le, lt_of_after c v w e), (le, all))
      by_test false e _ (le, all) = (le, (omega (arith, le, le_of_not_after c v w e), all))

  pub make_room-HasDistinctKeys :
      (tokens : TokenMap c) → HasDistinctKeys tokens → HasDistinctKeys (make_room c tokens)
  unfolding make_room
  make_room-HasDistinctKeys tokens d =
      ground (arith, erase-HasDistinctKeys (earliest_expiring_token c tokens) tokens d)

  pub make_room-All :
      (P : String × Time → Type 0) (tokens : TokenMap c) → All P tokens → All P (make_room c tokens)
  unfolding make_room
  make_room-All P tokens h = elim (Bool-cases (eqb (length tokens) max_tokens)) [
    | inl e ↦ rw e (erase-All P (earliest_expiring_token c tokens) tokens h)
    | inr e ↦ rw e h
  ]

  make_room_stays :
      (tokens : TokenMap c)
      → IsNotBeforeMax tokens
      → lookup "" tokens ≡ none
      → make_room c tokens ≡ tokens
  unfolding make_room earliest_expiring_token
  make_room_stays tokens h absent = elim (Bool-cases (eqb (length tokens) max_tokens)) [
    | inl full ↦
        let stays = ap (λ (r : String × Time). r.0) (earliest_from_stays "" tokens h) in
        rw full (ap (λ k. erase k tokens) stays ∙ erase_absent "" tokens absent)
    | inr room ↦ rw room
  ]

  -- If no expiration of the map lies before the start value of the search and "" is no token,
  -- then InsertToken evicts nothing, however full the map is.
  pub insert_token_never_evicts :
      (token : String) (expiration : Time) (tokens : TokenMap c)
      → IsNotBeforeMax tokens
      → lookup "" tokens ≡ none
      → insert_token c token expiration tokens ≡ insert token expiration tokens
  unfolding insert_token
  insert_token_never_evicts token expiration tokens h absent =
      ap (insert token expiration) (make_room_stays tokens h absent)
