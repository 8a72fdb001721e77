-- ===== src/Tokens/Eviction.antt =====
-- What InsertToken drops and keeps, and how the map grows where its search finds nothing to evict.
use rolesanywhere_credential.Prelude.{
  ℕ, ◌+◌, ◌<◌, ◌≡◌, ap, ◌∙◌, ◌⊎◌, inl, inr, HasDistinctKeys, false, String, List, [], ◌∷◌, none,
  some, length, lookup, insert, erase, All, eqb, if◌then◌else◌, ◌==◌, arith, eqb_iff, lookup-insert,
  lookup-erase, length-insert_absent, insert-All,
}
use rolesanywhere_credential.Prelude.Int.{◌≤ℤ◌}
use rolesanywhere_credential.Clock.{Clock, not_after_of_le}
use rolesanywhere_credential.Tokens.{
  max_tokens, TokenMap, earliest_from, earliest_expiring_token, make_room, insert_token,
}
use rolesanywhere_credential.Tokens.Bounds.{
  IsNotBeforeMax, earliest_from-le, earliest_from-mem, insert_token_never_evicts,
}

module _ (c : Clock) where
  open c use {Time, instant, after, unix_max}

  -- An entry of the map than which no entry expires earlier.
  pub record IsEarliest (token : String) (expiration : Time) (tokens : TokenMap c) : Type 0 where
    pub listed : lookup token tokens ≡ some expiration
    pub least : All (λ e. instant expiration ≤ℤ instant e.1) tokens

  lookup-evicted :
      (token : String) (expiration : Time) (tokens : TokenMap c)
      → length tokens ≡ max_tokens
      → (j : String)
      → lookup j (insert_token c token expiration tokens) ≡ (
          if token == j
          then some expiration
          else if earliest_expiring_token c tokens == j
          then none
          else lookup j tokens)
  unfolding insert_token make_room
  lookup-evicted token expiration tokens full j =
      let victim = earliest_expiring_token c tokens in
      rw ((eqb_iff _ _).1 full) (
        lookup-insert token j expiration (erase victim tokens)
        ∙ ap (λ r. if token == j then some expiration else r) (lookup-erase victim j tokens))

  -- At a full map, either some token expires no later than the start value of the search, and
  -- InsertToken drops one than which no token expires earlier; or the start value lies after no
  -- expiration, and it drops nothing but a token that is the empty text. Either way it sets the new
  -- token's expiration and leaves every other token as it was.
  pub insert_token_evicts-IsEarliest :
      (token : String) (expiration : Time) (tokens : TokenMap c)
      → HasDistinctKeys tokens
      → length tokens ≡ max_tokens
      → ((victim : String) × (earliest : Time) × IsEarliest victim earliest tokens
          × (instant earliest ≤ℤ instant unix_max)
          × ((j : String)
              → lookup j (insert_token c token expiration tokens) ≡ (
                  if token == j
                  then some expiration
                  else if victim == j
                  then none
                  else lookup j tokens)))
        ⊎ (IsNotBeforeMax c tokens
            × ((j : String)
                → lookup j (insert_token c token expiration tokens) ≡ (
                    if token == j
                    then some expiration
                    else if "" == j
                    then none
                    else lookup j tokens)))
  insert_token_evicts-IsEarliest token expiration tokens distinct full =
      let (early, least) = earliest_from-le c ("", unix_max) tokens in
      elim (earliest_from-mem c ("", unix_max) tokens distinct) [
        | inl listed ↦ inl (
          earliest_expiring_token c tokens,
          (earliest_from c ("", unix_max) tokens).1,
          record { listed = unfold earliest_expiring_token in listed; least = least },
          early,
          lookup-evicted token expiration tokens full,
        )
        | inr start ↦ inr (
          All-not_after tokens (rw start at least),
          λ j.
              lookup-evicted token expiration tokens full j
              ∙ ap
                  (λ victim.
                    if token == j
                    then some expiration
                    else if victim == j
                    then none
                    else lookup j tokens)
                  (unfold earliest_expiring_token in ap (λ (r : String × Time). r.0) start),
        )
      ]
    where
      All-not_after :
          (m : TokenMap c) → All (λ e. instant unix_max ≤ℤ instant e.1) m → IsNotBeforeMax c m
      All-not_after [] h = tt
      All-not_after (e ∷ m) (le, h) = (not_after_of_le c unix_max e.1 le, All-not_after m h)

  -- Below its bound, InsertToken drops nothing.
  pub insert_token_keeps :
      (token : String) (expiration : Time) (tokens : TokenMap c) (j : String)
      → length tokens < max_tokens
      → lookup j (insert_token c token expiration tokens)
        ≡ (if token == j then some expiration else lookup j tokens)
  unfolding insert_token make_room
  insert_token_keeps token expiration tokens j room =
      rw (not_full (length tokens) max_tokens room) (lookup-insert token j expiration tokens)
    where
      not_full : (m n : ℕ) → m < n → eqb m n ≡ false
      not_full m n lt = ground arith

  -- InsertToken for each new token in turn.
  pub insert_all : List (String × Time) → TokenMap c → TokenMap c
  insert_all [] tokens = tokens
  insert_all ((token, expiration) ∷ new) tokens =
      insert_all new (insert_token c token expiration tokens)

  -- Each new token is not "", not in the map yet, and expires no earlier than `unix_max`.
  abbrev pub IsFresh : List (String × Time) → TokenMap c → Type 0
  IsFresh [] tokens = Unit
  IsFresh ((token, expiration) ∷ new) tokens =
      ((token == "") ≡ false)
      × (after unix_max expiration ≡ false)
      × (lookup token tokens ≡ none)
      × IsFresh new (insert token expiration tokens)

  -- Where the start value of the search lies after no expiration, the map grows by one with each
  -- new token, beyond every bound.
  pub length-insert_all :
      (new : List (String × Time)) (tokens : TokenMap c)
      → IsNotBeforeMax c tokens
      → lookup "" tokens ≡ none
      → IsFresh new tokens
      → length (insert_all new tokens) ≡ length new + length tokens
  unfolding insert_all
  length-insert_all [] tokens h absent fresh = omega arith
  length-insert_all ((token, expiration) ∷ new) tokens h absent (named, late, fresh, later) =
      rw (insert_token_never_evicts c token expiration tokens h absent) (
        omega (
          arith,
          length-insert_all new (insert token expiration tokens)
              (insert-All (λ e. after unix_max e.1 ≡ false) token expiration tokens late h)
              (lookup-insert token "" expiration tokens
                ∙ ap (λ b. if b then some expiration else lookup "" tokens) named
                ∙ absent)
              later,
          length-insert_absent token expiration tokens fresh,
        ))
