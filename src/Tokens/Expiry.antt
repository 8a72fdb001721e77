-- ===== src/Tokens/Expiry.antt =====
-- When a token is valid: against its expiration, the clean-up and the passing of time.
use rolesanywhere_credential.Prelude.{
  ◌≡◌, refl, ap, ◌∙◌, sym, ◌↔◌, true, String, [], ◌∷◌, Option, none, some, inl, inr, lookup,
  HasDistinctKeys, if◌then◌else◌, arith, eq_iff, Bool-cases, lookup-insert_self,
}
use rolesanywhere_credential.Prelude.Int.{ℤ, ◌≤ℤ◌, ◌+ℤ◌}
use rolesanywhere_credential.Clock.{Clock, lt_of_after, le_of_not_after, not_after_of_le}
use rolesanywhere_credential.Tokens.{
  TokenMap, make_room, insert_token, is_unexpired, is_valid_token, remove_expired,
}

module _ (c : Clock) where
  open c use {Time, instant, after, add, instant-add}

  abbrev pub unless_expired : Time → Option Time → Option Time
  unless_expired now none = none
  unless_expired now (some v) = if after now v then none else some v

  -- The clean-up keeps exactly the tokens whose expiration has not passed, with their expirations.
  pub lookup-remove_expired :
      (now : Time) (tokens : TokenMap c) (j : String)
      → HasDistinctKeys tokens
      → lookup j (remove_expired c now tokens) ≡ unless_expired now (lookup j tokens)
  unfolding remove_expired lookup
  lookup-remove_expired now [] j d = refl
  lookup-remove_expired now ((k, v) ∷ rest) j d =
      ground (arith, eq_iff k j, lookup-remove_expired now rest j d.1)

  pub remove_expired-HasDistinctKeys :
      (now : Time) (tokens : TokenMap c)
      → HasDistinctKeys tokens
      → HasDistinctKeys (remove_expired c now tokens)
  unfolding remove_expired
  remove_expired-HasDistinctKeys now [] d = tt
  remove_expired-HasDistinctKeys now ((k, v) ∷ rest) d =
      ground
        (arith, remove_expired-HasDistinctKeys now rest d.1, lookup-remove_expired now rest k d.1)

  after_mono :
      (now later v : Time)
      → instant now ≤ℤ instant later
      → after now v ≡ true
      → after later v ≡ true
  after_mono now later v le h = elim (Bool-cases (after later v)) [
    | inl e ↦ e
    | inr e ↦ absurd (omega (arith, lt_of_after c now v h, le_of_not_after c later v e))
  ]

  -- The clean-up at one moment changes the answer of no token check at that moment or later.
  pub is_valid_token-remove_expired :
      (token : String) (now later : Time) (tokens : TokenMap c)
      → HasDistinctKeys tokens
      → instant now ≤ℤ instant later
      → is_valid_token c token later (remove_expired c now tokens)
        ≡ is_valid_token c token later tokens
  unfolding is_valid_token
  is_valid_token-remove_expired token now later tokens d le =
      ap (is_unexpired c later) (lookup-remove_expired now tokens token d)
      ∙ by_entry (lookup token tokens)
    where
      by_entry :
          (o : Option Time) → is_unexpired c later (unless_expired now o) ≡ is_unexpired c later o
      by_entry none = refl
      by_entry (some v) = elim (Bool-cases (after now v)) [
        | inl e ↦ rw (e, after_mono now later v le e)
        | inr e ↦ rw e
      ]

  -- A token that InsertToken stores at `issued` with `lifetime` is valid exactly until `issued`
  -- plus `lifetime`, the end included.
  pub is_valid_token-insert_token :
      (token : String) (issued now : Time) (lifetime : ℤ) (tokens : TokenMap c)
      → (is_valid_token c token now (insert_token c token (add issued lifetime) tokens) ≡ true)
        ↔ (instant now ≤ℤ instant issued +ℤ lifetime)
  unfolding is_valid_token insert_token
  is_valid_token-insert_token token issued now lifetime tokens =
      let stored =
        ap (is_unexpired c now)
          (lookup-insert_self token (add issued lifetime) (make_room c tokens)) in
      (λ h. to (sym stored ∙ h), λ le. stored ∙ from le)
    where
      to :
          is_unexpired c now (some (add issued lifetime)) ≡ true
          → instant now ≤ℤ instant issued +ℤ lifetime
      to h =
          rw (← instant-add issued lifetime)
            (le_of_not_after c now (add issued lifetime) (ground arith))

      from :
          instant now ≤ℤ instant issued +ℤ lifetime
          → is_unexpired c now (some (add issued lifetime)) ≡ true
      from le =
          rw (not_after_of_le c now (add issued lifetime) (rw (instant-add issued lifetime) le))
