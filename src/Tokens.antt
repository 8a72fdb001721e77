-- ===== src/Tokens.antt =====
-- The session tokens of the local metadata endpoint: the map `tokenMap` of
-- aws_signing_helper/serve.go, with GenerateToken, InsertToken, FindTokenTTLSeconds, the check of
-- CheckValidToken and the background clean-up of Serve.
-- Each operation holds the mutex while it uses the map, so it is one step on the map.
pub mod Bounds
pub mod Eviction
pub mod Expiry
mod Tests
use Prim.Native.String.{slice}
use rolesanywhere_credential.Prelude.{
  ℕ, ◌≡◌, Bool, true, false, String, List, [], ◌∷◌, Option, none, some, length, lookup, insert,
  erase, ltb, leb, eqb, if◌then◌else◌, ◌==◌, ◌||◌,
}
use rolesanywhere_credential.Prelude.Int.{ℤ, pos, ltb_ℤ}
use rolesanywhere_credential.Clock.{Clock}

abbrev pub max_tokens : ℕ
max_tokens = 256

-- `rand.Read` fills 128 bytes or fails; `encode` is the standard base64 encoding.
module _ (encode : List ℕ → String) where
  unfoldable pub generate_token : ℤ → Option (List ℕ) → Option String
  generate_token len random_bytes =
      if ltb_ℤ len (pos 0) || ltb_ℤ (pos 127) len then none else elim random_bytes [
        | none ↦ none
        | some bytes ↦ elim len [ pos n ↦ some (slice (encode bytes) 0 n) | _ ↦ none ]
      ]

module _ (c : Clock) where
  open c use {Time, after, sub, unix_max}

  abbrev pub TokenMap : Type 0
  TokenMap = List (String × Time)

  -- The loop of InsertToken over the map, from the earliest expiration seen so far and its token.
  pub earliest_from : String × Time → TokenMap → String × Time
  earliest_from (token, time) [] = (token, time)
  earliest_from (token, time) ((key, value) ∷ rest) =
      earliest_from (if after time value then (key, value) else (token, time)) rest

  -- The token that InsertToken evicts: "" where no expiration lies before `unix_max`.
  pub earliest_expiring_token : TokenMap → String
  unfolding earliest_from
  earliest_expiring_token tokens = (earliest_from ("", unix_max) tokens).0

  unfoldable pub make_room : TokenMap → TokenMap
  make_room tokens =
      if eqb (length tokens) max_tokens
      then erase (earliest_expiring_token tokens) tokens
      else tokens

  unfoldable pub insert_token : String → Time → TokenMap → TokenMap
  insert_token token expiration tokens = insert token expiration (make_room tokens)

  abbrev pub is_unexpired : Time → Option Time → Bool
  is_unexpired now none = false
  is_unexpired now (some expiration) = if after now expiration then false else true

  -- What CheckValidToken asks of the map: the token is known and its expiration has not passed.
  unfoldable pub is_valid_token : String → Time → TokenMap → Bool
  is_valid_token token now tokens = is_unexpired now (lookup token tokens)

  -- FindTokenTTLSeconds: `format_seconds d` is the decimal text of `int64(d.Seconds())`.
  unfoldable pub find_token_ttl_seconds : (ℤ → String) → String → Time → TokenMap → Option String
  find_token_ttl_seconds format_seconds token now tokens =
      if token == "" then none else elim (lookup token tokens) [
        | none ↦ none
        | some expiration ↦ some (format_seconds (sub expiration now))
      ]

  -- One tick of the background thread of Serve.
  unfoldable pub remove_expired : Time → TokenMap → TokenMap
  remove_expired now [] = []
  remove_expired now ((key, value) ∷ rest) =
      if after now value then remove_expired now rest else (key, value) ∷ remove_expired now rest
