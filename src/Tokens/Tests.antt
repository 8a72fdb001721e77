-- ===== src/Tokens/Tests.antt =====
-- Runs of the token map, and its theorems at concrete maps.
use rolesanywhere_credential.Prelude.{
  ℕ, zero, suc, ◌+◌, ◌≡◌, refl, ◌↔◌, ap, ◌⊎◌, Bool, true, false, String, List, [], ◌∷◌, none, some,
  ◌&&◌, length, lookup, insert, erase, HasDistinctKeys, if◌then◌else◌, ◌==◌, ◌+++◌, is_some, not,
  arith,
}
use rolesanywhere_credential.Prelude.Int.{ℤ, pos, ltb_ℤ, ◌≤ℤ◌, ◌+ℤ◌, ◌-ℤ◌}
use rolesanywhere_credential.Samples.{far_clock, wrapping_clock}
use rolesanywhere_credential.Tokens.{
  max_tokens, generate_token, earliest_from, earliest_expiring_token, make_room, insert_token,
  is_valid_token, find_token_ttl_seconds, remove_expired,
}
use rolesanywhere_credential.Tokens.Bounds.{IsNotBeforeMax}
use rolesanywhere_credential.Tokens.Eviction.{
  IsEarliest, insert_token_evicts-IsEarliest, insert_all, length-insert_all,
}
use rolesanywhere_credential.Tokens.Expiry.{
  is_valid_token-remove_expired, is_valid_token-insert_token,
}

tokens : Unit {0}
unfolding insert_token make_room earliest_expiring_token earliest_from is_valid_token remove_expired
    lookup insert erase find_token_ttl_seconds
tokens = tt

abbrev two : List (String × ℤ)
two = ("a", pos 20) ∷ ("b", pos 10) ∷ []

-- 1 to n letters: names for as many tokens as wanted.
abbrev name : ℕ → String
name zero = "t"
name (suc n) = "x" +++ name n

abbrev crowd : ℕ → List (String × ℤ)
crowd zero = []
crowd (suc n) = (name n, pos (n + 100)) ∷ crowd n

abbrev all_distinct : List (String × ℤ) → Bool
all_distinct [] = true
all_distinct ((k, v) ∷ m) = not (is_some (lookup k m)) && all_distinct m

all_distinct_sound : (m : List (String × ℤ)) → all_distinct m ≡ true → HasDistinctKeys m
all_distinct_sound [] h = tt
all_distinct_sound ((k, v) ∷ m) h = ground (arith, all_distinct_sound m)

crowd-IsNotBeforeMax : (n : ℕ) → IsNotBeforeMax wrapping_clock (crowd n)
crowd-IsNotBeforeMax zero = tt
crowd-IsNotBeforeMax (suc n) = (ground arith, crowd-IsNotBeforeMax n)

two-HasDistinctKeys : HasDistinctKeys two
unfolding lookup
two-HasDistinctKeys = (refl, (refl, tt))

length-crowd : (n : ℕ) → length (crowd n) ≡ n
length-crowd zero = refl
length-crowd (suc n) = ap suc (length-crowd n)

crowd-distinct : all_distinct (crowd max_tokens) ≡ true
unfolding tokens
crowd-distinct = refl

crowd-HasDistinctKeys : HasDistinctKeys (crowd max_tokens)
crowd-HasDistinctKeys = all_distinct_sound (crowd max_tokens) crowd-distinct

-- On a clock whose start value of the search is late, the earliest token gives way at 256 tokens.
full_map_test :
    (length (insert_token far_clock "new" (pos 500) (crowd max_tokens)) ≡ 256)
    × (lookup "t" (insert_token far_clock "new" (pos 500) (crowd max_tokens)) ≡ none)
    × (lookup "xt" (insert_token far_clock "new" (pos 500) (crowd max_tokens)) ≡ some (pos 101))
unfolding tokens
full_map_test = (refl, refl, refl)

-- With a start value that wrapped round, nothing gives way.
wrapped_map_test : length (insert_token wrapping_clock "new" (pos 500) (crowd max_tokens)) ≡ 257
unfolding tokens
wrapped_map_test = refl

validity_test :
    (is_valid_token far_clock "a" (pos 20) two ≡ true)
    × (is_valid_token far_clock "b" (pos 20) two ≡ false)
    × (is_valid_token far_clock "c" (pos 20) two ≡ false)
unfolding tokens
validity_test = (refl, refl, refl)

ttl_test :
    find_token_ttl_seconds far_clock
      (λ d. if ltb_ℤ d (pos 6) then "short" else "long")
      "a"
      (pos 15)
      two
    ≡ some "short"
unfolding tokens ◌-ℤ◌
ttl_test = refl

generate_token_test :
    (generate_token (λ bytes. "QUJD") (pos 2) (some []) ≡ some "QU")
    × (generate_token (λ bytes. "QUJD") (pos 128) (some []) ≡ none)
    × (generate_token (λ bytes. "QUJD") (pos 2) none ≡ none)
unfolding generate_token
generate_token_test = (refl, refl, refl)

insert_token_evicts-IsEarliest_example :
    ((victim : String) × (earliest : ℤ) × IsEarliest far_clock victim earliest (crowd max_tokens)
      × (far_clock.instant earliest ≤ℤ far_clock.instant far_clock.unix_max)
      × ((j : String)
          → lookup j (insert_token far_clock "new" (pos 500) (crowd max_tokens)) ≡ (
              if "new" == j
              then some (pos 500)
              else if victim == j
              then none
              else lookup j (crowd max_tokens))))
    ⊎ (IsNotBeforeMax far_clock (crowd max_tokens)
        × ((j : String)
            → lookup j (insert_token far_clock "new" (pos 500) (crowd max_tokens)) ≡ (
                if "new" == j
                then some (pos 500)
                else if "" == j
                then none
                else lookup j (crowd max_tokens))))
insert_token_evicts-IsEarliest_example =
    insert_token_evicts-IsEarliest far_clock "new" (pos 500) (crowd max_tokens)
      crowd-HasDistinctKeys (length-crowd max_tokens)

length-insert_all_example :
    length (insert_all wrapping_clock (("c", pos 5) ∷ ("d", pos 6) ∷ []) (crowd max_tokens))
    ≡ length {A = String × ℤ} (("c", pos 5) ∷ ("d", pos 6) ∷ []) + length (crowd max_tokens)
unfolding lookup insert
length-insert_all_example =
    length-insert_all wrapping_clock (("c", pos 5) ∷ ("d", pos 6) ∷ []) (crowd max_tokens)
      (crowd-IsNotBeforeMax max_tokens) refl (refl, refl, refl, (refl, refl, refl, tt))

is_valid_token-remove_expired_example :
    is_valid_token far_clock "a" (pos 18) (remove_expired far_clock (pos 15) two)
    ≡ is_valid_token far_clock "a" (pos 18) two
is_valid_token-remove_expired_example =
    is_valid_token-remove_expired far_clock "a" (pos 15) (pos 18) two two-HasDistinctKeys
      (omega arith)

is_valid_token-insert_token_example :
    (is_valid_token far_clock "c" (pos 12) (insert_token far_clock "c" (pos 2 +ℤ pos 10) two)
      ≡ true)
    ↔ (pos 12 ≤ℤ pos 2 +ℤ pos 10)
is_valid_token-insert_token_example =
    is_valid_token-insert_token far_clock "c" (pos 2) (pos 12) (pos 10) two
