-- ===== src/Keys/Pem.antt =====
-- The PEM loops of aws_signing_helper/signer.go find what there is to find.
use rolesanywhere_credential.Prelude.{
  ℕ, zero, suc, ◌≤◌, ◌<◌, ◌≡◌, ◌≢◌, refl, inl, inr, String, List, [], ◌∷◌, Option, none, some,
  length, arith, ◌==◌, eq_iff, Bool-cases,
}
use rolesanywhere_credential.Results.{Result, ok, err}
use rolesanywhere_credential.Keys.{Block, Parsers, next_block, find_block, parse_der_from_pem}

-- What pem.Decode promises: behind a block it found, less is left to read.
module _ {Rsa Ecdsa : Type 0} where
  abbrev pub Consumes : Parsers Rsa Ecdsa → Type 0
  Consumes p =
      (bytes : List ℕ) (block : Block) (rest : List ℕ)
      → p.decode bytes ≡ (some block, rest)
      → length rest < length bytes

module _ {Rsa Ecdsa : Type 0} (p : Parsers Rsa Ecdsa) (block_type : String) where
  -- What there is to find in bytes: the first block that is of the type, behind blocks of other
  -- types; an error where bytes are left that are no block; and another where the bytes end first.
  pub data Finds : List ℕ → Result Block → Type 0 where
    ended : Finds [] (err "requested block type could not be found")
    unreadable :
        (b : ℕ) (bytes rest : List ℕ)
        → p.decode (b ∷ bytes) ≡ (none, rest)
        → Finds (b ∷ bytes) (err "unable to parse PEM data")
    first :
        (b : ℕ) (bytes : List ℕ) (block : Block) (rest : List ℕ)
        → p.decode (b ∷ bytes) ≡ (some block, rest)
        → block.block_type ≡ block_type
        → Finds (b ∷ bytes) (ok block)
    behind :
        (b : ℕ) (bytes : List ℕ) (block : Block) (rest : List ℕ) {r : Result Block}
        → p.decode (b ∷ bytes) ≡ (some block, rest)
        → block.block_type ≢ block_type
        → Finds rest r
        → Finds (b ∷ bytes) r

  next_block-Finds :
      (loop : List ℕ → Result Block) (b : ℕ) (bytes : List ℕ) (d : Option Block × List ℕ)
      → p.decode (b ∷ bytes) ≡ d
      → ((block : Block) (rest : List ℕ) → d ≡ (some block, rest) → Finds rest (loop rest))
      → Finds (b ∷ bytes) (next_block block_type loop d)
  unfolding next_block
  next_block-Finds loop b bytes (none, rest) e h = unreadable b bytes rest e
  next_block-Finds loop b bytes (some block, rest) e h =
      elim (Bool-cases (block.block_type == block_type)) [
        | inl same ↦ rw same (first b bytes block rest e ((eq_iff _ _).0 same))
        | inr other ↦ rw other (
            behind b bytes block rest e (ground (arith, eq_iff block.block_type block_type))
              (h block rest refl))
      ]

  module _ (consumes : Consumes p) where
    find_block_fuel :
        (n : ℕ) (bytes : List ℕ) → length bytes ≤ n → Finds bytes (find_block p block_type n bytes)
    unfolding find_block
    find_block_fuel zero [] h = ended
    find_block_fuel (suc n) [] h = ended
    find_block_fuel zero (b ∷ bytes) h = absurd (omega (arith, h))
    find_block_fuel (suc n) (b ∷ bytes) h =
        next_block-Finds (find_block p block_type n) b bytes (p.decode (b ∷ bytes)) refl
          (λ block rest e.
            find_block_fuel n rest (omega (arith, h, consumes (b ∷ bytes) block rest e)))

    -- On every file that can be read, parseDERFromPEM answers with the first block of the type asked
    -- for behind blocks of other types, or with an error: one where bytes that are no block come
    -- first, another where the file ends first. It is assumed that pem.Decode leaves less than it was
    -- given behind a block.
    pub parse_der_from_pem-Finds :
        (pem_data_id : String) (bytes : List ℕ)
        → p.read_file pem_data_id ≡ ok bytes
        → Finds bytes (parse_der_from_pem p pem_data_id block_type)
    unfolding parse_der_from_pem
    parse_der_from_pem-Finds pem_data_id bytes h =
        rw h (find_block_fuel (length bytes) bytes (omega arith))
