-- ===== src/Tpm/Padding.antt =====
-- The digest of the size of a key.
use rolesanywhere_credential.Prelude.{
  ℕ, zero, suc, ◌+◌, ◌≤◌, ◌≡◌, refl, sym, ap, ◌∙◌, inl, inr, List, [], ◌∷◌, length, arith, ltb,
  Bool-cases,
}
use rolesanywhere_credential.Pkcs11.Encoding.{set_bytes}
use rolesanywhere_credential.Tpm.Digest.{first_bytes, truncated, pad_loop, fit_digest}

pad_loop_fits :
    (n size : ℕ) (digest : List ℕ)
    → length digest ≤ size
    → size ≤ length digest + n
    → (length (pad_loop n size digest) ≡ size)
      × (set_bytes 0 (pad_loop n size digest) ≡ set_bytes 0 digest)
unfolding pad_loop
pad_loop_fits zero size digest h enough = (omega (arith, h, enough), refl)
pad_loop_fits (suc n) size digest h enough = elim (Bool-cases (ltb (length digest) size)) [
  | inl e ↦ rw e (pad_loop_fits n size (0 ∷ digest) (ground (arith, e)) (omega (arith, enough)))
  | inr e ↦ rw e (ground (arith, e, h), refl)
]

length-first_bytes :
    (n : ℕ) (digest : List ℕ) → n ≤ length digest → length (first_bytes n digest) ≡ n
unfolding first_bytes
length-first_bytes zero digest h = refl
length-first_bytes (suc n) [] h = absurd (omega (arith, h))
length-first_bytes (suc n) (b ∷ digest) h =
    omega (arith, length-first_bytes n digest (omega (arith, h)))

first_bytes-all : (n : ℕ) (digest : List ℕ) → length digest ≤ n → first_bytes n digest ≡ digest
unfolding first_bytes
first_bytes-all zero [] h = refl
first_bytes-all zero (b ∷ digest) h = absurd (omega (arith, h))
first_bytes-all (suc n) [] h = refl
first_bytes-all (suc n) (b ∷ digest) h =
    ap (λ rest. b ∷ rest) (first_bytes-all n digest (omega (arith, h)))

truncated_fits :
    (size : ℕ) (digest : List ℕ)
    → (length (truncated size digest) ≤ size) × (truncated size digest ≡ first_bytes size digest)
unfolding first_bytes
truncated_fits size digest = elim (Bool-cases (ltb size (length digest))) [
  | inl e ↦ rw e (omega (arith, length-first_bytes size digest (ground (arith, e))), refl)
  | inr e ↦ rw e (ground (arith, e), sym (first_bytes-all size digest (ground (arith, e))))
]

-- The digest that is given to the TPM for a key on a curve has the bytes of the key's size, and is,
-- as a number, the digest cut to its first bytes of that size.
pub fit_digest_fits :
    (size : ℕ) (digest : List ℕ)
    → (length (fit_digest size digest) ≡ size)
      × (set_bytes 0 (fit_digest size digest) ≡ set_bytes 0 (first_bytes size digest))
unfolding fit_digest
fit_digest_fits size digest =
    let cut = truncated_fits size digest in
    let fits = pad_loop_fits size size (truncated size digest) cut.0 (omega arith) in
    (fits.0, fits.1 ∙ ap (set_bytes 0) cut.1)
