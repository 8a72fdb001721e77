-- ===== src/Pkcs11/ChainLaws.antt =====
-- The certificate chain out of a token.
use rolesanywhere_credential.Prelude.{
  ℕ, zero, suc, ◌≡◌, refl, sym, ap, ◌∙◌, inl, inr, Bool, true, false, not, List, [], ◌∷◌, Option,
  none, some, length, Bool-cases, ◌-◌, ◌≤◌, arith,
}
use rolesanywhere_credential.Certificate.{Certificate}
use rolesanywhere_credential.Pkcs11.{Device}
use rolesanywhere_credential.Pkcs11.Chain.{
  set_at, last_or, drop_last, swap_remove, cert_issues, find_issuer, next_in_chain, chain_loop,
  chain_of,
}

-- The list of certificates gets shorter in each round.
length-set_at {ℓ} : {A : Type ℓ} (i : ℕ) (x : A) (xs : List A) → length (set_at i x xs) ≡ length xs
unfolding set_at
length-set_at i x [] = refl
length-set_at zero x (y ∷ rest) = refl
length-set_at (suc i) x (y ∷ rest) = omega (arith, length-set_at i x rest)

length-drop_last {ℓ} : {A : Type ℓ} (xs : List A) → length (drop_last xs) ≡ length xs - 1
unfolding drop_last
length-drop_last [] = refl
length-drop_last (x ∷ []) = refl
length-drop_last (x ∷ y ∷ rest) = omega (arith, length-drop_last (y ∷ rest))

length-swap_remove {ℓ} :
    {A : Type ℓ} (i : ℕ) (xs : List A) → length (swap_remove i xs) ≡ length xs - 1
unfolding swap_remove
length-swap_remove i [] = refl
length-swap_remove i (x ∷ rest) =
    length-drop_last (set_at i (last_or x rest) (x ∷ rest))
    ∙ ap (λ (n : ℕ). n - 1) (length-set_at i (last_or x rest) (x ∷ rest))

module _ {Uri : Type 0} (d : Device Uri) where
  -- Each certificate of a list after the last one of a chain: the one before it does not verify
  -- with it as its root.
  abbrev pub NoneVerifies : Certificate → List Certificate → Type 0
  NoneVerifies last [] = Unit
  NoneVerifies last (cert ∷ rest) = (d.verifies cert last ≡ false) × NoneVerifies cert rest

  not-true : (b : Bool) → not b ≡ true → b ≡ false
  not-true true h = cc h
  not-true false h = refl

  find_issuer_fails :
      (last : Certificate) (i : ℕ) (certs : List Certificate) {found : ℕ} {cert : Certificate}
      → find_issuer d last i certs ≡ some (found, cert)
      → d.verifies cert last ≡ false
  unfolding find_issuer cert_issues
  find_issuer_fails last i [] h = cc h
  find_issuer_fails last i (c ∷ rest) {found} {cert} h =
      elim (Bool-cases (not (d.verifies c last))) [
        | inl e ↦
            let h' = rw e at h in
            let same : c ≡ cert = cc h' in
            ap (λ x. d.verifies x last) (sym same) ∙ not-true (d.verifies c last) e
        | inr e ↦ let h' = rw e at h in find_issuer_fails last (suc i) rest h'
      ]

  next_NoneVerifies :
      (last : Certificate) (certs : List Certificate)
      (loop : Certificate → List Certificate → List Certificate) (o : Option (ℕ × Certificate))
      → find_issuer d last 0 certs ≡ o
      → ((c : Certificate) (cs : List Certificate) → NoneVerifies c (loop c cs))
      → NoneVerifies last (next_in_chain d loop certs o)
  unfolding next_in_chain
  next_NoneVerifies last certs loop none e h = tt
  next_NoneVerifies last certs loop (some (i, cert)) e h =
      (find_issuer_fails last 0 certs e, h cert (swap_remove i certs))

  chain_loop-NoneVerifies :
      (n : ℕ) (last : Certificate) (certs : List Certificate)
      → NoneVerifies last (chain_loop d n last certs)
  unfolding chain_loop
  chain_loop-NoneVerifies zero last certs = tt
  chain_loop-NoneVerifies (suc n) last certs =
      next_NoneVerifies last certs (chain_loop d n) (find_issuer d last 0 certs) refl
        (chain_loop-NoneVerifies n)

  -- The chain begins with the certificate given, and each further certificate of it is one under
  -- which the certificate before it does not verify: certIssues answers the contrary.
  pub chain_of-NoneVerifies :
      (cert : Certificate) (certs : List Certificate)
      → (rest : List Certificate) × (chain_of d cert certs ≡ cert ∷ rest) × NoneVerifies cert rest
  unfolding chain_of
  chain_of-NoneVerifies cert certs = (
    chain_loop d (length certs) cert certs,
    refl,
    chain_loop-NoneVerifies (length certs) cert certs,
  )

  next_in_chain_agrees :
      (n m : ℕ) (certs : List Certificate) (o : Option (ℕ × Certificate))
      → ((last : Certificate) (i : ℕ)
          → chain_loop d n last (swap_remove i certs) ≡ chain_loop d m last (swap_remove i certs))
      → next_in_chain d (chain_loop d n) certs o ≡ next_in_chain d (chain_loop d m) certs o
  unfolding next_in_chain
  next_in_chain_agrees n m certs none h = refl
  next_in_chain_agrees n m certs (some (i, cert)) h = ap (λ rest. cert ∷ rest) (h cert i)

  -- The fuel does not matter once there is a round for each certificate.
  pub chain_loop_enough :
      (n m : ℕ) (last : Certificate) (certs : List Certificate)
      → length certs ≤ n
      → length certs ≤ m
      → chain_loop d n last certs ≡ chain_loop d m last certs
  unfolding chain_loop next_in_chain find_issuer
  chain_loop_enough zero zero last certs h h' = refl
  chain_loop_enough zero (suc m) last [] h h' = refl
  chain_loop_enough (suc n) zero last [] h h' = refl
  chain_loop_enough zero (suc m) last (c ∷ certs) h h' = absurd (omega (arith, h))
  chain_loop_enough (suc n) zero last (c ∷ certs) h h' = absurd (omega (arith, h'))
  chain_loop_enough (suc n) (suc m) last certs h h' =
      next_in_chain_agrees n m certs (find_issuer d last 0 certs) (λ cert i.
        chain_loop_enough n m cert (swap_remove i certs)
          (omega (arith, h, length-swap_remove i certs))
          (omega (arith, h', length-swap_remove i certs)))
