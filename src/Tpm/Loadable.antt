-- ===== src/Tpm/Loadable.antt =====
-- What GetTPMv2Signer has tested of a key's file.
use mathlib.Core.Path.{subst}
use rolesanywhere_credential.Prelude.{
  ℕ, ◌≡◌, refl, ap, inl, inr, Bool, true, false, not, String, List, [], ◌∷◌, Option, none, some,
  is_some, eqb, Bool-cases, if◌then◌else◌, ◌&&◌, ◌||◌, ◌==◌,
}
use rolesanywhere_credential.Results.{Result, ok, err, ◌>>=◌, Result-cases, ok-injective}
use rolesanywhere_credential.Keys.{Block}
use rolesanywhere_credential.SignerChoice.{TpmSignerOpts}
use rolesanywhere_credential.Tpm.{TpmKey, TpmPublic, Tpmv2Signer, TpmDevice, alg_rsa, alg_ecc}
use rolesanywhere_credential.Tpm.Load.{
  same_oid, oid_loadable_key, handle_is_persistent, is_hierarchy, fixup_empty_auth, blob_fits,
  blob_of, blob_or, checked_key, with_key_algorithm, signer_by_key, from_key_pem, get_tpmv2_signer,
}
use rolesanywhere_credential.Tpm.Sign.{
  TpmEvent, Ending, returns, breaks, stays, handle_of_int, loaded, load_blobs, under_primary,
  load_key,
}

-- A test that was passed.
passed :
    {A : Type 0} (b : Bool) (message : String) (next : Result A) {a : A}
    → (if b then err message else next) ≡ ok a
    → (b ≡ false) × (next ≡ ok a)
passed true message next h = cc h
passed false message next h = (refl, h)

abbrev IsUnbroken : Ending ℕ → Type 0
IsUnbroken (returns r) = Unit
IsUnbroken breaks = ⊥
IsUnbroken stays = Unit

module _ (d : TpmDevice) where
  blob_or-fits :
      (message : String) (fits : Bool) (blob : List ℕ) {rest : List ℕ}
      → blob_or d message fits blob ≡ ok rest
      → fits ≡ true
  blob_or-fits message true blob h = refl
  blob_or-fits message false blob h = cc h

  blobs_read :
      (first second : Result (List ℕ)) {parts : TpmPublic × List ℕ}
      → (first >>= λ pubkey.
          d.decode_public pubkey >>= λ public. second >>= λ private. ok (public, private))
        ≡ ok parts
      → ((a : List ℕ) × (first ≡ ok a)) × ((b : List ℕ) × (second ≡ ok b))
  blobs_read (err e) second h = cc h
  blobs_read (ok a) (ok b) h = ((a, refl), (b, refl))
  blobs_read (ok a) (err e) h = elim (Result-cases (d.decode_public a)) [
    | inl x ↦ let h' = rw x.1 at h in cc h'
    | inr x ↦ let h' = rw x.1 at h in cc h'
  ]

  -- What the tests of a key's data say.
  abbrev pub IsTested : String → TpmKey → Type 0
  IsTested password key =
      (key.empty_auth && not (password == "") ≡ false)
      × (not (same_oid key.oid oid_loadable_key) ≡ false)
      × (key.has_policy || key.has_auth_policy ≡ false)
      × (is_some key.secret ≡ false)
      × (not (handle_is_persistent key.parent) && not (is_hierarchy key.parent) ≡ false)
      × (blob_fits d key.pubkey ≡ true)
      × (blob_fits d key.privkey ≡ true)

  checked_key-IsTested :
      (password : String) (key : TpmKey) {parts : TpmPublic × List ℕ}
      → checked_key d password key ≡ ok parts
      → IsTested password key
  unfolding checked_key
  checked_key-IsTested password key h =
      let empty = passed (key.empty_auth && not (password == "")) _ _ h in
      let oid = passed (not (same_oid key.oid oid_loadable_key)) _ _ empty.1 in
      let policy = passed (key.has_policy || key.has_auth_policy) _ _ oid.1 in
      let secret = passed (is_some key.secret) _ _ policy.1 in
      let parent =
        passed (not (handle_is_persistent key.parent) && not (is_hierarchy key.parent)) _ _
          secret.1 in
      let blobs = blobs_read _ _ parent.1 in
      (
        empty.0,
        oid.0,
        policy.0,
        secret.0,
        parent.0,
        blob_or-fits "invalid length for TPMv2 PUBLIC blob" (blob_fits d key.pubkey) key.pubkey
            blobs.0.1,
        blob_or-fits "invalid length for TPMv2 PRIVATE blob" (blob_fits d key.privkey) key.privkey
            blobs.1.1,
      )

  blobs-IsUnbroken :
      (events : List TpmEvent) (to_flush : List ℕ) (parent : ℕ) (pubkey privkey : List ℕ)
      → blob_fits d pubkey ≡ true
      → blob_fits d privkey ≡ true
      → IsUnbroken
          (load_blobs d events to_flush parent (blob_of d pubkey) (blob_of d privkey)).key_handle
  unfolding blob_fits
  blobs-IsUnbroken events to_flush parent [] privkey h h' = cc h
  blobs-IsUnbroken events to_flush parent (a ∷ []) privkey h h' = cc h
  blobs-IsUnbroken events to_flush parent (a ∷ b ∷ public) [] h h' = cc h'
  blobs-IsUnbroken events to_flush parent (a ∷ b ∷ public) (c ∷ []) h h' = cc h'
  blobs-IsUnbroken events to_flush parent (a ∷ b ∷ public) (c ∷ e ∷ private) h h' =
      loaded-IsUnbroken (d.load parent public private)
    where
      loaded-IsUnbroken : (r : Result ℕ) → IsUnbroken (loaded d events to_flush r).key_handle
      loaded-IsUnbroken (ok key) = tt
      loaded-IsUnbroken (err message) = tt

  load_key-IsUnbroken :
      (signer : Tpmv2Signer)
      → blob_fits d signer.tpm_data.pubkey ≡ true
      → blob_fits d signer.tpm_data.privkey ≡ true
      → IsUnbroken (load_key d signer).key_handle
  unfolding load_key
  load_key-IsUnbroken signer h h' = elim (Bool-cases (eqb signer.handle 0)) [
    | inr e ↦ rw e tt
    | inl e ↦ elim (Bool-cases (handle_is_persistent signer.tpm_data.parent)) [
      | inl p ↦
          rw (e, p) (blobs-IsUnbroken [] [] _ signer.tpm_data.pubkey signer.tpm_data.privkey h h')
      | inr p ↦
          rw (e, p) (under-IsUnbroken (d.create_primary (handle_of_int signer.tpm_data.parent)))
    ]
  ]
    where
      under-IsUnbroken : (r : Result ℕ) → IsUnbroken (under_primary d signer.tpm_data r).key_handle
      under-IsUnbroken (err e) = tt
      under-IsUnbroken (ok primary) =
          blobs-IsUnbroken _ _ primary signer.tpm_data.pubkey signer.tpm_data.privkey h h'

  with_key_algorithm_keeps :
      (signer : Tpmv2Signer) {s : Tpmv2Signer} {algorithm : String}
      → with_key_algorithm d signer ≡ ok (s, algorithm)
      → signer ≡ s
  unfolding with_key_algorithm
  with_key_algorithm_keeps signer h = elim (Bool-cases (eqb signer.public.key_algorithm alg_rsa)) [
    | inl e ↦ let h' = rw e at h in ap (λ p. p.0) (ok-injective h')
    | inr e ↦ elim (Bool-cases (eqb signer.public.key_algorithm alg_ecc)) [
      | inl e' ↦ let h' = rw (e, e') at h in ap (λ p. p.0) (ok-injective h')
      | inr e' ↦ let h' = rw (e, e') at h in cc h'
    ]
  ]

  -- A signer of a tested key, which Sign can load without a panic.
  abbrev pub IsLoadable : TpmSignerOpts → Tpmv2Signer → Type 0
  IsLoadable opts signer =
      (signer.handle ≡ 0)
      × (signer.password ≡ opts.password)
      × IsTested opts.password signer.tpm_data
      × IsUnbroken (load_key d signer).key_handle

  from_key_pem-IsLoadable :
      (opts : TpmSignerOpts) (block : Option Block) {s : Tpmv2Signer} {algorithm : String}
      → from_key_pem d opts block ≡ some (ok (s, algorithm))
      → IsLoadable opts s
  unfolding from_key_pem
  from_key_pem-IsLoadable opts none h = cc h
  from_key_pem-IsLoadable opts (some block) {s} {algorithm} h =
      elim (Result-cases (d.unmarshal_key (fixup_empty_auth d block.bytes))) [
        | inr e ↦ let h' = rw e.1 at h in cc h'
        | inl key ↦ elim (Result-cases (checked_key d opts.password key.0)) [
          | inr e ↦ let h' = rw (key.1, e.1) at h in cc h'
          | inl parts ↦
              let h' = rw (key.1, parts.1) at h in
              let tested = checked_key-IsTested opts.password key.0 parts.1 in
              subst (IsLoadable opts)
                (with_key_algorithm_keeps (signer_by_key d opts key.0 parts.0)
                  {algorithm = algorithm} (cc h'))
                (
                  refl,
                  refl,
                  tested,
                  load_key-IsUnbroken (signer_by_key d opts key.0 parts.0) tested.5 tested.6,
                )
        ]
      ]

  -- A signer that GetTPMv2Signer makes of a key's file has the object identifier of a loadable key,
  -- no policy and no secret, a parent that is persistent or a hierarchy, no password if the file
  -- says that none is needed, and blobs as long as they say: loading the key does not panic.
  pub get_tpmv2_signer-IsLoadable :
      (opts : TpmSignerOpts) (s : Tpmv2Signer) (algorithm : String)
      → (opts.handle == "") ≡ true
      → get_tpmv2_signer d opts ≡ some (ok (s, algorithm))
      → IsLoadable opts s
  unfolding get_tpmv2_signer
  get_tpmv2_signer-IsLoadable opts s algorithm e h =
      let h' = rw e at h in from_key_pem-IsLoadable opts opts.key_pem h'
