-- ===== src/Tpm/Handles.antt =====
-- The objects that Sign makes in the TPM.
use rolesanywhere_credential.Prelude.{
  ℕ, ◌≡◌, refl, ap, ◌∙◌, inl, inr, String, List, [], ◌∷◌, ◌++◌, map, Option, none, some, eqb,
  eqb_iff, Bool-cases, if◌then◌else◌,
}
use rolesanywhere_credential.Results.{Result, ok, err}
use rolesanywhere_credential.FileSigner.{Hash}
use rolesanywhere_credential.Tpm.{TpmKey, Tpmv2Signer, TpmDevice, open_tpm}
use rolesanywhere_credential.Tpm.Load.{handle_is_persistent, blob_of}
use rolesanywhere_credential.Tpm.Digest.{hashed}
use rolesanywhere_credential.Tpm.Sign.{
  TpmEvent, created, flushed, Ending, returns, breaks, stays, KeyLoad, handle_of_int, loaded,
  load_blobs, load_under, under_primary, load_key, Attempt, attempt_with, run_of, sign_opened,
  sign_tpm,
}

-- The objects that are in the TPM after some calls, the latest first.
pub release : ℕ → List ℕ → List ℕ
release h [] = []
release h (x ∷ held) = let later = release h held in if eqb h x then held else x ∷ later

unfoldable pub objects : List ℕ → List TpmEvent → List ℕ
unfolding release
objects held [] = held
objects held (created h ∷ rest) = objects (h ∷ held) rest
objects held (flushed h ∷ rest) = objects (release h held) rest

objects-append :
    (held : List ℕ) (xs ys : List TpmEvent) → objects held (xs ++ ys) ≡ objects (objects held xs) ys
unfolding objects
objects-append held [] ys = refl
objects-append held (created h ∷ xs) ys = objects-append (h ∷ held) xs ys
objects-append held (flushed h ∷ xs) ys = objects-append (release h held) xs ys

release_first : (h : ℕ) (held : List ℕ) → release h (h ∷ held) ≡ held
unfolding release
release_first h held = rw ((eqb_iff h h).1 refl) refl

objects_flushed : (held flushes : List ℕ) → objects (flushes ++ held) (map flushed flushes) ≡ held
unfolding objects
objects_flushed held [] = refl
objects_flushed held (h ∷ flushes) =
    ap (λ now. objects now (map flushed flushes)) (release_first h (flushes ++ held))
    ∙ objects_flushed held flushes

-- What was made is to be flushed.
abbrev IsTracked : KeyLoad → Type 0
IsTracked load = (held : List ℕ) → objects held load.loads ≡ load.to_flush ++ held

module _ (d : TpmDevice) where
  loaded-IsTracked :
      (events : List TpmEvent) (to_flush : List ℕ) (r : Result ℕ)
      → ((held : List ℕ) → objects held events ≡ to_flush ++ held)
      → IsTracked (loaded d events to_flush r)
  unfolding objects
  loaded-IsTracked events to_flush (err e) h = h
  loaded-IsTracked events to_flush (ok key) h =
      λ held. objects-append held events (created key ∷ []) ∙ ap (λ now. key ∷ now) (h held)

  load_under-IsTracked :
      (key : TpmKey) (events : List TpmEvent) (to_flush : List ℕ) (r : Result ℕ)
      → ((held : List ℕ) → objects held events ≡ to_flush ++ held)
      → IsTracked (load_under d key events to_flush r)
  load_under-IsTracked key events to_flush (err e) h = h
  load_under-IsTracked key events to_flush (ok parent) h =
      blobs-IsTracked (blob_of d key.pubkey) (blob_of d key.privkey)
    where
      blobs-IsTracked :
          (public private : Option (List ℕ))
          → IsTracked (load_blobs d events to_flush parent public private)
      blobs-IsTracked none private = h
      blobs-IsTracked (some public) none = h
      blobs-IsTracked (some public) (some private) =
          loaded-IsTracked events to_flush (d.load parent public private) h

  under_primary-IsTracked : (key : TpmKey) (r : Result ℕ) → IsTracked (under_primary d key r)
  unfolding objects
  under_primary-IsTracked key (err e) = load_under-IsTracked key [] [] (err e) (λ held. refl)
  under_primary-IsTracked key (ok primary) =
      load_under-IsTracked key (created primary ∷ []) (primary ∷ []) (ok primary) (λ held. refl)

  load_key-IsTracked : (signer : Tpmv2Signer) → IsTracked (load_key d signer)
  unfolding load_key objects
  load_key-IsTracked signer = elim (Bool-cases (eqb signer.handle 0)) [
    | inr e ↦ rw e (λ held. refl)
    | inl e ↦ elim (Bool-cases (handle_is_persistent signer.tpm_data.parent)) [
      | inl p ↦
          rw (e, p)
            (load_under-IsTracked signer.tpm_data [] [] (ok (handle_of_int signer.tpm_data.parent))
              (λ held. refl))
      | inr p ↦
          rw (e, p)
            (under_primary-IsTracked signer.tpm_data
              (d.create_primary (handle_of_int signer.tpm_data.parent)))
    ]
  ]

  -- Unless it waits for a password, a run leaves in the TPM what was there before.
  abbrev pub LeavesObjects : List TpmEvent → Ending (List ℕ) → Type 0
  LeavesObjects events stays = Unit
  LeavesObjects events breaks = (held : List ℕ) → objects held events ≡ held
  LeavesObjects events (returns r) = (held : List ℕ) → objects held events ≡ held

  flushed_all :
      (load : KeyLoad)
      → IsTracked load
      → (held : List ℕ) → objects held (load.loads ++ map flushed load.to_flush) ≡ held
  flushed_all load h held =
      objects-append held load.loads (map flushed load.to_flush)
      ∙ ap (λ now. objects now (map flushed load.to_flush)) (h held)
      ∙ objects_flushed held load.to_flush

  run_of-LeavesObjects :
      (entries : List (Result String)) (load : KeyLoad) (a : Attempt d)
      → IsTracked load
      → LeavesObjects (run_of d entries load a).events (run_of d entries load a).ending
  unfolding run_of
  run_of-LeavesObjects entries load (signer, stays) h = tt
  run_of-LeavesObjects entries load (signer, breaks) h = flushed_all load h
  run_of-LeavesObjects entries load (signer, returns r) h = flushed_all load h

  opened-LeavesObjects :
      (entries : List (Result String)) (signer : Tpmv2Signer) (hash : Hash) (digest : List ℕ)
      (e : Option String)
      → LeavesObjects
          (sign_opened d entries signer hash digest e).events
          (sign_opened d entries signer hash digest e).ending
  unfolding sign_opened objects
  opened-LeavesObjects entries signer hash digest (some e) = λ held. refl
  opened-LeavesObjects entries signer hash digest none =
      run_of-LeavesObjects entries (load_key d signer)
        (attempt_with d entries signer (hashed d hash digest) (load_key d signer).key_handle)
        (load_key-IsTracked signer)

  -- Whether Sign returns or panics, the primary key and the key that it made in the TPM are flushed
  -- when it ends: the TPM holds the same objects as before, in the same order, if each FlushContext
  -- succeeds.
  pub sign_tpm-LeavesObjects :
      (entries : List (Result String)) (signer : Tpmv2Signer) (hash : Hash) (digest : List ℕ)
      → LeavesObjects
          (sign_tpm d entries signer hash digest).events
          (sign_tpm d entries signer hash digest).ending
  unfolding sign_tpm
  sign_tpm-LeavesObjects entries signer hash digest =
      opened-LeavesObjects entries signer hash digest (open_tpm d)
