-- ===== src/Tpm/Sign.antt =====
-- Sign and the other methods of TPMv2Signer in aws_signing_helper/tpm_signer.go.
use rolesanywhere_credential.Prelude.{
  ℕ, ◌%◌, ◌-◌, not, String, List, [], ◌∷◌, ◌++◌, map, Option, none, some, eqb, if◌then◌else◌,
}
use rolesanywhere_credential.Prelude.Int.{ℤ, pos, negsuc}
use rolesanywhere_credential.Results.{Result, ok, err}
use rolesanywhere_credential.Certificate.{Certificate}
use rolesanywhere_credential.FileSigner.{Hash}
use rolesanywhere_credential.Password.{
  PasswordPromptProps, Prompted, answered, failed, waiting, password_prompt,
}
use rolesanywhere_credential.Tpm.{
  TpmKey, Tpmv2Signer, SigScheme, TpmSignature, TpmDevice, alg_ecc, alg_ecdsa, alg_rsassa, open_tpm,
}
use rolesanywhere_credential.Tpm.Load.{handle_is_persistent, blob_of}
use rolesanywhere_credential.Tpm.Digest.{hashed, byte_size_of, algorithm_of_size, fit_digest}

-- The objects that Sign makes in the TPM and takes out of it again. Each FlushContext is taken to
-- succeed: the source ignores its error, with which an object would stay.
pub data TpmEvent : Type 0 where
  created : ℕ → TpmEvent
  flushed : ℕ → TpmEvent

-- How a call ends; it may also wait for the terminal.
pub data Ending (A : Type 0) : Type 0 where
  returns : Result A → Ending A
  breaks : Ending A
  stays : Ending A

-- A run of Sign: its calls from the first on, and the signer it leaves.
pub record SignRun : Type 0 where
  pub events : List TpmEvent
  pub signer : Tpmv2Signer
  pub ending : Ending (List ℕ)

-- The key's handle, and the objects that are to be flushed, the latest first.
pub record KeyLoad : Type 0 where
  pub loads : List TpmEvent
  pub to_flush : List ℕ
  pub key_handle : Ending ℕ

-- tpmutil.Handle(parent) of an int.
abbrev pub handle_of_int : ℤ → ℕ
handle_of_int (pos h) = h % 4294967296
handle_of_int (negsuc h) = 4294967295 - h % 4294967296

module _ (d : TpmDevice) where
  abbrev pub first_capability : ℕ → Result (List ℕ) → Ending (Unit {0})
  first_capability algorithm (err e) =
      returns (err "error trying to get capability from TPM for the algorithm")
  first_capability algorithm (ok []) = breaks
  first_capability algorithm (ok (found ∷ rest)) =
      if eqb found algorithm then returns (ok tt) else returns (err "unsupported algorithm for TPM")

  abbrev pub check_capability : ℕ → Ending (Unit {0})
  check_capability algorithm = first_capability algorithm (d.get_capability algorithm)

  abbrev pub loaded : List TpmEvent → List ℕ → Result ℕ → KeyLoad
  loaded events to_flush (err e) = record {
    loads = events;
    to_flush = to_flush;
    key_handle = returns (err e);
  }
  loaded events to_flush (ok key) = record {
    loads = events ++ (created key ∷ []);
    to_flush = key ∷ to_flush;
    key_handle = returns (ok key);
  }

  abbrev pub load_blobs : List TpmEvent → List ℕ → ℕ → Option (List ℕ) → Option (List ℕ) → KeyLoad
  load_blobs events to_flush parent none private = record {
    loads = events;
    to_flush = to_flush;
    key_handle = breaks;
  }
  load_blobs events to_flush parent (some public) none = record {
    loads = events;
    to_flush = to_flush;
    key_handle = breaks;
  }
  load_blobs events to_flush parent (some public) (some private) =
      loaded events to_flush (d.load parent public private)

  abbrev pub load_under : TpmKey → List TpmEvent → List ℕ → Result ℕ → KeyLoad
  load_under key events to_flush (err e) = record {
    loads = events;
    to_flush = to_flush;
    key_handle = returns (err e);
  }
  load_under key events to_flush (ok parent) =
      load_blobs events to_flush parent (blob_of d key.pubkey) (blob_of d key.privkey)

  abbrev pub under_primary : TpmKey → Result ℕ → KeyLoad
  under_primary key (err e) = load_under key [] [] (err e)
  under_primary key (ok primary) = load_under key (created primary ∷ []) (primary ∷ []) (ok primary)

  unfoldable pub load_key : Tpmv2Signer → KeyLoad
  load_key signer =
      if not (eqb signer.handle 0)
      then record { loads = []; to_flush = []; key_handle = returns (ok signer.handle) }
      else if handle_is_persistent signer.tpm_data.parent
      then load_under signer.tpm_data [] [] (ok (handle_of_int signer.tpm_data.parent))
      else under_primary signer.tpm_data (d.create_primary (handle_of_int signer.tpm_data.parent))

  -- The questions of signHelper.
  abbrev pub prompt_props : Tpmv2Signer → ℕ → List ℕ → SigScheme → PasswordPromptProps TpmSignature
  prompt_props signer key digest scheme = record {
    initial_password = signer.password;
    no_password = signer.empty_auth;
    check_password = λ password. d.sign key password digest scheme;
    incorrect_password_msg = "incorrect TPM key password";
    prompt = "Please enter your TPM key password:";
    reprompt = "Incorrect TPM key password. Please try again:";
    parse_err_msg = "unable to read your TPM key password";
    check_password_authorization_error_msg = "0x22";
  }

  -- A signer, and how the signature ends.
  abbrev pub Attempt : Type 0
  Attempt = Tpmv2Signer × Ending (List ℕ)

  -- The password is kept in the signer.
  abbrev pub attempt_of :
      Tpmv2Signer → (TpmSignature → Result (List ℕ)) → Prompted TpmSignature → Attempt
  attempt_of signer encode_of (answered password sig) =
      (record signer { password = password }, returns (encode_of sig))
  attempt_of signer encode_of (failed e) = (signer, returns (err e))
  attempt_of signer encode_of waiting = (signer, stays)

  module _ (entries : List (Result String)) where
    unfoldable pub tpm_sign_helper : Tpmv2Signer → ℕ → List ℕ → SigScheme → Prompted TpmSignature
    tpm_sign_helper signer key digest scheme =
        password_prompt d.contains (prompt_props signer key digest scheme) d.tty_read d.tty_write
          entries

    abbrev pub unless_broken : {A : Type 0} → Tpmv2Signer → Ending A → Attempt → Attempt
    unless_broken signer (returns (ok a)) next = next
    unless_broken signer (returns (err e)) next = (signer, returns (err e))
    unless_broken signer breaks next = (signer, breaks)
    unless_broken signer stays next = (signer, stays)

    abbrev pub sign_with_size : Tpmv2Signer → ℕ → List ℕ → ℕ → Option ℕ → Attempt
    sign_with_size signer key digest size none = (signer, returns (err "unsupported curve"))
    sign_with_size signer key digest size (some algorithm) =
        attempt_of signer (λ sig. d.marshal_r_s sig.ecc_r sig.ecc_s)
          (tpm_sign_helper signer key (fit_digest size digest)
            (record { alg = alg_ecdsa; hash = algorithm }))

    abbrev pub sign_on_curve : Tpmv2Signer → ℕ → List ℕ → Result (Option ℕ) → Attempt
    sign_on_curve signer key digest (err e) = (signer, returns (err e))
    sign_on_curve signer key digest (ok none) =
        (signer, returns (err "failed to obtain ecdsa.PublicKey"))
    sign_on_curve signer key digest (ok (some bits)) =
        sign_with_size signer key digest (byte_size_of bits) (algorithm_of_size (byte_size_of bits))

    abbrev pub sign_ecc : Tpmv2Signer → ℕ → List ℕ → Attempt
    sign_ecc signer key digest =
        unless_broken signer (check_capability alg_ecc)
          (sign_on_curve signer key digest (d.curve_bits signer.public))

    abbrev pub sign_rsa : Tpmv2Signer → ℕ → List ℕ → ℕ → Attempt
    sign_rsa signer key digest algorithm = unless_broken signer (check_capability algorithm) (
        unless_broken signer (check_capability alg_rsassa) (
          attempt_of signer (λ sig. ok sig.rsa_signature)
            (tpm_sign_helper signer key digest (record { alg = alg_rsassa; hash = algorithm }))))

    unfoldable pub sign_hashed : Tpmv2Signer → ℕ → List ℕ × ℕ → Attempt
    sign_hashed signer key (digest, algorithm) =
        if eqb signer.public.key_algorithm alg_ecc
        then sign_ecc signer key digest
        else sign_rsa signer key digest algorithm

    abbrev pub attempt_with : Tpmv2Signer → List ℕ × ℕ → Ending ℕ → Attempt
    attempt_with signer digest (returns (ok key)) = sign_hashed signer key digest
    attempt_with signer digest (returns (err e)) = (signer, returns (err e))
    attempt_with signer digest breaks = (signer, breaks)
    attempt_with signer digest stays = (signer, stays)

    -- The deferred calls are made when Sign returns or panics.
    unfoldable pub run_of : KeyLoad → Attempt → SignRun
    run_of load (signer, stays) = record { events = load.loads; signer = signer; ending = stays }
    run_of load (signer, breaks) = record {
      events = load.loads ++ map flushed load.to_flush;
      signer = signer;
      ending = breaks;
    }
    run_of load (signer, returns r) = record {
      events = load.loads ++ map flushed load.to_flush;
      signer = signer;
      ending = returns r;
    }

    unfoldable pub sign_opened : Tpmv2Signer → Hash → List ℕ → Option String → SignRun
    unfolding run_of
    sign_opened signer hash digest (some e) = record {
      events = [];
      signer = signer;
      ending = returns (err e);
    }
    sign_opened signer hash digest none =
        run_of (load_key signer)
          (attempt_with signer (hashed d hash digest) (load_key signer).key_handle)

    -- Sign of TPMv2Signer.
    unfoldable pub sign_tpm : Tpmv2Signer → Hash → List ℕ → SignRun
    unfolding sign_opened
    sign_tpm signer hash digest = sign_opened signer hash digest (open_tpm d)

-- Close, Certificate and CertificateChain.
abbrev pub close_tpm_signer : Tpmv2Signer → Tpmv2Signer
close_tpm_signer signer = record signer { password = "" }

abbrev pub tpm_certificate : Tpmv2Signer → Result (Option Certificate)
tpm_certificate signer = ok signer.cert

abbrev pub tpm_certificate_chain : Tpmv2Signer → Result (Option (List Certificate))
tpm_certificate_chain signer = ok signer.cert_chain
