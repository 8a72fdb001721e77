-- ===== src/Tpm/Tests.antt =====
-- The signer on TPMs with a TPM for tests.
use rolesanywhere_credential.Prelude.{◌≡◌, refl, true, false, [], ◌∷◌, none, some, length, ◌==◌}
use rolesanywhere_credential.Prelude.Int.{pos}
use rolesanywhere_credential.Results.{ok}
use rolesanywhere_credential.FileSigner.{sha256, aws4_x509_ecdsa_sha256}
use rolesanywhere_credential.Samples.{sample_certificate}
use rolesanywhere_credential.SignerChoice.{TpmSignerOpts}
use rolesanywhere_credential.Pkcs11.Encoding.{set_bytes}
use rolesanywhere_credential.Tpm.{TpmKey, TpmPublic, Tpmv2Signer, TpmDevice, alg_ecc}
use rolesanywhere_credential.Tpm.Load.{
  oid_loadable_key, fixup_empty_auth, fix_from, fix_behind_oid, fix_at, fix_boolean, blob_fits,
  checked_key, with_key_algorithm, signer_by_key, from_key_pem, get_tpmv2_signer,
}
use rolesanywhere_credential.Tpm.Digest.{first_bytes, fit_digest}
use rolesanywhere_credential.Tpm.Sign.{sign_tpm}
use rolesanywhere_credential.Tpm.Handles.{LeavesObjects, sign_tpm-LeavesObjects}
use rolesanywhere_credential.Tpm.Padding.{fit_digest_fits}
use rolesanywhere_credential.Tpm.Loadable.{IsLoadable, get_tpmv2_signer-IsLoadable}

abbrev sample_tpm_key : TpmKey
sample_tpm_key = record {
  oid = oid_loadable_key;
  empty_auth = true;
  has_policy = false;
  secret = none;
  has_auth_policy = false;
  parent = pos 1073741825;
  pubkey = 0 ∷ 1 ∷ 7 ∷ [];
  privkey = 0 ∷ 1 ∷ 8 ∷ [];
}

abbrev sample_public : TpmPublic
sample_public = record { key_algorithm = alg_ecc; parameters = [] }

abbrev sample_tpm : TpmDevice
sample_tpm = record {
  os = "linux";
  tpm_device = "/dev/tpmrm0";
  open_device = λ paths. none;
  get_capability = λ algorithm. ok (algorithm ∷ []);
  create_primary = λ handle. ok 90;
  load = λ parent public private. ok 91;
  sign = λ key password digest scheme.
      ok (record { ecc_r = length digest; ecc_s = 2; rsa_signature = [] });
  read_public = λ handle. ok sample_public;
  decode_public = λ bytes. ok sample_public;
  curve_bits = λ public. ok (some 256);
  unmarshal_oid = λ bytes. some (oid_loadable_key, 5);
  unmarshal_key = λ bytes. ok sample_tpm_key;
  marshal_r_s = λ r s. ok (r ∷ s ∷ []);
  sum256 = λ bytes. 5 ∷ bytes;
  sum384 = λ bytes. bytes;
  sum512 = λ bytes. bytes;
  split = λ text by. text ∷ [];
  behind_two = λ text. text;
  parse_hex = λ text. ok 1;
  contains = λ text part. text == part;
  tty_read = none;
  tty_write = none;
}

abbrev sample_tpm_opts : TpmSignerOpts
sample_tpm_opts = record {
  certificate = some sample_certificate;
  certificate_chain = none;
  key_pem = some record { block_type = "TSS2 PRIVATE KEY"; bytes = 48 ∷ 10 ∷ [] };
  password = "";
  empty_auth = false;
  handle = "";
}

abbrev sample_tpm_signer : Tpmv2Signer
sample_tpm_signer = signer_by_key sample_tpm sample_tpm_opts sample_tpm_key (sample_public, 8 ∷ [])

makes_signer :
    get_tpmv2_signer sample_tpm sample_tpm_opts
    ≡ some (ok (sample_tpm_signer, aws4_x509_ecdsa_sha256))
unfolding get_tpmv2_signer from_key_pem with_key_algorithm checked_key blob_fits
makes_signer = refl

-- The Boolean of an empty authorisation is changed, and nothing else.
fixes_boolean :
    fixup_empty_auth sample_tpm (48 ∷ 7 ∷ 6 ∷ 1 ∷ 160 ∷ 3 ∷ 1 ∷ 1 ∷ 1 ∷ [])
    ≡ 48 ∷ 7 ∷ 6 ∷ 1 ∷ 160 ∷ 3 ∷ 1 ∷ 1 ∷ 255 ∷ []
unfolding fixup_empty_auth fix_from fix_behind_oid fix_at fix_boolean
fixes_boolean = refl

get_tpmv2_signer-IsLoadable_example : IsLoadable sample_tpm sample_tpm_opts sample_tpm_signer
get_tpmv2_signer-IsLoadable_example =
    get_tpmv2_signer-IsLoadable sample_tpm sample_tpm_opts sample_tpm_signer aws4_x509_ecdsa_sha256
      refl makes_signer

sign_tpm-LeavesObjects_example :
    LeavesObjects sample_tpm
      (sign_tpm sample_tpm [] sample_tpm_signer sha256 (1 ∷ [])).events
      (sign_tpm sample_tpm [] sample_tpm_signer sha256 (1 ∷ [])).ending
sign_tpm-LeavesObjects_example =
    sign_tpm-LeavesObjects sample_tpm [] sample_tpm_signer sha256 (1 ∷ [])

fit_digest_fits_example :
    (length (fit_digest 4 (1 ∷ 2 ∷ [])) ≡ 4)
    × (set_bytes 0 (fit_digest 4 (1 ∷ 2 ∷ [])) ≡ set_bytes 0 (first_bytes 4 (1 ∷ 2 ∷ [])))
fit_digest_fits_example = fit_digest_fits 4 (1 ∷ 2 ∷ [])
