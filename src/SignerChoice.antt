-- ===== src/SignerChoice.antt =====
-- GetSigner of aws_signing_helper/signer.go up to its last call: which signer is made, and of what.
-- The parser of the credential options that decides it is Selector.
pub mod Laws
mod Tests
use rolesanywhere_credential.Prelude.{
  Bool, true, false, String, List, [], ◌∷◌, Option, none, some, if◌then◌else◌, ◌==◌, starts_with,
}
use rolesanywhere_credential.Results.{Result, ok, err, ◌>>=◌}
use rolesanywhere_credential.Certificate.{Certificate, CertIdentifier}
use rolesanywhere_credential.Session.{CredentialsOpts}
use rolesanywhere_credential.Keys.{
  Block, Parsers, parse_der_from_pem, read_private_key_data, read_pkcs12_data, get_cert_chain,
  read_certificate_data,
}

pub record TpmSignerOpts : Type 0 where
  pub certificate : Option Certificate
  pub certificate_chain : Option (List Certificate)
  pub key_pem : Option Block
  pub password : String
  pub empty_auth : Bool
  pub handle : String

-- The calls in return position: GetCertStoreSigner, GetPKCS11Signer (library, certificate, chain,
-- key, certificate id, reuse of the PIN), GetTPMv2Signer and GetFileSystemSigner (key, certificate,
-- bundle, PKCS#12).
pub data SignerCall : Type 0 where
  cert_store : CertIdentifier → SignerCall
  pkcs11 :
      String → Option Certificate → Option (List Certificate) → String → String → Bool → SignerCall
  tpmv2 : TpmSignerOpts → SignerCall
  file_system : String → String → String → Bool → SignerCall

module _ {Rsa Ecdsa : Type 0} (p : Parsers Rsa Ecdsa) where
  -- The block of the certificate: what it found, or the call that returns early.
  pub data Found : Type 0 where
    go_on : Option Certificate → Found
    calls : SignerCall → Found

  abbrev pub try_pkcs12 : CredentialsOpts → Result Found
  try_pkcs12 opts =
      if opts.certificate_bundle_id == ""
      then (read_pkcs12_data p opts.certificate_id >>= λ data_of. ok (
          calls
            (file_system opts.private_key_id opts.certificate_id opts.certificate_bundle_id true)))
      else err "can't specify certificate chain when using PKCS#12 files"

  pub found_certificate :
      {Data : Type 0} → CredentialsOpts → Result (Data × Certificate) → Result Found
  found_certificate opts (ok (data_of, cert)) = ok (go_on (some cert))
  found_certificate opts (err e) = if opts.private_key_id == "" then try_pkcs12 opts else err e

  unfoldable pub find_certificate : CredentialsOpts → Result Found
  unfolding found_certificate
  find_certificate opts =
      if opts.certificate_id == ""
      then ok (go_on none)
      else if starts_with opts.certificate_id "pkcs11:"
      then ok (go_on none)
      else found_certificate opts (read_certificate_data p opts.certificate_id)

  -- A slice built by append: nil if it is empty.
  abbrev pub present : List Certificate → Result (Option (List Certificate))
  present [] = ok none
  present (cert ∷ rest) = ok (some (cert ∷ rest))

  abbrev pub find_chain : CredentialsOpts → Result (Option (List Certificate))
  find_chain opts =
      if opts.certificate_bundle_id == ""
      then ok none
      else (get_cert_chain p opts.certificate_bundle_id >>= present)

  -- The id of the private key, or that of the certificate.
  abbrev pub private_key_of : CredentialsOpts → String
  private_key_of opts =
      if opts.private_key_id == "" then opts.certificate_id else opts.private_key_id

  pub with_certificate : CredentialsOpts → String → Option Certificate → Result SignerCall
  with_certificate opts key none = err "undefined certificate value"
  with_certificate opts key (some cert) =
      ok (file_system key opts.certificate_id opts.certificate_bundle_id false)

  abbrev pub tpm_call :
      CredentialsOpts
      → Option Certificate
      → Option (List Certificate)
      → Option Block
      → String
      → SignerCall
  tpm_call opts cert chain key_pem handle = tpmv2 record {
    certificate = cert;
    certificate_chain = chain;
    key_pem = key_pem;
    password = opts.tpm_key_password;
    empty_auth = opts.no_tpm_key_password;
    handle = handle;
  }

  -- A key in a file: one for a TPM, or a private key.
  pub from_key_file :
      CredentialsOpts
      → String
      → Option Certificate
      → Option (List Certificate)
      → Result Block
      → Result SignerCall
  unfolding with_certificate
  from_key_file opts key cert chain (ok block) = ok (tpm_call opts cert chain (some block) "")
  from_key_file opts key cert chain (err e) =
      read_private_key_data p key >>= λ k. with_certificate opts key cert

  -- With a certificate at hand, opts.CertificateId is set to "" for the PKCS#11 signer.
  abbrev pub pkcs11_certificate_id : CredentialsOpts → Option Certificate → String
  pkcs11_certificate_id opts none = opts.certificate_id
  pkcs11_certificate_id opts (some cert) = ""

  unfoldable pub choose_by_key :
      CredentialsOpts → String → Option Certificate → Option (List Certificate) → Result SignerCall
  unfolding from_key_file
  choose_by_key opts key cert chain =
      if starts_with key "pkcs11:"
      then ok (
          pkcs11 opts.lib_pkcs11 cert chain opts.private_key_id (pkcs11_certificate_id opts cert)
            opts.reuse_pin)
      else if starts_with key "handle:"
      then ok (tpm_call opts cert chain none opts.private_key_id)
      else from_key_file opts key cert chain (parse_der_from_pem p key "TSS2 PRIVATE KEY")

  pub choose_signer : CredentialsOpts → Found → Result SignerCall
  choose_signer opts (calls c) = ok c
  choose_signer opts (go_on cert) =
      find_chain opts >>= λ chain. choose_by_key opts (private_key_of opts) cert chain

  unfoldable pub get_signer : CredentialsOpts → Result SignerCall
  unfolding choose_signer
  get_signer opts =
      if private_key_of opts == ""
      then ok (cert_store opts.cert_identifier)
      else (find_certificate opts >>= choose_signer opts)
