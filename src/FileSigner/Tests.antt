-- ===== src/FileSigner/Tests.antt =====
-- A signer on concrete files.
use rolesanywhere_credential.Prelude.{ℕ, List, ◌∷◌, ◌≡◌, refl, true, false, [], none}
use rolesanywhere_credential.Results.{Result, ok, err}
use rolesanywhere_credential.Samples.{Key, sample_parsers}
use rolesanywhere_credential.Keys.{
  read_private_key_data, read_certificate_data, read_pkcs12_data, parse_der_from_pem, order_chain,
}
use rolesanywhere_credential.FileSigner.{
  FileSystemSigner, read, read_cert_files, get_file_system_signer, sign, Hash, sha256, CertFiles,
  aws4_x509_rsa_sha256,
}
use rolesanywhere_credential.FileSigner.Laws.{IsSigned, get_file_system_signer-IsSigned}

abbrev signer : FileSystemSigner
signer = record {
  bundle_path = "";
  cert_path = "cert.pem";
  is_pkcs12 = false;
  private_key_path = "key.pem";
}

abbrev empty_signer : FileSystemSigner
empty_signer = record {
  bundle_path = "";
  cert_path = "empty.p12";
  is_pkcs12 = true;
  private_key_path = "";
}

empty_pkcs12 : read_pkcs12_data sample_parsers "empty.p12" ≡ ok ([], none)
unfolding read_pkcs12_data order_chain
empty_pkcs12 = refl

get_signer_test :
    get_file_system_signer sample_parsers "key.pem" "cert.pem" "" false
    ≡ read (ok (signer, aws4_x509_rsa_sha256))
unfolding get_file_system_signer read_cert_files read_private_key_data read_certificate_data
    parse_der_from_pem
get_signer_test = refl

abbrev sum : List ℕ → List ℕ
sum text = 1 ∷ text

abbrev sign_nothing : Key → List ℕ → Result (List ℕ)
sign_nothing key text = err "no signature"

abbrev sign_rsa : Key → Hash → List ℕ → Result (List ℕ)
sign_rsa key h text = ok (9 ∷ text)

get_file_system_signer-IsSigned_example :
    (files : CertFiles sample_parsers) × (answer : Result (List ℕ)) × (read_cert_files
        sample_parsers signer
      ≡ read files)
    × (sign sample_parsers sum sum sum sign_nothing sign_rsa signer sha256 (7 ∷ []) ≡ read answer)
    × IsSigned sample_parsers sum sum sum sign_nothing sign_rsa files.0
        (7 ∷ [])
        aws4_x509_rsa_sha256
        sha256
        answer
get_file_system_signer-IsSigned_example =
    get_file_system_signer-IsSigned sample_parsers sum sum sum sign_nothing sign_rsa "key.pem"
      "cert.pem" "" false get_signer_test sample_parsers refl sha256 (7 ∷ [])
