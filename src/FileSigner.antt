-- ===== src/FileSigner.antt =====
-- The signer on files: aws_signing_helper/file_system_signer.go. Its certificate files are read
-- anew by each method. The digests and the signature algorithms are parameters.
pub mod Laws
mod Tests
use rolesanywhere_credential.Prelude.{
  ℕ, Bool, String, List, [], ◌∷◌, Option, none, some, if◌then◌else◌, ◌==◌,
}
use rolesanywhere_credential.Results.{Result, ok, err}
use rolesanywhere_credential.Certificate.{Certificate}
use rolesanywhere_credential.Keys.{
  PrivateKey, rsa_key, ecdsa_key, other_key, Parsers, CertificateData, read_private_key_data,
  read_pkcs12_data, get_cert_chain, read_certificate_data,
}

pub record FileSystemSigner : Type 0 where
  pub bundle_path : String
  pub cert_path : String
  pub is_pkcs12 : Bool
  pub private_key_path : String

pub data Hash : Type 0 where
  sha256 sha384 sha512 other_hash : Hash

abbrev pub aws4_x509_rsa_sha256 : String
aws4_x509_rsa_sha256 = "AWS4-X509-RSA-SHA256"

abbrev pub aws4_x509_ecdsa_sha256 : String
aws4_x509_ecdsa_sha256 = "AWS4-X509-ECDSA-SHA256"

-- A call that returns, ends the process with status 1, or panics.
pub data Read {ℓ} (A : Type ℓ) : Type ℓ where
  read : A → Read A
  exits : String → Read A
  panics : Read A

abbrev pub and_then {ℓ κ} : {A : Type ℓ} {B : Type κ} → Read A → (A → Read B) → Read B
and_then (read a) f = f a
and_then (exits e) f = exits e
and_then panics f = panics

abbrev pub or_exit {ℓ} : {A : Type ℓ} → String → Result A → Read A
or_exit message (ok a) = read a
or_exit message (err e) = exits message

module _ {Rsa Ecdsa : Type 0} (p : Parsers Rsa Ecdsa) where
  -- A private key (nil is none), a certificate and a chain, which is nil exactly if it is empty.
  abbrev pub CertFiles : Type 0
  CertFiles = Option (PrivateKey Rsa Ecdsa) × Certificate × List Certificate

  -- chain[0] of a PKCS#12 file.
  pub from_pkcs12 : List Certificate × Option (PrivateKey Rsa Ecdsa) → Read CertFiles
  from_pkcs12 ([], key) = panics
  from_pkcs12 (cert ∷ rest, key) = read (key, cert, cert ∷ rest)

  abbrev pub bundle_of : String → Read (List Certificate)
  bundle_of path =
      if path == ""
      then read []
      else or_exit "Failed to read certificate bundle" (get_cert_chain p path)

  abbrev pub first_of : List Certificate → Read Certificate
  first_of [] = exits "No certificate path or certificate bundle path provided"
  first_of (cert ∷ rest) = read cert

  abbrev pub second : CertificateData × Certificate → Read Certificate
  second (data_of, cert) = read cert

  abbrev pub certificate_of : String → List Certificate → Read Certificate
  certificate_of path chain =
      if path == ""
      then first_of chain
      else and_then (or_exit "Failed to read certificate" (read_certificate_data p path)) second

  unfoldable pub read_cert_files : FileSystemSigner → Read CertFiles
  unfolding from_pkcs12
  read_cert_files signer =
      if signer.is_pkcs12
      then and_then
          (or_exit "Failed to read PKCS12 certificate" (read_pkcs12_data p signer.cert_path))
          from_pkcs12
      else and_then
          (or_exit "Failed to read private key" (read_private_key_data p signer.private_key_path))
          (λ key. and_then (bundle_of signer.bundle_path) (λ chain.
            and_then (certificate_of signer.cert_path chain)
              (λ cert. read (some key, cert, chain))))

  abbrev pub certificate : FileSystemSigner → Read Certificate
  certificate signer = and_then (read_cert_files signer) (λ files. read files.1)

  abbrev pub certificate_chain : FileSystemSigner → Read (List Certificate)
  certificate_chain signer = and_then (read_cert_files signer) (λ files. read files.2)

  -- The algorithm of a key, or "".
  abbrev pub algorithm_of : Option (PrivateKey Rsa Ecdsa) → String
  algorithm_of (some (rsa_key k)) = aws4_x509_rsa_sha256
  algorithm_of (some (ecdsa_key k)) = aws4_x509_ecdsa_sha256
  algorithm_of (some other_key) = ""
  algorithm_of none = ""

  abbrev pub with_algorithm :
      FileSystemSigner → Option (PrivateKey Rsa Ecdsa) → Result (FileSystemSigner × String)
  with_algorithm signer key =
      if algorithm_of key == "" then err "unsupported algorithm" else ok (signer, algorithm_of key)

  unfoldable pub get_file_system_signer :
      String → String → String → Bool → Read (Result (FileSystemSigner × String))
  get_file_system_signer private_key_path cert_path bundle_path is_pkcs12 =
      let signer : FileSystemSigner = record {
        bundle_path = bundle_path;
        cert_path = cert_path;
        is_pkcs12 = is_pkcs12;
        private_key_path = private_key_path;
      } in
      and_then (read_cert_files signer) (λ files. read (with_algorithm signer files.0))

  -- crypto/sha256 and crypto/sha512, ecdsa.SignASN1 and rsa.SignPKCS1v15.
  module _ (sum256 sum384 sum512 : List ℕ → List ℕ) (sign_asn1 : Ecdsa → List ℕ → Result (List ℕ))
      (sign_pkcs1v15 : Rsa → Hash → List ℕ → Result (List ℕ)) where
    abbrev pub sum_of : Hash → List ℕ → Option (List ℕ)
    sum_of sha256 digest = some (sum256 digest)
    sum_of sha384 digest = some (sum384 digest)
    sum_of sha512 digest = some (sum512 digest)
    sum_of other_hash digest = none

    -- An error of the signature algorithm is replaced by the last one.
    abbrev pub or_unsupported : Result (List ℕ) → Result (List ℕ)
    or_unsupported (ok signature) = ok signature
    or_unsupported (err e) = err "unsupported algorithm"

    unfoldable pub sign_hash :
        Option (PrivateKey Rsa Ecdsa) → Hash → Option (List ℕ) → Result (List ℕ)
    sign_hash key h none = err "unsupported hash algorithm"
    sign_hash (some (ecdsa_key k)) h (some hash) = or_unsupported (sign_asn1 k hash)
    sign_hash (some (rsa_key k)) h (some hash) = or_unsupported (sign_pkcs1v15 k h hash)
    sign_hash (some other_key) h (some hash) = err "unsupported algorithm"
    sign_hash none h (some hash) = err "unsupported algorithm"

    unfoldable pub sign : FileSystemSigner → Hash → List ℕ → Read (Result (List ℕ))
    unfolding sign_hash
    sign signer h digest =
        and_then (read_cert_files signer) (λ files. read (sign_hash files.0 h (sum_of h digest)))
