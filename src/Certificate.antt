-- ===== src/Certificate.antt =====
-- What the program reads of an x509.Certificate, the identifier by which a certificate is chosen,
-- and the interface Signer (aws_signing_helper/signer.go).
use rolesanywhere_credential.Prelude.{ℕ, String, List, Option}
use rolesanywhere_credential.Prelude.Int.{ℤ}
use rolesanywhere_credential.Results.{Result}

-- `subject` and `issuer` are the texts of the distinguished names, `raw` the DER encoding.
pub record Certificate : Type 0 where
  pub raw : List ℕ
  pub subject : String
  pub issuer : String
  pub serial_number : ℤ

pub record CertIdentifier : Type 0 where
  pub subject : String
  pub issuer : String
  pub serial_number : Option ℤ
  pub system_store_name : String

-- CertificateChain returns a slice, nil or not, beside its error.
pub record Signer : Type 0 where
  pub sign : String → Result (List ℕ)
  pub certificate : Result Certificate
  pub certificate_chain : Option (List Certificate) × Option String
