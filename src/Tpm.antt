-- ===== src/Tpm.antt =====
-- The signer on TPMs: aws_signing_helper/tpm_signer.go, with openTPM of tpm_signer_helper_other.go and
-- tpm_signer_helper_windows.go. The TPM, ASN.1 and the digests are a record of functions.
pub mod Load
pub mod Digest
pub mod Sign
pub mod Handles
pub mod Padding
pub mod Loadable
mod Tests
use rolesanywhere_credential.Prelude.{
  ℕ, Bool, true, false, String, List, [], ◌∷◌, Option, none, some, if◌then◌else◌, ◌==◌,
}
use rolesanywhere_credential.Prelude.Int.{ℤ}
use rolesanywhere_credential.Results.{Result}
use rolesanywhere_credential.Certificate.{Certificate}

-- The algorithms, by their numbers in the TPM's specification.
abbrev pub alg_unknown : ℕ
alg_unknown = 0

abbrev pub alg_rsa : ℕ
alg_rsa = 1

abbrev pub alg_sha1 : ℕ
alg_sha1 = 4

abbrev pub alg_sha256 : ℕ
alg_sha256 = 11

abbrev pub alg_sha384 : ℕ
alg_sha384 = 12

abbrev pub alg_sha512 : ℕ
alg_sha512 = 13

abbrev pub alg_rsassa : ℕ
alg_rsassa = 20

abbrev pub alg_ecdsa : ℕ
alg_ecdsa = 24

abbrev pub alg_ecc : ℕ
alg_ecc = 35

-- tpm2_TPMKey. Of the policies only their presence is read.
pub record TpmKey : Type 0 where
  pub oid : List ℕ
  pub empty_auth : Bool
  pub has_policy : Bool
  pub secret : Option (List ℕ)
  pub has_auth_policy : Bool
  pub parent : ℤ
  pub pubkey : List ℕ
  pub privkey : List ℕ

-- tpm2.Public, by its type and the rest.
pub record TpmPublic : Type 0 where
  pub key_algorithm : ℕ
  pub parameters : List ℕ

pub record Tpmv2Signer : Type 0 where
  pub cert : Option Certificate
  pub cert_chain : Option (List Certificate)
  pub tpm_data : TpmKey
  pub public : TpmPublic
  pub private : List ℕ
  pub password : String
  pub empty_auth : Bool
  pub handle : ℕ

-- tpm2.SigScheme and tpm2.Signature.
pub record SigScheme : Type 0 where
  pub alg : ℕ
  pub hash : ℕ

pub record TpmSignature : Type 0 where
  pub ecc_r : ℕ
  pub ecc_s : ℕ
  pub rsa_signature : List ℕ

-- go-tpm, encoding/asn1, the digests and the texts.
pub record TpmDevice : Type 0 where
  pub os : String
  pub tpm_device : String
  pub open_device : List String → Option String
  -- The identifiers of the algorithms that the TPM has, from a given one on.
  pub get_capability : ℕ → Result (List ℕ)
  pub create_primary : ℕ → Result ℕ
  pub load : ℕ → List ℕ → List ℕ → Result ℕ
  pub sign : ℕ → String → List ℕ → SigScheme → Result TpmSignature
  pub read_public : ℕ → Result TpmPublic
  pub decode_public : List ℕ → Result TpmPublic
  -- The size in bits of the curve of a public key; none for a key that is not on a curve.
  pub curve_bits : TpmPublic → Result (Option ℕ)
  -- asn1.Unmarshal of an object identifier: it, and how many bytes are behind it.
  pub unmarshal_oid : List ℕ → Option (List ℕ × ℕ)
  pub unmarshal_key : List ℕ → Result TpmKey
  pub marshal_r_s : ℕ → ℕ → Result (List ℕ)
  pub sum256 : List ℕ → List ℕ
  pub sum384 : List ℕ → List ℕ
  pub sum512 : List ℕ → List ℕ
  pub split : String → String → List String
  -- s[2:]
  pub behind_two : String → String
  -- strconv.ParseUint(s, 16, 32)
  pub parse_hex : String → Result ℕ
  pub contains : String → String → Bool
  pub tty_read : Option String
  pub tty_write : Option String

-- openTPM: the paths that are tried, and its error.
abbrev pub tpm_paths : TpmDevice → List String
tpm_paths d = if d.os == "windows" then [] else if d.tpm_device == "" then [] else d.tpm_device ∷ []

abbrev pub open_tpm : TpmDevice → Option String
open_tpm d = d.open_device (tpm_paths d)
