-- ===== src/Commands.antt =====
-- The commands: cmd/sign_string.go, cmd/read_certificate_data.go, cmd/credential_process.go,
-- cmd/update.go and cmd/serve.go. Their flags, and what the helper's functions return, are
-- arguments; what is logged is left out.
mod Tests
use rolesanywhere_credential.Prelude.{
  ℕ, ◌+◌, Bool, true, false, not, String, List, [], ◌∷◌, ◌++◌, Option, none, some, if◌then◌else◌,
  ◌==◌, ◌||◌, ◌+++◌, starts_with,
}
use rolesanywhere_credential.Prelude.Int.{ℤ}
use rolesanywhere_credential.Results.{Result, ok, err, returned, panicked}
use rolesanywhere_credential.Certificate.{Certificate, Signer}
use rolesanywhere_credential.Session.{
  CredentialsOpts, CredentialProcessOutput, Environment, Generated, generate_credentials,
}
use rolesanywhere_credential.FileSigner.{Hash, sha256, sha384, sha512}
use rolesanywhere_credential.Pkcs11.{PublicKey, ec_public, rsa_public, other_public}

-- A flag with its allowed values.
pub record Enum : Type 0 where
  pub allowed : List String
  pub value : String

abbrev pub is_included : List String → String → Bool
is_included [] val = false
is_included (opt ∷ rest) val = let later = is_included rest val in val == opt || later

-- Set, from the text of its error.
unfoldable pub set_enum : String → Enum → String → Result Enum
set_enum message a p = if is_included a.allowed p then ok (record a { value = p }) else err message

abbrev pub format_enum : Enum
format_enum = record { allowed = "json" ∷ "text" ∷ "bin" ∷ []; value = "json" }

abbrev pub digest_enum : Enum
digest_enum = record { allowed = "SHA256" ∷ "SHA384" ∷ "SHA512" ∷ []; value = "SHA256" }

-- What a command prints before it returns, the code with which it exits, or a
-- panic.
pub data CommandEnd : Type 0 where
  prints : List ℕ → CommandEnd
  exits : ℕ → List ℕ → CommandEnd
  crashes : CommandEnd

-- A signer of the helper, and whether it was closed.
pub record OpenSigner : Type 0 where
  pub public : PublicKey
  pub sign_bytes : Hash → List ℕ → Result (List ℕ)

pub record CommandRun : Type 0 where
  pub ending : CommandEnd
  pub is_closed : Bool

-- The standard library.
pub record Printing : Type 0 where
  pub bytes : String → List ℕ
  pub to_upper : String → String
  pub to_lower : String → String
  pub hex : List ℕ → List ℕ
  pub json : List ℕ → List ℕ
  pub sum256 : List ℕ → List ℕ
  pub fingerprint : Certificate → String
  pub number : ℕ → String

module _ (d : Printing) where
  abbrev pub public_suffix : PublicKey → List ℕ
  public_suffix (ec_public bytes) = d.sum256 (d.bytes "IAM RA" ++ bytes)
  public_suffix (rsa_public bytes) = d.sum256 (d.bytes "IAM RA" ++ bytes)
  public_suffix other_public = []

  unfoldable pub get_fixed_string_to_sign : PublicKey → List ℕ
  get_fixed_string_to_sign key =
      d.bytes ("AWS Roles Anywhere Credential Helper Signing Test" +++ "1") ++ public_suffix key

  unfoldable pub digest_of_flag : String → Hash
  digest_of_flag value =
      if d.to_upper value == "SHA256"
      then sha256
      else if d.to_upper value == "SHA384"
      then sha384
      else if d.to_upper value == "SHA512"
      then sha512
      else sha256

  unfoldable pub formatted : String → List ℕ → List ℕ
  formatted format signature =
      if d.to_lower format == "text"
      then d.hex signature
      else if d.to_lower format == "json"
      then d.json (d.hex signature)
      else if d.to_lower format == "bin"
      then signature
      else d.hex signature

  -- An exit skips the deferred Close.
  abbrev pub signed_as : String → Result (List ℕ) → CommandRun
  signed_as format (err e) = record { ending = exits 1 []; is_closed = false }
  signed_as format (ok signature) = record {
    ending = prints (formatted format signature);
    is_closed = true;
  }

  abbrev pub sign_with_signer : String → String → Result OpenSigner → CommandRun
  sign_with_signer digest format (err e) = record { ending = exits 1 []; is_closed = false }
  sign_with_signer digest format (ok signer) =
      signed_as format
        (signer.sign_bytes (digest_of_flag digest) (get_fixed_string_to_sign signer.public))

  -- sign-string, which signs the fixed string.
  unfoldable pub sign_string :
      Result CredentialsOpts → (CredentialsOpts → Result OpenSigner) → Enum → Enum → CommandRun
  sign_string (err e) get_signer_of digest format = record {
    ending = exits 1 [];
    is_closed = false;
  }
  sign_string (ok opts) get_signer_of digest format =
      sign_with_signer digest.value format.value (get_signer_of opts)

  -- DefaultPrintCertificate, and the list of certificates from an index on.
  abbrev pub certificate_line : ℕ → Certificate × String → String
  certificate_line index (cert, uri) =
      d.number (index + 1)
      +++ ") "
      +++ d.fingerprint cert
      +++ " \""
      +++ cert.subject
      +++ "\"\n"
      +++ (if uri == "" then "" else "\tURI: " +++ uri +++ "\n")

  pub certificate_lines : ℕ → List (Certificate × String) → String
  certificate_lines index [] = ""
  certificate_lines index (container ∷ rest) =
      certificate_line index container +++ certificate_lines (index + 1) rest

  abbrev pub identities : List (Certificate × String) → String
  unfolding certificate_lines
  identities [] = "No matching identities\n"
  identities (container ∷ rest) = "Matching identities\n" +++ certificate_lines 0 (container ∷ rest)

  abbrev pub listed_identities : Result (List (Certificate × String)) → CommandEnd
  unfolding identities
  listed_identities (err e) = exits 1 []
  listed_identities (ok containers) = prints (d.bytes (identities containers))

  -- The data of a certificate's file is printed, and then the program exits.
  abbrev pub printed_data : Result (List ℕ) → CommandEnd
  printed_data (err e) = exits 1 []
  printed_data (ok json) = exits 0 json

  -- read-certificate-data, from the identifier, the matching certificates of a PKCS#11 URI and of
  -- the certificate store, and the encoded data of a file.
  unfoldable pub read_certificate_data_command :
      {Identifier : Type 0}
      → String
      → Result Identifier
      → (String → Result (List (Certificate × String)))
      → (Identifier → Result (List (Certificate × String)))
      → (String → Result (List ℕ))
      → CommandEnd
  unfolding listed_identities
  read_certificate_data_command certificate_id (err e) of_pkcs11 of_store of_file = exits 1 []
  read_certificate_data_command certificate_id (ok identifier) of_pkcs11 of_store of_file =
      if starts_with certificate_id "pkcs11:"
      then listed_identities (of_pkcs11 certificate_id)
      else if not (certificate_id == "")
      then printed_data (of_file certificate_id)
      else listed_identities (of_store identifier)

-- credential-process: GetSigner comes with the options that it leaves, and the output is printed as
-- JSON.
module _ (env : Environment) (json : CredentialProcessOutput → List ℕ)
    (get_signer_of : CredentialsOpts → CredentialsOpts × Result (Signer × String)) where
  unfoldable pub print_credentials : CredentialsOpts × Generated → CommandEnd
  print_credentials (opts, panicked) = crashes
  print_credentials (opts, returned (out, none)) = prints (json out)
  print_credentials (opts, returned (out, some e)) = exits 1 []

  unfoldable pub process_with : CredentialsOpts × Result (Signer × String) → CommandEnd
  process_with (opts, err e) = exits 1 []
  process_with (opts, ok (signer, algorithm)) =
      print_credentials (generate_credentials env opts signer algorithm)

  unfoldable pub credential_process : Result CredentialsOpts → CommandEnd
  credential_process (err e) = exits 1 []
  credential_process (ok opts) = process_with (get_signer_of opts)

-- serve and update: an exit, or the call of helper.Serve or helper.Update.
pub data Launch (A : Type 0) : Type 0 where
  starts : A → Launch A
  refuses : ℕ → Launch A

abbrev pub serve_command : ℤ → Result CredentialsOpts → Launch CredentialsOpts
serve_command hop_limit (err e) = refuses 1
serve_command hop_limit (ok opts) = starts (record opts { server_ttl = hop_limit })

abbrev pub update_command :
    String → Bool → Result CredentialsOpts → Launch (CredentialsOpts × String × Bool)
update_command profile once (err e) = refuses 1
update_command profile once (ok opts) = starts (opts, profile, once)
