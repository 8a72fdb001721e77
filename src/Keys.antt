-- ===== src/Keys.antt =====
-- Reading keys and certificates: the PEM loop, certificate bundles, private keys and PKCS#12 files
-- of aws_signing_helper/signer.go. The parsers of the Go libraries and the file system are a
-- record of functions; a file does not change during a call.

pub mod Pem
pub mod Chain
mod Tests
use rolesanywhere_credential.Prelude.{
  ℕ, zero, suc, String, List, [], ◌∷◌, ◌++◌, Option, none, some, is_some, length, lookup, insert,
  eqb, if◌then◌else◌, ◌==◌, ◌+++◌,
}
use rolesanywhere_credential.Prelude.Int.{ℤ}
use rolesanywhere_credential.Results.{Result, ok, err, ◌>>=◌, or_message}
use rolesanywhere_credential.Certificate.{Certificate}

pub record Block : Type 0 where
  pub block_type : String
  pub bytes : List ℕ

-- crypto.PrivateKey by the dynamic types that the program tells apart.
pub data PrivateKey (Rsa Ecdsa : Type 0) : Type 0 where
  rsa_key : Rsa → PrivateKey Rsa Ecdsa
  ecdsa_key : Ecdsa → PrivateKey Rsa Ecdsa
  other_key : PrivateKey Rsa Ecdsa

pub data PublicKeyAlgorithm : Type 0 where
  rsa : PublicKeyAlgorithm
  ecdsa : PublicKeyAlgorithm
  other_algorithm : PublicKeyAlgorithm

-- os.ReadFile, pem.Decode, crypto/x509, pkcs12.ToPEM with an empty password, base64 and
-- big.Int.String.
pub record Parsers (Rsa Ecdsa : Type 0) : Type 0 where
  pub read_file : String → Result (List ℕ)
  pub decode : List ℕ → Option Block × List ℕ
  pub parse_certificate : List ℕ → Result Certificate
  pub parse_certificates : List ℕ → Result (List Certificate)
  pub parse_ec_private_key : List ℕ → Result Ecdsa
  pub parse_pkcs1_private_key : List ℕ → Result Rsa
  pub parse_pkcs8_private_key : List ℕ → Result (PrivateKey Rsa Ecdsa)
  pub to_pem : List ℕ → Result (List Block)
  pub public_key_algorithm : Certificate → PublicKeyAlgorithm
  pub encode_base64 : List ℕ → String
  pub show_serial : ℤ → String

pub record CertificateData : Type 0 where
  pub key_type : String
  pub certificate_data : String
  pub serial_number : String
  pub algorithms : List String

-- The rest of a call of pem.Decode in the loop of parseDERFromPEM.
pub next_block : String → (List ℕ → Result Block) → Option Block × List ℕ → Result Block
next_block block_type loop (none, rest) = err "unable to parse PEM data"
next_block block_type loop (some block, rest) =
    if block.block_type == block_type then ok block else loop rest

-- The same in ReadCertificateBundleData, from the bytes collected so far.
pub next_certificate :
    List ℕ → (List ℕ → List ℕ → Result (List ℕ)) → Option Block × List ℕ → Result (List ℕ)
next_certificate der loop (none, rest) = ok der
next_certificate der loop (some block, rest) =
    if block.block_type == "CERTIFICATE"
    then loop (der ++ block.bytes) rest
    else err "invalid certificate chain"

-- The loop over the parsed certificates that builds certMap.
pub cert_map : List (String × Certificate) → List Certificate → List (String × Certificate)
cert_map m [] = m
cert_map m (cert ∷ rest) = cert_map (insert cert.issuer cert m) rest

-- The first certificate whose subject is no issuer, with its index, counted from i.
pub find_end_entity : List (String × Certificate) → ℕ → List Certificate → Option (ℕ × Certificate)
find_end_entity m i [] = none
find_end_entity m i (cert ∷ rest) =
    let later = find_end_entity m (suc i) rest in
    if is_some (lookup cert.subject m) then later else some (i, cert)

-- The certificates whose index is not the given one.
pub other_certs : ℕ → ℕ → List Certificate → List Certificate
other_certs found i [] = []
other_certs found i (cert ∷ rest) =
    let later = other_certs found (suc i) rest in if eqb i found then later else cert ∷ later

pub chain_from : Option (ℕ × Certificate) → List Certificate → List Certificate
unfolding other_certs
chain_from none certs = certs
chain_from (some (found, cert)) certs = cert ∷ other_certs found 0 certs

unfoldable pub order_chain : List Certificate → List Certificate
unfolding chain_from find_end_entity cert_map
order_chain certs = chain_from (find_end_entity (cert_map [] certs) 0 certs) certs

module _ {Rsa Ecdsa : Type 0} (p : Parsers Rsa Ecdsa) where
  open p use {decode}

  -- The loop of parseDERFromPEM, on fuel.
  pub find_block : String → ℕ → List ℕ → Result Block
  unfolding next_block
  find_block block_type n [] = err "requested block type could not be found"
  find_block block_type zero (b ∷ bytes) = err "requested block type could not be found"
  find_block block_type (suc n) (b ∷ bytes) =
      next_block block_type (find_block block_type n) (decode (b ∷ bytes))

  unfoldable pub parse_der_from_pem : String → String → Result Block
  unfolding find_block
  parse_der_from_pem pem_data_id block_type =
      p.read_file pem_data_id >>= λ bytes. find_block block_type (length bytes) bytes

  -- The loop of ReadCertificateBundleData, on fuel.
  pub bundle_bytes : ℕ → List ℕ → List ℕ → Result (List ℕ)
  unfolding next_certificate
  bundle_bytes n der [] = ok der
  bundle_bytes zero der (b ∷ bytes) = ok der
  bundle_bytes (suc n) der (b ∷ bytes) = next_certificate der (bundle_bytes n) (decode (b ∷ bytes))

  unfoldable pub read_certificate_bundle_data : String → Result (List Certificate)
  unfolding bundle_bytes
  read_certificate_bundle_data certificate_bundle_id =
      p.read_file certificate_bundle_id
      >>= (λ bytes. bundle_bytes (length bytes) [] bytes)
      >>= p.parse_certificates

  -- A slice copied element by element.
  abbrev pub get_cert_chain : String → Result (List Certificate)
  get_cert_chain certificate_bundle_id = read_certificate_bundle_data certificate_bundle_id

  -- A key that one parser reads from the first block of a type.
  abbrev pub read_key {ℓ} : {K : Type ℓ} → String → (List ℕ → Result K) → String → Result K
  read_key block_type parse private_key_id =
      or_message "could not parse PEM data" (parse_der_from_pem private_key_id block_type)
      >>= λ block. or_message "could not parse private key" (parse block.bytes)

  abbrev pub read_ec_private_key : String → Result Ecdsa
  read_ec_private_key = read_key "EC PRIVATE KEY" p.parse_ec_private_key

  abbrev pub read_rsa_private_key : String → Result Rsa
  read_rsa_private_key = read_key "RSA PRIVATE KEY" p.parse_pkcs1_private_key

  abbrev pub supported_key : PrivateKey Rsa Ecdsa → Result (PrivateKey Rsa Ecdsa)
  supported_key (rsa_key k) = ok (rsa_key k)
  supported_key (ecdsa_key k) = ok (ecdsa_key k)
  supported_key other_key = err "could not parse PKCS#8 private key"

  abbrev pub read_pkcs8_private_key : String → Result (PrivateKey Rsa Ecdsa)
  read_pkcs8_private_key private_key_id =
      read_key "PRIVATE KEY" p.parse_pkcs8_private_key private_key_id >>= supported_key

  -- `if key, err := ...; err == nil { return key, nil }`, and what follows.
  abbrev pub or_else {ℓ} : {A : Type ℓ} → Result A → Result A → Result A
  or_else (ok a) next = ok a
  or_else (err e) next = next

  abbrev pub map_ok {ℓ κ} : {A : Type ℓ} {B : Type κ} → (A → B) → Result A → Result B
  map_ok f (ok a) = ok (f a)
  map_ok f (err e) = err e

  unfoldable pub read_private_key_data : String → Result (PrivateKey Rsa Ecdsa)
  read_private_key_data private_key_id = or_else (read_pkcs8_private_key private_key_id) (
      or_else (map_ok ecdsa_key (read_ec_private_key private_key_id)) (
        or_else (map_ok rsa_key (read_rsa_private_key private_key_id))
          (err "unable to parse private key")))

  abbrev pub read_private_key_data_from_pem_block : Block → Result (PrivateKey Rsa Ecdsa)
  read_private_key_data_from_pem_block block =
      or_else (map_ok ecdsa_key (p.parse_ec_private_key block.bytes)) (
        or_else (map_ok rsa_key (p.parse_pkcs1_private_key block.bytes))
          (err "unable to parse private key"))

  -- The loop of ReadPKCS12Data over the blocks, from the private key seen so far.
  pub read_blocks :
      Option (PrivateKey Rsa Ecdsa) → List Block → List Certificate × Option (PrivateKey Rsa Ecdsa)
  read_blocks key [] = ([], key)
  read_blocks key (block ∷ rest) = elim (p.parse_certificate block.bytes) [
    | ok cert ↦ (cert ∷ (read_blocks key rest).0, (read_blocks key rest).1)
    | err e ↦ elim (read_private_key_data_from_pem_block block) [
      | ok k ↦ read_blocks (some k) rest
      | err e' ↦ read_blocks key rest
    ]
  ]

  abbrev pub chain_and_key :
      List Certificate × Option (PrivateKey Rsa Ecdsa)
      → List Certificate × Option (PrivateKey Rsa Ecdsa)
  chain_and_key (certs, key) = (order_chain certs, key)

  unfoldable pub read_pkcs12_data :
      String → Result (List Certificate × Option (PrivateKey Rsa Ecdsa))
  unfolding read_blocks
  read_pkcs12_data certificate_id = p.read_file certificate_id >>= p.to_pem >>= λ blocks.
      ok (chain_and_key (read_blocks none blocks))

  abbrev pub key_type_of : PublicKeyAlgorithm → String
  key_type_of rsa = "RSA"
  key_type_of ecdsa = "EC"
  key_type_of other_algorithm = ""

  abbrev pub certificate_data_of : Block → Certificate → CertificateData
  certificate_data_of block cert =
      let key_type = key_type_of (p.public_key_algorithm cert) in
      record {
        key_type = key_type;
        certificate_data = p.encode_base64 block.bytes;
        serial_number = p.show_serial cert.serial_number;
        algorithms =
            (key_type +++ "SHA256") ∷ (key_type +++ "SHA384") ∷ (key_type +++ "SHA512") ∷ [];
      }

  unfoldable pub read_certificate_data : String → Result (CertificateData × Certificate)
  read_certificate_data certificate_id =
      or_message "could not parse PEM data" (parse_der_from_pem certificate_id "CERTIFICATE")
      >>= λ block.
          or_message "could not parse certificate" (p.parse_certificate block.bytes) >>= λ cert.
          ok (certificate_data_of block cert, cert)
