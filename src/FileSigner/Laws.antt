-- ===== src/FileSigner/Laws.antt =====
-- What a signer on files signs with.
use rolesanywhere_credential.Prelude.{
  ℕ, ◌≡◌, refl, sym, ap, ◌∙◌, Bool, true, String, List, [], Option, none, some,
}
use mathlib.Core.Path.{subst}
use rolesanywhere_credential.Results.{Result, ok, err}
use rolesanywhere_credential.Keys.{
  PrivateKey, rsa_key, ecdsa_key, other_key, Parsers, read_pkcs12_data,
}
use rolesanywhere_credential.FileSigner.{
  FileSystemSigner, Read, read, exits, panics, and_then, from_pkcs12, read_cert_files, sign,
  sign_hash, sum_of, or_unsupported, Hash, sha256, sha384, sha512, other_hash, with_algorithm,
  get_file_system_signer, aws4_x509_rsa_sha256, aws4_x509_ecdsa_sha256, CertFiles,
}

-- A key that the signer can use, with its algorithm.
pub data IsSigningKey {Rsa Ecdsa : Type 0} : Option (PrivateKey Rsa Ecdsa) → String → Type 0 where
  rsa_signs : {k : Rsa} → IsSigningKey (some (rsa_key k)) aws4_x509_rsa_sha256
  ecdsa_signs : {k : Ecdsa} → IsSigningKey (some (ecdsa_key k)) aws4_x509_ecdsa_sha256

module _ {Rsa Ecdsa : Type 0} (p : Parsers Rsa Ecdsa) where
  -- A PKCS#12 file that is read and holds no certificate makes the reading of the signer's files
  -- panic: there is no first element of its chain.
  pub read_cert_files_panics :
      (signer : FileSystemSigner) (key : Option (PrivateKey Rsa Ecdsa))
      → signer.is_pkcs12 ≡ true
      → read_pkcs12_data p signer.cert_path ≡ ok ([], key)
      → read_cert_files p signer ≡ panics
  unfolding read_cert_files from_pkcs12
  read_cert_files_panics signer key e h = rw (e, h) refl

  signing_key :
      (key : Option (PrivateKey Rsa Ecdsa)) {s : FileSystemSigner} {signer : FileSystemSigner}
      {algorithm : String}
      → with_algorithm p s key ≡ ok (signer, algorithm)
      → (s ≡ signer) × IsSigningKey key algorithm
  signing_key none h = cc h
  signing_key (some other_key) h = cc h
  signing_key (some (rsa_key k)) h =
      (cc h, subst (IsSigningKey (some (rsa_key k))) (cc h) rsa_signs)
  signing_key (some (ecdsa_key k)) h =
      (cc h, subst (IsSigningKey (some (ecdsa_key k))) (cc h) ecdsa_signs)

  read_outcome :
      (s : FileSystemSigner) (o : Read (CertFiles p)) {signer : FileSystemSigner}
      {algorithm : String}
      → and_then o (λ files. read (with_algorithm p s files.0)) ≡ read (ok (signer, algorithm))
      → (files : CertFiles p) × (o ≡ read files) × (s ≡ signer) × IsSigningKey files.0 algorithm
  read_outcome s (exits e) h = cc h
  read_outcome s panics h = cc h
  read_outcome s (read files) h =
      let made = signing_key files.0 (cc h) in (files, refl, made.0, made.1)

  -- The key with which GetFileSystemSigner's files were read is of the algorithm that it reports.
  signer_files :
      (private_key_path cert_path bundle_path : String) (is_pkcs12 : Bool)
      {signer : FileSystemSigner} {algorithm : String}
      → get_file_system_signer p private_key_path cert_path bundle_path is_pkcs12
        ≡ read (ok (signer, algorithm))
      → (files : CertFiles p) × (read_cert_files p signer ≡ read files)
        × IsSigningKey files.0 algorithm
  signer_files key_path cert_path bundle_path is_pkcs12 {signer} {algorithm} h =
      let s : FileSystemSigner = record {
        bundle_path = bundle_path;
        cert_path = cert_path;
        is_pkcs12 = is_pkcs12;
        private_key_path = key_path;
      } in
      let made =
        read_outcome s (read_cert_files p s) {signer = signer} {algorithm = algorithm}
          (unfold get_file_system_signer in h) in
      (made.0, ap (read_cert_files p) (sym made.2) ∙ made.1, made.3)

  module _ (sum256 sum384 sum512 : List ℕ → List ℕ) (sign_asn1 : Ecdsa → List ℕ → Result (List ℕ))
      (sign_pkcs1v15 : Rsa → Hash → List ℕ → Result (List ℕ)) where
    -- The sum of a text by the hash asked for.
    pub data IsSum (text : List ℕ) : Hash → List ℕ → Type 0 where
      by_256 : IsSum text sha256 (sum256 text)
      by_384 : IsSum text sha384 (sum384 text)
      by_512 : IsSum text sha512 (sum512 text)

    -- What a signer of an algorithm may answer: a signature of the sum by the algorithm with a key of
    -- its files, an error where that algorithm failed, or an error for a hash it does not know.
    pub data IsSigned (key : Option (PrivateKey Rsa Ecdsa)) (text : List ℕ)
        : String → Hash → Result (List ℕ) → Type 0 where
      rsa_signature :
          (k : Rsa) {h : Hash} {sum signature : List ℕ}
          → key ≡ some (rsa_key k)
          → IsSum text h sum
          → sign_pkcs1v15 k h sum ≡ ok signature
          → IsSigned key text aws4_x509_rsa_sha256 h (ok signature)
      ecdsa_signature :
          (k : Ecdsa) {h : Hash} {sum signature : List ℕ}
          → key ≡ some (ecdsa_key k)
          → IsSum text h sum
          → sign_asn1 k sum ≡ ok signature
          → IsSigned key text aws4_x509_ecdsa_sha256 h (ok signature)
      rsa_failed :
          (k : Rsa) {h : Hash} {sum : List ℕ} {e : String}
          → key ≡ some (rsa_key k)
          → IsSum text h sum
          → sign_pkcs1v15 k h sum ≡ err e
          → IsSigned key text aws4_x509_rsa_sha256 h (err "unsupported algorithm")
      ecdsa_failed :
          (k : Ecdsa) {h : Hash} {sum : List ℕ} {e : String}
          → key ≡ some (ecdsa_key k)
          → IsSum text h sum
          → sign_asn1 k sum ≡ err e
          → IsSigned key text aws4_x509_ecdsa_sha256 h (err "unsupported algorithm")
      unknown_hash :
          {algorithm : String}
          → IsSigned key text algorithm other_hash (err "unsupported hash algorithm")

    rsa-IsSigned :
        (k : Rsa) (text sum : List ℕ) (h : Hash) (r : Result (List ℕ))
        → IsSum text h sum
        → sign_pkcs1v15 k h sum ≡ r
        → IsSigned
            (some (rsa_key k))
            text
            aws4_x509_rsa_sha256
            h
            (or_unsupported p sum256 sum384 sum512 sign_asn1 sign_pkcs1v15 r)
    rsa-IsSigned k text sum h (ok signature) s e = rsa_signature k refl s e
    rsa-IsSigned k text sum h (err m) s e = rsa_failed k refl s e

    ecdsa-IsSigned :
        (k : Ecdsa) (text sum : List ℕ) (h : Hash) (r : Result (List ℕ))
        → IsSum text h sum
        → sign_asn1 k sum ≡ r
        → IsSigned
            (some (ecdsa_key k))
            text
            aws4_x509_ecdsa_sha256
            h
            (or_unsupported p sum256 sum384 sum512 sign_asn1 sign_pkcs1v15 r)
    ecdsa-IsSigned k text sum h (ok signature) s e = ecdsa_signature k refl s e
    ecdsa-IsSigned k text sum h (err m) s e = ecdsa_failed k refl s e

    sign_hash-IsSigned :
        (key : Option (PrivateKey Rsa Ecdsa)) (algorithm : String) (h : Hash) (text : List ℕ)
        → IsSigningKey key algorithm
        → IsSigned key text algorithm h (
            sign_hash p sum256 sum384 sum512 sign_asn1 sign_pkcs1v15 key h
              (sum_of p sum256 sum384 sum512 sign_asn1 sign_pkcs1v15 h text))
    unfolding sign_hash
    sign_hash-IsSigned key algorithm other_hash text k = unknown_hash
    sign_hash-IsSigned _ _ sha256 text (rsa_signs {k}) = rsa-IsSigned k text _ _ _ by_256 refl
    sign_hash-IsSigned _ _ sha384 text (rsa_signs {k}) = rsa-IsSigned k text _ _ _ by_384 refl
    sign_hash-IsSigned _ _ sha512 text (rsa_signs {k}) = rsa-IsSigned k text _ _ _ by_512 refl
    sign_hash-IsSigned _ _ sha256 text (ecdsa_signs {k}) = ecdsa-IsSigned k text _ _ _ by_256 refl
    sign_hash-IsSigned _ _ sha384 text (ecdsa_signs {k}) = ecdsa-IsSigned k text _ _ _ by_384 refl
    sign_hash-IsSigned _ _ sha512 text (ecdsa_signs {k}) = ecdsa-IsSigned k text _ _ _ by_512 refl

    -- If the signer's files, which each call reads anew, still parse as they did when
    -- GetFileSystemSigner returned the signer with an algorithm, then Sign neither exits nor panics: it
    -- answers with a signature of the text's sum by that algorithm, with the key of the files, or with
    -- an error where the algorithm failed or the hash is not known.
    pub get_file_system_signer-IsSigned :
        (private_key_path cert_path bundle_path : String) (is_pkcs12 : Bool)
        {signer : FileSystemSigner} {algorithm : String}
        → get_file_system_signer p private_key_path cert_path bundle_path is_pkcs12
          ≡ read (ok (signer, algorithm))
        → (later : Parsers Rsa Ecdsa) → read_cert_files later signer ≡ read_cert_files p signer
        → (h : Hash) (text : List ℕ)
        → (files : CertFiles p) × (answer : Result (List ℕ)) × (read_cert_files p signer
            ≡ read files)
          × (sign later sum256 sum384 sum512 sign_asn1 sign_pkcs1v15 signer h text ≡ read answer)
          × IsSigned files.0 text algorithm h answer
    unfolding sign
    get_file_system_signer-IsSigned key_path cert_path bundle_path is_pkcs12 e later same h text =
        let (files, reads, signs) = signer_files key_path cert_path bundle_path is_pkcs12 e in
        (
          files,
          _,
          reads,
          ap
              (λ r. and_then r (λ files. read (
                sign_hash p sum256 sum384 sum512 sign_asn1 sign_pkcs1v15 files.0 h
                  (sum_of p sum256 sum384 sum512 sign_asn1 sign_pkcs1v15 h text))))
              (same ∙ reads),
          sign_hash-IsSigned files.0 _ h text signs,
        )
