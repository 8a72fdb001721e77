-- ===== src/SignerChoice/Laws.antt =====
-- What the choice of a signer has read before it is made.
use rolesanywhere_credential.Prelude.{
  ◌≡◌, refl, sym, ap, ◌∙◌, inl, inr, true, false, String, List, [], ◌∷◌, Option, none, some,
  Bool-cases, ◌==◌, starts_with, eq_iff, ◌⊎◌,
}
use mathlib.Core.Path.{subst}
use rolesanywhere_credential.Results.{Result, ok, err, ◌>>=◌, Result-cases, ok-injective}
use rolesanywhere_credential.Certificate.{Certificate}
use rolesanywhere_credential.Session.{CredentialsOpts}
use rolesanywhere_credential.Keys.{
  Block, PrivateKey, Parsers, CertificateData, parse_der_from_pem, get_cert_chain,
  read_private_key_data, read_pkcs12_data, read_certificate_data,
}
use rolesanywhere_credential.SignerChoice.{
  SignerCall, cert_store, pkcs11, tpmv2, file_system, Found, go_on, calls, try_pkcs12,
  found_certificate, find_certificate, present, find_chain, private_key_of, with_certificate,
  from_key_file, choose_by_key, choose_signer, get_signer, pkcs11_certificate_id,
}

-- A key of a PKCS#11 module is named by its own URI, or by that of the certificate.
abbrev pub HasKeyName : String → Option Certificate → String → Type 0
HasKeyName key cert cert_id = ((key == "") ≡ false) ⊎ ((cert ≡ none) × ((cert_id == "") ≡ false))

module _ {Rsa Ecdsa : Type 0} (p : Parsers Rsa Ecdsa) where
  -- Where a certificate comes from: the file that the options name, which parses; there is none if
  -- they name none or one of a PKCS#11 module.
  abbrev pub IsCertificateOf : CredentialsOpts → Option Certificate → Type 0
  IsCertificateOf opts none =
      (opts.certificate_id ≡ "") ⊎ (starts_with opts.certificate_id "pkcs11:" ≡ true)
  IsCertificateOf opts (some cert) =
      ((data_of : CertificateData) × (read_certificate_data p opts.certificate_id
          ≡ ok (data_of, cert)))
      × (starts_with opts.certificate_id "pkcs11:" ≡ false)

  -- Where a chain comes from: the bundle that the options name, which parses; there is none if they
  -- name none or if the bundle is empty.
  abbrev pub IsChainOf : CredentialsOpts → Option (List Certificate) → Type 0
  IsChainOf opts none =
      (opts.certificate_bundle_id ≡ "") ⊎ (get_cert_chain p opts.certificate_bundle_id ≡ ok [])
  IsChainOf opts (some chain) = get_cert_chain p opts.certificate_bundle_id ≡ ok chain

  -- The key of a TPM: the block of a file that parses, or a handle.
  abbrev pub IsTpmKeyOf : CredentialsOpts → Option Block → String → Type 0
  IsTpmKeyOf opts (some block) handle =
      (parse_der_from_pem p (private_key_of p opts) "TSS2 PRIVATE KEY" ≡ ok block) × (handle ≡ "")
  IsTpmKeyOf opts none handle =
      (starts_with (private_key_of p opts) "handle:" ≡ true) × (handle ≡ opts.private_key_id)

  -- What is known when a signer is called: of a PKCS#12 file the file was read; of other files the
  -- private key, the certificate and the bundle; the signers on a PKCS#11 module and on a TPM are
  -- given the certificate and the chain that were read, and the name or the block of their key.
  abbrev pub IsPrepared : CredentialsOpts → SignerCall → Type 0
  IsPrepared opts (cert_store i) = (opts.private_key_id ≡ "") × (opts.certificate_id ≡ "")
  IsPrepared opts (file_system key cert bundle true) =
      (contents : List Certificate × Option (PrivateKey Rsa Ecdsa)) × (read_pkcs12_data p cert
        ≡ ok contents)
      × (opts.private_key_id ≡ "")
      × (opts.certificate_bundle_id ≡ "")
  IsPrepared opts (file_system key cert bundle false) =
      ((k : PrivateKey Rsa Ecdsa) × (read_private_key_data p key ≡ ok k))
      × ((read_of : CertificateData × Certificate) × (read_certificate_data p cert ≡ ok read_of))
      × ((chain : Option (List Certificate)) × IsChainOf opts chain)
      × (key ≡ private_key_of p opts)
      × (cert ≡ opts.certificate_id)
      × (bundle ≡ opts.certificate_bundle_id)
  IsPrepared opts (pkcs11 lib cert chain key cert_id reuse) =
      HasKeyName key cert cert_id
      × IsCertificateOf opts cert
      × IsChainOf opts chain
      × (key ≡ opts.private_key_id)
  IsPrepared opts (tpmv2 o) =
      IsCertificateOf opts o.certificate
      × IsChainOf opts o.certificate_chain
      × IsTpmKeyOf opts o.key_pem o.handle

  find_chain-IsChainOf :
      (opts : CredentialsOpts) (chain : Option (List Certificate))
      → find_chain p opts ≡ ok chain
      → IsChainOf opts chain
  find_chain-IsChainOf opts chain h = elim (Bool-cases (opts.certificate_bundle_id == "")) [
    | inl e ↦
        let h' = rw e at h in
        subst (IsChainOf opts) (ok-injective h') (inl ((eq_iff opts.certificate_bundle_id "").0 e))
    | inr e ↦
        let h' = rw e at h in
        elim (Result-cases (get_cert_chain p opts.certificate_bundle_id)) [
          | inl read_of ↦
              read_chain read_of.0 read_of.1 (ap (λ m. m >>= present p) (sym read_of.1) ∙ h')
          | inr failure ↦ cc (ap (λ m. m >>= present p) (sym failure.1) ∙ h')
        ]
  ]
    where
      read_chain :
          (read_of : List Certificate)
          → get_cert_chain p opts.certificate_bundle_id ≡ ok read_of
          → present p read_of ≡ ok chain
          → IsChainOf opts chain
      read_chain [] e same = subst (IsChainOf opts) (ok-injective same) (inr e)
      read_chain (cert ∷ rest) e same = subst (IsChainOf opts) (ok-injective same) e

  FoundOrigin : CredentialsOpts → Found p → Type 0
  FoundOrigin opts (go_on cert) = IsCertificateOf opts cert
  FoundOrigin opts (calls c) = IsPrepared opts c

  with_certificate-IsPrepared :
      (opts : CredentialsOpts) (key : String) (cert : Option Certificate)
      (chain : Option (List Certificate)) {c : SignerCall} {k : PrivateKey Rsa Ecdsa}
      → key ≡ private_key_of p opts
      → IsCertificateOf opts cert
      → IsChainOf opts chain
      → read_private_key_data p key ≡ ok k
      → with_certificate p opts key cert ≡ ok c
      → IsPrepared opts c
  unfolding with_certificate
  with_certificate-IsPrepared opts key none chain named o l hk h = cc h
  with_certificate-IsPrepared opts key (some cert) chain {c} {k} named o l hk h =
      subst (IsPrepared opts) (ok-injective h)
        ((k, hk), ((o.0.0, cert), o.0.1), (chain, l), named, refl, refl)

  from_key_file-IsPrepared :
      (opts : CredentialsOpts) (key : String) (cert : Option Certificate)
      (chain : Option (List Certificate)) (block : Result Block) {c : SignerCall}
      → key ≡ private_key_of p opts
      → parse_der_from_pem p key "TSS2 PRIVATE KEY" ≡ block
      → IsCertificateOf opts cert
      → IsChainOf opts chain
      → from_key_file p opts key cert chain block ≡ ok c
      → IsPrepared opts c
  unfolding from_key_file
  from_key_file-IsPrepared opts key cert chain (ok block) hk e o l h =
      subst (IsPrepared opts) (ok-injective h)
        (o, l, (ap (λ k. parse_der_from_pem p k "TSS2 PRIVATE KEY") (sym hk) ∙ e, refl))
  from_key_file-IsPrepared opts key cert chain (err e) hk unread o l h =
      elim (Result-cases (read_private_key_data p key)) [
        | inl k ↦
            with_certificate-IsPrepared opts key cert chain hk o l k.1
              (ap (λ m. m >>= λ x. with_certificate p opts key cert) (sym k.1) ∙ h)
        | inr e' ↦ let h' = rw e'.1 at h in cc h'
      ]

  starts-nonempty : (text : String) → starts_with text "pkcs11:" ≡ true → (text == "") ≡ false
  starts-nonempty text h = elim (Bool-cases (text == "")) [
    | inl e ↦ absurd (cc (ap (λ t. starts_with t "pkcs11:") (sym ((eq_iff text "").0 e)) ∙ h))
    | inr e ↦ e
  ]

  pkcs11_key-HasKeyName :
      (opts : CredentialsOpts) (cert : Option Certificate)
      → IsCertificateOf opts cert
      → starts_with (private_key_of p opts) "pkcs11:" ≡ true
      → HasKeyName opts.private_key_id cert (pkcs11_certificate_id p opts cert)
  pkcs11_key-HasKeyName opts none o h = elim (Bool-cases (opts.private_key_id == "")) [
    | inl e ↦ let h' = rw e at h in inr (refl, starts-nonempty opts.certificate_id h')
    | inr e ↦ inl e
  ]
  pkcs11_key-HasKeyName opts (some cert) o h = elim (Bool-cases (opts.private_key_id == "")) [
    | inl e ↦ let h' = rw e at h in absurd (cc (sym o.1 ∙ h'))
    | inr e ↦ inl e
  ]

  choose_by_key-IsPrepared :
      (opts : CredentialsOpts) (key : String) (cert : Option Certificate)
      (chain : Option (List Certificate)) {c : SignerCall}
      → key ≡ private_key_of p opts
      → IsCertificateOf opts cert
      → IsChainOf opts chain
      → choose_by_key p opts key cert chain ≡ ok c
      → IsPrepared opts c
  unfolding choose_by_key
  choose_by_key-IsPrepared opts key cert chain hk o l h =
      elim (Bool-cases (starts_with key "pkcs11:")) [
        | inl e ↦
            let h' = rw e at h in
            subst (IsPrepared opts) (ok-injective h') (
              pkcs11_key-HasKeyName opts cert o (ap (λ k. starts_with k "pkcs11:") (sym hk) ∙ e),
              o,
              l,
              refl,
            )
        | inr e ↦ elim (Bool-cases (starts_with key "handle:")) [
          | inl e' ↦
              let h' = rw (e, e') at h in
              subst (IsPrepared opts) (ok-injective h')
                (o, l, (ap (λ k. starts_with k "handle:") (sym hk) ∙ e', refl))
          | inr e' ↦
              let h' = rw (e, e') at h in
              from_key_file-IsPrepared opts key cert chain
                (parse_der_from_pem p key "TSS2 PRIVATE KEY") hk refl o l h'
        ]
      ]

  try_pkcs12_origin :
      (opts : CredentialsOpts) {f : Found p}
      → opts.private_key_id ≡ ""
      → try_pkcs12 p opts ≡ ok f
      → FoundOrigin opts f
  unfolding FoundOrigin
  try_pkcs12_origin opts {f} no_key h = elim (Bool-cases (opts.certificate_bundle_id == "")) [
    | inl e ↦ elim (Result-cases (read_pkcs12_data p opts.certificate_id)) [
      | inl read_of ↦
          let h' = rw (e, read_of.1) at h in
          subst (FoundOrigin opts) (ok-injective h')
            (read_of.0, read_of.1, no_key, (eq_iff opts.certificate_bundle_id "").0 e)
      | inr failure ↦ let h' = rw (e, failure.1) at h in cc h'
    ]
    | inr e ↦ let h' = rw e at h in cc h'
  ]

  found_certificate_origin :
      (opts : CredentialsOpts) (o : Result (CertificateData × Certificate)) {f : Found p}
      → read_certificate_data p opts.certificate_id ≡ o
      → starts_with opts.certificate_id "pkcs11:" ≡ false
      → found_certificate p opts o ≡ ok f
      → FoundOrigin opts f
  unfolding found_certificate FoundOrigin
  found_certificate_origin opts (ok (data_of, cert)) e hp h =
      subst (FoundOrigin opts) (ok-injective h) ((data_of, e), hp)
  found_certificate_origin opts (err message) e hp h =
      elim (Bool-cases (opts.private_key_id == "")) [
        | inl no_key ↦
            let h' = rw no_key at h in
            try_pkcs12_origin opts ((eq_iff opts.private_key_id "").0 no_key) h'
        | inr key ↦ let h' = rw key at h in cc h'
      ]

  find_certificate_origin :
      (opts : CredentialsOpts) {f : Found p} → find_certificate p opts ≡ ok f → FoundOrigin opts f
  unfolding find_certificate FoundOrigin
  find_certificate_origin opts h = elim (Bool-cases (opts.certificate_id == "")) [
    | inl e ↦
        let h' = rw e at h in
        subst (FoundOrigin opts) (ok-injective h') (inl ((eq_iff opts.certificate_id "").0 e))
    | inr e ↦ elim (Bool-cases (starts_with opts.certificate_id "pkcs11:")) [
      | inl e' ↦ let h' = rw (e, e') at h in subst (FoundOrigin opts) (ok-injective h') (inr e')
      | inr e' ↦
          let h' = rw (e, e') at h in
          found_certificate_origin opts (read_certificate_data p opts.certificate_id) refl e' h'
    ]
  ]

  choose_signer-IsPrepared :
      (opts : CredentialsOpts) (f : Found p) {c : SignerCall}
      → FoundOrigin opts f
      → choose_signer p opts f ≡ ok c
      → IsPrepared opts c
  unfolding choose_signer FoundOrigin
  choose_signer-IsPrepared opts (calls call) o h = subst (IsPrepared opts) (ok-injective h) o
  choose_signer-IsPrepared opts (go_on cert) o h = elim (Result-cases (find_chain p opts)) [
    | inl chain ↦
        choose_by_key-IsPrepared opts (private_key_of p opts) cert chain.0 refl o
          (find_chain-IsChainOf opts chain.0 chain.1)
          (ap (λ m. m >>= λ x. choose_by_key p opts (private_key_of p opts) cert x) (sym chain.1)
            ∙ h)
    | inr e ↦
        cc (ap (λ m. m >>= λ x. choose_by_key p opts (private_key_of p opts) cert x) (sym e.1) ∙ h)
  ]

  no_ids :
      (opts : CredentialsOpts)
      → (private_key_of p opts == "") ≡ true
      → (opts.private_key_id ≡ "") × (opts.certificate_id ≡ "")
  no_ids opts e = elim (Bool-cases (opts.private_key_id == "")) [
    | inl k ↦
        let e' = rw k at e in
        ((eq_iff opts.private_key_id "").0 k, (eq_iff opts.certificate_id "").0 e')
    | inr k ↦ let e' = rw k at e in cc (e', k)
  ]

  pub get_signer-IsPrepared :
      (opts : CredentialsOpts) {c : SignerCall} → get_signer p opts ≡ ok c → IsPrepared opts c
  unfolding get_signer
  get_signer-IsPrepared opts h = elim (Bool-cases (private_key_of p opts == "")) [
    | inl e ↦ let h' = rw e at h in subst (IsPrepared opts) (ok-injective h') (no_ids opts e)
    | inr e ↦
        let h' = rw e at h in
        elim (Result-cases (find_certificate p opts)) [
          | inl f ↦
              choose_signer-IsPrepared opts f.0 (find_certificate_origin opts f.1)
                (ap (λ m. m >>= choose_signer p opts) (sym f.1) ∙ h')
          | inr failure ↦ cc (ap (λ m. m >>= choose_signer p opts) (sym failure.1) ∙ h')
        ]
  ]
