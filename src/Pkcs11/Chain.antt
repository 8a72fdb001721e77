-- ===== src/Pkcs11/Chain.antt =====
-- The certificate chain out of a session, and the listing of certificates:
-- getCertificateChain and GetMatchingPKCSCerts of aws_signing_helper/pkcs11_signer.go.
use rolesanywhere_credential.Prelude.{
  ℕ, zero, suc, Bool, false, not, String, List, [], ◌∷◌, Option, none, some, length, if◌then◌else◌,
}
use rolesanywhere_credential.Results.{Result, ok, err}
use rolesanywhere_credential.Certificate.{Certificate}
use rolesanywhere_credential.Pkcs11.{SlotIdInfo, CertObjInfo, Device}
use rolesanywhere_credential.Pkcs11.Calls.{
  M, ◌>>=◌, ◌>>◌, pure, history, end_session, finalize, initialize_pkcs11_module,
}
use rolesanywhere_credential.Pkcs11.Slots.{enumerate_slots}
use rolesanywhere_credential.Pkcs11.Certs.{Matching, get_certs_in_session, get_matching_certs}

-- certs[i] = certs[len(certs)-1], and certs[:len(certs)-1].
unfoldable pub set_at {ℓ} : {A : Type ℓ} → ℕ → A → List A → List A
set_at i x [] = []
set_at zero x (y ∷ rest) = x ∷ rest
set_at (suc i) x (y ∷ rest) = y ∷ set_at i x rest

unfoldable pub last_or {ℓ} : {A : Type ℓ} → A → List A → A
last_or x [] = x
last_or x (y ∷ rest) = last_or y rest

unfoldable pub drop_last {ℓ} : {A : Type ℓ} → List A → List A
drop_last [] = []
drop_last (x ∷ []) = []
drop_last (x ∷ y ∷ rest) = x ∷ drop_last (y ∷ rest)

unfoldable pub swap_remove {ℓ} : {A : Type ℓ} → ℕ → List A → List A
unfolding set_at last_or drop_last
swap_remove i [] = []
swap_remove i (x ∷ rest) = drop_last (set_at i (last_or x rest) (x ∷ rest))

-- Each object that was found has its certificate.
abbrev pub cert_list : Option Certificate → List Certificate → List Certificate
cert_list none rest = rest
cert_list (some cert) rest = cert ∷ rest

pub certs_found : List CertObjInfo → List Certificate
certs_found [] = []
certs_found (obj ∷ rest) = cert_list obj.cert (certs_found rest)

module _ {Uri : Type 0} (d : Device Uri) where
  -- certIssues: `return err != nil`.
  unfoldable pub cert_issues : Certificate → Certificate → Bool
  cert_issues issuer candidate = not (d.verifies issuer candidate)

  -- The inner loop: the first certificate that issues the last one, and its index from i.
  unfoldable pub find_issuer : Certificate → ℕ → List Certificate → Option (ℕ × Certificate)
  find_issuer last i [] = none
  find_issuer last i (cert ∷ rest) =
      let later = find_issuer last (suc i) rest in
      if cert_issues cert last then some (i, cert) else later

  unfoldable pub next_in_chain :
      (Certificate → List Certificate → List Certificate)
      → List Certificate
      → Option (ℕ × Certificate)
      → List Certificate
  unfolding swap_remove
  next_in_chain loop certs none = []
  next_in_chain loop certs (some (i, cert)) = cert ∷ loop cert (swap_remove i certs)

  -- The outer loop from the last certificate of the chain, on fuel: each round takes one away.
  unfoldable pub chain_loop : ℕ → Certificate → List Certificate → List Certificate
  unfolding next_in_chain find_issuer
  chain_loop zero last certs = []
  chain_loop (suc n) last certs = next_in_chain (chain_loop n) certs (find_issuer last 0 certs)

  unfoldable pub chain_of : Certificate → List Certificate → List Certificate
  unfolding chain_loop
  chain_of cert certs = cert ∷ chain_loop (length certs) cert certs

  abbrev pub chain_from_objects :
      Certificate → Result (List CertObjInfo) → Result (List Certificate)
  unfolding certs_found
  chain_from_objects cert (err e) = err e
  chain_from_objects cert (ok objs) = ok (chain_of cert (certs_found objs))

  unfoldable pub get_certificate_chain : ℕ → Certificate → M (Result (List Certificate))
  get_certificate_chain session cert =
      get_certs_in_session d session none >>= λ certs. pure (chain_from_objects cert certs)

  -- CertificateContainer: the certificate and its URI.
  abbrev pub CertificateContainer : Type 0
  CertificateContainer = Option Certificate × String

  abbrev pub add_bytes : String → Option (List ℕ) → Uri → Uri
  add_bytes name none uri = uri
  add_bytes name (some value) uri = d.add_path_attribute name (d.text value) uri

  abbrev pub or_empty : Result String → String
  or_empty (ok text) = text
  or_empty (err e) = ""

  abbrev pub slot_uri : SlotIdInfo → Uri
  slot_uri slot = d.add_path_attribute "slot-manufacturer" slot.info.manufacturer_id (
      d.add_path_attribute "slot-description" slot.info.slot_description (
        d.add_path_attribute "serial" slot.tok_info.serial_number (
          d.add_path_attribute "manufacturer" slot.tok_info.token_manufacturer_id
            (d.add_path_attribute "model" slot.tok_info.model d.new_uri))))

  abbrev pub container_of : SlotIdInfo → CertObjInfo → CertificateContainer
  container_of slot obj = (
    obj.cert,
    or_empty (
        d.format_uri (
          d.add_path_attribute "type" "cert"
            (add_bytes "object" obj.label (add_bytes "id" obj.id (slot_uri slot))))),
  )

  pub containers : SlotIdInfo → List CertObjInfo → List CertificateContainer
  containers slot [] = []
  containers slot (obj ∷ rest) = container_of slot obj ∷ containers slot rest

  -- The label cleanUp.
  abbrev pub clean_up :
      Bool → ℕ → Result (List CertificateContainer) → M (Result (List CertificateContainer))
  clean_up is_logged_in session result =
      end_session d is_logged_in session >> finalize d >> pure result

  abbrev pub listed : Matching → Option String → M (Result (List CertificateContainer))
  unfolding containers
  listed m (some e) = clean_up m.is_logged_in m.session (err e)
  listed m none = clean_up m.is_logged_in m.session (ok (containers m.slot m.certs))

  abbrev pub list_in :
      Uri → String → Result (List SlotIdInfo) → M (Result (List CertificateContainer))
  list_in uri user_pin (err e) = clean_up false 0 (err e)
  list_in uri user_pin (ok slots) =
      get_matching_certs d slots (some uri) user_pin false >>= λ m. listed m m.error

  abbrev pub list_loaded : Uri → String → Option String → M (Result (List CertificateContainer))
  list_loaded uri user_pin (some e) = pure (err e)
  list_loaded uri user_pin none = history >>= λ h. list_in uri user_pin (enumerate_slots d h)

  abbrev pub pin_value : Uri → String
  pin_value uri = elim (d.query_attribute uri "pin-value") [ none ↦ "" | some pin ↦ pin ]

  abbrev pub list_uri : String → Result Uri → M (Result (List CertificateContainer))
  list_uri lib (err e) = pure (err e)
  list_uri lib (ok uri) = initialize_pkcs11_module d lib >>= list_loaded uri (pin_value uri)

  unfoldable pub get_matching_pkcs_certs : String → String → M (Result (List CertificateContainer))
  get_matching_pkcs_certs uri_str lib = list_uri lib (d.parse_uri uri_str)
