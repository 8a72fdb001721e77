-- ===== src/Signing/Headers.antt =====
-- Which headers the canonical request covers.
use rolesanywhere_credential.Prelude.{
  ℕ, ◌≡◌, refl, sym, ap, ◌∙◌, true, String, List, [], ◌∷◌, Option, insert, Bool-cases, ◌==◌, eq_iff,
  ◌+++◌, inl, inr,
}
use rolesanywhere_credential.Results.{Result, ok, err}
use rolesanywhere_credential.Certificate.{Certificate}
use rolesanywhere_credential.Signing.{
  Texts, Request, SignerParams, is_ignored_header_key, Collected, collect_header, collect_headers,
  create_canonical_header_string, create_canonical_request, create_canonical_query_string,
  set_header, canonical_of, authorize, build_authorization_header, rolesanywhere_signing_name,
  create_string_to_sign, sign_request, prepare,
}

module _ {Time : Type 0} (t : Texts Time) where
  ignored_entry :
      (k : String) (v : List String) (c : Collected t)
      → is_ignored_header_key (t.canonical_header_key k) ≡ true
      → collect_header t k v c ≡ c
  unfolding collect_header
  ignored_entry k v c e = rw e refl

  -- Setting an ignored header changes nothing of what is collected.
  collect_insert :
      (k : String) (v : List String) (h : List (String × List String)) (c : Collected t)
      → is_ignored_header_key (t.canonical_header_key k) ≡ true
      → collect_headers t (insert k v h) c ≡ collect_headers t h c
  unfolding insert collect_headers
  collect_insert k v [] c e = ignored_entry k v c e
  collect_insert k v (entry ∷ h) c e = elim (Bool-cases (entry.0 == k)) [
    | inl same ↦
        let same_key = (eq_iff entry.0 k).0 same in
        let skipped =
          ignored_entry entry.0 entry.1 c
            (ap (λ name. is_ignored_header_key (t.canonical_header_key name)) same_key ∙ e) in
        rw same (
          ap (collect_headers t h) (ignored_entry k v c e) ∙ sym (ap (collect_headers t h) skipped))
    | inr other ↦ rw other (collect_insert k v h (collect_header t entry.0 entry.1 c) e)
  ]

  -- Setting a header whose name is ignored leaves the canonical request and its list of signed
  -- headers unchanged.
  pub create_canonical_request-set_header :
      (k v : String) (r : Request) (content_sha256 : String)
      → is_ignored_header_key (t.canonical_header_key (t.canonical_header_key k)) ≡ true
      → create_canonical_request t (set_header t k v r) content_sha256
        ≡ create_canonical_request t r content_sha256
  create_canonical_request-set_header k v r hash e =
      unfold create_canonical_request create_canonical_header_string create_canonical_query_string
        set_header in
      ap
        (λ c.
          let headers = canonical_of t c in
          (
            t.encode_hex (
                t.sha256 (
                  t.bytes (
                    "POST"
                    +++ "\n"
                    +++ "/sessions"
                    +++ "\n"
                    +++ t.replace_all r.encoded_query "+" "%20"
                    +++ "\n"
                    +++ headers.0
                    +++ "\n\n"
                    +++ headers.1
                    +++ "\n"
                    +++ hash))),
            headers.1,
          ))
        (collect_insert (t.canonical_header_key k) (v ∷ []) r.header ([], []) e)

  authorize_ok :
      (p : SignerParams Time) (certificate : Certificate) (r : Request) (names : String)
      (o : Result (List ℕ)) {r' : Request}
      → authorize t p certificate r names o ≡ ok r'
      → (signature : List ℕ) × (o ≡ ok signature)
        × (r'
            ≡ set_header t "Authorization"
                (build_authorization_header t names (t.encode_hex signature) certificate p)
                r)
  authorize_ok p certificate r names (ok signature) h = (signature, refl, cc h)
  authorize_ok p certificate r names (err e) h = cc h

  abbrev pub params : Time → String → String → SignerParams Time
  params now region algorithm = record {
    overridden_date = now;
    region_name = region;
    service_name = rolesanywhere_signing_name;
    signing_algorithm = algorithm;
  }

  -- Where signRequest succeeds, the string to sign computed anew from the request it leaves, with
  -- its new Authorization header, is the text that was signed, and that header names the headers
  -- covered and carries the hexadecimal signature. It is assumed that CanonicalHeaderKey leaves
  -- "Authorization" alone.
  pub sign_request_verifies :
      (now : Time) (sign : String → Result (List ℕ)) (region algorithm : String)
      (certificate : Certificate) (chain : Option (List Certificate)) (hash : String) (r : Request)
      {r' : Request}
      → t.canonical_header_key "Authorization" ≡ "Authorization"
      → sign_request t now sign region algorithm certificate chain hash r ≡ ok r'
      → (signature : List ℕ) × (sign (
            create_string_to_sign t
              (create_canonical_request t r' hash).0
              (params now region algorithm))
          ≡ ok signature)
        × (r'
            ≡ set_header t "Authorization"
                (build_authorization_header t
                  (create_canonical_request t r' hash).1
                  (t.encode_hex signature)
                  certificate
                  (params now region algorithm))
                (prepare t (params now region algorithm) certificate chain r))
  sign_request_verifies now sign region algorithm certificate chain hash r {r'} e h =
      let p = params now region algorithm in
      let before = create_canonical_request t (prepare t p certificate chain r) hash in
      let signed =
        authorize_ok p certificate (prepare t p certificate chain r) before.1
          (sign (create_string_to_sign t before.0 p)) {r' = r'} (unfold sign_request in h) in
      let ignored = ap is_ignored_header_key (ap t.canonical_header_key e ∙ e) in
      let same =
        ap (λ x. create_canonical_request t x hash) signed.2
        ∙ create_canonical_request-set_header "Authorization"
            (build_authorization_header t before.1 (t.encode_hex signed.0) certificate p)
            (prepare t p certificate chain r) hash ignored in
      (
        signed.0,
        ap (λ x. sign (create_string_to_sign t x.0 p)) same ∙ signed.1,
        signed.2
            ∙ ap
                (λ x.
                  set_header t "Authorization"
                    (build_authorization_header t x.1 (t.encode_hex signed.0) certificate p)
                    (prepare t p certificate chain r))
                (sym same),
      )
