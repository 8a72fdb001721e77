-- ===== src/Metadata/Access.antt =====
-- Who gets a token, the role's name and the credentials.
use rolesanywhere_credential.Prelude.{
  ℕ, ◌*◌, ◌≡◌, refl, ap, ◌∙◌, ◌⊎◌, ◌≢◌, inl, inr, lookup, true, false, String, List, [], ◌∷◌,
  Option, none, some, ◌==◌, arith, eq_iff, Bool-cases,
}
use rolesanywhere_credential.Prelude.Int.{ℤ, pos, pos_part, ◌≤ℤ◌}
use rolesanywhere_credential.Certificate.{Signer}
use rolesanywhere_credential.Clock.{Clock, second}
use rolesanywhere_credential.Tokens.{
  TokenMap, generate_token, insert_token, is_valid_token, find_token_ttl_seconds,
}
use rolesanywhere_credential.Session.{Environment}
use rolesanywhere_credential.Metadata.{
  token_header, token_ttl_header, x_forwarded_for_header, Request, Call, write_header, write_string,
  set_header, Library, Moment, check_valid_token, token_ttl_str, parse_ttl, store_token,
  grant_token, put_token, ttl_seconds, name_role, get_role_name, Shared, Timing, get_credentials,
}

module _ (c : Clock) (lib : Library c.Time) where
  open c use {Time, add, sub}
  open lib use {atoi, format_seconds, encode_base64}

  -- A PUT request was granted a token: what it asked, what the map became and what was answered.
  pub record IsGranted (r : Request) (bytes : Option (List ℕ)) (at : Moment c lib)
      (result : TokenMap c × List (Call Time)) : Type 0 where
    pub method : r.method ≡ "PUT"
    pub direct : r.get_header x_forwarded_for_header ≡ ""
    pub ttl : ℤ
    pub parsed : atoi (token_ttl_str c lib r) ≡ some ttl
    pub positive : pos 1 ≤ℤ ttl
    pub six_hours : ttl ≤ℤ pos 21600
    pub token : String
    pub generated : generate_token encode_base64 (pos 100) bytes ≡ some token
    pub stored :
        result.0 ≡ insert_token c token (add at.now (pos (second * pos_part ttl))) at.tokens
    pub answered :
        result.1 ≡ set_header token_ttl_header (token_ttl_str c lib r) ∷ write_string token ∷ []

  -- It was refused with a status: the map is as it was.
  pub record IsRefused (at : Moment c lib) (result : TokenMap c × List (Call Time)) : Type 0 where
    pub unchanged : result.0 ≡ at.tokens
    pub status : ℕ
    pub error : (status ≡ 405) ⊎ ((status ≡ 400) ⊎ (status ≡ 500))
    pub message : List (Call Time)
    pub answered : result.1 ≡ write_header status ∷ message

  parse_ttl_range :
      (text : String) (ttl : ℤ)
      → parse_ttl c lib text ≡ some ttl
      → (atoi text ≡ some ttl) × (pos 1 ≤ℤ ttl) × (ttl ≤ℤ pos 21600)
  unfolding parse_ttl
  parse_ttl_range text ttl h = (ground arith, ground arith, ground arith)

  parse_ttl_of_range :
      (text : String) (ttl : ℤ)
      → atoi text ≡ some ttl
      → pos 1 ≤ℤ ttl
      → ttl ≤ℤ pos 21600
      → parse_ttl c lib text ≡ some ttl
  unfolding parse_ttl
  parse_ttl_of_range text ttl h lo hi = ground arith

  store_token-cases :
      (r : Request) (bytes : Option (List ℕ)) (at : Moment c lib) (ttl : ℤ)
      → r.method ≡ "PUT"
      → r.get_header x_forwarded_for_header ≡ ""
      → parse_ttl c lib (token_ttl_str c lib r) ≡ some ttl
      → (o : Option String) → generate_token encode_base64 (pos 100) bytes ≡ o
      → IsGranted r bytes at (store_token c lib r at ttl o)
        ⊎ IsRefused at (store_token c lib r at ttl o)
  unfolding store_token
  store_token-cases r bytes at ttl method direct h none e = inr (record {
    unchanged = refl;
    status = 500;
    error = inr (inr refl);
    message = _;
    answered = refl;
  })
  store_token-cases r bytes at ttl method direct h (some token) e =
      let (parsed, positive, six_hours) = parse_ttl_range (token_ttl_str c lib r) ttl h in
      inl (record {
        method = method;
        direct = direct;
        ttl = ttl;
        parsed = parsed;
        positive = positive;
        six_hours = six_hours;
        token = token;
        generated = e;
        stored = refl;
        answered = refl;
      })

  grant_token-cases :
      (r : Request) (bytes : Option (List ℕ)) (at : Moment c lib)
      → r.method ≡ "PUT"
      → r.get_header x_forwarded_for_header ≡ ""
      → (o : Option ℤ) → parse_ttl c lib (token_ttl_str c lib r) ≡ o
      → IsGranted r bytes at (grant_token c lib r bytes at o)
        ⊎ IsRefused at (grant_token c lib r bytes at o)
  unfolding grant_token
  grant_token-cases r bytes at method direct none h = inr (record {
    unchanged = refl;
    status = 400;
    error = inr (inl refl);
    message = _;
    answered = refl;
  })
  grant_token-cases r bytes at method direct (some ttl) h =
      store_token-cases r bytes at ttl method direct h _ refl

  -- Every request to the PUT handler is granted a token or refused; it is granted one only if its
  -- method is PUT, it has no X-Forwarded-For header, its TTL is a number from 1 to 21600 and a
  -- token could be generated. A granted token enters the map with its TTL and is the answer; a
  -- refusal leaves the map alone and answers with 405, 400 or 500.
  pub put_token-cases :
      (r : Request) (bytes : Option (List ℕ)) (at : Moment c lib)
      → IsGranted r bytes at (put_token c lib r bytes at)
        ⊎ IsRefused at (put_token c lib r bytes at)
  unfolding put_token
  put_token-cases r bytes at = elim (Bool-cases (r.method == "PUT")) [
    | inr e ↦ rw e (
        inr (record {
          unchanged = refl;
          status = 405;
          error = inl refl;
          message = _;
          answered = refl;
        }))
    | inl method ↦ elim (Bool-cases (r.get_header x_forwarded_for_header == "")) [
      | inr e ↦
          rw (method, e)
            (inr (record {
              unchanged = refl;
              status = 400;
              error = inr (inl refl);
              message = _;
              answered = refl;
            }))
      | inl direct ↦
          rw (method, direct)
            (grant_token-cases r bytes at ((eq_iff _ _).0 method) ((eq_iff _ _).0 direct) _ refl)
    ]
  ]

  -- A request whose method is PUT, without an X-Forwarded-For header, with a TTL of 1 to 21600
  -- seconds, is granted a token whenever one can be generated.
  pub put_token_grants :
      (r : Request) (bytes : Option (List ℕ)) (at : Moment c lib) (ttl : ℤ) (token : String)
      → r.method ≡ "PUT"
      → r.get_header x_forwarded_for_header ≡ ""
      → atoi (token_ttl_str c lib r) ≡ some ttl
      → pos 1 ≤ℤ ttl
      → ttl ≤ℤ pos 21600
      → generate_token encode_base64 (pos 100) bytes ≡ some token
      → put_token c lib r bytes at ≡ (
        insert_token c token (add at.now (pos (second * pos_part ttl))) at.tokens,
        set_header token_ttl_header (token_ttl_str c lib r) ∷ write_string token ∷ [],
      )
  unfolding put_token
  put_token_grants r bytes at ttl token method direct parsed positive six generated =
      rw ((eq_iff _ _).1 method, (eq_iff _ _).1 direct)
        (ap (grant_token c lib r bytes at)
            (parse_ttl_of_range (token_ttl_str c lib r) ttl parsed positive six)
          ∙ ap (store_token c lib r at ttl) generated)

  -- The check of a request's token at a moment.
  abbrev pub HasValidToken : Request → Moment c lib → Type 0
  HasValidToken r at =
      (r.get_header token_header ≢ "")
      × (is_valid_token c (r.get_header token_header) at.now at.tokens ≡ true)

  -- The three refusals before a GET handler answers: the status of each, and its text as the body.
  pub data IsTurnedAway (r : Request) (at : Moment c lib) : List (Call Time) → Type 0 where
    wrong_method : r.method ≢ "GET" → IsTurnedAway r at (write_header 405 ∷ [])
    no_token :
        r.method ≡ "GET"
        → r.get_header token_header ≡ ""
        → IsTurnedAway r at (write_header 401 ∷ write_string "no token provided" ∷ [])
    bad_token :
        r.method ≡ "GET"
        → is_valid_token c (r.get_header token_header) at.now at.tokens ≡ false
        → IsTurnedAway r at (write_header 401 ∷ write_string "invalid token provided" ∷ [])

  -- The check of a request by its method: it lets the request pass without a call, or answers as
  -- a refusal and returns an error.
  pub check_valid_token-cases :
      (r : Request) (at : Moment c lib)
      → (HasValidToken r at × (check_valid_token c lib r at ≡ ([], none)))
        ⊎ ((calls : List (Call Time)) × (message : String) × (check_valid_token c lib r at
              ≡ (calls, some message))
            × (r.method ≡ "GET" → IsTurnedAway r at calls))
  unfolding check_valid_token
  check_valid_token-cases r at = elim (Bool-cases (r.get_header token_header == "")) [
    | inl e ↦ inr (_, "no token provided", rw e, λ method. no_token method ((eq_iff _ _).0 e))
    | inr named ↦
        elim (Bool-cases (is_valid_token c (r.get_header token_header) at.now at.tokens)) [
          | inl valid ↦
              inl
                ((ground (arith, eq_iff (r.get_header token_header) ""), valid), rw (named, valid))
          | inr e ↦ inr (_, "invalid token provided", rw (named, e), λ method. bad_token method e)
        ]
  ]

  pub check_valid_token_ok :
      (r : Request) (at : Moment c lib)
      → HasValidToken r at
      → check_valid_token c lib r at ≡ ([], none)
  unfolding check_valid_token
  check_valid_token_ok r at (named, valid) = ground (arith, eq_iff (r.get_header token_header) "")

  not_get : (method : String) → (method == "GET") ≡ false → method ≢ "GET"
  not_get method e = ground (arith, eq_iff method "GET")

  ttl_seconds-cases :
      (r : Request) (at : Moment c lib)
      → r.get_header token_header ≢ ""
      → (o : Option Time) → lookup (r.get_header token_header) at.tokens ≡ o
      → ttl_seconds c lib r at
        ≡ (elim o [ none ↦ none | some expiration ↦ some (format_seconds (sub expiration at.now)) ])
  unfolding find_token_ttl_seconds
  ttl_seconds-cases r at named none e = ground (arith, eq_iff (r.get_header token_header) "")
  ttl_seconds-cases r at named (some expiration) e =
      ground (arith, eq_iff (r.get_header token_header) "")

  -- What the handler for the role's name answers to a GET request with a valid token, by the
  -- token's entry in the map when its TTL is read: the seconds left and the role's name, or a bare
  -- 401 where the token was dropped in between.
  pub data IsNamed (role_name : String) (r : Request) (found : Moment c lib)
      : List (Call Time) → Type 0 where
    named :
        (expiration : Time)
        → lookup (r.get_header token_header) found.tokens ≡ some expiration
        → IsNamed role_name r found (
            set_header token_ttl_header (format_seconds (sub expiration found.now))
            ∷ write_string role_name
            ∷ [])
    dropped :
        lookup (r.get_header token_header) found.tokens ≡ none
        → IsNamed role_name r found (write_header 401 ∷ [])

  name_role-IsNamed :
      (role_name : String) (r : Request) (found : Moment c lib)
      → r.get_header token_header ≢ ""
      → (o : Option Time) → lookup (r.get_header token_header) found.tokens ≡ o
      → IsNamed role_name r found (name_role c lib role_name (ttl_seconds c lib r found))
  name_role-IsNamed role_name r found there none e =
      rw (ttl_seconds-cases r found there none e) (dropped e)
  name_role-IsNamed role_name r found there (some expiration) e =
      rw (ttl_seconds-cases r found there (some expiration) e) (named expiration e)

  -- Every request to the handler for the role's name either is a GET request whose token was valid
  -- when it was checked, and is answered with the seconds that the token has left and the role's
  -- name, or with a bare 401 if the token was no longer in the map; or it is turned away, with
  -- nothing but 405, or 401 and the text of the failed check.
  pub get_role_name_guarded :
      (role_name : String) (r : Request) (checked found : Moment c lib)
      → ((r.method ≡ "GET")
          × HasValidToken r checked
          × IsNamed role_name r found (get_role_name c lib role_name r checked found))
        ⊎ IsTurnedAway r checked (get_role_name c lib role_name r checked found)
  unfolding get_role_name
  get_role_name_guarded role_name r checked found = elim (Bool-cases (r.method == "GET")) [
    | inr e ↦ inr (rw e (wrong_method (not_get r.method e)))
    | inl method ↦ elim (check_valid_token-cases r checked) [
      | inr (calls, message, e, away) ↦ inr (rw (method, e) (away ((eq_iff _ _).0 method)))
      | inl (valid, e) ↦ inl (
        (eq_iff _ _).0 method,
        valid,
        rw (method, e) (name_role-IsNamed role_name r found valid.0 _ refl),
      )
    ]
  ]

  module _ (env : Environment) (signer : Signer) (algorithm : String) where
    -- Whatever the request to the handler for the credentials, it is a GET request whose token was
    -- valid when it was checked; or it is turned away, with nothing but 405, or 401 and the text of
    -- the failed check, and neither the stored credential nor the options change.
    pub get_credentials_guarded :
        (r : Request) (at : Timing c lib) (s : Shared c lib)
        → ((r.method ≡ "GET") × HasValidToken r at.checked)
          ⊎ (((get_credentials c lib env signer algorithm r at s).0 ≡ s)
              × IsTurnedAway r at.checked (get_credentials c lib env signer algorithm r at s).1)
    unfolding get_credentials
    get_credentials_guarded r at s = elim (Bool-cases (r.method == "GET")) [
      | inr e ↦ inr (rw e (refl, wrong_method (not_get r.method e)))
      | inl method ↦ elim (check_valid_token-cases r at.checked) [
        | inr (calls, message, e, away) ↦ inr (rw (method, e) (refl, away ((eq_iff _ _).0 method)))
        | inl (valid, e) ↦ inl ((eq_iff _ _).0 method, valid)
      ]
    ]
