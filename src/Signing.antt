-- ===== src/Signing.antt =====
-- The SigV4-X509 signature of a request: signRequest and its helpers in
-- aws_signing_helper/signer.go. Hashes, encodings, Unicode case and the formats of times are a
-- record of functions. A text is walked as its bytes where the source does so.
mod Squeeze
pub mod Spaces
pub mod Headers
mod Tests
use Prim.Native.String.{compare}
use Prim.Native.Nat.{Ordering}
use rolesanywhere_credential.Prelude.{
  ℕ, zero, suc, true, false, Bool, false, String, List, [], ◌∷◌, ◌++◌, Option, none, some, map,
  lookup, insert, eqb, if◌then◌else◌, ◌==◌, ◌&&◌, ◌||◌, ◌+++◌,
}
use rolesanywhere_credential.Prelude.Int.{ℤ}
use rolesanywhere_credential.Results.{Result, ok, err}
use rolesanywhere_credential.Certificate.{Certificate}

pub record SignerParams (Time : Type 0) : Type 0 where
  pub overridden_date : Time
  pub region_name : String
  pub service_name : String
  pub signing_algorithm : String

-- What signing reads and sets of an http.Request; `encoded_query` is URL.Query().Encode().
pub record Request : Type 0 where
  pub host : String
  pub encoded_query : String
  pub header : List (String × List String)

pub record Texts (Time : Type 0) : Type 0 where
  pub format : String → Time → String
  pub to_lower : String → String
  pub canonical_header_key : String → String
  pub replace_all : String → String → String → String
  pub bytes : String → List ℕ
  pub text : List ℕ → String
  pub sha256 : List ℕ → List ℕ
  pub encode_hex : List ℕ → String
  pub encode_base64 : List ℕ → String
  pub show_int : ℤ → String

abbrev pub time_format : String
time_format = "20060102T150405Z"

abbrev pub short_time_format : String
short_time_format = "20060102"

abbrev pub rolesanywhere_signing_name : String
rolesanywhere_signing_name = "rolesanywhere"

-- ignoredHeaderKeys
abbrev pub is_ignored_header_key : String → Bool
is_ignored_header_key key =
    key == "Authorization" || key == "User-Agent" || key == "X-Amzn-Trace-Id"

-- strings.Join
abbrev pub join : String → List String → String
join separator [] = ""
join separator (s ∷ []) = s
join separator (s ∷ t ∷ rest) = s +++ separator +++ join separator (t ∷ rest)

-- sort.Strings, by insertion.
abbrev pub insert_sorted : String → List String → List String
insert_sorted s [] = s ∷ []
insert_sorted s (t ∷ rest) = elim (compare s t) [
  | Ordering.gt ↦ t ∷ insert_sorted s rest
  | _ ↦ s ∷ t ∷ rest
]

abbrev pub sort_strings : List String → List String
sort_strings [] = []
sort_strings (s ∷ rest) = insert_sorted s (sort_strings rest)

unfoldable pub is_space : ℕ → Bool
is_space b = eqb b 32

abbrev pub starts_with_space : List ℕ → Bool
starts_with_space [] = false
starts_with_space (b ∷ bytes) = is_space b

abbrev pub prepend : ℕ → List ℕ → List ℕ
prepend b [] = if is_space b then [] else b ∷ []
prepend b (d ∷ rest) = b ∷ d ∷ rest

-- The loop of stripExcessSpaces over j.
pub trim_trailing : List ℕ → List ℕ
trim_trailing [] = []
trim_trailing (b ∷ bytes) = prepend b (trim_trailing bytes)

-- The loop over k: the text ends in no space here, so the bound j is not met before a byte that is
-- no space, unless the text is empty.
pub trim_leading : List ℕ → List ℕ
trim_leading [] = []
trim_leading (b ∷ bytes) = let rest = trim_leading bytes in if is_space b then rest else b ∷ bytes

abbrev pub behind : ℕ → Option (List ℕ × List ℕ) → Option (List ℕ × List ℕ)
behind b none = none
behind b (some (before, from)) = some (b ∷ before, from)

-- strings.Index(str, doubleSpace): the text before the first double space, and the text from it.
pub split_at_double_space : List ℕ → Option (List ℕ × List ℕ)
split_at_double_space [] = none
split_at_double_space (b ∷ bytes) =
    let later = split_at_double_space bytes in
    if is_space b && starts_with_space bytes then some ([], b ∷ bytes) else behind b later

-- spaces == 0
abbrev pub is_zero : ℕ → Bool
is_zero zero = true
is_zero (suc n) = false

-- The loop over the buffer. It writes at m ≤ k, so it reads no byte that it has written: the bytes
-- still to read are a list, and so are those written. The count of spaces outlives the loop.
pub squeeze : ℕ → List ℕ → List ℕ × ℕ
squeeze spaces [] = ([], spaces)
squeeze spaces (b ∷ bytes) =
    let in_spaces = squeeze (suc spaces) bytes in
    let behind_byte = squeeze 0 bytes in
    if is_space b
    then (if is_zero spaces then (b ∷ in_spaces.0, in_spaces.1) else in_spaces)
    else (b ∷ behind_byte.0, behind_byte.1)

abbrev pub squeeze_from : ℕ → List ℕ → Option (List ℕ × List ℕ) → List ℕ × ℕ
squeeze_from spaces str none = (str, spaces)
squeeze_from spaces str (some (before, from)) =
    (before ++ (squeeze spaces from).0, (squeeze spaces from).1)

abbrev pub trim : List ℕ → List ℕ
trim str = trim_leading (trim_trailing str)

-- One round of stripExcessSpaces, from the count of spaces that the rounds before left.
unfoldable pub strip_value : ℕ → List ℕ → List ℕ × ℕ
strip_value spaces str = squeeze_from spaces (trim str) (split_at_double_space (trim str))

unfoldable pub strip_rounds : ℕ → List (List ℕ) → List (List ℕ)
strip_rounds spaces [] = []
strip_rounds spaces (str ∷ vals) =
    let value = strip_value spaces str in value.0 ∷ strip_rounds value.1 vals

abbrev pub strip_excess_spaces : List (List ℕ) → List (List ℕ)
strip_excess_spaces vals = strip_rounds 0 vals

module _ {Time : Type 0} (t : Texts Time) where
  abbrev pub get_scope : SignerParams Time → String
  get_scope p =
      t.format short_time_format p.overridden_date
      +++ "/"
      +++ p.region_name
      +++ "/"
      +++ p.service_name
      +++ "/"
      +++ "aws4_request"

  abbrev pub certificate_to_string : Certificate → String
  certificate_to_string certificate = t.encode_base64 certificate.raw

  abbrev pub certificate_chain_to_string : List Certificate → String
  certificate_chain_to_string chain = join "," (map certificate_to_string chain)

  unfoldable pub create_canonical_query_string : Request → String
  create_canonical_query_string r = t.replace_all r.encoded_query "+" "%20"

  -- The two variables of the loop over the header: the names, and signedHeaderVals.
  abbrev pub Collected : Type 0
  Collected = List String × List (String × List String)

  -- The value of a name that stands in signedHeaderVals, or the first value of a new one.
  abbrev pub add_values : String → List String → Collected → Option (List String) → Collected
  add_values name v (headers, vals) (some earlier) = (headers, insert name (earlier ++ v) vals)
  add_values name v (headers, vals) none = (headers ++ (name ∷ []), insert name v vals)

  unfoldable pub collect_header : String → List String → Collected → Collected
  collect_header k v c =
      if is_ignored_header_key (t.canonical_header_key k)
      then c
      else add_values (t.to_lower k) v c (lookup (t.to_lower k) c.1)

  unfoldable pub collect_headers : List (String × List String) → Collected → Collected
  collect_headers [] c = c
  collect_headers ((k, v) ∷ rest) c = collect_headers rest (collect_header k v c)

  abbrev pub values_of : Option (List String) → List String
  values_of none = []
  values_of (some values) = values

  abbrev pub header_line : List (String × List String) → String → String
  header_line vals k = k +++ ":" +++ join "," (values_of (lookup k vals))

  abbrev pub canonical_of : Collected → String × String
  canonical_of (names, vals) =
      let headers = sort_strings names in
      let lines = strip_excess_spaces (map (λ k. t.bytes (header_line vals k)) headers) in
      (join "\n" (map t.text lines), join ";" headers)

  unfoldable pub create_canonical_header_string : Request → String × String
  create_canonical_header_string r = canonical_of (collect_headers r.header ([], []))

  unfoldable pub create_canonical_request : Request → String → String × String
  create_canonical_request r content_sha256 =
      let headers = create_canonical_header_string r in
      let text =
        "POST"
        +++ "\n"
        +++ "/sessions"
        +++ "\n"
        +++ create_canonical_query_string r
        +++ "\n"
        +++ headers.0
        +++ "\n\n"
        +++ headers.1
        +++ "\n"
        +++ content_sha256 in
      (t.encode_hex (t.sha256 (t.bytes text)), headers.1)

  unfoldable pub create_string_to_sign : String → SignerParams Time → String
  create_string_to_sign canonical_request p =
      p.signing_algorithm
      +++ "\n"
      +++ t.format time_format p.overridden_date
      +++ "\n"
      +++ get_scope p
      +++ "\n"
      +++ canonical_request

  unfoldable pub build_authorization_header :
      String → String → Certificate → SignerParams Time → String
  build_authorization_header signed_headers signature certificate p =
      p.signing_algorithm
      +++ " "
      +++ "Credential="
      +++ t.show_int certificate.serial_number
      +++ "/"
      +++ get_scope p
      +++ ", "
      +++ "SignedHeaders="
      +++ signed_headers
      +++ ", "
      +++ "Signature="
      +++ signature

  -- Header.Set
  unfoldable pub set_header : String → String → Request → Request
  set_header k v r = record r { header = insert (t.canonical_header_key k) (v ∷ []) r.header }

  abbrev pub set_chain : Option (List Certificate) → Request → Request
  set_chain none r = r
  set_chain (some chain) r = set_header "X-Amz-X509-Chain" (certificate_chain_to_string chain) r

  -- The headers that are set before the canonical request is made.
  unfoldable pub prepare :
      SignerParams Time → Certificate → Option (List Certificate) → Request → Request
  prepare p certificate chain r = set_chain chain (
      set_header "X-Amz-X509" (certificate_to_string certificate) (
        set_header "X-Amz-Date" (t.format time_format p.overridden_date)
          (set_header "Host" r.host r)))

  abbrev pub authorize :
      SignerParams Time → Certificate → Request → String → Result (List ℕ) → Result Request
  authorize p certificate r signed_headers (err e) = err e
  authorize p certificate r signed_headers (ok signature) = ok (
      set_header "Authorization"
        (build_authorization_header signed_headers (t.encode_hex signature) certificate p) r)

  -- signRequest at a time. Where the signer fails the process ends, here with the signer's error.
  unfoldable pub sign_request :
      Time
      → (String → Result (List ℕ))
      → String
      → String
      → Certificate
      → Option (List Certificate)
      → String
      → Request
      → Result Request
  sign_request now sign region algorithm certificate chain payload_hash r =
      let p : SignerParams Time = record {
        overridden_date = now;
        region_name = region;
        service_name = rolesanywhere_signing_name;
        signing_algorithm = algorithm;
      } in
      let r' = prepare p certificate chain r in
      let canonical = create_canonical_request r' payload_hash in
      authorize p certificate r' canonical.1 (sign (create_string_to_sign canonical.0 p))
