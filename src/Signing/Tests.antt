-- ===== src/Signing/Tests.antt =====
-- The signature of a concrete request.
use rolesanywhere_credential.Prelude.{
  ℕ, ◌≡◌, refl, String, List, [], ◌∷◌, none, insert, lookup, if◌then◌else◌, ◌==◌,
}
use rolesanywhere_credential.Results.{Result, ok}
use rolesanywhere_credential.Samples.{sample_certificate}
use rolesanywhere_credential.Signing.{
  Texts, Request, strip_value, strip_rounds, strip_excess_spaces, squeeze, trim_leading,
  trim_trailing, split_at_double_space, is_space, create_canonical_header_string, collect_headers,
  collect_header, create_canonical_request, create_canonical_query_string, create_string_to_sign,
  build_authorization_header, set_header, prepare, sign_request,
}
use rolesanywhere_credential.Signing.Spaces.{AllStripped, strip_excess_spaces-AllStripped}
use rolesanywhere_credential.Signing.Headers.{params, sign_request_verifies}

abbrev texts : Texts ℕ
texts = record {
  format = λ layout time. "20240101";
  to_lower = λ s. if s == "Host" then "host" else s;
  canonical_header_key = λ s. s;
  replace_all = λ s old new. s;
  bytes = λ s. 97 ∷ 32 ∷ 32 ∷ 98 ∷ [];
  text = λ bytes. "a b";
  sha256 = λ bytes. bytes;
  encode_hex = λ bytes. "6120";
  encode_base64 = λ bytes. "MAM=";
  show_int = λ n. "77";
}

-- "  a   b " and "c  d": each value is stripped from a fresh start.
abbrev values : List (List ℕ)
values =
    (32 ∷ 32 ∷ 97 ∷ 32 ∷ 32 ∷ 32 ∷ 98 ∷ 32 ∷ []) ∷ (99 ∷ 32 ∷ 32 ∷ 100 ∷ []) ∷ (32 ∷ 32 ∷ []) ∷ []

strip_test : strip_excess_spaces values ≡ (97 ∷ 32 ∷ 98 ∷ []) ∷ (99 ∷ 32 ∷ 100 ∷ []) ∷ [] ∷ []
unfolding strip_rounds strip_value squeeze trim_leading trim_trailing split_at_double_space is_space
strip_test = refl

strip_excess_spaces-AllStripped_example : AllStripped values (strip_excess_spaces values)
strip_excess_spaces-AllStripped_example = strip_excess_spaces-AllStripped values

abbrev request : Request
request = record {
  host = "rolesanywhere.eu-west-1.amazonaws.com";
  encoded_query = "";
  header = ("User-Agent", "curl" ∷ []) ∷ ("Authorization", "old" ∷ []) ∷ [];
}

abbrev signer_of : String → Result (List ℕ)
signer_of text = ok (1 ∷ 2 ∷ [])

abbrev authorization : String
authorization =
    "RSA Credential=77/20240101/eu/rolesanywhere/aws4_request, SignedHeaders=X-Amz-Date;X-Amz-X509;host, Signature=6120"

abbrev signed : Request
signed = record {
  host = "rolesanywhere.eu-west-1.amazonaws.com";
  encoded_query = "";
  header =
      ("User-Agent", "curl" ∷ [])
      ∷ ("Authorization", authorization ∷ [])
      ∷ ("Host", "rolesanywhere.eu-west-1.amazonaws.com" ∷ [])
      ∷ ("X-Amz-Date", "20240101" ∷ [])
      ∷ ("X-Amz-X509", "MAM=" ∷ [])
      ∷ [];
}

sign_request_test :
    sign_request texts 0 signer_of "eu" "RSA" sample_certificate none "hash" request ≡ ok signed
unfolding sign_request prepare set_header create_canonical_request create_canonical_header_string
    create_canonical_query_string collect_headers collect_header insert lookup strip_rounds
    build_authorization_header create_string_to_sign
sign_request_test = refl

sign_request_verifies_example :
    (signature : List ℕ) × (signer_of (
        create_string_to_sign texts
          (create_canonical_request texts signed "hash").0
          (params texts 0 "eu" "RSA"))
      ≡ ok signature)
    × (signed
        ≡ set_header texts "Authorization"
            (build_authorization_header texts
              (create_canonical_request texts signed "hash").1
              (texts.encode_hex signature)
              sample_certificate
              (params texts 0 "eu" "RSA"))
            (prepare texts (params texts 0 "eu" "RSA") sample_certificate none request))
sign_request_verifies_example =
    sign_request_verifies texts 0 signer_of "eu" "RSA" sample_certificate none "hash" request refl
      sign_request_test
