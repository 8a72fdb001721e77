-- ===== src/Pkcs11/Tests.antt =====
-- The signer on PKCS#11 modules with a module for tests.
use rolesanywhere_credential.Prelude.{
  Option, ℕ, ◌≡◌, refl, true, false, List, [], ◌∷◌, ◌++◌, none, some, arith,
}
use rolesanywhere_credential.Results.{ok}
use rolesanywhere_credential.Certificate.{Certificate}
use rolesanywhere_credential.Session.{CredentialsOpts}
use rolesanywhere_credential.FileSigner.{sha256, aws4_x509_rsa_sha256}
use rolesanywhere_credential.Samples.{sample_certificate, leaf, middle, sample_opts, sample_parsers}
use rolesanywhere_credential.SignerChoice.{pkcs11, get_signer, find_certificate, choose_by_key}
use rolesanywhere_credential.Pkcs11.{
  Mechanism, searched, ckm_sha256_rsa_pkcs, cko_private_key, cko_certificate, empty_cert,
  SlotIdInfo, opened, closed,
}
use rolesanywhere_credential.Pkcs11.Calls.{
  World, done, panics, ◌>>=◌, find_objects, collect, found_of, open_session, opened_session,
  find_failed,
}
use rolesanywhere_credential.Pkcs11.Encoding.{escape_all, encode_ecdsa_sig_value}
use rolesanywhere_credential.Pkcs11.Slots.{
  enumerate_slots, slots_from, slots_of, match_slots, matching, matches, mismatch_attr,
  get_find_template,
}
use rolesanywhere_credential.Pkcs11.Certs.{
  scan, scan_session, keep_or_close, read_certs, get_certs_in_session, no_scan, get_matching_certs,
  get_certificate,
}
use rolesanywhere_credential.Pkcs11.Chain.{chain_of}
use rolesanywhere_credential.Pkcs11.SignHelper.{plan, sign_helper}
use rolesanywhere_credential.Pkcs11.Key.{get_pkcs11_key, retry_search}
use rolesanywhere_credential.Pkcs11.KeyScan.{no_key, key_failed}
use rolesanywhere_credential.Pkcs11.Sign.{finish_signer, signer_of}
use rolesanywhere_credential.Pkcs11.Locate.{locate, given}
use rolesanywhere_credential.Pkcs11.RoundTrip.{
  unescape, unescape-escape_all, big_endian, encode_ecdsa_sig_value-big_endian,
}
use rolesanywhere_credential.Pkcs11.KeyLaws.{Holds}
use rolesanywhere_credential.Pkcs11.KeySearch.{IsFoundChecked, get_pkcs11_key-IsFoundChecked}
use rolesanywhere_credential.Pkcs11.SignLaws.{IsPlan, IsPlanned, sign_helper-IsPlanned}
use rolesanywhere_credential.Pkcs11.SearchLaws.{retry_search_enough, retry_search_loses_error}
use rolesanywhere_credential.Pkcs11.CertLaws.{
  HoldsIn, IsLastOpen, AreNamed, is_open, get_matching_certs-IsLastOpen, get_certificate_panics,
}
use rolesanywhere_credential.Pkcs11.ChoiceLaws.{NamesKey, get_signer-NamesKey}
use rolesanywhere_credential.Pkcs11.ChainLaws.{NoneVerifies, chain_of-NoneVerifies}
use rolesanywhere_credential.Pkcs11.Samples.{
  sample_uri, sample_slot, sample_device, private_device, failing_device, fresh, sample_key,
  sample_cert_obj, sample_chosen,
}

abbrev sample_slots : List SlotIdInfo
sample_slots = sample_slot ∷ []

get_pkcs11_key-IsFoundChecked_example :
    Holds (IsFoundChecked sample_device (some sample_certificate)) (
      get_pkcs11_key sample_device 5 true none
        (some sample_uri)
        false
        7
        sample_cert_obj
        "1234"
        ""
        true
        sample_slots
        fresh)
get_pkcs11_key-IsFoundChecked_example =
    get_pkcs11_key-IsFoundChecked sample_device 5 true none (some sample_uri) false 7
      sample_cert_obj "1234" "" true sample_slots fresh

sample_plan : plan sample_device 0 sha256 (4 ∷ []) ≡ some (ckm_sha256_rsa_pkcs, 4 ∷ [])
unfolding plan
sample_plan = refl

sign_helper-IsPlanned_example :
    (p : Option (Mechanism × List ℕ)) × IsPlan sample_device 5 0 (4 ∷ []) sha256 p
    × IsPlanned sample_device 5 sample_key 1 fresh p
        (sign_helper sample_device 5 sample_key "1234" 1 "" true 0 (4 ∷ []) sha256 fresh)
sign_helper-IsPlanned_example =
    sign_helper-IsPlanned sample_device 5 sample_key "1234" 1 "" true 0 (4 ∷ []) sha256 fresh

retry_search_enough_example :
    retry_search sample_device sample_cert_obj true "1234" true sample_chosen 5 sample_uri []
      (no_key "")
    ≡ retry_search sample_device sample_cert_obj true "1234" true sample_chosen 2 sample_uri []
        (no_key "")
retry_search_enough_example =
    retry_search_enough sample_device sample_cert_obj true "1234" true sample_chosen
      (λ uri text. refl) 3 sample_uri [] (no_key "")

abbrev searched_world : World
searched_world = record fresh {
  events = searched 5 (get_find_template failing_device (some sample_uri) cko_private_key) ∷ [];
}

failing_search :
    find_objects failing_device 5
      (get_find_template failing_device (some sample_uri) cko_private_key)
      fresh
    ≡ done (find_failed "CKR_DEVICE_ERROR") searched_world
unfolding find_objects collect found_of
failing_search = refl

retry_search_loses_error_example :
    (retry_search failing_device sample_cert_obj true "1234" true sample_chosen 2 sample_uri []
          (no_key "")
        >>= λ found.
            finish_signer failing_device
              (given failing_device (some sample_certificate) none empty_cert)
              true
              found
              found.error)
      fresh
    ≡ done
        (ok (
          signer_of failing_device
              (given failing_device (some sample_certificate) none empty_cert)
              true
              (key_failed failing_device none),
          aws4_x509_rsa_sha256,
        ))
        searched_world
retry_search_loses_error_example =
    retry_search_loses_error failing_device sample_cert_obj true "1234" true sample_chosen
      (given failing_device (some sample_certificate) none empty_cert) 1 sample_uri [] (no_key "")
      "CKR_DEVICE_ERROR" fresh searched_world failing_search

sample_slots-AreNamed :
    AreNamed sample_device (match_slots sample_device sample_slots (some sample_uri))
unfolding match_slots matching matches mismatch_attr
sample_slots-AreNamed = (refl, tt)

none_open : (n : ℕ) → is_open n fresh.events ≡ false
unfolding is_open
none_open n = refl

get_matching_certs-IsLastOpen_example :
    HoldsIn
      (IsLastOpen sample_device)
      (get_matching_certs sample_device sample_slots (some sample_uri) "" true fresh)
get_matching_certs-IsLastOpen_example =
    get_matching_certs-IsLastOpen sample_device sample_slots (some sample_uri) true fresh
      sample_slots-AreNamed none_open

abbrev scanned_world : World
scanned_world = record fresh {
  events =
      closed 5
      ∷ searched 5 (get_find_template private_device (some sample_uri) cko_certificate)
      ∷ opened 7 5
      ∷ [];
}

abbrev opened_world : World
opened_world = record fresh { events = opened 7 5 ∷ scanned_world.events }

slots_listed : enumerate_slots private_device [] ≡ ok sample_slots
unfolding enumerate_slots slots_from slots_of
slots_listed = refl

slots_match : match_slots private_device sample_slots (some sample_uri) ≡ sample_slots
unfolding match_slots matching matches mismatch_attr
slots_match = refl

nothing_found :
    scan private_device (some sample_uri) sample_slots no_scan fresh ≡ done no_scan scanned_world
unfolding scan scan_session keep_or_close get_certs_in_session open_session opened_session
    find_objects collect found_of read_certs
nothing_found = refl

session_opened : open_session private_device 7 scanned_world ≡ done (ok 5) opened_world
unfolding open_session opened_session
session_opened = refl

get_certificate_panics_example :
    get_certificate private_device (some sample_uri) "0000" fresh ≡ panics opened_world
get_certificate_panics_example =
    get_certificate_panics private_device (some sample_uri) "0000" "CKR_PIN_INCORRECT" sample_slots
      sample_slot 5 no_scan fresh scanned_world opened_world slots_listed slots_match nothing_found
      refl refl session_opened refl

abbrev pkcs11_opts : CredentialsOpts
pkcs11_opts = record sample_opts { private_key_id = ""; certificate_id = "pkcs11:object=leaf" }

pkcs11_chosen :
    get_signer sample_parsers pkcs11_opts ≡ ok (pkcs11 "" none none "" "pkcs11:object=leaf" false)
unfolding get_signer find_certificate choose_by_key
pkcs11_chosen = refl

get_signer-NamesKey_example :
    Holds (NamesKey sample_device "") (locate sample_device none none "pkcs11:object=leaf" fresh)
get_signer-NamesKey_example =
    get_signer-NamesKey sample_device sample_parsers pkcs11_opts "" none none ""
      "pkcs11:object=leaf" false pkcs11_chosen fresh

chain_of-NoneVerifies_example :
    (rest : List Certificate) × (chain_of sample_device leaf (middle ∷ leaf ∷ []) ≡ leaf ∷ rest)
    × NoneVerifies sample_device leaf rest
chain_of-NoneVerifies_example = chain_of-NoneVerifies sample_device leaf (middle ∷ leaf ∷ [])

unescape-escape_all_example : unescape (escape_all (0 ∷ 175 ∷ [])) ≡ 0 ∷ 175 ∷ []
unescape-escape_all_example = unescape-escape_all (0 ∷ 175 ∷ []) (omega arith, (omega arith, tt))

escapes : escape_all (0 ∷ 175 ∷ []) ≡ 37 ∷ 48 ∷ 48 ∷ 37 ∷ 65 ∷ 70 ∷ []
unfolding escape_all
escapes = refl

encode_ecdsa_sig_value-big_endian_example :
    encode_ecdsa_sig_value (λ r s. ok (r ∷ s ∷ [])) (big_endian 2 300 ++ big_endian 2 7)
    ≡ ok (300 ∷ 7 ∷ [])
encode_ecdsa_sig_value-big_endian_example =
    encode_ecdsa_sig_value-big_endian (λ r s. ok (r ∷ s ∷ [])) 2 300 7 (omega arith) (omega arith)
