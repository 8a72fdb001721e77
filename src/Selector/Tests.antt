-- ===== src/Selector/Tests.antt =====
-- Concrete certificate selectors.
use rolesanywhere_credential.Prelude.{
  ◌≡◌, refl, true, [], ◌∷◌, none, some, insert, if◌then◌else◌, ◌==◌,
}
use rolesanywhere_credential.Prelude.Int.{pos}
use rolesanywhere_credential.Results.{ok, err, returned}
use rolesanywhere_credential.Selector.{Reading, is_valid_key, get_string_map}
use rolesanywhere_credential.Selector.Laws.{IsSelectorMap, get_string_map-IsSelectorMap}

-- It reads "Key=x509Subject,Value=CN=leaf", with the parts of "Key=x509Subject" and "Value=CN=leaf".
abbrev reading : Reading
reading = record {
  split = λ s separator.
      if s == "Key=x509Subject"
      then ("Key", "x509Subject" ∷ [])
      else if s == "Value=CN=leaf"
      then ("Value", "CN" ∷ "leaf" ∷ [])
      else (s, []);
  cut = λ s separator.
      if s == "Key=x509Subject,Value=CN=leaf"
      then ("Key=x509Subject", some "Value=CN=leaf")
      else (s, none);
  trim_space = λ s. s;
  trim_prefix = λ s prefix. s;
  equal_fold = λ s t. s == t;
  set_string = λ s. pos 0;
  unmarshal = λ s. err "no JSON";
  read_file = λ path. err "no such file";
}

subject_map :
    get_string_map reading "Key=x509Subject,Value=CN=leaf"
    ≡ returned (ok (("x509Subject", "CN=leaf") ∷ []))
unfolding get_string_map is_valid_key insert
subject_map = refl

get_string_map-IsSelectorMap_example : IsSelectorMap (("x509Subject", "CN=leaf") ∷ [])
get_string_map-IsSelectorMap_example =
    get_string_map-IsSelectorMap reading "Key=x509Subject,Value=CN=leaf" subject_map

valid : is_valid_key "x509Subject" ≡ true
unfolding is_valid_key
valid = refl
