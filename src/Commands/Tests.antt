-- ===== src/Commands/Tests.antt =====
-- Runs of the commands.
use rolesanywhere_credential.Prelude.{
  ◌≡◌, refl, true, false, [], ◌∷◌, ◌++◌, length, ◌==◌, if◌then◌else◌,
}
use rolesanywhere_credential.Results.{ok, err}
use rolesanywhere_credential.Samples.{sample_opts}
use rolesanywhere_credential.Pkcs11.{rsa_public}
use rolesanywhere_credential.Commands.{
  set_enum, digest_enum, format_enum, prints, exits, OpenSigner, Printing, get_fixed_string_to_sign,
  digest_of_flag, formatted, sign_string,
}

abbrev printing : Printing
printing = record {
  bytes = λ text. if text == "IAM RA" then 1 ∷ [] else 2 ∷ [];
  to_upper = λ text. text;
  to_lower = λ text. text;
  hex = λ bytes. 16 ∷ bytes;
  json = λ bytes. 34 ∷ bytes ++ (34 ∷ []);
  sum256 = λ bytes. length bytes ∷ [];
  fingerprint = λ cert. "ab";
  number = λ n. "1";
}

abbrev open_signer : OpenSigner
open_signer = record { public = rsa_public (3 ∷ 4 ∷ []); sign_bytes = λ hash bytes. ok (9 ∷ bytes) }

accepts_digest :
    set_enum "not included" digest_enum "SHA384" ≡ ok (record digest_enum { value = "SHA384" })
unfolding set_enum
accepts_digest = refl

refuses_digest : set_enum "not included" digest_enum "MD5" ≡ err "not included"
unfolding set_enum
refuses_digest = refl

signs_fixed_string :
    sign_string printing (ok sample_opts) (λ opts. ok open_signer) digest_enum format_enum
    ≡ record { ending = prints (34 ∷ 16 ∷ 9 ∷ 2 ∷ 3 ∷ 34 ∷ []); is_closed = true }
unfolding sign_string digest_of_flag formatted get_fixed_string_to_sign
signs_fixed_string = refl

exits_unclosed :
    sign_string printing
      (ok sample_opts)
      (λ opts. ok (record open_signer { sign_bytes = λ hash bytes. err "no" }))
      digest_enum
      format_enum
    ≡ record { ending = exits 1 []; is_closed = false }
unfolding sign_string digest_of_flag get_fixed_string_to_sign
exits_unclosed = refl
