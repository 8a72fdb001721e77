-- ===== src/CertIdentity.antt =====
-- certMatches of aws_signing_helper/signer.go: whether a certificate is the one asked for.
pub mod Laws
use rolesanywhere_credential.Prelude.{
  Bool, true, false, not, Option, none, some, if◌then◌else◌, ◌==◌, ◌&&◌, String,
}
use rolesanywhere_credential.Prelude.Int.{ℤ, ltb_ℤ}
use rolesanywhere_credential.Certificate.{Certificate, CertIdentifier}

-- The serial number, where there is one, compares equal by Cmp.
pub serial_matches : Option ℤ → ℤ → Bool
serial_matches none serial = true
serial_matches (some wanted) serial = not (ltb_ℤ wanted serial) && not (ltb_ℤ serial wanted)

-- A name that is asked for, and is another one.
pub differs : String → String → Bool
differs wanted name = not (wanted == "") && not (wanted == name)

unfoldable pub cert_matches : CertIdentifier → Certificate → Bool
unfolding serial_matches differs
cert_matches i cert =
    if differs i.subject cert.subject
    then false
    else if differs i.issuer cert.issuer
    then false
    else serial_matches i.serial_number cert.serial_number
