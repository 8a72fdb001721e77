-- ===== src/Pkcs11.antt =====
-- The signer on PKCS#11 modules: aws_signing_helper/pkcs11_signer.go.
-- The module, the URIs and the cryptography are libraries: a record of functions, Device. What a
-- module answers may depend on all calls that were made before, which the world records.
pub mod Encoding
pub mod RoundTrip
pub mod PinLaws
pub mod ChainLaws
pub mod CertLaws
pub mod ChoiceLaws
pub mod KeyLaws
pub mod SearchLaws
pub mod SignLaws
pub mod ScanLaws
pub mod KeySearch
pub mod Slots
pub mod Calls
pub mod Certs
pub mod Chain
pub mod Pin
pub mod SignHelper
pub mod KeyScan
pub mod Key
pub mod Locate
pub mod Sign
pub mod Samples
mod Tests
use rolesanywhere_credential.Prelude.{
  ℕ, Bool, true, false, String, List, [], Option, none, ◌&&◌, ◌==◌, eqb,
}
use rolesanywhere_credential.Results.{Result}
use rolesanywhere_credential.Certificate.{Certificate}

-- `others_zero` tells whether the fields that the program does not read are all zero.
pub record SlotInfo : Type 0 where
  pub slot_description : String
  pub manufacturer_id : String
  pub others_zero : Bool

pub record TokenInfo : Type 0 where
  pub label : String
  pub model : String
  pub token_manufacturer_id : String
  pub serial_number : String
  pub token_others_zero : Bool

pub record SlotIdInfo : Type 0 where
  pub id : ℕ
  pub info : SlotInfo
  pub tok_info : TokenInfo

-- SlotIdInfo{}
abbrev pub empty_slot : SlotIdInfo
empty_slot = record {
  id = 0;
  info = record { slot_description = ""; manufacturer_id = ""; others_zero = true };
  tok_info = record {
    label = "";
    model = "";
    token_manufacturer_id = "";
    serial_number = "";
    token_others_zero = true;
  };
}

-- slot == SlotIdInfo{}
abbrev pub is_empty_slot : SlotIdInfo → Bool
is_empty_slot s =
    eqb s.id 0
    && s.info.slot_description == ""
    && s.info.manufacturer_id == ""
    && s.info.others_zero
    && s.tok_info.label == ""
    && s.tok_info.model == ""
    && s.tok_info.token_manufacturer_id == ""
    && s.tok_info.serial_number == ""
    && s.tok_info.token_others_zero

-- CKA_ID and CKA_LABEL are byte slices that may be nil. A handle is a number, and 0 is none.
pub record CertObjInfo : Type 0 where
  pub id : Option (List ℕ)
  pub label : Option (List ℕ)
  pub cert : Option Certificate
  pub cert_object : ℕ

pub record KeyObjInfo : Type 0 where
  pub id : Option (List ℕ)
  pub label : Option (List ℕ)
  pub key_object : ℕ

abbrev pub empty_cert : CertObjInfo
empty_cert = record { id = none; label = none; cert = none; cert_object = 0 }

abbrev pub empty_key : KeyObjInfo
empty_key = record { id = none; label = none; key_object = 0 }

pub data Attribute : Type 0 where
  cka_value cka_id cka_label cka_key_type cka_always_authenticate : Attribute

pub data Class : Type 0 where
  cko_certificate cko_private_key : Class

pub data UserType : Type 0 where
  cku_user cku_context_specific : UserType

pub data Mechanism : Type 0 where
  ckm_ecdsa ckm_sha256_rsa_pkcs ckm_sha384_rsa_pkcs ckm_sha512_rsa_pkcs : Mechanism

-- CKK_RSA and CKK_EC
abbrev pub ckk_rsa : ℕ
ckk_rsa = 0

abbrev pub ckk_ec : ℕ
ckk_ec = 3

-- The attributes of a template for a search, but for its class.
pub record Template : Type 0 where
  pub class : Class
  pub object : Option String
  pub object_id : Option String

-- A call of the module that may change its state, the latest first.
pub data Event : Type 0 where
  opened : ℕ → ℕ → Event
  closed : ℕ → Event
  logged_in : ℕ → UserType → Event
  logged_out : ℕ → Event
  searched : ℕ → Template → Event
  initiated : ℕ → Mechanism → ℕ → Event
  signed : ℕ → List ℕ → Event
  finalized : Event

-- What a search gives: FindObjectsInit, the answers of FindObjects until it has no more objects,
-- and FindObjectsFinal.
pub record Search : Type 0 where
  pub init : Option String
  pub batches : List (Result (List ℕ))
  pub final : Option String

-- The public key of a certificate, by its dynamic type, with its marshalled form.
pub data PublicKey : Type 0 where
  ec_public : List ℕ → PublicKey
  rsa_public : List ℕ → PublicKey
  other_public : PublicKey

-- miekg/pkcs11, go-pkcs11uri and the cryptographic packages.
pub record Device (Uri : Type 0) : Type 0 where
  pub load : String → Bool
  pub initialize : Option String
  pub slot_list : List Event → Result (List ℕ)
  pub slot_info : ℕ → Result SlotInfo
  pub token_info : ℕ → Result TokenInfo
  pub open_session : List Event → ℕ → Result ℕ
  pub login : List Event → ℕ → UserType → String → Option String
  pub search : List Event → ℕ → Template → Search
  pub attribute : List Event → ℕ → ℕ → Attribute → Result (List ℕ)
  pub sign_init : List Event → ℕ → Mechanism → ℕ → Option String
  pub sign : List Event → ℕ → List ℕ → Result (List ℕ)
  pub new_uri : Uri
  pub parse_uri : String → Result Uri
  pub format_uri : Uri → Result String
  pub path_attribute : Uri → String → Option String
  pub query_attribute : Uri → String → Option String
  pub set_path_attribute : String → String → Uri → Uri
  pub add_path_attribute : String → String → Uri → Uri
  pub remove_path_attribute : String → Uri → Uri
  -- The number that strconv.ParseUint(s, 0, 32) gives, be there an error or not.
  pub parse_uint : String → ℕ
  pub os : String
  pub tty_read : Option String
  pub tty_write : Option String
  pub contains : String → String → Bool
  pub bytes : String → List ℕ
  pub text : List ℕ → String
  pub parse_certificate : List ℕ → Result Certificate
  pub public_key : Certificate → PublicKey
  pub sum256 : List ℕ → List ℕ
  pub sum384 : List ℕ → List ℕ
  pub sum512 : List ℕ → List ℕ
  -- asn1.Marshal of a sequence of two integers.
  pub marshal_r_s : ℕ → ℕ → Result (List ℕ)
  pub verify_ecdsa : List ℕ → List ℕ → List ℕ → Bool
  pub verify_rsa : List ℕ → List ℕ → List ℕ → Bool
  -- candidate.Verify with the issuer as the only root: whether there is no error.
  pub verifies : Certificate → Certificate → Bool
