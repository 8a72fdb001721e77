-- ===== src/Pkcs11/Slots.antt =====
-- Which slots and objects a PKCS#11 URI asks for.
use rolesanywhere_credential.Prelude.{
  ℕ, Bool, false, not, String, List, [], ◌∷◌, Option, none, some, eqb, if◌then◌else◌, ◌==◌, ◌||◌,
  ◌&&◌,
}
use rolesanywhere_credential.Results.{Result, ok, err}
use rolesanywhere_credential.Pkcs11.{
  SlotInfo, TokenInfo, SlotIdInfo, Class, Template, Event, Device,
}

module _ {Uri : Type 0} (d : Device Uri) where
  abbrev pub with_infos : ℕ → Result SlotInfo → Result TokenInfo → List SlotIdInfo → List SlotIdInfo
  with_infos slot_id (err e) tok_info rest = rest
  with_infos slot_id (ok info) (err e) rest = rest
  with_infos slot_id (ok info) (ok tok_info) rest =
      record { id = slot_id; info = info; tok_info = tok_info } ∷ rest

  -- The loop over the slots; those whose information cannot be read are left out.
  unfoldable pub slots_of : List ℕ → List SlotIdInfo
  slots_of [] = []
  slots_of (slot_id ∷ rest) =
      with_infos slot_id (d.slot_info slot_id) (d.token_info slot_id) (slots_of rest)

  unfoldable pub slots_from : Result (List ℕ) → Result (List SlotIdInfo)
  unfolding slots_of
  slots_from (err e) = err e
  slots_from (ok ids) = ok (slots_of ids)

  unfoldable pub enumerate_slots : List Event → Result (List SlotIdInfo)
  enumerate_slots h = slots_from (d.slot_list h)

  abbrev pub differs_from : Option String → String → Bool
  differs_from none val = false
  differs_from (some wanted) val = not (wanted == val)

  unfoldable pub mismatch_attr : Uri → String → String → Bool
  mismatch_attr uri attr val = differs_from (d.path_attribute uri attr) val

  abbrev pub slot_number : Option String → ℕ
  slot_number none = 0
  slot_number (some text) = d.parse_uint text

  -- The test of a slot in the loop of matchSlots.
  unfoldable pub matches : Uri → SlotIdInfo → Bool
  matches uri slot =
      let uri_slot_nr = slot_number (d.path_attribute uri "slot-id") in
      if not (eqb uri_slot_nr 0) && not (eqb uri_slot_nr slot.id)
      then false
      else not (
          mismatch_attr uri "token" slot.tok_info.label
          || mismatch_attr uri "model" slot.tok_info.model
          || mismatch_attr uri "manufacturer" slot.tok_info.token_manufacturer_id
          || mismatch_attr uri "serial" slot.tok_info.serial_number
          || mismatch_attr uri "slot-description" slot.info.slot_description
          || mismatch_attr uri "slot-manufacturer" slot.info.manufacturer_id)

  unfoldable pub matching : Uri → List SlotIdInfo → List SlotIdInfo
  matching uri [] = []
  matching uri (slot ∷ rest) =
      let later = matching uri rest in if matches uri slot then slot ∷ later else later

  unfoldable pub match_slots : List SlotIdInfo → Option Uri → List SlotIdInfo
  match_slots slots none = slots
  match_slots slots (some uri) = matching uri slots

  unfoldable pub get_find_template : Option Uri → Class → Template
  get_find_template none class = record { class = class; object = none; object_id = none }
  get_find_template (some uri) class = record {
    class = class;
    object = d.path_attribute uri "object";
    object_id = d.path_attribute uri "id";
  }
