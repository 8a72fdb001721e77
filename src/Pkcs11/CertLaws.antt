-- ===== src/Pkcs11/CertLaws.antt =====
-- The sessions that the search for certificates leaves open.
use rolesanywhere_credential.Prelude.{
  ℕ, ◌≡◌, refl, sym, ap, ◌∙◌, inl, inr, Bool, true, false, String, List, [], ◌∷◌, ◌++◌, Option,
  some, All, Bool-cases, if◌then◌else◌, ◌&&◌, length, ltb, ◌==◌, eqb, eqb_iff, ◌⊎◌,
}
use rolesanywhere_credential.Results.{Result, ok, err}
use rolesanywhere_credential.Pkcs11.{
  Device, Event, opened, closed, logged_in, logged_out, searched, initiated, signed, finalized,
  SlotIdInfo, is_empty_slot, CertObjInfo, cku_user,
}
use rolesanywhere_credential.Pkcs11.Calls.{
  World, Run, done, panics, waits, M, continue, open_session, opened_session, find_objects, login,
  login_result,
}
use rolesanywhere_credential.Pkcs11.Slots.{enumerate_slots, match_slots}
use rolesanywhere_credential.Pkcs11.Certs.{
  Scan, no_scan, Matching, get_certs_in_session, keep_or_close, scan_session, scan, fail,
  found_cert, after_login, search_private, log_in_and_search, after_certs, after_scan,
  get_matching_certs, first_cert, get_certificate,
}

-- Whether the calls so far leave a session open: the latest call for it tells.
unfoldable pub is_open : ℕ → List Event → Bool
is_open n [] = false
is_open n (opened slot session ∷ rest) =
    let earlier = is_open n rest in if eqb n session then true else earlier
is_open n (closed session ∷ rest) =
    let earlier = is_open n rest in if eqb n session then false else earlier
is_open n (logged_in session user ∷ rest) = is_open n rest
is_open n (logged_out session ∷ rest) = is_open n rest
is_open n (searched session template ∷ rest) = is_open n rest
is_open n (initiated session mechanism key ∷ rest) = is_open n rest
is_open n (signed session digest ∷ rest) = is_open n rest
is_open n (finalized ∷ rest) = is_open n rest

-- A property of what a run returns and of the world it leaves.
abbrev pub HoldsIn : {A : Type 0} → (A → World → Type 0) → Run A → Type 0
HoldsIn P (done a w) = P a w
HoldsIn P (panics w) = Unit
HoldsIn P (waits w) = Unit

pub continue-HoldsIn :
    {A B : Type 0} (P : A → World → Type 0) (Q : B → World → Type 0) (r : Run A) (f : A → M B)
    → HoldsIn P r
    → ((a : A) (w : World) → P a w → HoldsIn Q (f a w))
    → HoldsIn Q (continue r f)
continue-HoldsIn P Q (done a w) f h g = g a w h
continue-HoldsIn P Q (panics w) f h g = tt
continue-HoldsIn P Q (waits w) f h g = tt

abbrev pub is_nil : {A : Type 0} → List A → Bool
is_nil [] = true
is_nil (x ∷ rest) = false

append-is_nil : {A : Type 0} (xs : List A) (y : A) (ys : List A) → is_nil (xs ++ (y ∷ ys)) ≡ false
append-is_nil [] y ys = refl
append-is_nil (x ∷ xs) y ys = refl

-- Only the session of a slot that was kept, for its certificates, is open.
abbrev pub IsKept : Scan → World → Type 0
IsKept s w =
    (n : ℕ)
    → is_open n w.events ≡ true
    → (n ≡ s.session) × (is_empty_slot s.slot ≡ false) × (is_nil s.certs ≡ false)

open_after_close :
    (n session : ℕ) (h : List Event)
    → is_open n (closed session ∷ h) ≡ true
    → (eqb n session ≡ false) × (is_open n h ≡ true)
unfolding is_open
open_after_close n session h t = elim (Bool-cases (eqb n session)) [
  | inl e ↦ absurd (cc (rw e at t))
  | inr e ↦ (e, rw e at t)
]

open_after_open :
    (n slot session : ℕ) (h : List Event)
    → is_open n (opened slot session ∷ h) ≡ true
    → (eqb n session ≡ true) ⊎ ((eqb n session ≡ false) × (is_open n h ≡ true))
unfolding is_open
open_after_open n slot session h t = elim (Bool-cases (eqb n session)) [
  | inl e ↦ inl e
  | inr e ↦ inr (e, rw e at t)
]

module _ {Uri : Type 0} (d : Device Uri) where
  -- A session that is closed again leaves what was kept before.
  closed_again-IsKept :
      (slot : ℕ) (session : ℕ) (s : Scan) (before after w : World)
      → IsKept s before
      → ((n : ℕ) → is_open n after.events ≡ is_open n (opened slot session ∷ before.events))
      → IsKept s (record w { events = closed session ∷ after.events })
  closed_again-IsKept slot session s before after w h same n t =
      let still = open_after_close n session after.events t in
      elim (open_after_open n slot session before.events (sym (same n) ∙ still.1)) [
        | inl e ↦ absurd (cc (sym e ∙ still.0))
        | inr e ↦ h n e.1
      ]

  module _ (slot : SlotIdInfo) (nonempty : is_empty_slot slot ≡ false) where
    new_slot-IsKept :
        (session : ℕ) (s : Scan) (certs : List CertObjInfo) (before after : World)
        → IsKept s before
        → is_nil certs ≡ false
        → is_empty_slot s.slot ≡ true
        → ((n : ℕ) → is_open n after.events ≡ is_open n (opened slot.id session ∷ before.events))
        → IsKept (record { slot = slot; session = session; certs = certs }) after
    new_slot-IsKept session s certs before after h some_certs empty same n t =
        elim (open_after_open n slot.id session before.events (sym (same n) ∙ t)) [
          | inl e ↦ ((eqb_iff n session).0 e, nonempty, some_certs)
          | inr e ↦ absurd (cc (sym empty ∙ (h n e.1).1))
        ]

    keep_or_close-IsKept :
        (session : ℕ) (s : Scan) (r : Result (List CertObjInfo)) (before after : World)
        → IsKept s before
        → ((n : ℕ) → is_open n after.events ≡ is_open n (opened slot.id session ∷ before.events))
        → HoldsIn IsKept (keep_or_close d slot session s r after)
    unfolding keep_or_close
    keep_or_close-IsKept session s (err e) before after h same =
        closed_again-IsKept slot.id session s before after after h same
    keep_or_close-IsKept session s (ok []) before after h same =
        closed_again-IsKept slot.id session s before after after h same
    keep_or_close-IsKept session s (ok (cert ∷ certs)) before after h same =
        elim (Bool-cases (is_empty_slot s.slot)) [
          | inl e ↦ rw e (
              new_slot-IsKept session s (s.certs ++ (cert ∷ certs)) before after h
                (append-is_nil s.certs cert certs) e same)
          | inr e ↦ rw e (
              closed_again-IsKept slot.id session (record s { certs = s.certs ++ (cert ∷ certs) })
                before after after (λ n t. ((h n t).0, (h n t).1, append-is_nil s.certs cert certs))
                same)
        ]

    scan_slot-IsKept :
        (uri : Option Uri) (s : Scan) (w : World) (r : Result ℕ)
        → IsKept s w
        → HoldsIn IsKept (continue (opened_session d slot.id r w) (scan_session d slot uri s))
    unfolding opened_session scan_session get_certs_in_session find_objects is_open
    scan_slot-IsKept uri s w (err e) h = λ n t. h n (open_after_close n 0 w.events t).1
    scan_slot-IsKept uri s w (ok session) h = keep_or_close-IsKept session s _ w _ h (λ n. refl)

  -- No slot has only zeros in its description.
  abbrev pub AreNamed : List SlotIdInfo → Type 0
  AreNamed slots = All (λ slot. is_empty_slot slot ≡ false) slots

  pub scan-IsKept :
      (uri : Option Uri) (slots : List SlotIdInfo) (s : Scan) (w : World)
      → AreNamed slots
      → IsKept s w
      → HoldsIn IsKept (scan d uri slots s w)
  unfolding scan open_session
  scan-IsKept uri [] s w ha h = h
  scan-IsKept uri (slot ∷ rest) s w ha h =
      continue-HoldsIn IsKept IsKept
        (continue (open_session d slot.id w) (scan_session d slot uri s)) (scan d uri rest)
        (scan_slot-IsKept slot ha.0 uri s w (d.open_session w.events slot.id) h)
        (λ s' w' h'. scan-IsKept uri rest s' w' ha.1 h')

  -- Only the session that is returned is open.
  abbrev pub IsLastOpen : Matching → World → Type 0
  IsLastOpen m w = (n : ℕ) → is_open n w.events ≡ true → n ≡ m.session

  fail-IsLastOpen :
      (session : ℕ) (e : Option String) (w : World)
      → ((n : ℕ) → is_open n w.events ≡ true → n ≡ session)
      → HoldsIn IsLastOpen (fail d session e w)
  unfolding fail is_open
  fail-IsLastOpen session e w h = elim (Bool-cases (eqb session 0)) [
    | inl z ↦ rw z h
    | inr z ↦ rw z (λ n t. h n (open_after_close n session w.events t).1)
  ]

  found_cert-IsLastOpen :
      (single : Bool) (slot : SlotIdInfo) (session : ℕ) (is_logged_in : Bool)
      (certs : List CertObjInfo) (w : World)
      → ((n : ℕ) → is_open n w.events ≡ true → n ≡ session)
      → HoldsIn IsLastOpen (found_cert d single slot session is_logged_in certs w)
  unfolding found_cert
  found_cert-IsLastOpen single slot session is_logged_in certs w h =
      elim (Bool-cases (single && ltb 1 (length certs))) [
        | inl e ↦ rw e (fail-IsLastOpen session (some "multiple matching certificates") w h)
        | inr e ↦ rw e h
      ]

  no_pin-IsLastOpen :
      (single : Bool) (uri : Option Uri) (slots : List SlotIdInfo) (w : World)
      → ((n : ℕ) → is_open n w.events ≡ true → n ≡ 0)
      → HoldsIn IsLastOpen (log_in_and_search d single uri "" slots w)
  unfolding log_in_and_search
  no_pin-IsLastOpen single uri [] w h = fail-IsLastOpen 0 (some "no matching slots") w h
  no_pin-IsLastOpen single uri (slot ∷ []) w h =
      fail-IsLastOpen 0 (some "one matching slot, but no user PIN provided") w h
  no_pin-IsLastOpen single uri (slot ∷ other ∷ rest) w h =
      fail-IsLastOpen 0 (some "multiple matching slots") w h

  after_certs-IsLastOpen :
      (single : Bool) (uri : Option Uri) (slots : List SlotIdInfo) (s : Scan)
      (certs : List CertObjInfo) (w : World)
      → s.certs ≡ certs
      → IsKept s w
      → HoldsIn IsLastOpen (after_certs d single uri "" slots s certs w)
  unfolding after_certs
  after_certs-IsLastOpen single uri slots s [] w e h =
      no_pin-IsLastOpen single uri slots w (λ n t. absurd (cc (ap is_nil (sym e) ∙ (h n t).2)))
  after_certs-IsLastOpen single uri slots s (cert ∷ rest) w e h =
      found_cert-IsLastOpen single s.slot s.session false (cert ∷ rest) w (λ n t. (h n t).0)

  -- Without a PIN, and with no session open before, getMatchingCerts leaves no session open but the
  -- one that it returns, provided no slot is described by zeros only.
  pub get_matching_certs-IsLastOpen :
      (slots : List SlotIdInfo) (uri : Option Uri) (single : Bool) (w : World)
      → AreNamed (match_slots d slots uri)
      → ((n : ℕ) → is_open n w.events ≡ false)
      → HoldsIn IsLastOpen (get_matching_certs d slots uri "" single w)
  unfolding get_matching_certs after_scan
  get_matching_certs-IsLastOpen slots uri single w named none_open =
      continue-HoldsIn IsKept IsLastOpen (scan d uri (match_slots d slots uri) no_scan w)
        (after_scan d single uri "" (match_slots d slots uri))
        (scan-IsKept uri (match_slots d slots uri) no_scan w named
          (λ n t. absurd (cc (sym (none_open n) ∙ t))))
        (λ s w' h. after_certs-IsLastOpen single uri (match_slots d slots uri) s s.certs w' refl h)

  -- With one matching slot that has no public match, a login that fails makes getCertificate panic:
  -- the error of the login is lost, and there is no certificate to return.
  pub get_certificate_panics :
      (uri : Option Uri) (pin e : String) (slots : List SlotIdInfo) (slot : SlotIdInfo)
      (session : ℕ) (s : Scan) (w w1 w2 : World)
      → enumerate_slots d w.events ≡ ok slots
      → match_slots d slots uri ≡ slot ∷ []
      → scan d uri (slot ∷ []) no_scan w ≡ done s w1
      → s.certs ≡ []
      → (pin == "") ≡ false
      → open_session d slot.id w1 ≡ done (ok session) w2
      → d.login w2.events session cku_user pin ≡ some e
      → get_certificate d uri pin w ≡ panics w2
  unfolding get_certificate get_matching_certs after_scan after_certs log_in_and_search
      search_private after_login login login_result fail first_cert
  get_certificate_panics uri pin e slots slot session s w w1 w2 hs hm hscan hc hp ho hl =
      rw (hs, hm, hscan, hc, hp, ho, hl) refl
