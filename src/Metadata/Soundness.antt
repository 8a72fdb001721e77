-- ===== src/Metadata/Soundness.antt =====
-- What holds in every state of the endpoint.
use rolesanywhere_credential.Prelude.{
  ℕ, ◌*◌, ◌≡◌, refl, inl, inr, String, List, [], ◌∷◌, ◌++◌, Option, All, HasDistinctKeys, arith,
  Bool-cases, insert-All, insert-HasDistinctKeys,
}
use rolesanywhere_credential.Prelude.Int.{ℤ, pos, negsuc, pos_part, ◌≤ℤ◌, ◌+ℤ◌, +ℤ_parts}
use rolesanywhere_credential.Certificate.{Signer}
use rolesanywhere_credential.Clock.{Clock, second}
use rolesanywhere_credential.Tokens.{TokenMap, insert_token, remove_expired}
use rolesanywhere_credential.Tokens.Bounds.{make_room-HasDistinctKeys, make_room-All}
use rolesanywhere_credential.Tokens.Expiry.{remove_expired-HasDistinctKeys}
use rolesanywhere_credential.Session.{CredentialProcessOutput, Environment}
use rolesanywhere_credential.Metadata.{
  refreshable_cred_code, refreshable_cred_type, RefreshableCred, Request, Library, put_token,
}
use rolesanywhere_credential.Metadata.Access.{put_token-cases}
use rolesanywhere_credential.Metadata.System.{
  Write, set_access_key_id, set_secret_access_key, set_token, set_expiration, set_code,
  set_last_updated, set_type, assign, refresh_writes, IsOutput, System, Step, wait, put, clean,
  call, write, Reach, here, next,
}

-- The longest TTL of a token, 21600 seconds.
abbrev pub six_hours : ℤ
six_hours = pos 21_600_000_000_000

module _ (c : Clock) (lib : Library c.Time) (Meets : Environment → Type 0) (signer : Signer)
    (algorithm : String) where
  open c use {Time, instant, add, after, instant-add}
  open lib use {parse_rfc3339}

  -- Each field of a credential comes from what some call of GenerateCredentials returned; the calls
  -- may differ.
  pub record IsAssembled (cred : RefreshableCred Time) : Type 0 where
    pub key :
        (out : CredentialProcessOutput) × IsOutput c lib Meets signer algorithm out
        × (cred.access_key_id ≡ out.access_key_id)
    pub secret :
        (out : CredentialProcessOutput) × IsOutput c lib Meets signer algorithm out
        × (cred.secret_access_key ≡ out.secret_access_key)
    pub session :
        (out : CredentialProcessOutput) × IsOutput c lib Meets signer algorithm out
        × (cred.token ≡ out.session_token)
    pub expires :
        (out : CredentialProcessOutput) × IsOutput c lib Meets signer algorithm out
        × (cred.expiration ≡ parse_rfc3339 out.expiration)
    pub code : cred.code ≡ refreshable_cred_code
    pub type : cred.type ≡ refreshable_cred_type

  -- The same of what is yet to be written.
  abbrev IsWrite : Write Time → Type 0
  IsWrite (set_access_key_id v) =
      (out : CredentialProcessOutput) × IsOutput c lib Meets signer algorithm out
      × (v ≡ out.access_key_id)
  IsWrite (set_secret_access_key v) =
      (out : CredentialProcessOutput) × IsOutput c lib Meets signer algorithm out
      × (v ≡ out.secret_access_key)
  IsWrite (set_token v) =
      (out : CredentialProcessOutput) × IsOutput c lib Meets signer algorithm out
      × (v ≡ out.session_token)
  IsWrite (set_expiration v) =
      (out : CredentialProcessOutput) × IsOutput c lib Meets signer algorithm out
      × (v ≡ parse_rfc3339 out.expiration)
  IsWrite (set_code v) = v ≡ refreshable_cred_code
  IsWrite (set_last_updated v) = Unit
  IsWrite (set_type v) = v ≡ refreshable_cred_type

  -- The stored credential is assembled from outputs, and every token stands in the map once and
  -- expires within six hours.
  pub record IsSound (s : System c lib Meets signer algorithm) : Type 0 where
    pub assembled : IsAssembled s.cred
    pub pending : All (All IsWrite) s.threads
    pub distinct : HasDistinctKeys s.tokens
    pub lifetimes : All (λ e. instant e.1 ≤ℤ instant s.now +ℤ six_hours) s.tokens

  assign-IsAssembled :
      (w : Write Time) (cred : RefreshableCred Time)
      → IsWrite w
      → IsAssembled cred
      → IsAssembled (assign w cred)
  assign-IsAssembled (set_access_key_id v) cred h a = record {
    key = h;
    secret = a.secret;
    session = a.session;
    expires = a.expires;
    code = a.code;
    type = a.type;
  }
  assign-IsAssembled (set_secret_access_key v) cred h a = record {
    key = a.key;
    secret = h;
    session = a.session;
    expires = a.expires;
    code = a.code;
    type = a.type;
  }
  assign-IsAssembled (set_token v) cred h a = record {
    key = a.key;
    secret = a.secret;
    session = h;
    expires = a.expires;
    code = a.code;
    type = a.type;
  }
  assign-IsAssembled (set_expiration v) cred h a = record {
    key = a.key;
    secret = a.secret;
    session = a.session;
    expires = h;
    code = a.code;
    type = a.type;
  }
  assign-IsAssembled (set_code v) cred h a = record {
    key = a.key;
    secret = a.secret;
    session = a.session;
    expires = a.expires;
    code = h;
    type = a.type;
  }
  assign-IsAssembled (set_last_updated v) cred h a = record {
    key = a.key;
    secret = a.secret;
    session = a.session;
    expires = a.expires;
    code = a.code;
    type = a.type;
  }
  assign-IsAssembled (set_type v) cred h a = record {
    key = a.key;
    secret = a.secret;
    session = a.session;
    expires = a.expires;
    code = a.code;
    type = h;
  }

  -- The first write of a handler among others, and the others with what it has left.
  pending_split :
      (before after : List (List (Write Time))) (w : Write Time) (rest : List (Write Time))
      → All (All IsWrite) (before ++ (w ∷ rest) ∷ after)
      → IsWrite w × All (All IsWrite) (before ++ rest ∷ after)
  pending_split [] after w rest ((h, hs), others) = (h, (hs, others))
  pending_split (ws ∷ before) after w rest (h, others) =
      let (first, left) = pending_split before after w rest others in (first, (h, left))

  All-mono :
      {P Q : String × Time → Type 0}
      → ((e : String × Time) → P e → Q e)
      → (m : TokenMap c) → All P m
      → All Q m
  All-mono f [] h = tt
  All-mono f (e ∷ m) (p, h) = (f e p, All-mono f m h)

  remove_expired-All :
      (P : String × Time → Type 0) (now : Time) (m : TokenMap c)
      → All P m
      → All P (remove_expired c now m)
  unfolding remove_expired
  remove_expired-All P now [] h = tt
  remove_expired-All P now ((k, v) ∷ m) (p, h) = elim (Bool-cases (after now v)) [
    | inl e ↦ rw e (remove_expired-All P now m h)
    | inr e ↦ rw e (p, remove_expired-All P now m h)
  ]

  issue_within :
      (now : ℤ) (ttl : ℤ)
      → pos 1 ≤ℤ ttl
      → ttl ≤ℤ pos 21600
      → now +ℤ pos (second * pos_part ttl) ≤ℤ now +ℤ six_hours
  issue_within now (pos n) lo hi = omega (arith, +ℤ_parts)
  issue_within now (negsuc n) lo hi = absurd (omega arith)

  insert_token-lifetimes :
      (issued now : Time) (token : String) (ttl : ℤ) (tokens : TokenMap c)
      → pos 1 ≤ℤ ttl
      → ttl ≤ℤ pos 21600
      → instant issued ≤ℤ instant now
      → All (λ e. instant e.1 ≤ℤ instant now +ℤ six_hours) tokens
      → All
          (λ e. instant e.1 ≤ℤ instant now +ℤ six_hours)
          (insert_token c token (add issued (pos (second * pos_part ttl))) tokens)
  unfolding insert_token
  insert_token-lifetimes issued now token ttl tokens lo hi past lifetimes =
      let expiration = add issued (pos (second * pos_part ttl)) in
      let early : instant expiration ≤ℤ instant issued +ℤ six_hours =
        rw (instant-add issued (pos (second * pos_part ttl)))
          (issue_within (instant issued) ttl lo hi) in
      let soon : instant expiration ≤ℤ instant now +ℤ six_hours = omega (arith, +ℤ_parts) in
      insert-All (λ e. instant e.1 ≤ℤ instant now +ℤ six_hours) token expiration _ soon
        (make_room-All c (λ e. instant e.1 ≤ℤ instant now +ℤ six_hours) tokens lifetimes)

  insert_token-distinct :
      (token : String) (expiration : Time) (tokens : TokenMap c)
      → HasDistinctKeys tokens
      → HasDistinctKeys (insert_token c token expiration tokens)
  unfolding insert_token
  insert_token-distinct token expiration tokens distinct =
      insert-HasDistinctKeys token expiration _ (make_room-HasDistinctKeys c tokens distinct)

  put-lifetimes :
      (issued now : Time) (tokens : TokenMap c) (r : Request) (bytes : Option (List ℕ))
      → instant issued ≤ℤ instant now
      → HasDistinctKeys tokens
      → All (λ e. instant e.1 ≤ℤ instant now +ℤ six_hours) tokens
      → HasDistinctKeys (put_token c lib r bytes (record { now = issued; tokens = tokens })).0
        × All
            (λ e. instant e.1 ≤ℤ instant now +ℤ six_hours)
            (put_token c lib r bytes (record { now = issued; tokens = tokens })).0
  put-lifetimes issued now tokens r bytes past distinct lifetimes =
      elim (put_token-cases c lib r bytes (record { now = issued; tokens = tokens })) [
        | inr refused ↦ rw refused.unchanged (distinct, lifetimes)
        | inl granted ↦ rw granted.stored (
          insert_token-distinct granted.token _ tokens distinct,
          insert_token-lifetimes issued now granted.token granted.ttl tokens granted.positive
              granted.six_hours past lifetimes,
        )
      ]

  refresh_writes-pending :
      (out : CredentialProcessOutput) (updated : Time)
      → IsOutput c lib Meets signer algorithm out
      → All IsWrite (refresh_writes c lib Meets signer algorithm out updated)
  refresh_writes-pending out updated o = (
    (out, o, refl),
    ((out, o, refl), ((out, o, refl), ((out, o, refl), (refl, (tt, (refl, tt)))))),
  )

  Step-IsSound :
      {s t : System c lib Meets signer algorithm}
      → Step c lib Meets signer algorithm s t
      → IsSound s
      → IsSound t
  Step-IsSound (wait later le) i = record {
    assembled = i.assembled;
    pending = i.pending;
    distinct = i.distinct;
    lifetimes = All-mono (λ e soon. omega (arith, +ℤ_parts)) _ i.lifetimes;
  }
  Step-IsSound {s} (put r bytes issued past) i =
      let (distinct, lifetimes) =
        put-lifetimes issued s.now s.tokens r bytes past i.distinct i.lifetimes in
      record {
        assembled = i.assembled;
        pending = i.pending;
        distinct = distinct;
        lifetimes = lifetimes;
      }
  Step-IsSound {s} (clean read past) i = record {
    assembled = i.assembled;
    pending = i.pending;
    distinct = remove_expired-HasDistinctKeys c read _ i.distinct;
    lifetimes = remove_expired-All _ read _ i.lifetimes;
  }
  Step-IsSound (call r checked seen asked updated out method valid old o) i = record {
    assembled = i.assembled;
    pending = (refresh_writes-pending out updated o, i.pending);
    distinct = i.distinct;
    lifetimes = i.lifetimes;
  }
  Step-IsSound {s} (write before after w rest e) i =
      let (first, left) = pending_split before after w rest (rw e at i.pending) in
      record {
        assembled = assign-IsAssembled w s.cred first i.assembled;
        pending = left;
        distinct = i.distinct;
        lifetimes = i.lifetimes;
      }

  -- Every state that is reached from a sound state is sound.
  pub Reach-IsSound :
      {s t : System c lib Meets signer algorithm}
      → IsSound s
      → Reach c lib Meets signer algorithm s t
      → IsSound t
  Reach-IsSound i here = i
  Reach-IsSound i (next r step) = Step-IsSound step (Reach-IsSound i r)
