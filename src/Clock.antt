-- ===== src/Clock.antt =====
-- What serve.go and update.go use of Go's package time: instants, Add, Sub, After, and the two
-- constants time.Time{} and time.Unix(1<<63-1, 0). The package is not part of the repository, so it
-- is an interface; its laws are the package's documented behaviour.
use rolesanywhere_credential.Prelude.{
  ℕ, Bool, true, false, ◌≡◌, sym, ◌∙◌, if◌then◌else◌, ltb→lt, lt→ltb, ltb-false→le, le→ltb-false,
}
use rolesanywhere_credential.Prelude.Int.{ℤ, pos, negsuc, ◌+ℤ◌, ◌-ℤ◌, ltb_ℤ, ◌<ℤ◌, ◌≤ℤ◌}

-- The largest int64; a Duration is an int64 of nanoseconds.
abbrev pub max_int64 : ℤ
max_int64 = pos 9_223_372_036_854_775_807

abbrev pub min_int64 : ℤ
min_int64 = negsuc 9_223_372_036_854_775_807

-- Sub answers with the nearest Duration where the difference is too large for one.
abbrev pub saturate : ℤ → ℤ
saturate d = if ltb_ℤ max_int64 d then max_int64 else if ltb_ℤ d min_int64 then min_int64 else d

pub record Clock : Type 1 where
  pub Time : Type 0
  -- The instant that a time stands for, in nanoseconds.
  pub instant : Time → ℤ
  pub add : Time → ℤ → Time
  pub sub : Time → Time → ℤ
  pub after : Time → Time → Bool
  pub zero_time : Time
  -- time.Unix(1<<63-1, 0). The package says that no time corresponds to these seconds, so nothing
  -- is assumed of its instant.
  pub unix_max : Time
  pub instant-add : (t : Time) (d : ℤ) → instant (add t d) ≡ instant t +ℤ d
  pub sub_lem : (t u : Time) → sub t u ≡ saturate (instant t -ℤ instant u)
  pub after_lem : (t u : Time) → after t u ≡ ltb_ℤ (instant u) (instant t)

abbrev pub second : ℕ
second = 1_000_000_000

abbrev pub minute : ℕ
minute = 60_000_000_000

module _ (c : Clock) where
  open c use {Time, instant, after, after_lem}

  pub lt_of_after : (t u : Time) → after t u ≡ true → instant u <ℤ instant t
  lt_of_after t u h = ltb→lt _ _ (sym (after_lem t u) ∙ h)

  pub le_of_not_after : (t u : Time) → after t u ≡ false → instant t ≤ℤ instant u
  le_of_not_after t u h = ltb-false→le _ _ (sym (after_lem t u) ∙ h)

  pub not_after_of_le : (t u : Time) → instant t ≤ℤ instant u → after t u ≡ false
  not_after_of_le t u h = after_lem t u ∙ le→ltb-false _ _ h

  pub after_of_lt : (t u : Time) → instant u <ℤ instant t → after t u ≡ true
  after_of_lt t u h = after_lem t u ∙ lt→ltb _ _ h
