-- ===== src/Gate/Hold.antt =====
-- Which listings are held, and for how long by a validated configuration.
use p_drive.Base.{
  ℕ, ◌+◌, ◌*◌, ◌≤◌, ◌∷◌, Bool, true, false, Option, none, some, if◌then◌else◌, ==_iff, ◌≡◌, ◌≢◌,
  ◌⊎◌, inl, inr, refl, arith,
}
use p_drive.State.Rows.{ℤ, pos, negsuc}
use p_drive.Config.{Config, validate}
use p_drive.Config.Laws.{IsBetween, validate-IsSafeConfig}
use p_drive.Gate.{Server, Held, Event, decide, hold, is_ours, under_root, millisecond, granted}

-- What a held listing was opened by, and where.
abbrev pub IsHeldFor : Event → Server → Server → Type 0
IsHeldFor ev s s' =
    (h : Held) × (s'.holds ≡ h ∷ s.holds)
    × (h.path ≡ ev.path)
    × (ev.pid ≢ s.client_pid)
    × (under_root ev.path s.root ≡ true)
    × (s.client ≢ none)

-- An open is allowed at once, or it is held; and then a daemon is registered, the process is not the
-- daemon, and the directory is the registered root or below it.
pub decide-IsHeldFor :
    (sent : Bool) (ev : Event) (s : Server)
    → ((decide sent ev s).holds ≡ s.holds) ⊎ IsHeldFor ev s (decide sent ev s)
unfolding decide
decide-IsHeldFor sent ev s = on s.client
  where
    ready :
        (c : ℕ) (b : Bool)
        → is_ours ev s ≡ b
        → let counted = record s { allowed = s.allowed + 1 } in
          let s' : Server = if b then hold sent ev counted else counted in
          (s'.holds ≡ s.holds)
          ⊎ ((h : Held) × (s'.holds ≡ h ∷ s.holds)
              × (h.path ≡ ev.path)
              × (ev.pid ≢ s.client_pid)
              × (under_root ev.path s.root ≡ true)
              × (some c ≢ none))
    ready c false e = inl refl
    ready c true e = sends sent e
      where
        sends :
            (t : Bool)
            → is_ours ev s ≡ true
            → let s' : Server = hold t ev (record s { allowed = s.allowed + 1 }) in
              (s'.holds ≡ s.holds)
              ⊎ ((h : Held) × (s'.holds ≡ h ∷ s.holds)
                  × (h.path ≡ ev.path)
                  × (ev.pid ≢ s.client_pid)
                  × (under_root ev.path s.root ≡ true)
                  × (some c ≢ none))
        sends false k = inl refl
        sends true k = inr (
          _,
          refl,
          refl,
          (λ same. ground (arith, ==_iff ev.pid s.client_pid)),
          ground arith,
          λ none_is_some. ground arith,
        )

    on :
        (o : Option ℕ)
        → let counted = record s { allowed = s.allowed + 1 } in
          let s' : Server = elim o [
            | none ↦ counted
            | some c ↦ if is_ours ev s then hold sent ev counted else counted
          ] in
          (s'.holds ≡ s.holds)
          ⊎ ((h : Held) × (s'.holds ≡ h ∷ s.holds)
              × (h.path ≡ ev.path)
              × (ev.pid ≢ s.client_pid)
              × (under_root ev.path s.root ≡ true)
              × (o ≢ none))
    on none = inl refl
    on (some c) = ready c (is_ours ev s) refl

pub granted-exact :
    (n : ℕ) (ms : ℤ)
    → IsBetween 1 3000 ms
    → (m : ℕ) × (ms ≡ pos m) × (granted n ms ≡ pos (m * millisecond)) × (1 ≤ m) × (m ≤ 3000)
granted-exact n (negsuc ms) h = absurd h
granted-exact n (pos ms) h = (ms, refl, ground arith, h.0, h.1)

-- A daemon that registers with the hold time of a validated configuration is granted exactly that
-- time: the gate clamps nothing of it, whatever its own fallback is.
pub granted-validate :
    (n : ℕ) (c : Config)
    → let ms = (validate c).freshness.max_block_ms in
      (m : ℕ) × (ms ≡ pos m) × (granted n ms ≡ pos (m * millisecond)) × (1 ≤ m) × (m ≤ 3000)
granted-validate n c =
    granted-exact n (validate c).freshness.max_block_ms (validate-IsSafeConfig c).4
