-- ===== src/Gate/Machine/Bounds.antt =====
-- The invariant of the gate.
use p_drive.Base.{
  ℕ, suc, ◌+◌, ◌*◌, ◌≤◌, ◌<◌, List, [], ◌∷◌, Bool, true, false, not, none, some, is_empty, length,
  keep, length-keep, All, if◌then◌else◌, if_elim, ◌==◌, ==_refl, ◌≡◌, refl, sym, ap, subst, arith,
}
use mathlib.Core.List.{Memᴰ}
use p_drive.State.Rows.{ℤ, pos, negsuc, second}
use p_drive.Gate.{
  Server, Held, Event, Register, Directory, Stat, Authorized, refused, authorized, new_server,
  fallback_deadline, register, admit, authorize_root, granted, capped, to_duration, acknowledge,
  answer, answer_all, rescan, disconnect, decide, hold, is_ours, effective, release, millisecond,
}
use p_drive.Gate.Machine.{
  Stay, registers, answers, rescans, opens, releases, Step, stays, leaves, Reachable, start, next,
}

abbrev pub longest_hold : ℕ
longest_hold = 3 * second

abbrev pub IsBounded : Held → Type 0
IsBounded h = (0 < h.deadline) × (h.deadline ≤ longest_hold)

-- A listing waits for at most three seconds, the counters agree with the listings that are held, and
-- without a daemon there is no root.
pub record IsFailSafe (s : Server) : Type 0 where
  pub fallback : (0 < s.deadline) × (s.deadline ≤ second)
  pub client_deadline : effective s.deadline s.client_deadline ≤ longest_hold
  pub holds : All IsBounded s.holds
  pub counted : s.timed_out + length s.holds ≤ s.held
  pub opened : s.held ≤ s.allowed
  pub rootless : s.client ≡ none → is_empty s.root ≡ true

fallback_deadline-bounds : (d : ℤ) → (0 < fallback_deadline d) × (fallback_deadline d ≤ second)
fallback_deadline-bounds (pos d) = ground arith
fallback_deadline-bounds (negsuc d) = ground arith

new_server-IsFailSafe : (d : ℤ) → IsFailSafe (new_server d)
unfolding new_server
new_server-IsFailSafe d =
    let b = fallback_deadline-bounds d in
    record {
      fallback = b;
      client_deadline = omega arith;
      holds = tt;
      counted = omega arith;
      opened = omega arith;
      rootless = λ _. refl;
    }

capped-bound : (n : ℕ) (d : ℤ) → n ≤ second → effective n (capped d) ≤ longest_hold
capped-bound n (pos d) h = ground arith
capped-bound n (negsuc d) h = ground arith

granted-bound : (n : ℕ) (ms : ℤ) → n ≤ second → effective n (granted n ms) ≤ longest_hold
granted-bound n (pos ms) h =
    if_elim (λ (d : ℤ). effective n d ≤ longest_hold) (ms == 0) _ _ (λ _. ground arith)
      (λ _. capped-bound n (to_duration ms) h)
granted-bound n (negsuc ms) h = ground arith

admit-IsFailSafe :
    (conn pid : ℕ) (m : Register) (dirs : List Directory) (s : Server) (a : Authorized)
    → IsFailSafe s
    → IsFailSafe (admit conn pid m dirs s a)
admit-IsFailSafe conn pid m dirs s (refused e) i = i
admit-IsFailSafe conn pid m dirs s (authorized root) i =
    elim s.client
      as (λ o. IsFailSafe (elim o [
        | some c ↦ s
        | none ↦ record s {
          client = some conn;
          client_pid = if m.pid == 0 then pid else m.pid;
          root = root;
          client_deadline = granted s.deadline m.deadline_ms;
          fan = p_drive.Gate.mark_tree root dirs s.fan;
        }
      ])) [
        | some c ↦ i
        | none ↦ record {
          fallback = i.fallback;
          client_deadline = granted-bound s.deadline m.deadline_ms i.fallback.1;
          holds = i.holds;
          counted = i.counted;
          opened = i.opened;
          rootless = λ e. absurd (ground arith);
        }
      ]

answer_all-All :
    (id : ℕ) (holds : List Held) → All IsBounded holds → All IsBounded (answer_all id holds)
answer_all-All id [] h = tt
answer_all-All id (x ∷ holds) (b, h) =
    (if_elim IsBounded (x.id == id) _ _ (λ _. b) (λ _. b), answer_all-All id holds h)

length-answer_all : (id : ℕ) (holds : List Held) → length (answer_all id holds) ≡ length holds
length-answer_all id [] = refl
length-answer_all id (x ∷ holds) = ap suc (length-answer_all id holds)

acknowledge-IsFailSafe : (id : ℕ) (s : Server) → IsFailSafe s → IsFailSafe (acknowledge id s)
acknowledge-IsFailSafe id s i = record {
  fallback = i.fallback;
  client_deadline = i.client_deadline;
  holds = answer_all-All id s.holds i.holds;
  counted = subst (λ n. s.timed_out + n ≤ s.held) (sym (length-answer_all id s.holds)) i.counted;
  opened = i.opened;
  rootless = i.rootless;
}

counted-IsFailSafe : (s : Server) → IsFailSafe s → IsFailSafe (record s { allowed = s.allowed + 1 })
counted-IsFailSafe s i =
    let o = i.opened in
    record {
      fallback = i.fallback;
      client_deadline = i.client_deadline;
      holds = i.holds;
      counted = i.counted;
      opened = omega arith;
      rootless = i.rootless;
    }

effective-positive : (n : ℕ) (d : ℤ) → 0 < n → 0 < effective n d
effective-positive n (pos d) h = ground arith
effective-positive n (negsuc d) h = h

hold-IsFailSafe :
    (sent : Bool) (ev : Event) (s : Server)
    → IsFailSafe s
    → s.held < s.allowed
    → IsFailSafe (hold sent ev s)
hold-IsFailSafe true ev s i l =
    let c = i.counted in
    record {
      fallback = i.fallback;
      client_deadline = i.client_deadline;
      holds = (
        (effective-positive s.deadline s.client_deadline i.fallback.0, i.client_deadline),
        i.holds,
      );
      counted = omega arith;
      opened = omega arith;
      rootless = i.rootless;
    }
hold-IsFailSafe false ev s i l = record {
  fallback = i.fallback;
  client_deadline = i.client_deadline;
  holds = i.holds;
  counted = i.counted;
  opened = i.opened;
  rootless = i.rootless;
}

decide-IsFailSafe :
    (sent : Bool) (ev : Event) (s : Server) → IsFailSafe s → IsFailSafe (decide sent ev s)
unfolding decide
decide-IsFailSafe sent ev s i =
    let counted = record s { allowed = s.allowed + 1 } in
    let o = i.opened in
    elim s.client
      as (λ c. IsFailSafe (elim c [
        | none ↦ counted
        | some c ↦ if is_ours ev s then hold sent ev counted else counted
      ])) [
        | none ↦ counted-IsFailSafe s i
        | some c ↦
            if_elim IsFailSafe (is_ours ev s) _ _
              (λ _. hold-IsFailSafe sent ev counted (counted-IsFailSafe s i) (omega arith))
              (λ _. counted-IsFailSafe s i)
      ]

keep-All :
    (p : Held → Bool) (holds : List Held) → All IsBounded holds → All IsBounded (keep p holds)
keep-All p [] h = tt
keep-All p (x ∷ holds) (b, h) =
    if_elim (All IsBounded) (p x) _ _ (λ _. (b, keep-All p holds h)) (λ _. keep-All p holds h)

fewer :
    (p : Held → Bool) (h : Held) (holds : List Held)
    → p h ≡ false
    → Memᴰ h holds
    → length (keep p holds) < length holds
fewer p h [] e m = elim m [ ]
fewer p h (x ∷ holds) e (Memᴰ.head same) =
    if_elim (λ (l : List Held). length l < suc (length holds)) (p x) _ _
      (λ t. absurd (ground (arith, ap p same))) (λ _. omega (arith, length-keep p holds))
fewer p h (x ∷ holds) e (Memᴰ.tail m) = ground (arith, fewer p h holds e m)

release-IsFailSafe :
    (h : Held) (s : Server) → Memᴰ h s.holds → IsFailSafe s → IsFailSafe (release h s)
unfolding release
release-IsFailSafe h s m i =
    let c = i.counted in
    record {
      fallback = i.fallback;
      client_deadline = i.client_deadline;
      holds = keep-All _ s.holds i.holds;
      counted =
          ground
            (arith, fewer (λ other. not (other.id == h.id)) h s.holds (ap not (==_refl h.id)) m);
      opened = i.opened;
      rootless = i.rootless;
    }

Stay-IsFailSafe : (s s' : Server) → Stay s s' → IsFailSafe s → IsFailSafe s'
unfolding register
Stay-IsFailSafe s _ (registers stat conn uid pid m dirs) i =
    admit-IsFailSafe conn pid m dirs s (authorize_root stat m.root uid) i
Stay-IsFailSafe s _ (answers id) i = acknowledge-IsFailSafe id s i
Stay-IsFailSafe s _ (rescans dirs) i = record {
  fallback = i.fallback;
  client_deadline = i.client_deadline;
  holds = i.holds;
  counted = i.counted;
  opened = i.opened;
  rootless = i.rootless;
}
Stay-IsFailSafe s _ (opens sent ev) i = decide-IsFailSafe sent ev s i
Stay-IsFailSafe s _ (releases h m) i = release-IsFailSafe h s m i

Step-IsFailSafe : (s s' : Server) → Step s s' → IsFailSafe s → IsFailSafe s'
unfolding disconnect
Step-IsFailSafe s s' (stays t) i = Stay-IsFailSafe s s' t i
Step-IsFailSafe s _ (leaves inode_of) i = record {
  fallback = i.fallback;
  client_deadline = i.client_deadline;
  holds = i.holds;
  counted = i.counted;
  opened = i.opened;
  rootless = λ _. refl;
}

-- In every state that the gate reaches, each held listing waits for more than nothing and at most
-- three seconds, whatever deadlines the daemons asked for; at least as many listings were held as
-- are held and timed out; and without a daemon there is no root.
pub Reachable-IsFailSafe : (d : ℤ) (s : Server) → Reachable d s → IsFailSafe s
Reachable-IsFailSafe d _ start = new_server-IsFailSafe d
Reachable-IsFailSafe d s' (next {s = s} r t) = Step-IsFailSafe s s' t (Reachable-IsFailSafe d s r)
