-- ===== src/Mirror/World/Laws.antt =====
-- What a call leaves alone: the tables of two worlds, and calls that a guard stops.
use p_drive.Base.{Option, some, ◌≡◌, refl, sym, ap, ◌∙◌, subst}
use p_drive.Mirror.World.{World, Outcome, done, fail, Err, M, no_result, pass, stop_if, ◌>>◌}

-- Two worlds that differ at most in the events and counts that were reported.
pub record SameTables {R : Type 0} (w w' : World R) : Type 0 where
  pub same_disk : w'.disk ≡ w.disk
  pub same_trash : w'.local_trash ≡ w.local_trash
  pub same_rows : w'.rows ≡ w.rows
  pub same_meta : w'.meta ≡ w.meta
  pub same_remote : w'.remote ≡ w.remote

pub SameTables-trans :
    {R : Type 0} {u v w : World R} → SameTables u v → SameTables v w → SameTables u w
SameTables-trans p q = record {
  same_disk = q.same_disk ∙ p.same_disk;
  same_trash = q.same_trash ∙ p.same_trash;
  same_rows = q.same_rows ∙ p.same_rows;
  same_meta = q.same_meta ∙ p.same_meta;
  same_remote = q.same_remote ∙ p.same_remote;
}

-- The start of a pass clears the counts and nothing else.
pub SameTables-reset : {R : Type 0} (w : World R) → SameTables w (record w { result = no_result })
SameTables-reset w = record {
  same_disk = refl;
  same_trash = refl;
  same_rows = refl;
  same_meta = refl;
  same_remote = refl;
}

pub SameTables-refl : {R : Type 0} (w : World R) → SameTables w w
SameTables-refl w = record {
  same_disk = refl;
  same_trash = refl;
  same_rows = refl;
  same_meta = refl;
  same_remote = refl;
}

-- A call that a guard stopped: the error, and no change to anything but the report.
abbrev pub StoppedBy : {R A : Type 0} → World R → Err → Outcome R A → Type 0
StoppedBy w e (done a w') = ⊥
StoppedBy w e (fail e' w') = SameTables w w' × (e' ≡ e)

pub stopped_if :
    {R A : Type 0} (w w' : World R) (e : Err) (verdict : Option Err) (k : M R (Unit {0})) (a : A)
    → SameTables w w'
    → verdict ≡ some e
    → StoppedBy w e ((stop_if verdict >> k >> pass a) w')
stopped_if w w' e verdict k a same h =
    subst (λ v. StoppedBy w e ((stop_if v >> k >> pass a) w')) (sym h) (same, refl)

-- A call that succeeds goes on with its result.
pub bind-done :
    {R A B : Type 0} (o : Outcome R A) (a : A) (w : World R) (f : A → M R B)
    → o ≡ done a w
    → (elim o [ done b w' ↦ f b w' | fail e w' ↦ fail e w' ]) ≡ f a w
bind-done o a w f h = ap (λ p. elim p [ done b w' ↦ f b w' | fail e w' ↦ fail e w' ]) h
