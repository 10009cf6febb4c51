-- ===== src/State/Activity.antt =====
-- The tables `activity` and `conflicts`.
use p_drive.Base.{
  ℕ, zero, suc, ◌≤◌, Text, List, [], ◌∷◌, ◌++◌, Bool, not, ◌&&◌, ◌≡◌, refl, arith, ltb, ◌==◌, ◌||◌,
  take, length, keep, text_eq, if◌then◌else◌, ap, sort,
}
use mathlib.Core.List.{reverse}

-- `ActivityEntry`, with its time as it is stored
pub record Entry : Type 0 where
  pub at : ℕ
  pub kind : Text
  pub path : Text
  pub size : ℕ

-- The rows with the newest first: `id` is AUTOINCREMENT, so the order by `id` is that of insertion.
abbrev pub Log : Type 0
Log = List Entry

-- `MaxActivityRows`
abbrev pub max_activity_rows : ℕ
max_activity_rows = 2000

abbrev pub at_or : ℕ → ℕ → ℕ
at_or now zero = now
at_or now (suc t) = suc t

-- `AppendActivity`; the time 0 stands for the zero time.
unfoldable pub append_activity : ℕ → Entry → Log → Log
append_activity now e log = record e { at = at_or now e.at } ∷ log

-- `PruneActivity`
unfoldable pub prune_activity : Log → Log
prune_activity log = take max_activity_rows log

-- `RecentActivity`, for a limit that is not negative
unfoldable pub recent_activity : ℕ → Log → List Entry
recent_activity limit log =
    reverse
      (take (if limit == 0 || ltb max_activity_rows limit then max_activity_rows else limit) log)

-- `ClearActivity`
unfoldable pub clear_activity : Log → Log
clear_activity log = []

take-take : (m n : ℕ) (log : Log) → m ≤ n → take m (take n log) ≡ take m log
take-take zero n log h = refl
take-take (suc m) zero log h = absurd (omega arith)
take-take (suc m) (suc n) [] h = refl
take-take (suc m) (suc n) (e ∷ log) h = ap (λ r. e ∷ r) (take-take m n log (omega arith))

length-take : (n : ℕ) (log : Log) → length (take n log) ≤ n
length-take zero log = omega arith
length-take (suc n) [] = omega arith
length-take (suc n) (e ∷ log) = omega (arith, length-take n log)

limit_capped :
    (limit : ℕ)
    → (if limit == 0 || ltb max_activity_rows limit then max_activity_rows else limit)
      ≤ max_activity_rows
limit_capped limit = ground arith

-- Pruning bounds the log, and no query can see that it happened: every query, whatever its limit,
-- gives the entries that it gave before.
pub recent_activity-prune_activity :
    (limit : ℕ) (log : Log)
    → (length (prune_activity log) ≤ max_activity_rows)
      × (recent_activity limit (prune_activity log) ≡ recent_activity limit log)
unfolding prune_activity recent_activity
recent_activity-prune_activity limit log = (
  length-take max_activity_rows log,
  ap reverse (take-take _ max_activity_rows log (limit_capped limit)),
)

-- `Conflict`
pub record Conflict : Type 0 where
  pub path : Text
  pub kept_local : Text
  pub remote_rev : Text
  pub at : ℕ

-- `RecordConflict`
unfoldable pub record_conflict : ℕ → Text → Text → Text → List Conflict → List Conflict
record_conflict now path kept_local remote_rev rows =
    rows
    ++ (record { path = path; kept_local = kept_local; remote_rev = remote_rev; at = now } ∷ [])

-- `Conflicts`, `ORDER BY at DESC`
unfoldable pub conflicts : List Conflict → List Conflict
conflicts rows = sort (λ (c : Conflict) (d : Conflict). ltb d.at c.at) rows

abbrev names_copy : Text → Text → Conflict → Bool
names_copy path kept_local c = text_eq c.path path && text_eq c.kept_local kept_local

-- `DeleteConflict`
unfoldable pub delete_conflict : Text → Text → List Conflict → List Conflict
delete_conflict path kept_local rows = keep (λ c. not (names_copy path kept_local c)) rows
