-- ===== src/Tui/Activity.antt =====
-- internal/tui/activity.go: the activity screen, without its drawing and sizes. Reading a time and the
-- clock are arguments.
use p_drive.Base.{
  ℕ, zero, suc, ◌+◌, ◌-◌, ◌≤◌, Text, codes, List, [], ◌∷◌, ◌++◌, Bool, true, false, Option, none,
  some, map, is_empty, length, drop, text_eq, if◌then◌else◌, ltb, ◌≡◌, arith,
}
use p_drive.State.Rows.{ℤ}
use p_drive.Daemon.{TransferData}
use p_drive.Daemon.Feed.{Transfers, transfer_key, transfer_at, put_transfer, drop_transfer}

abbrev pub max_activity_lines : ℕ
max_activity_lines = 500

-- `activityLine`, its time as a number
pub record Line : Type 0 where
  pub at : ℕ
  pub kind : Text
  pub path : Text
  pub size : ℤ

-- `ipc.ActivityData`, its time as it was sent
pub record Sent : Type 0 where
  pub kind : Text
  pub path : Text
  pub size : ℤ
  pub at : Text

-- `ActivityModel`
pub record Activity : Type 0 where
  pub lines : List Line
  pub transfers : Transfers
  pub offset : ℕ
  pub loaded : Bool

-- `NewActivityModel`
abbrev pub new_activity : Activity
new_activity = record { lines = []; transfers = []; offset = 0; loaded = false }

-- `trim`
abbrev pub trim : List Line → List Line
trim ls =
    if ltb max_activity_lines (length ls) then drop (length ls - max_activity_lines) ls else ls

abbrev pub or_now : ℕ → Option ℕ → ℕ
or_now now none = now
or_now now (some t) = t

abbrev pub line_at : ℕ → Sent → Line
line_at at a = record { at = at; kind = a.kind; path = a.path; size = a.size }

-- The time of a live event, read only where one was sent.
abbrev pub live_at : (Text → Option ℕ) → ℕ → Text → ℕ
live_at parse now at = if is_empty at then now else or_now now (parse at)

abbrev pub key_of : TransferData → Text
key_of t = transfer_key t.up t.path

abbrev pub put_all : List TransferData → Transfers → Transfers
put_all [] ts = ts
put_all (t ∷ more) ts = put_all more (put_transfer (key_of t) t ts)

-- `SetHistory`, of the log's entries and transfers
unfoldable pub set_history :
    (Text → Option ℕ) → ℕ → List Sent → List TransferData → Activity → Activity
unfolding drop_transfer
set_history parse now entries moving m = record m {
  loaded = true;
  lines = trim (map (λ (e : Sent). line_at (or_now now (parse e.at)) e) entries);
  transfers = put_all moving [];
}

-- A view that is scrolled back stays pinned.
abbrev pub pinned : ℕ → ℕ
pinned zero = zero
pinned (suc n) = suc (suc n)

-- `Add`
unfoldable pub add : (Text → Option ℕ) → ℕ → Sent → Activity → Activity
unfolding text_eq
add parse now a m = if text_eq a.kind (codes "skip") then m else record m {
  lines = trim (m.lines ++ line_at (live_at parse now a.at) a ∷ []);
  offset = pinned m.offset;
}

-- The bytes of a transfer that is known; the rest of it, its start included, stays.
abbrev pub refreshed : TransferData → Option TransferData → TransferData
refreshed t none = t
refreshed t (some old) = record old { done = t.done; total = t.total }

-- `UpdateTransfer`
unfoldable pub update_transfer : TransferData → Activity → Activity
unfolding transfer_at drop_transfer
update_transfer t m =
    let key = key_of t in
    if t.finished then record m { transfers = drop_transfer key m.transfers } else record m {
      transfers = put_transfer key (refreshed t (transfer_at key m.transfers)) m.transfers;
    }

-- `ScrollUp`
unfoldable pub scroll_up : ℕ → Activity → Activity
scroll_up n m =
    let top = length m.lines - 1 in
    if ltb top (m.offset + n) then record m { offset = top } else record m { offset = m.offset + n }

-- `ScrollDown`
unfoldable pub scroll_down : ℕ → Activity → Activity
scroll_down n m = record m { offset = m.offset - n }

-- `Clear`
unfoldable pub clear_lines : Activity → Activity
clear_lines m = record m { lines = []; offset = 0 }

length-drop : (n : ℕ) (ls : List Line) → length (drop n ls) ≡ length ls - n
length-drop zero ls = omega arith
length-drop (suc n) [] = omega arith
length-drop (suc n) (l ∷ ls) = omega (arith, length-drop n ls)

-- Whatever is shown, the screen holds at most 500 lines of it.
pub length-trim : (ls : List Line) → length (trim ls) ≤ max_activity_lines
length-trim ls = ground (arith, length-drop (length ls - max_activity_lines) ls)

-- Every event that comes in keeps the bound.
pub add-IsBounded :
    (parse : Text → Option ℕ) (now : ℕ) (a : Sent) (m : Activity)
    → length m.lines ≤ max_activity_lines
    → length (add parse now a m).lines ≤ max_activity_lines
unfolding add
add-IsBounded parse now a m h =
    ground (arith, length-trim (m.lines ++ line_at (live_at parse now a.at) a ∷ []))

-- Scrolling back stops at the oldest line.
pub scroll_up-offset :
    (n : ℕ) (m : Activity) → (scroll_up n m).offset ≤ length (scroll_up n m).lines - 1
unfolding scroll_up
scroll_up-offset n m = ground arith
