-- ===== src/Vmm/Activity.antt =====
-- hostd/src/vmm/activity.rs: requests in flight for each VM. `Instant::now` is an argument.
pub mod Counting
use tikovm.Prelude.{ℕ, ◌+◌, ◌-◌, Option, none, some, Text, Map, get, insert, remove, text_eq}

pub record Activity : Type 0 where
  pub in_flight : ℕ
  pub last_activity : Option ℕ

-- `Activity::default`.
abbrev pub idle : Activity
idle = record { in_flight = 0; last_activity = none }

abbrev pub ActivityTracker : Type 0
ActivityTracker = Map Text Activity

abbrev pub or_idle : Option Activity → Activity
or_idle none = idle
or_idle (some a) = a

-- `entry(..).or_default()`, one more in flight.
unfoldable pub track : ActivityTracker → Text → ℕ → ActivityTracker
track t vm_id now =
    let a = or_idle (get vm_id t) in
    insert vm_id (record { in_flight = a.in_flight + 1; last_activity = some now }) t

-- The drop of an `ActivityGuard`; the subtraction saturates.
unfoldable pub drop_guard : ActivityTracker → Text → ℕ → ActivityTracker
drop_guard t vm_id now = elim (get vm_id t) [
  | none ↦ t
  | some a ↦ insert vm_id (record { in_flight = a.in_flight - 1; last_activity = some now }) t
]

unfoldable pub in_flight : ActivityTracker → Text → ℕ
in_flight t vm_id = (or_idle (get vm_id t)).in_flight

unfoldable pub last_activity : ActivityTracker → Text → Option ℕ
last_activity t vm_id = (or_idle (get vm_id t)).last_activity

unfoldable pub clear : ActivityTracker → Text → ActivityTracker
clear t vm_id = remove vm_id t
