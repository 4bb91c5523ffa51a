-- ===== src/Vmm/VmState.antt =====
-- `VmState` of hostd/src/vmm/vm.rs, with the table of its valid transitions.
use tikovm.Prelude.{Bool, true, false}

pub data VmState : Type 0 where
  creating starting pausing resuming suspending restoring destroying : VmState
  created started paused suspended destroyed : VmState

-- The arms of the `matches!`.
unfoldable pub can_transition_to : VmState → VmState → Bool
can_transition_to creating created = true
can_transition_to starting created = true
can_transition_to creating destroyed = true
can_transition_to destroying destroyed = true
can_transition_to created starting = true
can_transition_to created destroying = true
can_transition_to starting started = true
can_transition_to pausing started = true
can_transition_to resuming started = true
can_transition_to suspending started = true
can_transition_to restoring started = true
can_transition_to started pausing = true
can_transition_to started suspending = true
can_transition_to started destroying = true
can_transition_to pausing paused = true
can_transition_to resuming paused = true
can_transition_to paused resuming = true
can_transition_to paused suspending = true
can_transition_to paused destroying = true
can_transition_to suspending suspended = true
can_transition_to restoring suspended = true
can_transition_to suspended restoring = true
can_transition_to suspended destroying = true
can_transition_to _ _ = false

-- A state that an operation in progress stands in.
abbrev pub is_transitional : VmState → Bool
is_transitional creating = true
is_transitional starting = true
is_transitional pausing = true
is_transitional resuming = true
is_transitional suspending = true
is_transitional restoring = true
is_transitional destroying = true
is_transitional _ = false
