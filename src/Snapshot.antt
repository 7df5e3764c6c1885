-- ===== src/Snapshot.antt =====
-- pkg/machine/machine.go: Export and Import of a machine's time.
pub mod Restored
use asyncmachine_go.Base.{
  ℕ, ◌+◌, ◌%◌, ◌^◌, Bool, true, false, not, ◌&&◌, ◌||◌, List, [], ◌∷◌, ◌++◌, String, Option, none,
  some, contains, if◌then◌else◌, string_eq, ◌==◌, length, nat_beq, put,
}
use asyncmachine_go.Schema.{States, Schema, clone_schema}
use asyncmachine_go.Machine.{Machine, Time, is_active_tick, time_all}
use asyncmachine_go.Machine.Checks.{has}

-- A machine with its ID, machineTick, statesVerified and queueTick.
pub record Instance : Type 0 where
  pub machine : Machine
  pub id : String
  pub machine_tick : ℕ
  pub states_verified : Bool
  pub queue_tick : ℕ

-- Serialized
pub record Serialized : Type 0 where
  pub id : String
  pub state_names : States
  pub time : Time
  pub queue_tick : ℕ
  pub machine_tick : ℕ

-- Export. Its error is none.
unfoldable pub export : Instance → Option (Serialized × Schema)
export i =
    if not i.states_verified
    then none
    else some (
      record {
        id = i.id;
        state_names = i.machine.state_names;
        time = time_all i.machine;
        queue_tick = i.queue_tick;
        machine_tick = i.machine_tick;
      },
      clone_schema i.machine.schema,
    )

-- How Import ends. An error leaves what was restored so far, and `blocked` is the call of Add1, which
-- waits for the locks that Import holds.
pub data Imported : Type 0 where
  panicked : Imported
  failed blocked done : Instance → Imported

-- One turn of the loop.
abbrev pub restore_state : String → ℕ → Machine → Machine
restore_state state v m = record m {
  active_states = if is_active_tick v then m.active_states ++ (state ∷ []) else m.active_states;
  clock = put state v m.clock;
}

-- The loop over the time. A time that is longer than the list of names panics.
unfoldable pub restore_from : States → Time → Instance → Imported
restore_from names [] i = Imported.done i
restore_from [] (v ∷ t) i = Imported.panicked
restore_from (state ∷ names) (v ∷ t) i = elim (contains i.machine.state_names state) [
  | false ↦ Imported.failed i
  | true ↦ restore_from names t (record i { machine = restore_state state v i.machine })
]

-- The end of Import. `refused` says that Add1 returns at its guards (Backoff or a full queue).
abbrev pub finish_import : Bool → Serialized → Instance → Imported
finish_import refused data_in i =
    let i' = record i {
      machine = record i.machine { state_names = data_in.state_names };
      states_verified = true;
      machine_tick = (data_in.machine_tick + 1) % 2 ^ 32;
    } in
    if has i'.machine ("MachineRestored" ∷ []) && not refused
    then Imported.blocked i'
    else Imported.done i'

unfoldable pub on_done : (Instance → Imported) → Imported → Imported
on_done f Imported.panicked = Imported.panicked
on_done f (Imported.failed i) = Imported.failed i
on_done f (Imported.blocked i) = Imported.blocked i
on_done f (Imported.done i) = f i

-- Import
unfoldable pub import_from : Bool → Serialized → Instance → Imported
import_from refused data_in i =
    if not (i.id == data_in.id)
    then Imported.failed i
    else if not (nat_beq (length i.machine.schema) (length data_in.state_names))
    then Imported.failed i
    else on_done (finish_import refused data_in) (
        restore_from data_in.state_names data_in.time
          (record i { machine = record i.machine { active_states = [] } }))
