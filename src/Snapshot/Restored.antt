-- ===== src/Snapshot/Restored.antt =====
-- machine.go, Export and Import: what is exported is restored.
use asyncmachine_go.Base.{
  ℕ, ◌+◌, ◌%◌, ◌^◌, ◌≡◌, refl, ap, Bool, true, false, not, ◌&&◌, ◌||◌, [], ◌∷◌, ◌++◌, String, some,
  contains, if◌then◌else◌, string_eq, ◌==◌, arith, Bool-cases, inl, inr, length, put, lookup-put,
  IsSubset, IsDistinct, contains-append, contains_self, contains-tail, eq_of_beq, ◌⊎◌, nat_beq_iff,
}
use asyncmachine_go.Slices.{slices_every}
use asyncmachine_go.Schema.{States, Schema}
use asyncmachine_go.Machine.{Clock, is_active_tick, time_of, time_all, tick_of}
use asyncmachine_go.Machine.Checks.{has}
use asyncmachine_go.Machine.Invariant.{IsWellFormed}
use asyncmachine_go.Snapshot.{
  Instance, Serialized, Imported, export, import_from, restore_from, restore_state, on_done,
}

tick_of-put :
    (clock : Clock) (name other : String) (v : ℕ)
    → tick_of (put name v clock) other ≡ (if name == other then v else tick_of clock other)
tick_of-put clock name other v = ground (arith, lookup-put name other v clock)

active_after :
    (active : States) (state s : String) (on : Bool)
    → contains (if on then active ++ (state ∷ []) else active) s
      ≡ (contains active s || ((state == s) && on))
unfolding contains
active_after active state s true = ground (arith, contains-append active (state ∷ []) s)
active_after active state s false = ground arith

-- What the loop restores: the ticks of the names, and which of them are active.
record IsRestored (source : Clock) (names : States) (i j : Instance) : Type 0 where
  ticks :
      (s : String)
      → tick_of j.machine.clock s
        ≡ (if contains names s then tick_of source s else tick_of i.machine.clock s)
  active :
      (s : String)
      → contains j.machine.active_states s ≡ (
          contains i.machine.active_states s
          || (contains names s && is_active_tick (tick_of source s)))

IsRestored-state :
    (source : Clock) (state : String) (names : States) (i j : Instance)
    → contains names state ≡ false
    → IsRestored source names
        (record i { machine = restore_state state (tick_of source state) i.machine })
        j
    → IsRestored source (state ∷ names) i j
unfolding contains
IsRestored-state source state names i j once rest = record {
  ticks = λ s. elim (Bool-cases (state == s)) [
    | inl same ↦
        let e = eq_of_beq state s same in
        ground (
          arith,
          rest.ticks s,
          tick_of-put i.machine.clock state s (tick_of source state),
          ap (tick_of source) e,
          ap (contains names) e,
          once,
        )
    | inr other ↦
        ground (arith, rest.ticks s, tick_of-put i.machine.clock state s (tick_of source state))
  ];
  active = λ s.
      let here =
        active_after i.machine.active_states state s (is_active_tick (tick_of source state)) in
      elim (Bool-cases (state == s)) [
        | inl same ↦
            let e = eq_of_beq state s same in
            ground (
              arith,
              rest.active s,
              here,
              ap (λ x. is_active_tick (tick_of source x)) e,
              ap (contains names) e,
              once,
            )
        | inr other ↦ ground (arith, rest.active s, here)
      ];
}

restore_from-IsRestored :
    (source : Clock) (names : States) (i : Instance)
    → IsDistinct names
    → IsSubset names i.machine.state_names
    → (j : Instance) × (restore_from names (time_of names source) i ≡ Imported.done j)
      × IsRestored source names i j
      × (j.machine.disposing ≡ i.machine.disposing)
unfolding restore_from time_of contains
restore_from-IsRestored source [] i d known =
    (i, refl, record { ticks = λ s. refl; active = λ s. ground arith }, refl)
restore_from-IsRestored source (state ∷ names) i d known =
    let next = record i { machine = restore_state state (tick_of source state) i.machine } in
    let (j, e, restored, life) =
      restore_from-IsRestored source names next d.1
        λ s m. known s (contains-tail state s names m) in
    let here : contains i.machine.state_names state ≡ true =
      known state (contains_self state names) in
    (j, ground (arith, here, e), IsRestored-state source state names i j d.0 restored, life)

time_of-IsRestored :
    (source clock : Clock) (names : States)
    → ((s : String) → contains names s ≡ true → tick_of clock s ≡ tick_of source s)
    → time_of names clock ≡ time_of names source
unfolding time_of
time_of-IsRestored source clock [] same = refl
time_of-IsRestored source clock (s ∷ names) same = ground (
  arith,
  same s (contains_self s names),
  time_of-IsRestored source clock names λ x m. same x (contains-tail s x names m),
)

-- A machine that imports what a well formed machine has exported, with the same ID, as many states
-- and all its names, then has its time and its active states, its list of names and the next machine
-- tick, whatever its own clocks were. The state MachineRestored is not defined, or Add1 refuses it.
pub import_from-export :
    (refused : Bool) (a b : Instance) (data_in : Serialized) (schema : Schema)
    → IsWellFormed a.machine
    → export a ≡ some (data_in, schema)
    → b.id ≡ a.id
    → length b.machine.schema ≡ length a.machine.state_names
    → IsSubset a.machine.state_names b.machine.state_names
    → (contains a.machine.state_names "MachineRestored" ≡ false) ⊎ (refused ≡ true)
    → (c : Instance) × (import_from refused data_in b ≡ Imported.done c)
      × (c.machine.state_names ≡ a.machine.state_names)
      × (time_all c.machine ≡ time_all a.machine)
      × ((s : String) → contains c.machine.active_states s ≡ contains a.machine.active_states s)
      × (c.machine_tick ≡ (a.machine_tick + 1) % 2 ^ 32)
unfolding export import_from time_all on_done has slices_every
import_from-export refused a b data_in schema w h id long known silent =
    let start = record b { machine = record b.machine { active_states = [] } } in
    let (j, e, restored, life) =
      restore_from-IsRestored a.machine.clock a.machine.state_names start w.names_once known in
    let names : data_in.state_names ≡ a.machine.state_names = ground (arith, h) in
    let times : data_in.time ≡ time_of a.machine.state_names a.machine.clock = ground (arith, h) in
    let c = record j {
      machine = record j.machine { state_names = data_in.state_names };
      states_verified = true;
      machine_tick = (data_in.machine_tick + 1) % 2 ^ 32;
    } in
    let same_id : data_in.id ≡ a.id = ground (arith, h) in
    let loop : restore_from data_in.state_names data_in.time start ≡ Imported.done j =
      rw (names, times) e in
    let quiet : has c.machine ("MachineRestored" ∷ []) && not refused ≡ false = elim silent [
      | inl out ↦
          unfold contains in
          ground (arith, names, ap (λ x. contains x "MachineRestored") names, out)
      | inr off ↦ ground (arith, off)
    ] in
    let finished : import_from refused data_in b ≡ Imported.done c = ground (
      arith,
      loop,
      quiet,
      id,
      same_id,
      string_eq.beq_iff b.id data_in.id,
      long,
      ap length names,
      nat_beq_iff (length b.machine.schema) (length data_in.state_names),
    ) in
    (
      c,
      finished,
      names,
      rw names (
          time_of-IsRestored a.machine.clock j.machine.clock a.machine.state_names
            λ s m. ground (arith, restored.ticks s)),
      λ s. unfold contains in ground (arith, restored.active s, w.active_odd s, w.known s),
      ground (arith, h),
    )
