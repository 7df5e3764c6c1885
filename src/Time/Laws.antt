-- ===== src/Time/Laws.antt =====
-- mach_misc.go: what times promise, by themselves and as times of a machine.
use asyncmachine_go.Base.{
  ℕ, zero, suc, ◌+◌, ◌^◌, ◌<◌, ◌≡◌, ◌↔◌, refl, sym, ap, true, false, [], ◌∷◌, String, some,
  string_eq, length, nat_beq, nat_beq_iff, arith, All, IsSubset, get_elem?, position_of_contains,
  contains_self, contains-tail,
}
use asyncmachine_go.Text.{trim_space}
use asyncmachine_go.Schema.{States}
use asyncmachine_go.StateList.{states_to_index}
use asyncmachine_go.StateList.Indexes.{index_of_position}
use asyncmachine_go.Machine.{Machine, Time, Clock, is_active_tick, u64, time_of, time_all, tick_of}
use asyncmachine_go.Machine.Checks
use asyncmachine_go.Machine.Checks.{all_active}
use asyncmachine_go.Machine.Invariant.{IsWellFormed}
use asyncmachine_go.Time

length-sub_ticks :
    (t before : Time) → length t ≡ length before → length (Time.sub_ticks t before) ≡ length before
unfolding Time.sub_ticks
length-sub_ticks [] before same = same
length-sub_ticks (x ∷ t) [] same = refl
length-sub_ticks (x ∷ t) (y ∷ before) same = ap suc (length-sub_ticks t before (ground (arith)))

add_ticks-sub_ticks :
    (t before : Time)
    → length t ≡ length before
    → All (λ n. n < 2 ^ 64) t
    → All (λ n. n < 2 ^ 64) before
    → Time.add_ticks before (Time.sub_ticks t before) ≡ t
unfolding Time.add_ticks Time.sub_ticks
add_ticks-sub_ticks [] [] same small small' = refl
add_ticks-sub_ticks [] (y ∷ before) same small small' = absurd (ground (arith))
add_ticks-sub_ticks (x ∷ t) [] same small small' = absurd (ground (arith))
add_ticks-sub_ticks (x ∷ t) (y ∷ before) same small small' =
    rw (back x y small.0 small'.0, add_ticks-sub_ticks t before (ground (arith)) small.1 small'.1)
      refl
  where
    back : (x y : ℕ) → x < 2 ^ 64 → y < 2 ^ 64 → u64 (y + Time.sub_u64 x y) ≡ x
    back x y h k = omega arith

nat_beq-same : (a b : ℕ) → a ≡ b → nat_beq a b ≡ true
nat_beq-same a b e = (nat_beq_iff a b).1 e

-- Add undoes DiffSince, on times of one length, also where the differences wrap around.
pub add-diff_since :
    (t before : Time)
    → length t ≡ length before
    → All (λ n. n < 2 ^ 64) t
    → All (λ n. n < 2 ^ 64) before
    → Time.add before (Time.diff_since t before) ≡ t
unfolding Time.add Time.diff_since
add-diff_since t before same small small' =
    let sizes = nat_beq-same (length t) (length before) same in
    let sizes' =
      nat_beq-same (length before) (length (Time.sub_ticks t before))
        (sym (length-sub_ticks t before same)) in
    rw (sizes, sizes') (add_ticks-sub_ticks t before same small small')

-- The next active tick is active and later than the tick, and no tick between the two is a start of
-- activity: none of them is active unless it is the tick itself.
pub next_active_lem :
    (t : ℕ)
    → t + 2 < 2 ^ 64
    → (is_active_tick (Time.next_active t) ≡ true)
      × (t < Time.next_active t)
      × ((u : ℕ) → t < u → u < Time.next_active t → is_active_tick u ≡ false)
unfolding Time.next_active
next_active_lem t room = (ground arith, ground arith, λ u lo hi. ground arith)

equal_ticks-after :
    (t time2 : Time)
    → length t ≡ length time2
    → (Time.equal_ticks t time2 ≡ some true)
      ↔ ((Time.after true t time2 ≡ true) × (Time.after true time2 t ≡ true))
unfolding Time.equal_ticks Time.after
equal_ticks-after [] [] same = ground (arith)
equal_ticks-after [] (y ∷ time2) same = absurd (ground (arith))
equal_ticks-after (x ∷ t) [] same = absurd (ground (arith))
equal_ticks-after (x ∷ t) (y ∷ time2) same =
    ground (arith, equal_ticks-after t time2 (ground (arith)))

-- Two times of one length are equal exactly if each is after the other or equal to it.
pub after-both :
    (t time2 : Time)
    → length t ≡ length time2
    → (Time.equal true t time2 ≡ some true)
      ↔ ((Time.after true t time2 ≡ true) × (Time.after true time2 t ≡ true))
unfolding Time.equal
after-both t time2 same =
    rw (nat_beq-same (length t) (length time2) same) (equal_ticks-after t time2 same)

get_elem?-time_of :
    (names : States) (s : String) (i : ℕ) (clock : Clock)
    → get_elem? names i ≡ some s
    → get_elem? (time_of names clock) i ≡ some (tick_of clock s)
unfolding time_of
get_elem?-time_of [] s i clock h = absurd (ground (arith))
get_elem?-time_of (n ∷ names) s zero clock h = ground (arith)
get_elem?-time_of (n ∷ names) s (suc i) clock h = get_elem?-time_of names s i clock h

all_active_at-time_all :
    (m : Machine) (states : States)
    → IsWellFormed m
    → IsSubset states m.state_names
    → All (λ s. trim_space s ≡ s) states
    → Time.all_active_at (time_all m) (states_to_index m.state_names states)
      ≡ some (all_active m.state_names m.active_states states)
unfolding Time.all_active_at states_to_index all_active time_all
all_active_at-time_all m [] w known plain = refl
all_active_at-time_all m (s ∷ states) w known plain =
    let (i, found, _, here) =
      position_of_contains m.state_names s (known s (contains_self s states)) in
    let at_i = get_elem?-time_of m.state_names s i m.clock here in
    let rest =
      all_active_at-time_all m states w (λ a h. known a (contains-tail s a states h)) plain.1 in
    rw
      (
        plain.0,
        index_of_position m.state_names s i found,
        at_i,
        known s (contains_self s states),
        w.active_odd s,
      )
      (ground (arith, rest))

-- On the time of a well formed machine, for at least one state, all of them known and without spaces
-- at their ends, Time.Is of the indexes of the states answers what the machine's Is answers.
pub is-time_all :
    (m : Machine) (s : String) (states : States)
    → m.disposing ≡ false
    → IsWellFormed m
    → IsSubset (s ∷ states) m.state_names
    → All (λ x. trim_space x ≡ x) (s ∷ states)
    → Time.is (time_all m) (states_to_index m.state_names (s ∷ states))
      ≡ some (Checks.is m (s ∷ states))
unfolding Time.is Checks.is states_to_index time_all
is-time_all m s states live w known plain =
    rw live (all_active_at-time_all m (s ∷ states) w known plain)
