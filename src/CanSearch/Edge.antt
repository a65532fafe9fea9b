-- ===== src/CanSearch/Edge.antt =====
-- How the search of teensy/usb_rawhid/can_search.c answers the front sensors at the table's edge.
use beaverbot.Prelude.{◌-◌, ◌≡◌, refl, ◌⊎◌, true, some, arith, pos, List, ◌∷◌}
use beaverbot.CanSearch.{
  SearchState, st_reverse, st_search_wall, st_drift_on_wall, st_drift_on_wall_hard,
  st_drift_to_center, st_drift_off_wall, st_spin_off_wall, st_push, st_push_left, st_push_right,
  Signal, sig_front_left, sig_front_right, Floats, Search, Output, motors,
}
use beaverbot.CanSearch.Motors.{set_motors_backwards, set_motors_spin_left, set_motors_spin_right}
use beaverbot.CanSearch.Handlers.{is_set}
use beaverbot.CanSearch.Machine.{can_search_signal}
use beaverbot.CanSearch.Calls.{moved, entered, exited}
use beaverbot.CanSearch.Diagram.{next_state, outcome}
use beaverbot.CanSearch.Diagram.Follows.{can_search_signal-outcome}
use beaverbot.CanSearch.Invariant.{IsLive, outcome-IsLive}
use beaverbot.CanSearch.Ticks.{at_rest}
use mathlib.Core.Path.{subst}

-- The states in which the robot drives about on the table.
abbrev pub IsRoaming : SearchState → Type 0
IsRoaming st =
    (st ≡ st_search_wall)
    ⊎ (st ≡ st_drift_off_wall)
    ⊎ (st ≡ st_drift_to_center)
    ⊎ (st ≡ st_spin_off_wall)
    ⊎ (st ≡ st_drift_on_wall)
    ⊎ (st ≡ st_drift_on_wall_hard)

-- Backing off: the reverse state, its timer started, and both motors backwards as the last command.
abbrev pub BacksOff : Search → Type 0
BacksOff u =
    (u.current_state ≡ st_reverse)
    × (u.reverse_time ≡ pos 0)
    × ((rest : List Output) × (u.outputs
          ≡ motors 2 u.base_duty_cycle 2 (u.base_duty_cycle - 80) ∷ rest))

module _ (fl : Floats) where
  open fl use {F}

  backing : (s : Search) → IsLive at_rest s → BacksOff (moved st_reverse s)
  unfolding moved entered exited set_motors_backwards
  backing s h = (refl, refl, ((exited s.current_state s).outputs, ground arith))

  outcome-roaming :
      (g : Signal) (p1 p2 : F) (s : Search)
      → IsRoaming s.current_state
      → (g ≡ sig_front_left) ⊎ (g ≡ sig_front_right)
      → is_set fl p1 ≡ true
      → outcome fl g p1 p2 s ≡ moved st_reverse s
  unfolding outcome next_state
  outcome-roaming g p1 p2 s r o k = ground arith

  -- In a live search in one of the roaming states, the signal that a front sensor is over the edge is
  -- handled to the end, and makes the robot back off.
  pub edge-BacksOff :
      (g : Signal) (p1 p2 : F) (s : Search)
      → IsLive at_rest s
      → IsRoaming s.current_state
      → (g ≡ sig_front_left) ⊎ (g ≡ sig_front_right)
      → is_set fl p1 ≡ true
      → (u : Search) × (can_search_signal fl g p1 p2 s ≡ some u) × BacksOff u
  edge-BacksOff g p1 p2 s h r o k =
      let e = can_search_signal-outcome fl g p1 p2 s h.not_super (ground arith, ground arith) in
      (moved st_reverse s, rw (outcome-roaming g p1 p2 s r o k) at e, backing s h)

  -- The two ways that the front sensors pass the edge one after the other, with the state between.
  abbrev pub BothFront : Signal → Signal → SearchState → Type 0
  BothFront g g' mid =
      ((g ≡ sig_front_left) × (g' ≡ sig_front_right) × (mid ≡ st_push_right))
      ⊎ ((g ≡ sig_front_right) × (g' ≡ sig_front_left) × (mid ≡ st_push_left))

  outcome-push_first :
      (g g' : Signal) (mid : SearchState) (p1 p2 : F) (s : Search)
      → s.current_state ≡ st_push
      → BothFront g g' mid
      → is_set fl p1 ≡ true
      → outcome fl g p1 p2 s ≡ moved mid s
  unfolding outcome next_state
  outcome-push_first g g' mid p1 p2 s e b k = ground arith

  outcome-push_second :
      (g g' : Signal) (mid : SearchState) (p1 p2 : F) (s : Search)
      → s.current_state ≡ mid
      → BothFront g g' mid
      → is_set fl p1 ≡ true
      → outcome fl g' p1 p2 s ≡ moved st_reverse s
  unfolding outcome next_state
  outcome-push_second g g' mid p1 p2 s e b k = ground arith

  moved-state :
      (g g' : Signal) (mid : SearchState) (s : Search)
      → BothFront g g' mid
      → (moved mid s).current_state ≡ mid
  unfolding moved entered set_motors_spin_left set_motors_spin_right
  moved-state g g' mid s b = ground arith

  -- The turn towards the side of the sensor: one motor forwards and the other backwards, slowly.
  abbrev pub turn : Signal → Output
  turn sig_front_left = motors 1 60 2 60
  turn _ = motors 2 60 1 60

  moved-turn :
      (g g' : Signal) (mid : SearchState) (s : Search)
      → IsLive at_rest s
      → s.current_state ≡ st_push
      → BothFront g g' mid
      → (moved mid s).outputs ≡ turn g ∷ s.outputs
  unfolding moved entered exited set_motors_spin_left set_motors_spin_right
  moved-turn g g' mid s h e b = ground arith

  -- In a live search that pushes, the signal that a front sensor is over the edge is handled to the
  -- end and leads to the turn for that side, with the command to turn there, one motor forwards and the
  -- other backwards at speed 60, as the only output; and the same signal of the other front sensor then
  -- is, and makes the robot back off, in whichever order the two come.
  pub push_edge-BacksOff :
      (g g' : Signal) (mid : SearchState) (p1 p2 q1 q2 : F) (s : Search)
      → IsLive at_rest s
      → s.current_state ≡ st_push
      → BothFront g g' mid
      → is_set fl p1 ≡ true
      → is_set fl q1 ≡ true
      → (t u : Search) × (can_search_signal fl g p1 p2 s ≡ some t)
        × (t.current_state ≡ mid)
        × (t.outputs ≡ turn g ∷ s.outputs)
        × (can_search_signal fl g' q1 q2 t ≡ some u)
        × BacksOff u
  push_edge-BacksOff g g' mid p1 p2 q1 q2 s h e b k k' =
      let first = can_search_signal-outcome fl g p1 p2 s h.not_super (ground arith, ground arith) in
      let t = moved mid s in
      let live =
        subst (IsLive at_rest) (outcome-push_first g g' mid p1 p2 s e b k)
          (outcome-IsLive fl at_rest g p1 p2 s h) in
      let second =
        can_search_signal-outcome fl g' q1 q2 t live.not_super (ground arith, ground arith) in
      (
        t,
        moved st_reverse t,
        rw (outcome-push_first g g' mid p1 p2 s e b k) at first,
        moved-state g g' mid s b,
        moved-turn g g' mid s h e b,
        rw (outcome-push_second g g' mid q1 q2 t (moved-state g g' mid s b) b k') at second,
        backing t live,
      )
