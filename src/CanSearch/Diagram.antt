-- ===== src/CanSearch/Diagram.antt =====
-- The state diagram of the search, written down apart from the code: which state a signal leads
-- to, and what a signal does that leads nowhere. `Follows` checks it against
-- teensy/usb_rawhid/can_search.c.
pub mod Follows
use beaverbot.Prelude.{
  ℕ, zero, suc, ◌/◌, ◌≡◌, refl, ◌≢◌, Bool, true, false, Option, none, some, arith, if◌then◌else◌,
  pos, is_nonzero,
}
use mathlib.Core.Path.{fun_ext}
use beaverbot.CanSearch.{
  SearchState, st_init, st_search_wall, st_drift_off_wall, st_drift_to_center, st_spin_off_wall,
  st_drift_on_wall, st_drift_on_wall_hard, st_push, st_push_left, st_push_right, st_reverse,
  st_search_scramble, st_super_spin, Signal, sig_entry, sig_exit, sig_user, sig_can_spotted,
  sig_front_left, sig_front_right, sig_back_left, sig_back_right, sig_boom_front, sig_boom_back,
  sig_search_timeout, sig_scramble_timeout, sig_reverse_timeout, sig_drift_on_timeout,
  sig_drift_on_hard_timeout, sig_drift_center_timeout, Floats, Search,
}
use beaverbot.CanSearch.Motors.{
  set_motors_from_can_pos, set_motors_forwards, set_motors_forwards_slow, set_motors_forwards_right,
  set_motors_spin_right, set_motors_spin_left,
}
use beaverbot.CanSearch.Handlers.{
  is_set, in_push_window, search_wall, drift_off_wall, drift_to_center, spin_off_wall,
  drift_on_wall, drift_on_wall_hard, push, push_left, push_right, reverse, search_scramble,
}
use beaverbot.CanSearch.Machine.{dispatch, note_boom, signal_at, can_search_signal, transition_by}
use beaverbot.CanSearch.Calls.{exited, entered, moved, transition_by-moved_any}

-- On the table's surface a front sensor over the edge reverses.
abbrev pub edge_move : Signal → Bool → Option SearchState
edge_move sig_front_left true = some st_reverse
edge_move sig_front_right true = some st_reverse
edge_move _ on = none

-- Beside that, the booms tell of the wall: the front one makes the robot drift off it, the back
-- one spin off it.
abbrev pub wall_move : Signal → Bool → Option SearchState
wall_move sig_boom_front true = some st_drift_off_wall
wall_move sig_boom_back true = some st_spin_off_wall
wall_move g on = edge_move g on

abbrev pub next_searching : Signal → (on near : Bool) → Option SearchState
next_searching sig_can_spotted on near = if near then some st_push else none
next_searching sig_search_timeout on near = some st_search_scramble
next_searching g on near = wall_move g on

abbrev pub next_off_wall : Signal → Bool → Option SearchState
next_off_wall sig_can_spotted on = some st_search_wall
next_off_wall sig_boom_front on = if on then none else some st_drift_to_center
next_off_wall g on = wall_move g on

abbrev pub next_to_center : Signal → Bool → Option SearchState
next_to_center sig_can_spotted on = some st_search_wall
next_to_center sig_drift_center_timeout on = some st_drift_on_wall
next_to_center g on = wall_move g on

abbrev pub next_on_wall : Signal → Bool → Option SearchState
next_on_wall sig_can_spotted on = some st_search_wall
next_on_wall sig_drift_on_timeout on = some st_drift_on_wall_hard
next_on_wall g on = wall_move g on

abbrev pub next_on_wall_hard : Signal → Bool → Option SearchState
next_on_wall_hard sig_can_spotted on = some st_search_wall
next_on_wall_hard sig_drift_on_hard_timeout on = some st_search_wall
next_on_wall_hard g on = wall_move g on

abbrev pub next_spin_off : Signal → Bool → Option SearchState
next_spin_off sig_boom_front on = if on then none else some st_drift_to_center
next_spin_off g on = edge_move g on

abbrev pub next_push : Signal → Bool → Option SearchState
next_push sig_front_left true = some st_push_right
next_push sig_front_right true = some st_push_left
next_push _ on = none

abbrev pub next_push_left : Signal → Bool → Option SearchState
next_push_left sig_front_left true = some st_reverse
next_push_left _ on = none

abbrev pub next_push_right : Signal → Bool → Option SearchState
next_push_right sig_front_right true = some st_reverse
next_push_right _ on = none

abbrev pub next_reverse : Signal → Bool → Option SearchState
next_reverse sig_reverse_timeout on = some st_drift_on_wall
next_reverse sig_back_left true = some st_drift_on_wall
next_reverse sig_back_right true = some st_drift_on_wall
next_reverse _ on = none

abbrev pub next_scramble : Signal → Option SearchState
next_scramble sig_scramble_timeout = some st_search_wall
next_scramble sig_can_spotted = some st_search_wall
next_scramble _ = none

-- `on` says whether the signal's first parameter is set, `near` whether the can is straight ahead
-- and close. Entry and exit, and the states that are never entered, have no edge here.
unfoldable pub next_state : SearchState → Signal → (on near : Bool) → Option SearchState
next_state st_init g on near = next_searching g on near
next_state st_search_wall g on near = next_searching g on near
next_state st_drift_off_wall g on near = next_off_wall g on
next_state st_drift_to_center g on near = next_to_center g on
next_state st_spin_off_wall g on near = next_spin_off g on
next_state st_drift_on_wall g on near = next_on_wall g on
next_state st_drift_on_wall_hard g on near = next_on_wall_hard g on
next_state st_push g on near = next_push g on
next_state st_push_left g on near = next_push_left g on
next_state st_push_right g on near = next_push_right g on
next_state st_reverse g on near = next_reverse g on
next_state st_search_scramble g on near = next_scramble g
next_state st_super_spin g on near = none

module _ (fl : Floats) where
  open fl use {F}

  -- Towards the can, slower while the back boom is off the table.
  unfoldable pub steer : F → Search → Search
  steer p1 s =
      let base =
        if is_nonzero s.current_boom_back then s.base_duty_cycle / 2 else s.base_duty_cycle in
      record (set_motors_from_can_pos fl p1 base s) { search_time = pos 0 }

  -- What a signal does when it leads nowhere.
  unfoldable pub stay : SearchState → Signal → F → Bool → Search → Search
  stay st_init sig_can_spotted p1 on s = steer p1 s
  stay st_search_wall sig_can_spotted p1 on s = steer p1 s
  stay st_spin_off_wall sig_boom_back p1 on s = if on then s else set_motors_forwards_right s
  stay st_push sig_boom_front p1 on s = if on then set_motors_forwards_slow s else s
  stay st_push sig_boom_back p1 on s = if on then set_motors_forwards_slow s else s
  stay st_push_left sig_front_right p1 on s =
      if on then set_motors_spin_right s else set_motors_forwards s
  stay st_push_right sig_front_left p1 on s =
      if on then set_motors_spin_left s else set_motors_forwards s
  stay _ g p1 on s = s

  -- A signal's whole result, from outside.
  unfoldable pub outcome : Signal → F → F → Search → Search
  outcome g p1 p2 s = elim (next_state s.current_state g (is_set fl p1) (in_push_window fl p1 p2)) [
    | none ↦ stay s.current_state g p1 (is_set fl p1) (note_boom fl g p1 s)
    | some n ↦ moved n (note_boom fl g p1 s)
  ]
