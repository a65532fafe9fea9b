-- ===== src/CanSearch/Handlers.antt =====
-- The handler of each state of teensy/usb_rawhid/can_search.c. Handlers and `transition` call
-- `can_search_signal` again; here they take the transition as an argument.
use beaverbot.Prelude.{
  ◌/◌, Bool, true, false, not, ◌&&◌, Option, some, if◌then◌else◌, pos, is_nonzero,
}
use beaverbot.CanSearch.{
  SearchState, st_search_wall, st_drift_off_wall, st_drift_to_center, st_spin_off_wall,
  st_drift_on_wall, st_drift_on_wall_hard, st_push, st_push_left, st_push_right, st_reverse,
  st_search_scramble, Signal, sig_entry, sig_exit, sig_can_spotted, sig_front_left, sig_front_right,
  sig_back_left, sig_back_right, sig_boom_front, sig_boom_back, sig_search_timeout,
  sig_scramble_timeout, sig_reverse_timeout, sig_drift_on_timeout, sig_drift_on_hard_timeout,
  sig_drift_center_timeout, Floats, delay_ms, Search, spin_super_timeout, stopped,
}
use beaverbot.CanSearch.Motors.{
  set_motors_from_can_pos, set_motors_forwards, set_motors_forwards_slow,
  set_motors_forwards_left_hardish, set_motors_forwards_left_hard, set_motors_forwards_right,
  set_motors_backwards, set_motors_spin_right, set_motors_spin_left, set_motors_spin_super,
}
use mathlib.Core.List.{◌∷◌}

module _ (fl : Floats) where
  open fl use {F, rat, ltf, to_int}

  -- `(int)p` as a condition.
  abbrev pub is_set : F → Bool
  is_set p = is_nonzero (to_int p)

  abbrev pub in_push_window : F → F → Bool
  in_push_window p1 p2 = ltf (rat 35 100) p1 && (ltf p1 (rat 65 100) && ltf (rat 65 100) p2)

module _ (fl : Floats) (transition : SearchState → Search → Option Search) where
  open fl use {F}

  -- `if ((int)p) transition(new_state);`
  abbrev pub go_if : Bool → SearchState → Search → Option Search
  go_if b new_state s = elim b [ true ↦ transition new_state s | false ↦ some s ]

  unfoldable pub search_wall : Signal → F → F → Search → Option Search
  search_wall sig_entry p1 p2 s =
      some (record (set_motors_forwards_right s) { search_time = pos 0 })
  search_wall sig_exit p1 p2 s = some (record s { search_time = stopped })
  search_wall sig_can_spotted p1 p2 s = elim (in_push_window fl p1 p2) [
    | true ↦ transition st_push s
    | false ↦
        let t =
          set_motors_from_can_pos fl p1
            (if is_nonzero s.current_boom_back then s.base_duty_cycle / 2 else s.base_duty_cycle)
            s in
        some (record t { search_time = pos 0 })
  ]
  search_wall sig_front_left p1 p2 s = go_if (is_set fl p1) st_reverse s
  search_wall sig_front_right p1 p2 s = go_if (is_set fl p1) st_reverse s
  search_wall sig_boom_front p1 p2 s = go_if (is_set fl p1) st_drift_off_wall s
  search_wall sig_boom_back p1 p2 s = go_if (is_set fl p1) st_spin_off_wall s
  search_wall sig_search_timeout p1 p2 s = transition st_search_scramble s
  search_wall _ p1 p2 s = some s

  unfoldable pub drift_off_wall : Signal → F → F → Search → Option Search
  drift_off_wall sig_entry p1 p2 s = some (set_motors_forwards_right s)
  drift_off_wall sig_can_spotted p1 p2 s = transition st_search_wall s
  drift_off_wall sig_front_left p1 p2 s = go_if (is_set fl p1) st_reverse s
  drift_off_wall sig_front_right p1 p2 s = go_if (is_set fl p1) st_reverse s
  drift_off_wall sig_boom_front p1 p2 s = go_if (not (is_set fl p1)) st_drift_to_center s
  drift_off_wall sig_boom_back p1 p2 s = go_if (is_set fl p1) st_spin_off_wall s
  drift_off_wall _ p1 p2 s = some s

  unfoldable pub drift_to_center : Signal → F → F → Search → Option Search
  drift_to_center sig_entry p1 p2 s =
      some (set_motors_forwards_right (record s { driftcenter_time = pos 0 }))
  drift_to_center sig_can_spotted p1 p2 s = transition st_search_wall s
  drift_to_center sig_front_left p1 p2 s = go_if (is_set fl p1) st_reverse s
  drift_to_center sig_front_right p1 p2 s = go_if (is_set fl p1) st_reverse s
  drift_to_center sig_boom_front p1 p2 s = go_if (is_set fl p1) st_drift_off_wall s
  drift_to_center sig_boom_back p1 p2 s = go_if (is_set fl p1) st_spin_off_wall s
  drift_to_center sig_drift_center_timeout p1 p2 s = transition st_drift_on_wall s
  drift_to_center _ p1 p2 s = some s

  unfoldable pub drift_on_wall : Signal → F → F → Search → Option Search
  drift_on_wall sig_entry p1 p2 s =
      some (set_motors_forwards_left_hardish (record s { drifton_time = pos 0 }))
  drift_on_wall sig_can_spotted p1 p2 s = transition st_search_wall s
  drift_on_wall sig_front_left p1 p2 s = go_if (is_set fl p1) st_reverse s
  drift_on_wall sig_front_right p1 p2 s = go_if (is_set fl p1) st_reverse s
  drift_on_wall sig_boom_front p1 p2 s = go_if (is_set fl p1) st_drift_off_wall s
  drift_on_wall sig_boom_back p1 p2 s = go_if (is_set fl p1) st_spin_off_wall s
  drift_on_wall sig_drift_on_timeout p1 p2 s = transition st_drift_on_wall_hard s
  drift_on_wall _ p1 p2 s = some s

  unfoldable pub drift_on_wall_hard : Signal → F → F → Search → Option Search
  drift_on_wall_hard sig_entry p1 p2 s =
      some (set_motors_forwards_left_hard (record s { driftonhard_time = pos 0 }))
  drift_on_wall_hard sig_can_spotted p1 p2 s = transition st_search_wall s
  drift_on_wall_hard sig_front_left p1 p2 s = go_if (is_set fl p1) st_reverse s
  drift_on_wall_hard sig_front_right p1 p2 s = go_if (is_set fl p1) st_reverse s
  drift_on_wall_hard sig_boom_front p1 p2 s = go_if (is_set fl p1) st_drift_off_wall s
  drift_on_wall_hard sig_boom_back p1 p2 s = go_if (is_set fl p1) st_spin_off_wall s
  drift_on_wall_hard sig_drift_on_hard_timeout p1 p2 s = transition st_search_wall s
  drift_on_wall_hard _ p1 p2 s = some s

  unfoldable pub spin_off_wall : Signal → F → F → Search → Option Search
  spin_off_wall sig_entry p1 p2 s = some (set_motors_spin_right s)
  spin_off_wall sig_front_left p1 p2 s = go_if (is_set fl p1) st_reverse s
  spin_off_wall sig_front_right p1 p2 s = go_if (is_set fl p1) st_reverse s
  spin_off_wall sig_boom_front p1 p2 s = go_if (not (is_set fl p1)) st_drift_to_center s
  spin_off_wall sig_boom_back p1 p2 s =
      some (if not (is_set fl p1) then set_motors_forwards_right s else s)
  spin_off_wall _ p1 p2 s = some s

  unfoldable pub super_spin : Signal → F → F → Search → Option Search
  super_spin sig_entry p1 p2 s =
      let t = set_motors_spin_super s in
      transition st_search_wall (record t { outputs = delay_ms spin_super_timeout ∷ t.outputs })
  super_spin _ p1 p2 s = some s

  unfoldable pub push : Signal → F → F → Search → Option Search
  push sig_entry p1 p2 s = some (set_motors_forwards s)
  push sig_boom_front p1 p2 s = some (if is_set fl p1 then set_motors_forwards_slow s else s)
  push sig_boom_back p1 p2 s = some (if is_set fl p1 then set_motors_forwards_slow s else s)
  push sig_front_left p1 p2 s = go_if (is_set fl p1) st_push_right s
  push sig_front_right p1 p2 s = go_if (is_set fl p1) st_push_left s
  push _ p1 p2 s = some s

  unfoldable pub push_left : Signal → F → F → Search → Option Search
  push_left sig_entry p1 p2 s = some (set_motors_spin_right s)
  push_left sig_front_right p1 p2 s =
      some (if not (is_set fl p1) then set_motors_forwards s else set_motors_spin_right s)
  push_left sig_front_left p1 p2 s = go_if (is_set fl p1) st_reverse s
  push_left _ p1 p2 s = some s

  unfoldable pub push_right : Signal → F → F → Search → Option Search
  push_right sig_entry p1 p2 s = some (set_motors_spin_left s)
  push_right sig_front_left p1 p2 s =
      some (if not (is_set fl p1) then set_motors_forwards s else set_motors_spin_left s)
  push_right sig_front_right p1 p2 s = go_if (is_set fl p1) st_reverse s
  push_right _ p1 p2 s = some s

  unfoldable pub reverse : Signal → F → F → Search → Option Search
  reverse sig_entry p1 p2 s = some (set_motors_backwards (record s { reverse_time = pos 0 }))
  reverse sig_reverse_timeout p1 p2 s = transition st_drift_on_wall s
  reverse sig_back_left p1 p2 s = go_if (is_set fl p1) st_drift_on_wall s
  reverse sig_back_right p1 p2 s = go_if (is_set fl p1) st_drift_on_wall s
  reverse _ p1 p2 s = some s

  unfoldable pub search_scramble : Signal → F → F → Search → Option Search
  search_scramble sig_entry p1 p2 s =
      some (set_motors_spin_right (record s { scramble_time = pos 0 }))
  search_scramble sig_scramble_timeout p1 p2 s = transition st_search_wall s
  search_scramble sig_can_spotted p1 p2 s = transition st_search_wall s
  search_scramble _ p1 p2 s = some s
