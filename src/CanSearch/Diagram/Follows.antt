-- ===== src/CanSearch/Diagram/Follows.antt =====
-- The code of teensy/usb_rawhid/can_search.c follows the diagram.
use beaverbot.Prelude.{ℕ, suc, ◌≡◌, refl, ◌≢◌, Option, none, some, arith}
use beaverbot.CanSearch.{SearchState, st_super_spin, Signal, sig_entry, sig_exit, Floats, Search}
use beaverbot.CanSearch.Handlers.{
  is_set, in_push_window, search_wall, drift_off_wall, drift_to_center, spin_off_wall,
  drift_on_wall, drift_on_wall_hard, push, push_left, push_right, reverse, search_scramble,
}
use beaverbot.CanSearch.Machine.{signal_at, note_boom, dispatch, can_search_signal}
use beaverbot.CanSearch.Calls.{moved, transition_by-moved_any}
use beaverbot.CanSearch.Diagram.{next_state, steer, stay, outcome}
use mathlib.Core.Path.{fun_ext}

-- Entry and exit come from transitions only.
abbrev pub IsOutside : Signal → Type 0
IsOutside g = (g ≢ sig_entry) × (g ≢ sig_exit)

abbrev moving : SearchState → Search → Option Search
moving n s = some (moved n s)

module _ (fl : Floats) where
  open fl use {F}

  abbrev outcome_in : SearchState → Signal → F → F → Search → Search
  outcome_in st g p1 p2 s = elim (next_state st g (is_set fl p1) (in_push_window fl p1 p2)) [
    | none ↦ stay fl st g p1 (is_set fl p1) s
    | some n ↦ moved n s
  ]

  dispatch-outcome :
      (st : SearchState) (g : Signal) (p1 p2 : F) (s : Search)
      → st ≢ st_super_spin
      → IsOutside g
      → dispatch fl moving st g p1 p2 s ≡ some (outcome_in st g p1 p2 s)
  unfolding dispatch search_wall drift_off_wall drift_to_center spin_off_wall drift_on_wall
      drift_on_wall_hard push push_left push_right reverse search_scramble next_state stay steer
  dispatch-outcome st_super_spin g p1 p2 s n h = absurd (n refl)
  dispatch-outcome _ sig_entry p1 p2 s n h = absurd (h.0 refl)
  dispatch-outcome _ sig_exit p1 p2 s n h = absurd (h.1 refl)
  dispatch-outcome _ _ p1 p2 s n h = ground arith

  -- With a call depth of three or more every signal from outside, in every state but the super spin
  -- (which nothing enters), is handled to the end, and its whole effect is the diagram's.
  pub signal_at-outcome :
      (f : ℕ) (g : Signal) (p1 p2 : F) (s : Search)
      → s.current_state ≢ st_super_spin
      → IsOutside g
      → signal_at fl (suc (suc (suc f))) g p1 p2 s ≡ some (outcome fl g p1 p2 s)
  unfolding signal_at outcome
  signal_at-outcome f g p1 p2 s n h =
      rw (fun_ext (λ st. fun_ext (transition_by-moved_any fl f st)))
        (dispatch-outcome s.current_state g p1 p2 (note_boom fl g p1 s) n h)

  pub can_search_signal-outcome :
      (g : Signal) (p1 p2 : F) (s : Search)
      → s.current_state ≢ st_super_spin
      → IsOutside g
      → can_search_signal fl g p1 p2 s ≡ some (outcome fl g p1 p2 s)
  unfolding can_search_signal
  can_search_signal-outcome g p1 p2 s n h = signal_at-outcome 0 g p1 p2 s n h
