-- ===== src/CanSearch/Timing.antt =====
-- When the timeouts of teensy/usb_rawhid/can_search.c fire: what one block of the tick does in and
-- out of its state, and how long a state lasts that nothing interrupts.
use beaverbot.Prelude.{
  ℕ, ◌+◌, ◌≤◌, ◌<◌, ◌≡◌, ◌≢◌, ◌⊎◌, true, arith, ℤ, pos, pos_part, is_nonneg, ◌+ℤ◌,
}
use beaverbot.CanSearch.{
  st_init, SearchState, st_reverse, st_search_wall, st_search_scramble, st_drift_on_wall,
  st_drift_on_wall_hard, st_drift_to_center, Floats, Search, reverse_timeout, search_timeout,
  scramble_timeout, driftonhard_timeout, driftcenter_timeout,
}
use beaverbot.CanSearch.Motors.{
  set_motors_forwards_right, set_motors_spin_right, set_motors_forwards_left_hardish,
  set_motors_forwards_left_hard,
}
use beaverbot.CanSearch.Calls.{moved, entered, exited}
use beaverbot.CanSearch.Diagram.{next_state, stay, outcome}
use beaverbot.CanSearch.Ticks.{
  ticked, ticked_reverse, ticked_search, ticked_scramble, ticked_drifton, ticked_driftonhard,
  ticked_driftcenter,
}

-- `u` is `s` but for what the block of a timer out of its state `own` may change: that timer.
pub record OutOf (own : SearchState) (s u : Search) : Type 0 where
  pub same_state : u.current_state ≡ s.current_state
  pub same_timeout : u.drifton_timeout ≡ s.drifton_timeout
  pub same_reverse : own ≢ st_reverse → u.reverse_time ≡ s.reverse_time
  pub same_search : own ≢ st_search_wall → u.search_time ≡ s.search_time
  pub same_scramble : own ≢ st_search_scramble → u.scramble_time ≡ s.scramble_time
  pub same_drifton : own ≢ st_drift_on_wall → u.drifton_time ≡ s.drifton_time
  pub same_driftonhard : own ≢ st_drift_on_wall_hard → u.driftonhard_time ≡ s.driftonhard_time
  pub same_driftcenter : own ≢ st_drift_to_center → u.driftcenter_time ≡ s.driftcenter_time

-- A timer counts on in its own state, or at its timeout the state is left for `target`, whose own
-- timer starts.
abbrev pub Own :
    (time : Search → ℤ) (target : SearchState) (target_time : Search → ℤ)
    → ℕ
    → Search
    → Search
    → Type 0
Own time target target_time timeout s u =
    ((pos_part (time s) < timeout)
      × (u.current_state ≡ s.current_state)
      × (time u ≡ pos (pos_part (time s) + 1))
      × (u.drifton_timeout ≡ s.drifton_timeout))
    ⊎ ((timeout ≤ pos_part (time s))
        × (u.current_state ≡ target)
        × (target_time u ≡ pos 0)
        × (u.drifton_timeout ≡ s.drifton_timeout))

-- What a block does, in and out of its state.
abbrev pub Block :
    (own : SearchState) (time : Search → ℤ) (target : SearchState) (target_time : Search → ℤ)
    → ℕ
    → Search
    → Search
    → Type 0
Block own time target target_time timeout s u =
    (s.current_state ≢ st_init → s.current_state ≢ own → OutOf own s u)
    × (s.current_state ≡ own → is_nonneg (time s) ≡ true → Own time target target_time timeout s u)

abbrev pub ReverseBlock : Search → Search → Type 0
ReverseBlock s u =
    Block st_reverse (λ r. r.reverse_time) st_drift_on_wall (λ r. r.drifton_time) reverse_timeout s
      u

abbrev pub SearchBlock : Search → Search → Type 0
SearchBlock s u =
    Block st_search_wall (λ r. r.search_time) st_search_scramble (λ r. r.scramble_time)
      search_timeout s u

abbrev pub ScrambleBlock : Search → Search → Type 0
ScrambleBlock s u =
    Block st_search_scramble (λ r. r.scramble_time) st_search_wall (λ r. r.search_time)
      scramble_timeout s u

abbrev pub DriftonBlock : Search → Search → Type 0
DriftonBlock s u =
    Block st_drift_on_wall (λ r. r.drifton_time) st_drift_on_wall_hard (λ r. r.driftonhard_time)
      s.drifton_timeout s u

abbrev pub DriftonhardBlock : Search → Search → Type 0
DriftonhardBlock s u =
    Block st_drift_on_wall_hard (λ r. r.driftonhard_time) st_search_wall (λ r. r.search_time)
      driftonhard_timeout s u

abbrev pub DriftcenterBlock : Search → Search → Type 0
DriftcenterBlock s u =
    Block st_drift_to_center (λ r. r.driftcenter_time) st_drift_on_wall (λ r. r.drifton_time)
      driftcenter_timeout s u

module _ (fl : Floats) where
  pub ticked_reverse-ReverseBlock : (s : Search) → ReverseBlock s (ticked_reverse fl s)
  unfolding ticked outcome next_state stay moved entered exited set_motors_forwards_right
      set_motors_spin_right set_motors_forwards_left_hardish set_motors_forwards_left_hard ◌+ℤ◌
  ticked_reverse-ReverseBlock s = (λ i h. ground arith, λ h k. ground arith)

  pub ticked_search-SearchBlock : (s : Search) → SearchBlock s (ticked_search fl s)
  unfolding ticked outcome next_state stay moved entered exited set_motors_forwards_right
      set_motors_spin_right set_motors_forwards_left_hardish set_motors_forwards_left_hard ◌+ℤ◌
  ticked_search-SearchBlock s = (λ i h. ground arith, λ h k. ground arith)

  pub ticked_scramble-ScrambleBlock : (s : Search) → ScrambleBlock s (ticked_scramble fl s)
  unfolding ticked outcome next_state stay moved entered exited set_motors_forwards_right
      set_motors_spin_right set_motors_forwards_left_hardish set_motors_forwards_left_hard ◌+ℤ◌
  ticked_scramble-ScrambleBlock s = (λ i h. ground arith, λ h k. ground arith)

  pub ticked_drifton-DriftonBlock : (s : Search) → DriftonBlock s (ticked_drifton fl s)
  unfolding ticked outcome next_state stay moved entered exited set_motors_forwards_right
      set_motors_spin_right set_motors_forwards_left_hardish set_motors_forwards_left_hard ◌+ℤ◌
  ticked_drifton-DriftonBlock s = (λ i h. ground arith, λ h k. ground arith)

  pub ticked_driftonhard-DriftonhardBlock :
      (s : Search) → DriftonhardBlock s (ticked_driftonhard fl s)
  unfolding ticked outcome next_state stay moved entered exited set_motors_forwards_right
      set_motors_spin_right set_motors_forwards_left_hardish set_motors_forwards_left_hard ◌+ℤ◌
  ticked_driftonhard-DriftonhardBlock s = (λ i h. ground arith, λ h k. ground arith)

  pub ticked_driftcenter-DriftcenterBlock :
      (s : Search) → DriftcenterBlock s (ticked_driftcenter fl s)
  unfolding ticked outcome next_state stay moved entered exited set_motors_forwards_right
      set_motors_spin_right set_motors_forwards_left_hardish set_motors_forwards_left_hard ◌+ℤ◌
  ticked_driftcenter-DriftcenterBlock s = (λ i h. ground arith, λ h k. ground arith)
