-- ===== src/CanSearch/Machine.antt =====
-- `transition`, `can_search_signal`, `can_search_init` and `can_search_tick` of
-- teensy/usb_rawhid/can_search.c. A signal's handler may make a transition, which signals exit and
-- entry; `fuel` bounds the depth of such calls and `none` says that it was reached.
use beaverbot.Prelude.{
  ℕ, zero, suc, true, false, Option, none, some, ◌>>=◌, ltb_ℤ, ◌+ℤ◌, ℤ, pos, is_nonneg,
}
use beaverbot.CanSearch.{
  SearchMode, sm_push, sm_spin, SearchState, st_init, st_search_wall, st_drift_off_wall,
  st_drift_to_center, st_spin_off_wall, st_drift_on_wall, st_drift_on_wall_hard, st_push,
  st_push_left, st_push_right, st_reverse, st_search_scramble, st_super_spin, Signal, sig_entry,
  sig_exit, sig_boom_back, sig_search_timeout, sig_scramble_timeout, sig_reverse_timeout,
  sig_drift_on_timeout, sig_drift_on_hard_timeout, sig_drift_center_timeout, Floats, Search,
  base_duty, fast_duty, reverse_timeout, search_timeout, scramble_timeout, default_drifton_timeout,
  fast_drifton_timeout, driftonhard_timeout, driftcenter_timeout, stopped,
}
use beaverbot.CanSearch.Handlers.{
  search_wall, drift_off_wall, drift_to_center, spin_off_wall, drift_on_wall, drift_on_wall_hard,
  super_spin, push, push_left, push_right, reverse, search_scramble,
}

module _ (fl : Floats) where
  open fl use {F, rat, of_int, to_int}

  unfoldable pub transition_by :
      (Signal → F → F → Search → Option Search) → SearchState → Search → Option Search
  transition_by signal new_state s = do
    t ← signal sig_exit (of_int 0) (of_int 0) s
    signal sig_entry (of_int 0) (of_int 0) (record t { current_state = new_state })

  -- The `switch` on the state. The cases of ST_INIT and ST_SUPER_SPIN have no `break`: they fall
  -- through into the case below them.
  unfoldable pub dispatch :
      (SearchState → Search → Option Search) → SearchState → Signal → F → F → Search → Option Search
  dispatch tr st_init g p1 p2 s = search_wall fl tr g p1 p2 s
  dispatch tr st_search_wall g p1 p2 s = search_wall fl tr g p1 p2 s
  dispatch tr st_drift_off_wall g p1 p2 s = drift_off_wall fl tr g p1 p2 s
  dispatch tr st_drift_to_center g p1 p2 s = drift_to_center fl tr g p1 p2 s
  dispatch tr st_spin_off_wall g p1 p2 s = spin_off_wall fl tr g p1 p2 s
  dispatch tr st_drift_on_wall g p1 p2 s = drift_on_wall fl tr g p1 p2 s
  dispatch tr st_drift_on_wall_hard g p1 p2 s = drift_on_wall_hard fl tr g p1 p2 s
  dispatch tr st_super_spin g p1 p2 s = do t ← super_spin fl tr g p1 p2 s; push fl tr g p1 p2 t
  dispatch tr st_push g p1 p2 s = push fl tr g p1 p2 s
  dispatch tr st_push_left g p1 p2 s = push_left fl tr g p1 p2 s
  dispatch tr st_push_right g p1 p2 s = push_right fl tr g p1 p2 s
  dispatch tr st_reverse g p1 p2 s = reverse fl tr g p1 p2 s
  dispatch tr st_search_scramble g p1 p2 s = search_scramble fl tr g p1 p2 s

  -- `if (signal == SIG_BOOM_BACK) g_current_boom_back = (int)p1;`
  abbrev pub note_boom : Signal → F → Search → Search
  note_boom sig_boom_back p1 s = record s { current_boom_back = to_int p1 }
  note_boom _ p1 s = s

  unfoldable pub signal_at : ℕ → Signal → F → F → Search → Option Search
  signal_at zero g p1 p2 s = none
  signal_at (suc fuel) g p1 p2 s =
      dispatch (transition_by (signal_at fuel)) s.current_state g p1 p2 (note_boom g p1 s)

  -- A signal from outside, the exit or entry that it causes, and those of a super spin.
  abbrev pub call_depth : ℕ
  call_depth = 3

  unfoldable pub can_search_signal : Signal → F → F → Search → Option Search
  unfolding signal_at
  can_search_signal = signal_at call_depth

  unfoldable pub transition : SearchState → Search → Option Search
  unfolding transition_by can_search_signal
  transition = transition_by can_search_signal

  unfoldable pub can_search_init : SearchMode → Search → Option Search
  unfolding transition
  can_search_init mode s = transition st_push (elim mode [
    | sm_push ↦ record s {
      has_callback = true;
      current_state = st_init;
      base_duty_cycle = base_duty;
      drifton_timeout = default_drifton_timeout;
    }
    | sm_spin ↦ record s {
      has_callback = true;
      current_state = st_init;
      base_duty_cycle = fast_duty;
      drifton_timeout = fast_drifton_timeout;
    }
  ])

  -- One of the six blocks of the tick: `time` and `set_time` are the block's variable.
  unfoldable pub tick_timer :
      (time : Search → ℤ) (set_time : ℤ → Search → Search) (timeout : Search → ℕ) (g : Signal)
      → Search
      → Option Search
  unfolding ◌+ℤ◌
  tick_timer time set_time timeout g s = elim (is_nonneg (time s)) [
    | false ↦ some s
    | true ↦
        let t = set_time (time s +ℤ pos 1) s in
        elim (ltb_ℤ (pos (timeout t)) (time t)) [
          | false ↦ some t
          | true ↦ do u ← can_search_signal g (of_int 0) (of_int 0) t; some (set_time stopped u)
        ]
  ]

  abbrev pub tick_reverse : Search → Option Search
  tick_reverse =
      tick_timer (λ s. s.reverse_time) (λ t s. record s { reverse_time = t }) (λ s. reverse_timeout)
        sig_reverse_timeout

  abbrev pub tick_search : Search → Option Search
  tick_search =
      tick_timer (λ s. s.search_time) (λ t s. record s { search_time = t }) (λ s. search_timeout)
        sig_search_timeout

  abbrev pub tick_scramble : Search → Option Search
  tick_scramble =
      tick_timer (λ s. s.scramble_time) (λ t s. record s { scramble_time = t })
        (λ s. scramble_timeout) sig_scramble_timeout

  abbrev pub tick_drifton : Search → Option Search
  tick_drifton =
      tick_timer (λ s. s.drifton_time) (λ t s. record s { drifton_time = t })
        (λ s. s.drifton_timeout) sig_drift_on_timeout

  abbrev pub tick_driftonhard : Search → Option Search
  tick_driftonhard =
      tick_timer (λ s. s.driftonhard_time) (λ t s. record s { driftonhard_time = t })
        (λ s. driftonhard_timeout) sig_drift_on_hard_timeout

  abbrev pub tick_driftcenter : Search → Option Search
  tick_driftcenter =
      tick_timer (λ s. s.driftcenter_time) (λ t s. record s { driftcenter_time = t })
        (λ s. driftcenter_timeout) sig_drift_center_timeout

  unfoldable pub can_search_tick : Search → Option Search
  can_search_tick s = do
    s1 ← tick_reverse s
    s2 ← tick_search s1
    s3 ← tick_scramble s2
    s4 ← tick_drifton s3
    s5 ← tick_driftonhard s4
    tick_driftcenter s5
