-- ===== src/CanSearch/Calls.antt =====
-- The calls that a signal makes in turn, for the transitions of
-- teensy/usb_rawhid/can_search.c: what an exit, an entry and a whole transition do, and how deep
-- the calls go.
use beaverbot.Prelude.{ℕ, suc, ◌≡◌, refl, ◌≢◌, Option, some, pos, ◌∷◌}
use beaverbot.CanSearch.{
  SearchState, st_init, st_search_wall, st_drift_off_wall, st_drift_to_center, st_spin_off_wall,
  st_drift_on_wall, st_drift_on_wall_hard, st_push, st_push_left, st_push_right, st_reverse,
  st_search_scramble, st_super_spin, sig_entry, sig_exit, Floats, delay_ms, Search,
  spin_super_timeout, stopped,
}
use beaverbot.CanSearch.Motors.{
  set_motors_forwards, set_motors_forwards_left_hardish, set_motors_forwards_left_hard,
  set_motors_forwards_right, set_motors_backwards, set_motors_spin_right, set_motors_spin_left,
  set_motors_spin_super,
}
use beaverbot.CanSearch.Handlers.{
  search_wall, drift_off_wall, drift_to_center, spin_off_wall, drift_on_wall, drift_on_wall_hard,
  super_spin, push, push_left, push_right, reverse, search_scramble,
}
use beaverbot.CanSearch.Machine.{transition_by, dispatch, signal_at}

-- What leaving a state does: the search timer is stopped, and no other.
unfoldable pub exited : SearchState → Search → Search
exited st_init s = record s { search_time = stopped }
exited st_search_wall s = record s { search_time = stopped }
exited _ s = s

-- What entering a state does.
unfoldable pub entered : SearchState → Search → Search
entered st_init s = record (set_motors_forwards_right s) { search_time = pos 0 }
entered st_search_wall s = record (set_motors_forwards_right s) { search_time = pos 0 }
entered st_drift_off_wall s = set_motors_forwards_right s
entered st_drift_to_center s = set_motors_forwards_right (record s { driftcenter_time = pos 0 })
entered st_spin_off_wall s = set_motors_spin_right s
entered st_drift_on_wall s = set_motors_forwards_left_hardish (record s { drifton_time = pos 0 })
entered st_drift_on_wall_hard s =
    set_motors_forwards_left_hard (record s { driftonhard_time = pos 0 })
entered st_push s = set_motors_forwards s
entered st_push_left s = set_motors_spin_right s
entered st_push_right s = set_motors_spin_left s
entered st_reverse s = set_motors_backwards (record s { reverse_time = pos 0 })
entered st_search_scramble s = set_motors_spin_right (record s { scramble_time = pos 0 })
entered st_super_spin s =
    let t = set_motors_spin_super s in
    let u = record t {
      outputs = delay_ms spin_super_timeout ∷ t.outputs;
      current_state = st_search_wall;
    } in
    set_motors_forwards (record (set_motors_forwards_right u) { search_time = pos 0 })

-- A whole transition.
unfoldable pub moved : SearchState → Search → Search
moved new_state s =
    entered new_state (record (exited s.current_state s) { current_state = new_state })

module _ (fl : Floats) where
  open fl use {F, of_int}

  dispatch-exit :
      (tr : SearchState → Search → Option Search) (st : SearchState) (a b : F) (s : Search)
      → dispatch fl tr st sig_exit a b s ≡ some (exited st s)
  unfolding dispatch search_wall drift_off_wall drift_to_center spin_off_wall drift_on_wall
      drift_on_wall_hard super_spin push push_left push_right reverse search_scramble exited
  dispatch-exit tr st_init a b s = refl
  dispatch-exit tr _ a b s = refl

  signal_at-exit :
      (f : ℕ) (a b : F) (s : Search)
      → signal_at fl (suc f) sig_exit a b s ≡ some (exited s.current_state s)
  unfolding signal_at
  signal_at-exit f a b s = dispatch-exit _ s.current_state a b s

  dispatch-entry :
      (tr : SearchState → Search → Option Search) (st : SearchState) (a b : F) (s : Search)
      → st ≢ st_super_spin
      → dispatch fl tr st sig_entry a b s ≡ some (entered st s)
  unfolding dispatch search_wall drift_off_wall drift_to_center spin_off_wall drift_on_wall
      drift_on_wall_hard super_spin push push_left push_right reverse search_scramble entered
  dispatch-entry tr st_super_spin a b s h = absurd (h refl)
  dispatch-entry tr _ a b s h = refl

  -- Away from the super spin one level of calls serves a transition.
  transition_by-moved :
      (f : ℕ) (st : SearchState) (s : Search)
      → st ≢ st_super_spin
      → transition_by fl (signal_at fl (suc f)) st s ≡ some (moved st s)
  unfolding transition_by moved
  transition_by-moved f st s h =
      rw (signal_at-exit f (of_int 0) (of_int 0) s)
        (unfold signal_at in dispatch-entry _ st (of_int 0) (of_int 0) _ h)

  super_entry :
      (f : ℕ) (s : Search)
      → dispatch fl
          (transition_by fl (signal_at fl (suc f)))
          st_super_spin
          sig_entry
          (of_int 0)
          (of_int 0)
          (record s { current_state = st_super_spin })
        ≡ some (entered st_super_spin (record s { current_state = st_super_spin }))
  unfolding dispatch super_spin push
  super_entry f s =
      rw (transition_by-moved f st_search_wall _ (λ e. cc))
        (unfold entered moved exited set_motors_spin_super in refl)

  -- Two levels serve any transition.
  pub transition_by-moved_any :
      (f : ℕ) (st : SearchState) (s : Search)
      → transition_by fl (signal_at fl (suc (suc f))) st s ≡ some (moved st s)
  unfolding transition_by moved
  transition_by-moved_any f st_super_spin s =
      rw (signal_at-exit (suc f) (of_int 0) (of_int 0) s)
        (unfold signal_at in super_entry f (exited s.current_state s))
  transition_by-moved_any f st s = transition_by-moved (suc f) st s (λ e. cc)
