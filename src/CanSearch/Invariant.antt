-- ===== src/CanSearch/Invariant.antt =====
-- What holds of the search of teensy/usb_rawhid/can_search.c between two calls.
use beaverbot.Prelude.{
  ℕ, ◌≤◌, ◌≡◌, refl, ◌≢◌, ◌⊎◌, true, arith, pos_part, is_nonneg, some, Option-cases, inl, inr, Bool,
  All, ◌<◌,
}
use beaverbot.CanSearch.{
  SearchState, st_init, st_search_wall, st_drift_to_center, st_drift_on_wall, st_drift_on_wall_hard,
  st_reverse, st_search_scramble, st_super_spin, Search, Signal, Floats, Output, motors, null_call,
  delay_ms,
}
use beaverbot.CanSearch.Motors.{
  set_motors_forwards, set_motors_forwards_right, set_motors_spin_right, set_motors_spin_left,
  set_motors_forwards_left_hardish, set_motors_forwards_left_hard, set_motors_backwards,
  set_motors_from_can_pos, set_motors_forwards_slow,
}
use beaverbot.CanSearch.Calls.{moved, entered, exited}
use beaverbot.CanSearch.Diagram.{next_state, stay, steer, outcome}
use beaverbot.CanSearch.Handlers.{is_set, in_push_window}
use beaverbot.CanSearch.Machine.{note_boom}

-- How far each timer may have run.
pub record Limits : Type 0 where
  pub reverse : ℕ
  pub search : ℕ
  pub scramble : ℕ
  pub drifton : ℕ
  pub driftonhard : ℕ
  pub driftcenter : ℕ

abbrev pub IsEntered : SearchState → Type 0
IsEntered st = (st ≢ st_init) × (st ≢ st_super_spin)

-- The mode's settings.
abbrev pub IsSetUp : Search → Type 0
IsSetUp s =
    ((s.base_duty_cycle ≡ 200) × (s.drifton_timeout ≡ 500))
    ⊎ ((s.base_duty_cycle ≡ 250) × (s.drifton_timeout ≡ 350))

-- A command that goes through the callback, with both motors driven forwards (1) or backwards (2).
abbrev pub IsDriven : Output → Type 0
IsDriven (motors d1 v1 d2 v2) = (1 ≤ d1) × (d1 ≤ 2) × (v1 < 256) × (1 ≤ d2) × (d2 ≤ 2) × (v2 < 256)
IsDriven null_call = ⊥
IsDriven (delay_ms n) = Unit

-- Every command was a driven one; each timer is within its limit.
pub record IsBounded (l : Limits) (s : Search) : Type 0 where
  pub driven : All IsDriven s.outputs
  pub reverse_limit : pos_part s.reverse_time ≤ l.reverse
  pub search_limit : pos_part s.search_time ≤ l.search
  pub scramble_limit : pos_part s.scramble_time ≤ l.scramble
  pub drifton_limit : pos_part s.drifton_time ≤ l.drifton
  pub driftonhard_limit : pos_part s.driftonhard_time ≤ l.driftonhard
  pub driftcenter_limit : pos_part s.driftcenter_time ≤ l.driftcenter

-- The callback is set; the timer that the current state waits for runs; the search timer runs in
-- its state only; and each timer is within its limit.
pub record IsLive (l : Limits) (s : Search) : Type 0 where
  pub callback_set : s.has_callback ≡ true
  pub set_up : IsSetUp s
  pub not_init : s.current_state ≢ st_init
  pub not_super : s.current_state ≢ st_super_spin
  pub reverse_runs : s.current_state ≡ st_reverse → is_nonneg s.reverse_time ≡ true
  pub search_runs : s.current_state ≡ st_search_wall → is_nonneg s.search_time ≡ true
  pub scramble_runs : s.current_state ≡ st_search_scramble → is_nonneg s.scramble_time ≡ true
  pub drifton_runs : s.current_state ≡ st_drift_on_wall → is_nonneg s.drifton_time ≡ true
  pub driftonhard_runs :
      s.current_state ≡ st_drift_on_wall_hard → is_nonneg s.driftonhard_time ≡ true
  pub driftcenter_runs : s.current_state ≡ st_drift_to_center → is_nonneg s.driftcenter_time ≡ true
  pub search_only : is_nonneg s.search_time ≡ true → s.current_state ≡ st_search_wall
  pub bounded : IsBounded l s

moved-IsLive :
    (l : Limits) (n : SearchState) (s : Search) → IsEntered n → IsLive l s → IsLive l (moved n s)
unfolding moved entered exited set_motors_forwards set_motors_forwards_right set_motors_spin_right
    set_motors_spin_left set_motors_forwards_left_hardish set_motors_forwards_left_hard
    set_motors_backwards
moved-IsLive l st_init s e h = absurd (e.0 refl)
moved-IsLive l st_super_spin s e h = absurd (e.1 refl)
moved-IsLive l _ s e h = ground arith

-- The diagram has no edge into the two states that are never entered.
next_state-IsEntered :
    (st : SearchState) (g : Signal) (on near : Bool) {n : SearchState}
    → next_state st g on near ≡ some n
    → IsEntered n
unfolding next_state
next_state-IsEntered st_init g on near h = ground arith
next_state-IsEntered _ g on near h = ground arith

module _ (fl : Floats) (l : Limits) where
  open fl use {F}

  stay-IsLive :
      (st : SearchState) (g : Signal) (p1 : F) (on : Bool) (s : Search)
      → s.current_state ≡ st
      → IsLive l s
      → IsLive l (stay fl st g p1 on s)
  unfolding stay steer set_motors_from_can_pos set_motors_forwards set_motors_forwards_slow
      set_motors_forwards_right set_motors_spin_right set_motors_spin_left
  stay-IsLive st_init g p1 on s e h = absurd (h.not_init e)
  stay-IsLive _ g p1 on s e h = ground arith

  note_boom-IsLive :
      (g : Signal) (p1 : F) (s : Search) → IsLive l s → IsLive l (note_boom fl g p1 s)
  note_boom-IsLive g p1 s h = ground arith

  note_boom-state :
      (g : Signal) (p1 : F) (s : Search) → (note_boom fl g p1 s).current_state ≡ s.current_state
  note_boom-state g p1 s = ground arith

  pub outcome-IsLive :
      (g : Signal) (p1 p2 : F) (s : Search) → IsLive l s → IsLive l (outcome fl g p1 p2 s)
  unfolding outcome
  outcome-IsLive g p1 p2 s h =
      elim (Option-cases (next_state s.current_state g (is_set fl p1) (in_push_window fl p1 p2))) [
        | inl e ↦
            rw (e, outcome)
              (stay-IsLive s.current_state g p1 _ _ (note_boom-state g p1 s)
                (note_boom-IsLive g p1 s h))
        | inr (n, e) ↦
            rw (e, outcome)
              (moved-IsLive l n _ (next_state-IsEntered _ g _ _ e) (note_boom-IsLive g p1 s h))
      ]
