-- ===== src/CanSearch/Ticks.antt =====
-- The tick of teensy/usb_rawhid/can_search.c, block by block.
use beaverbot.Prelude.{
  ℕ, ◌≡◌, ◌≢◌, true, false, some, arith, ℤ, pos, is_nonneg, ◌+ℤ◌, ltb_ℤ, >>=-some, ◌∙◌,
}
use beaverbot.CanSearch.{
  st_super_spin, Signal, sig_search_timeout, sig_scramble_timeout, sig_reverse_timeout,
  sig_drift_on_timeout, sig_drift_on_hard_timeout, sig_drift_center_timeout, Floats, Search,
  stopped, reverse_timeout, search_timeout, scramble_timeout, default_drifton_timeout,
  driftonhard_timeout, driftcenter_timeout,
}
use beaverbot.CanSearch.Motors.{
  set_motors_forwards_right, set_motors_spin_right, set_motors_forwards_left_hardish,
  set_motors_forwards_left_hard,
}
use beaverbot.CanSearch.Machine.{tick_timer, can_search_tick}
use beaverbot.CanSearch.Calls.{moved, entered, exited}
use beaverbot.CanSearch.Diagram.{next_state, stay, outcome}
use beaverbot.CanSearch.Diagram.Follows.{IsOutside, can_search_signal-outcome}
use beaverbot.CanSearch.Invariant.{Limits, IsLive}

-- Between two calls no timer has run past its timeout.
abbrev pub at_rest : Limits
at_rest = record {
  reverse = reverse_timeout;
  search = search_timeout;
  scramble = scramble_timeout;
  drifton = default_drifton_timeout;
  driftonhard = driftonhard_timeout;
  driftcenter = driftcenter_timeout;
}

module _ (fl : Floats) where
  open fl use {of_int}

  -- One block with the signal replaced by its outcome.
  unfoldable pub ticked :
      (time : Search → ℤ) (set_time : ℤ → Search → Search) (timeout : Search → ℕ) (g : Signal)
      → Search
      → Search
  ticked time set_time timeout g s = elim (is_nonneg (time s)) [
    | false ↦ s
    | true ↦
        let t = set_time (time s +ℤ pos 1) s in
        elim (ltb_ℤ (pos (timeout t)) (time t)) [
          | false ↦ t
          | true ↦ set_time stopped (outcome fl g (of_int 0) (of_int 0) t)
        ]
  ]

  tick_timer-ticked :
      (time : Search → ℤ) (set_time : ℤ → Search → Search) (timeout : Search → ℕ) (g : Signal)
      (s : Search)
      → ((t : ℤ) → (set_time t s).current_state ≢ st_super_spin)
      → IsOutside g
      → tick_timer fl time set_time timeout g s ≡ some (ticked time set_time timeout g s)
  unfolding tick_timer ticked
  tick_timer-ticked time set_time timeout g s n o = ground (
    arith,
    can_search_signal-outcome fl g (of_int 0) (of_int 0) (set_time (time s +ℤ pos 1) s),
    n (time s +ℤ pos 1),
  )

  abbrev pub ticked_reverse : Search → Search
  ticked_reverse =
      ticked (λ s. s.reverse_time) (λ t s. record s { reverse_time = t }) (λ s. reverse_timeout)
        sig_reverse_timeout

  ticked_reverse-IsLive : (s : Search) → IsLive at_rest s → IsLive at_rest (ticked_reverse s)
  unfolding ticked outcome next_state stay moved entered exited set_motors_forwards_right
      set_motors_spin_right set_motors_forwards_left_hardish set_motors_forwards_left_hard ◌+ℤ◌
  ticked_reverse-IsLive s h = ground arith

  abbrev pub ticked_search : Search → Search
  ticked_search =
      ticked (λ s. s.search_time) (λ t s. record s { search_time = t }) (λ s. search_timeout)
        sig_search_timeout

  ticked_search-IsLive : (s : Search) → IsLive at_rest s → IsLive at_rest (ticked_search s)
  unfolding ticked outcome next_state stay moved entered exited set_motors_forwards_right
      set_motors_spin_right set_motors_forwards_left_hardish set_motors_forwards_left_hard ◌+ℤ◌
  ticked_search-IsLive s h = ground arith

  abbrev pub ticked_scramble : Search → Search
  ticked_scramble =
      ticked (λ s. s.scramble_time) (λ t s. record s { scramble_time = t }) (λ s. scramble_timeout)
        sig_scramble_timeout

  ticked_scramble-IsLive : (s : Search) → IsLive at_rest s → IsLive at_rest (ticked_scramble s)
  unfolding ticked outcome next_state stay moved entered exited set_motors_forwards_right
      set_motors_spin_right set_motors_forwards_left_hardish set_motors_forwards_left_hard ◌+ℤ◌
  ticked_scramble-IsLive s h = ground arith

  abbrev pub ticked_drifton : Search → Search
  ticked_drifton =
      ticked (λ s. s.drifton_time) (λ t s. record s { drifton_time = t }) (λ s. s.drifton_timeout)
        sig_drift_on_timeout

  ticked_drifton-IsLive : (s : Search) → IsLive at_rest s → IsLive at_rest (ticked_drifton s)
  unfolding ticked outcome next_state stay moved entered exited set_motors_forwards_right
      set_motors_spin_right set_motors_forwards_left_hardish set_motors_forwards_left_hard ◌+ℤ◌
  ticked_drifton-IsLive s h = ground arith

  abbrev pub ticked_driftonhard : Search → Search
  ticked_driftonhard =
      ticked (λ s. s.driftonhard_time) (λ t s. record s { driftonhard_time = t })
        (λ s. driftonhard_timeout) sig_drift_on_hard_timeout

  ticked_driftonhard-IsLive :
      (s : Search) → IsLive at_rest s → IsLive at_rest (ticked_driftonhard s)
  unfolding ticked outcome next_state stay moved entered exited set_motors_forwards_right
      set_motors_spin_right set_motors_forwards_left_hardish set_motors_forwards_left_hard ◌+ℤ◌
  ticked_driftonhard-IsLive s h = ground arith

  abbrev pub ticked_driftcenter : Search → Search
  ticked_driftcenter =
      ticked (λ s. s.driftcenter_time) (λ t s. record s { driftcenter_time = t })
        (λ s. driftcenter_timeout) sig_drift_center_timeout

  ticked_driftcenter-IsLive :
      (s : Search) → IsLive at_rest s → IsLive at_rest (ticked_driftcenter s)
  unfolding ticked outcome next_state stay moved entered exited set_motors_forwards_right
      set_motors_spin_right set_motors_forwards_left_hardish set_motors_forwards_left_hard ◌+ℤ◌
  ticked_driftcenter-IsLive s h = ground arith

  -- A whole tick.
  unfoldable pub after_tick : Search → Search
  after_tick s =
      ticked_driftcenter
        (ticked_driftonhard (ticked_drifton (ticked_scramble (ticked_search (ticked_reverse s)))))

  pub after_tick-IsLive : (s : Search) → IsLive at_rest s → IsLive at_rest (after_tick s)
  unfolding after_tick
  after_tick-IsLive s h = ticked_driftcenter-IsLive _ (
      ticked_driftonhard-IsLive _ (
        ticked_drifton-IsLive _
          (ticked_scramble-IsLive _ (ticked_search-IsLive _ (ticked_reverse-IsLive s h)))))

  -- In a live state the tick runs to its end.
  pub can_search_tick-after_tick :
      (s : Search) → IsLive at_rest s → can_search_tick fl s ≡ some (after_tick s)
  unfolding can_search_tick after_tick
  can_search_tick-after_tick s h =
      let h1 = ticked_reverse-IsLive s h in
      let h2 = ticked_search-IsLive _ h1 in
      let h3 = ticked_scramble-IsLive _ h2 in
      let h4 = ticked_drifton-IsLive _ h3 in
      let h5 = ticked_driftonhard-IsLive _ h4 in
      >>=-some _
        (tick_timer-ticked _ _ _ sig_reverse_timeout s (λ t. h.not_super) (λ e. cc, λ e. cc))
      ∙ >>=-some _
          (tick_timer-ticked _ _ _ sig_search_timeout _ (λ t. h1.not_super) (λ e. cc, λ e. cc))
      ∙ >>=-some _
          (tick_timer-ticked _ _ _ sig_scramble_timeout _ (λ t. h2.not_super) (λ e. cc, λ e. cc))
      ∙ >>=-some _
          (tick_timer-ticked _ _ _ sig_drift_on_timeout _ (λ t. h3.not_super) (λ e. cc, λ e. cc))
      ∙ >>=-some _ (
          tick_timer-ticked _ _ _ sig_drift_on_hard_timeout _ (λ t. h4.not_super)
            (λ e. cc, λ e. cc))
      ∙ tick_timer-ticked _ _ _ sig_drift_center_timeout _ (λ t. h5.not_super) (λ e. cc, λ e. cc)
