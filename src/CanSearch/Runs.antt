-- ===== src/CanSearch/Runs.antt =====
-- Whole runs of teensy/usb_rawhid/can_search.c: an initialisation, and then any signals, ticks and
-- further initialisations in any order.
use beaverbot.Prelude.{◌≡◌, refl, true, Option, some, ◌>>=◌, arith, List, [], ◌∷◌, >>=-some, ◌∙◌}
use beaverbot.CanSearch.{
  SearchMode, sm_push, sm_spin, st_init, st_push, Signal, Floats, Search, base_duty, fast_duty,
  default_drifton_timeout, fast_drifton_timeout, power_on,
}
use beaverbot.CanSearch.Motors.{set_motors_forwards}
use beaverbot.CanSearch.Machine.{can_search_init, can_search_signal, can_search_tick, transition}
use beaverbot.CanSearch.Calls.{moved, exited, entered, transition_by-moved_any}
use beaverbot.CanSearch.Diagram.{outcome}
use beaverbot.CanSearch.Diagram.Follows.{IsOutside, can_search_signal-outcome}
use beaverbot.CanSearch.Invariant.{IsLive, IsBounded, outcome-IsLive}
use beaverbot.CanSearch.Ticks.{at_rest, after_tick, can_search_tick-after_tick, after_tick-IsLive}

module _ (fl : Floats) where
  open fl use {F}

  -- The callers' choices: example.c initialises and signals, its timer interrupt ticks.
  pub data Call : Type 0 where
    init : SearchMode → Call
    signal : (g : Signal) → F → F → IsOutside g → Call
    tick : Call

  unfoldable pub step : Call → Search → Option Search
  step (init mode) s = can_search_init fl mode s
  step (signal g p1 p2 o) s = can_search_signal fl g p1 p2 s
  step tick s = can_search_tick fl s

  unfoldable pub run : List Call → Search → Option Search
  unfolding step
  run [] s = some s
  run (c ∷ cs) s = do t ← step c s; run cs t

  unfoldable pub after_init : SearchMode → Search → Search
  after_init mode s = moved st_push (elim mode [
    | sm_push ↦ record s {
      has_callback = true;
      current_state = st_init;
      base_duty_cycle = base_duty;
      drifton_timeout = default_drifton_timeout;
    }
    | sm_spin ↦ record s {
      has_callback = true;
      current_state = st_init;
      base_duty_cycle = fast_duty;
      drifton_timeout = fast_drifton_timeout;
    }
  ])

  pub can_search_init-after_init :
      (mode : SearchMode) (s : Search) → can_search_init fl mode s ≡ some (after_init mode s)
  unfolding can_search_init after_init can_search_signal transition
  can_search_init-after_init mode s = transition_by-moved_any fl 1 st_push _

  -- Initialisation makes any bounded state live, whatever state the search was in.
  pub after_init-IsLive :
      (mode : SearchMode) (s : Search) → IsBounded at_rest s → IsLive at_rest (after_init mode s)
  unfolding after_init moved exited entered set_motors_forwards
  after_init-IsLive sm_push s b = ground arith
  after_init-IsLive sm_spin s b = ground arith

  unfoldable pub after : Call → Search → Search
  after (init mode) s = after_init mode s
  after (signal g p1 p2 o) s = outcome fl g p1 p2 s
  after tick s = after_tick fl s

  -- Every call that may come after initialisation ends, and leaves the search live.
  pub step-IsLive :
      (c : Call) (s : Search)
      → IsLive at_rest s
      → (step c s ≡ some (after c s)) × IsLive at_rest (after c s)
  unfolding step after
  step-IsLive (init mode) s h =
      (can_search_init-after_init mode s, after_init-IsLive mode s h.bounded)
  step-IsLive (signal g p1 p2 o) s h =
      (can_search_signal-outcome fl g p1 p2 s h.not_super o, outcome-IsLive fl at_rest g p1 p2 s h)
  step-IsLive tick s h = (can_search_tick-after_tick fl s h, after_tick-IsLive fl s h)

  run-IsLive :
      (cs : List Call) (s : Search)
      → IsLive at_rest s
      → (t : Search) × (run cs s ≡ some t) × IsLive at_rest t
  unfolding run
  run-IsLive [] s h = (s, refl, h)
  run-IsLive (c ∷ cs) s h =
      let (e, h') = step-IsLive c s h in
      let (t, r, k) = run-IsLive cs (after c s) h' in (t, >>=-some (run cs) e ∙ r, k)

  -- From power on, an initialisation in any mode and then any calls in any order (signals from
  -- outside, ticks and initialisations) run to the end and leave the search live.
  pub init-run-IsLive :
      (mode : SearchMode) (cs : List Call)
      → (t : Search) × (run (init mode ∷ cs) power_on ≡ some t) × IsLive at_rest t
  unfolding run step
  init-run-IsLive mode cs =
      let (t, r, k) =
        run-IsLive cs (after_init mode power_on) (after_init-IsLive mode power_on (omega arith)) in
      (t, >>=-some (run cs) (can_search_init-after_init mode power_on) ∙ r, k)
