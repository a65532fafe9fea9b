-- ===== src/CanSearch/Tests.antt =====
-- The search of teensy/usb_rawhid/can_search.c on concrete inputs, with floats as thousandths.
use beaverbot.Prelude.{
  ℕ, ◌+◌, ◌-◌, ◌*◌, ◌/◌, ◌%◌, ◌<◌, ◌≡◌, refl, inl, inr, ap, true, some, arith, ltb, pos, List, [],
  ◌∷◌,
}
use mathlib.Core.Option
use beaverbot.CanSearch.{
  sm_push, sm_spin, st_push, st_push_right, st_search_wall, st_search_scramble, sig_front_left,
  sig_front_right, sig_back_left, Floats, Search, motors, power_on, stopped,
}
use beaverbot.CanSearch.Handlers.{search_wall, push}
use beaverbot.CanSearch.Machine.{
  signal_at, can_search_signal, can_search_tick, can_search_init, transition, dispatch,
}
use beaverbot.CanSearch.Diagram.{outcome}
use beaverbot.CanSearch.Diagram.Follows.{signal_at-outcome, IsOutside}
use beaverbot.CanSearch.Invariant.{IsLive}
use beaverbot.CanSearch.Ticks.{at_rest}
use beaverbot.CanSearch.Runs.{Call, run, init-run-IsLive}
use beaverbot.CanSearch.Deadline.{
  ticks, ticks-timeout_target, time_of, timeout_of, timeout_target, Lasts,
}
use beaverbot.CanSearch.Edge.{BacksOff, edge-BacksOff, push_edge-BacksOff}
use beaverbot.CanSearch.Motors.{set_motors_forwards}

pub to_u8_range : (x : ℕ) → x / 1000 % 256 < 256
to_u8_range x = omega arith

pub whole_back : (n : ℕ) → n < 256 → pos (n * 1000 / 1000) ≡ pos n
whole_back n h = ap pos (omega arith)

abbrev pub thousandths : Floats
thousandths = record {
  F = ℕ;
  rat = λ n d. n * 1000 / d;
  of_int = λ n. n * 1000;
  ltf = ltb;
  add = λ a b. a + b;
  sub = λ a b. a - b;
  mul = λ a b. a * b / 1000;
  div = λ a b. a * 1000 / b;
  to_int = λ x. pos (x / 1000);
  to_u8 = λ x. x / 1000 % 256;
  to_u16 = λ x. x / 1000 % 65536;
  to_u8-lt = to_u8_range;
  to_int-of_int = whole_back;
}

abbrev pub pushing : Search
pushing = record {
  current_state = st_push;
  current_boom_back = pos 0;
  has_callback = true;
  base_duty_cycle = 200;
  drifton_timeout = 500;
  reverse_time = stopped;
  search_time = stopped;
  scramble_time = stopped;
  drifton_time = stopped;
  driftonhard_time = stopped;
  driftcenter_time = stopped;
  outputs = [];
}

abbrev pub searching : Search
searching = record pushing { current_state = st_search_wall; search_time = pos 2998 }

init_pushes :
    Option.map (λ s. s.outputs) (run thousandths (Call.init sm_push ∷ []) power_on)
    ≡ some (motors 1 200 1 200 ∷ [])
unfolding run can_search_init transition dispatch search_wall push set_motors_forwards
init_pushes = refl

signal_at-outcome_example :
    signal_at thousandths 3 sig_front_left 1000 0 searching
    ≡ some (outcome thousandths sig_front_left 1000 0 searching)
signal_at-outcome_example =
    signal_at-outcome thousandths 0 sig_front_left 1000 0 searching (λ e. cc) (λ e. cc, λ e. cc)

pushing-IsLive : IsLive at_rest pushing
pushing-IsLive = ground arith

pub searching-IsLive : IsLive at_rest searching
searching-IsLive = ground arith

back_left-IsOutside : IsOutside sig_back_left
back_left-IsOutside = (λ e. cc, λ e. cc)

abbrev calls : List (Call thousandths)
calls = Call.tick ∷ Call.signal sig_back_left 1000 0 back_left-IsOutside ∷ []

init-run-IsLive_example :
    (t : Search) × (run thousandths (Call.init sm_spin ∷ calls) power_on ≡ some t)
    × IsLive at_rest t
init-run-IsLive_example = init-run-IsLive thousandths sm_spin calls

ticks-timeout_target_example :
    Lasts thousandths 1 st_search_wall searching
    × ((u v : Search) × (ticks thousandths 2 searching ≡ some u)
        × (can_search_tick thousandths u ≡ some v)
        × (v.current_state ≡ st_search_scramble))
unfolding time_of timeout_of timeout_target
ticks-timeout_target_example =
    ticks-timeout_target thousandths 1 2 st_search_wall searching refl refl searching-IsLive
      (omega arith) refl

edge-BacksOff_example :
    (u : Search) × (can_search_signal thousandths sig_front_right 1000 0 searching ≡ some u)
    × BacksOff u
edge-BacksOff_example =
    edge-BacksOff thousandths sig_front_right 1000 0 searching searching-IsLive (inl refl)
      (inr refl) refl

push_edge-BacksOff_example :
    (t u : Search) × (can_search_signal thousandths sig_front_left 1000 0 pushing ≡ some t)
    × (t.current_state ≡ st_push_right)
    × (t.outputs ≡ motors 1 60 2 60 ∷ [])
    × (can_search_signal thousandths sig_front_right 1000 0 t ≡ some u)
    × BacksOff u
push_edge-BacksOff_example =
    push_edge-BacksOff thousandths sig_front_left sig_front_right st_push_right 1000 0 1000 0
      pushing pushing-IsLive refl (inl (refl, refl, refl)) refl refl
