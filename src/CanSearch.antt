-- ===== src/CanSearch.antt =====
-- The states, signals and variables of teensy/usb_rawhid/can_search.h and can_search.c: the robot
-- looks for a can on a table and pushes it off, driven by sensor signals and by timeouts.
use beaverbot.Prelude.{
  ℕ, ◌+◌, ◌≡◌, ◌<◌, Bool, true, false, List, [], ◌∷◌, if◌then◌else◌, u8, ℤ, pos, negsuc,
}
pub mod Motors
pub mod Handlers
pub mod Machine
pub mod Calls
pub mod Diagram
pub mod Invariant
pub mod Ticks
pub mod Runs
pub mod Timing
pub mod Deadline
pub mod Edge
pub mod Tests

pub data SearchMode : Type 0 where
  sm_push sm_spin : SearchMode

pub data SearchState : Type 0 where
  st_init st_search_wall st_drift_off_wall st_drift_to_center st_spin_off_wall : SearchState
  st_drift_on_wall st_drift_on_wall_hard st_push st_push_left st_push_right : SearchState
  st_reverse st_search_scramble st_super_spin : SearchState

pub data Signal : Type 0 where
  sig_entry sig_exit sig_user sig_init sig_start_search sig_can_spotted : Signal
  sig_front_left sig_front_right sig_back_left sig_back_right sig_boom_front sig_boom_back : Signal
  sig_search_timeout sig_scramble_timeout sig_reverse_timeout sig_drift_on_timeout : Signal
  sig_drift_on_hard_timeout sig_drift_center_timeout : Signal

-- `float`, as far as the code computes with it. `rat n d` is the literal n / d, `of_int` the
-- conversion from an integer, `to_int`, `to_u8` and `to_u16` the casts. On this processor `double` is the
-- same type. The laws: a `uint8_t` is below 256, and a small whole number survives a round trip.
pub record Floats : Type 1 where
  pub F : Type 0
  pub rat : ℕ → ℕ → F
  pub of_int : ℕ → F
  pub ltf : F → F → Bool
  pub add : F → F → F
  pub sub : F → F → F
  pub mul : F → F → F
  pub div : F → F → F
  pub to_int : F → ℤ
  pub to_u8 : F → ℕ
  pub to_u16 : F → ℕ
  pub to_u8-lt : (x : F) → to_u8 x < 256
  pub to_int-of_int : (n : ℕ) → n < 256 → to_int (of_int n) ≡ pos n

-- What the code does to the world: a call of the motor callback with its four `uint8_t` arguments,
-- a call through the callback while it is still null, and a busy wait.
pub data Output : Type 0 where
  motors : (direction1 value1 direction2 value2 : ℕ) → Output
  null_call : Output
  delay_ms : ℕ → Output

-- The global variables. `has_callback` says whether `g_motor_set_callback` is set; `outputs` is
-- what was done so far, the latest first.
pub record Search : Type 0 where
  pub current_state : SearchState
  pub current_boom_back : ℤ
  pub has_callback : Bool
  pub base_duty_cycle : ℕ
  pub drifton_timeout : ℕ
  pub reverse_time : ℤ
  pub search_time : ℤ
  pub scramble_time : ℤ
  pub drifton_time : ℤ
  pub driftonhard_time : ℤ
  pub driftcenter_time : ℤ
  pub outputs : List Output

abbrev pub base_duty : ℕ
base_duty = 200

abbrev pub fast_duty : ℕ
fast_duty = 250

abbrev pub spin_duty : ℕ
spin_duty = 60

abbrev pub spin_super_duty : ℕ
spin_super_duty = 250

abbrev pub spin_super_timeout : ℕ
spin_super_timeout = 120

abbrev pub reverse_timeout : ℕ
reverse_timeout = 600

abbrev pub search_timeout : ℕ
search_timeout = 3000

abbrev pub scramble_timeout : ℕ
scramble_timeout = 500

abbrev pub default_drifton_timeout : ℕ
default_drifton_timeout = 500

abbrev pub fast_drifton_timeout : ℕ
fast_drifton_timeout = 350

abbrev pub driftonhard_timeout : ℕ
driftonhard_timeout = 1500

abbrev pub driftcenter_timeout : ℕ
driftcenter_timeout = 100

-- The timers stopped.
abbrev pub stopped : ℤ
stopped = negsuc 0

-- The initialisers of the global variables.
abbrev pub power_on : Search
power_on = record {
  current_state = st_init;
  current_boom_back = pos 0;
  has_callback = false;
  base_duty_cycle = base_duty;
  drifton_timeout = default_drifton_timeout;
  reverse_time = stopped;
  search_time = stopped;
  scramble_time = stopped;
  drifton_time = stopped;
  driftonhard_time = stopped;
  driftcenter_time = stopped;
  outputs = [];
}

-- A call through `g_motor_set_callback`; the parameters are `uint8_t`.
abbrev pub motor_set : ℕ → ℕ → ℕ → ℕ → Search → Search
motor_set direction1 value1 direction2 value2 s = record s {
  outputs =
      (if s.has_callback
        then motors (u8 direction1) (u8 value1) (u8 direction2) (u8 value2)
        else null_call)
      ∷ s.outputs;
}
