-- ===== src/Firmware/Program.antt =====
-- The programs of teensy/usb_rawhid/example.c: `calibrate_sensors` and `step_program`. `none` is a fault: a call through a null pointer or an event that is not
-- sent. Calls do not overlap here.
use beaverbot.Prelude.{
  ℕ, zero, suc, ◌+◌, ◌-◌, ◌*◌, ◌/◌, ◌%◌, ◌==◌, if◌then◌else◌, Bool, true, false, Option, none, some,
  ◌>>=◌, List, [], ◌∷◌,
}
use beaverbot.CanSearch.{
  sm_push, sm_spin, Signal, sig_front_left, sig_front_right, sig_back_left, sig_back_right,
  sig_boom_front, sig_boom_back, Floats, Search,
}
use beaverbot.CanSearch.Machine.{can_search_init, can_search_signal}
use beaverbot.Kowhai.Access.{to_bytes}
use beaverbot.Server.Chunks.{kowhai_server_process_event}
use beaverbot.Firmware.Sensors.{Sensor, check_sensors}
use beaverbot.Firmware.Robot.{Registers, Robot, set_port, set_ddr, port_b, port_c, port_d, port_f}
use beaverbot.Firmware.Drive.{do_beep, drive, stay_on_table}
use beaverbot.Firmware.Trees.{sym_tablesensorevent}

-- `enum program_t`, and the numbers that are none of it.
pub data Program : Type 0 where
  program_null program_calibrate_table_sensors program_report_sensors : Program
  program_report_sensors_with_beep program_stay_on_table program_can_search_init_01 : Program
  program_can_search_init_02 program_bootloader program_can_search other_program : Program

abbrev pub null_number : ℕ
null_number = 0

abbrev pub can_search_number : ℕ
can_search_number = 100

unfoldable pub program_of : ℕ → Program
program_of n =
    if n == 0
    then program_null
    else if n == 1
    then program_calibrate_table_sensors
    else if n == 2
    then program_report_sensors
    else if n == 3
    then program_report_sensors_with_beep
    else if n == 4
    then program_stay_on_table
    else if n == 5
    then program_can_search_init_01
    else if n == 6
    then program_can_search_init_02
    else if n == 7
    then program_bootloader
    else if n == can_search_number
    then program_can_search
    else other_program

abbrev pub adc_max : ℕ
adc_max = 1024

-- What `step_program` reads of the pins of port C, one after the other.
pub record Inputs : Type 0 where
  pub front : ℕ
  pub back : ℕ

-- What the interrupt reads: the pins of each port, and the conversions in their order.
pub record Samples : Type 0 where
  pub pin : ℕ → ℕ
  pub conversion : (nth : ℕ) → ℕ

abbrev pub with_values : List ℕ → List Sensor → List Sensor
with_values (v ∷ vs) (s ∷ ss) = record s { value = v } ∷ with_values vs ss
with_values vs ss = ss

abbrev pub bit_of : (weight byte : ℕ) → ℕ
bit_of weight byte = byte / weight % 2 * weight

abbrev pub sensor_values : (ℕ → ℕ) → Inputs → List ℕ
sensor_values adc i = adc 7 ∷ adc 6 ∷ adc 5 ∷ adc 4 ∷ bit_of 128 i.front ∷ bit_of 4 i.back ∷ []

-- The registers that every step sets.
unfoldable pub turn_on : Registers → Registers
turn_on r =
    record (set_port port_c 0x48
      (set_ddr port_c 0x78 (set_ddr port_f 15 (set_ddr port_d 2 (set_ddr port_b 16 r))))) {
        tccr2a = 163;
        tccr2b = 163;
        didr0 = 255;
        didr1 = 0;
      }

-- The start of `step_program`.
unfoldable pub sample : Inputs → Robot → Robot
unfolding turn_on
sample i r = record r {
  teensy = record r.teensy {
    sensors = with_values (sensor_values r.teensy.adc.adc i) r.teensy.sensors;
  };
  registers = turn_on r.registers;
}

abbrev pub with_program : ℕ → Robot → Robot
with_program n r = record r { teensy = record r.teensy { program = n } }

abbrev pub with_sensors : List Sensor → Robot → Robot
with_sensors sensors r = record r { teensy = record r.teensy { sensors = sensors } }

abbrev pub sensor_at : ℕ → List Sensor → Option Sensor
sensor_at i [] = none
sensor_at zero (s ∷ ss) = some s
sensor_at (suc i) (s ∷ ss) = sensor_at i ss

-- The signal of a sensor, if it is one of the six.
abbrev pub signal_of : ℕ → Option Signal
signal_of i =
    if i == 0
    then some sig_front_left
    else if i == 1
    then some sig_front_right
    else if i == 2
    then some sig_back_left
    else if i == 3
    then some sig_back_right
    else if i == 4
    then some sig_boom_front
    else if i == 5
    then some sig_boom_back
    else none

-- A call of the search, whose outputs go to the motors.
unfoldable pub search_call : (Search → Option Search) → Robot → Option Robot
unfolding drive
search_call call r = do
  s ← call (record r.search { outputs = [] })
  registers ← drive s.outputs r.registers
  some (record r { search = s; registers = registers })

abbrev pub with_beep : (by_zero : ℕ → ℕ) → (freq duration : ℕ) → Robot → Robot
with_beep by_zero freq duration r = record r {
  registers = do_beep by_zero (record { freq = freq; duration = duration }) r.registers;
}

module _ (fl : Floats) (pointer : ℕ) (by_zero : ℕ → ℕ) where
  open fl use {F, rat, of_int, add, mul, div, to_u16}

  abbrev pub calibrated : Sensor → Sensor
  calibrated s = record s {
    trigger =
        to_u16
          (add (of_int s.value) (mul (of_int ((adc_max + 65536 - s.value) % 65536)) (rat 3 4)));
  }

  abbrev pub calibrate_sensors : List Sensor → List Sensor
  calibrate_sensors (s0 ∷ s1 ∷ s2 ∷ s3 ∷ rest) =
      calibrated s0 ∷ calibrated s1 ∷ calibrated s2 ∷ calibrated s3 ∷ rest
  calibrate_sensors sensors = sensors

  unfoldable pub send_sensor_event : List ℕ → Robot → Option Robot
  send_sensor_event event r = do
    (status, s) ← kowhai_server_process_event pointer r.server sym_tablesensorevent event
    some (record r { server = s })

  -- The bytes of `struct table_sensor_event_t`.
  abbrev pub event_of : ℕ → Sensor → List ℕ
  event_of i s = i ∷ s.triggered ∷ to_bytes 2 s.value

  abbrev pub beeps : ℕ → Sensor → Robot → Robot
  beeps i s r =
      let once = with_beep by_zero (10 + 10 * i) 1000 r in
      if s.triggered == 0
      then once
      else with_beep by_zero (10 + 10 * i) 1000 (with_beep by_zero 0 500 once)

  -- With the sensor that changed, if one did.
  unfoldable pub report_sensor : (beep : Bool) → Option (ℕ × List Sensor) → Robot → Option Robot
  unfolding send_sensor_event
  report_sensor beep none r = some r
  report_sensor beep (some (i, sensors)) r = do
    s ← sensor_at i sensors
    r' ← send_sensor_event (event_of i s) (with_sensors sensors r)
    some (if beep then beeps i s r' else r')

  unfoldable pub signal_sensor : Option (ℕ × List Sensor) → Robot → Option Robot
  unfolding search_call
  signal_sensor none r = some r
  signal_sensor (some (i, sensors)) r = do
    s ← sensor_at i sensors
    elim (signal_of i) [
      | none ↦ some (with_sensors sensors r)
      | some g ↦
          search_call (can_search_signal fl g (of_int s.triggered) (of_int 0))
            (with_sensors sensors r)
    ]

  -- The switch.
  unfoldable pub run_program : Program → Robot → Option Robot
  unfolding report_sensor signal_sensor
  run_program program_calibrate_table_sensors r =
      some (with_program null_number (with_sensors (calibrate_sensors r.teensy.sensors) r))
  run_program program_report_sensors r = report_sensor false (check_sensors r.teensy.sensors) r
  run_program program_report_sensors_with_beep r =
      report_sensor true (check_sensors r.teensy.sensors) r
  run_program program_stay_on_table r =
      let (stay, registers) = stay_on_table r.teensy.sensors r.stay r.registers in
      some (record r { stay = stay; registers = registers })
  run_program program_can_search_init_01 r =
      search_call (can_search_init fl sm_push) (with_sensors (calibrate_sensors r.teensy.sensors) r)
      >>= (λ r'. some (with_program can_search_number r'))
  run_program program_can_search_init_02 r =
      search_call (can_search_init fl sm_spin) (with_sensors (calibrate_sensors r.teensy.sensors) r)
      >>= (λ r'. some (with_program can_search_number r'))
  run_program program_can_search r = signal_sensor (check_sensors r.teensy.sensors) r
  run_program program_bootloader r = some (record r { in_bootloader = true })
  run_program program_null r = some r
  run_program other_program r = some r

  unfoldable pub step_program : Inputs → Robot → Option Robot
  unfolding run_program
  step_program i r = run_program (program_of r.teensy.program) (sample i r)
