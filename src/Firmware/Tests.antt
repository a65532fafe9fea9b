-- ===== src/Firmware/Tests.antt =====
-- Tests of the model of teensy/usb_rawhid/example.c, and uses of its theorems.
use beaverbot.Prelude.{ℕ, ◌≡◌, refl, some, none, List, [], ◌∷◌, map, arith, true}
use mathlib.Core.Option
use beaverbot.Firmware.Sensors.{
  Sensor, check_sensor, check_from, check_sensors, unsettled, AllSane, checks, checks-settled,
}
use beaverbot.CanSearch.{Search, power_on}
use beaverbot.CanSearch.Tests.{thousandths, searching, searching-IsLive}
use beaverbot.CanSearch.Machine.{can_search_signal, transition, dispatch}
use beaverbot.CanSearch.Handlers.{search_wall, reverse}
use beaverbot.CanSearch.Motors.{set_motors_backwards}
use beaverbot.CanSearch.Invariant.{IsLive}
use beaverbot.CanSearch.Ticks.{at_rest}
use beaverbot.Server.Tests.{server}
use beaverbot.Firmware.Robot.{Teensy, Robot}
use beaverbot.Firmware.Program.{
  Inputs, can_search_number, step_program, program_of, sample, run_program, signal_sensor,
  search_call,
}
use beaverbot.Firmware.Events.{Event, run_events}
use beaverbot.Firmware.Runs.{run_events-IsLive}
use beaverbot.Firmware.Edge.{HasBackedOff, step-HasBackedOff}
use beaverbot.Prelude.{if◌then◌else◌, ◌==◌, false, inl}

abbrev sensor : (value triggered : ℕ) → Sensor
sensor value triggered = record { trigger = 800; value = value; triggered = triggered }

-- Two sensors over the edge, one of them reported, and a boom that has just risen.
abbrev sensors : List Sensor
sensors =
    sensor 900 0 ∷ sensor 900 1 ∷ sensor 100 0 ∷ sensor 100 0 ∷ sensor 0x80 0 ∷ sensor 0 0 ∷ []

first_report : Option.map (λ r. r.0) (check_sensors sensors) ≡ some 0
unfolding check_sensors check_from check_sensor
first_report = refl

sensors-AllSane : AllSane 0 sensors
sensors-AllSane = ground arith

checks-settled_example :
    (after : List Sensor) × (checks 2 sensors ≡ some after)
    × (unsettled 0 after ≡ 0)
    × (check_sensors after ≡ none)
    × (map (λ s. s.value) after ≡ 900 ∷ 900 ∷ 100 ∷ 100 ∷ 0x80 ∷ 0 ∷ [])
checks-settled_example = checks-settled 2 sensors sensors-AllSane refl

abbrev teensy : (program : ℕ) → Teensy
teensy program = record {
  led = 0;
  gpio = λ k. record { ddr = 0; port = 0; pin = 0 };
  adc = record { didr0 = 0; didr1 = 0; adc = λ k. if k == 7 then 900 else 100 };
  timer2 = record { tccr2a = 0; tccr2b = 0; ocr2a = 0; ocr2b = 0 };
  program = program;
  sensors =
      sensor 100 0 ∷ sensor 100 0 ∷ sensor 100 0 ∷ sensor 100 0 ∷ sensor 0 0 ∷ sensor 0 0 ∷ [];
}

-- The robot with a program and a search.
abbrev robot : (program : ℕ) → Search → Robot
robot program search = record {
  teensy = teensy program;
  motor_set = record {
    first = record { direction = 0; value = 0 };
    second = record { direction = 0; value = 0 };
  };
  beep = record { freq = 0; duration = 0 };
  guidance = record { x = 0; y = 0; window_width = 0; window_height = 0 };
  stay = record { sot_state = 1; saw_table_edge_front = 0; saw_table_edge_rear = 0 };
  registers = record {
    ddr = λ k. 0;
    port = λ k. 0;
    didr0 = 0;
    didr1 = 0;
    tccr2a = 0;
    tccr2b = 0;
    ocr2a = 0;
    ocr2b = 0;
  };
  search = search;
  server = server;
  in_bootloader = false;
}

abbrev inputs : Inputs
inputs = record { front = 0; back = 0 }

-- The host starts the can search, and the front left sensor is over the edge in the second step.
abbrev events : List (Event thousandths 2 (λ d. d))
events =
    Event.host_write true (λ t. record t { program = 5 })
    ∷ Event.main_step inputs
    ∷ Event.interrupt (record { pin = λ k. 0; conversion = λ k. 900 })
    ∷ Event.main_step inputs
    ∷ Event.host_call (robot 0 power_on).motor_set (robot 0 power_on).beep
        (record { x = 10; y = 10; window_width = 20; window_height = 20 }) 27
    ∷ []

run_events-IsLive_example :
    (r : Robot) × (run_events thousandths 2 (λ d. d) events (robot 0 power_on) ≡ some r)
    × (r.teensy.program ≡ can_search_number → IsLive at_rest r.search)
run_events-IsLive_example =
    run_events-IsLive thousandths 2 (λ d. d) events (robot 0 power_on) refl (λ e. omega arith)
      (omega arith) ((λ t e. absurd (omega arith)), (tt, (tt, (tt, (tt, tt)))))

reported :
    check_sensors (sample inputs (robot 100 searching)).teensy.sensors
    ≡ some (
      0,
      sensor 900 1 ∷ sensor 100 0 ∷ sensor 100 0 ∷ sensor 100 0 ∷ sensor 0 0 ∷ sensor 0 0 ∷ [],
    )
unfolding check_sensors check_from check_sensor sample
reported = refl

step-HasBackedOff_example :
    HasBackedOff thousandths 2
      (λ d. d)
      (step_program thousandths 2 (λ d. d) inputs (robot 100 searching))
step-HasBackedOff_example =
    step-HasBackedOff thousandths 2 (λ d. d) inputs (robot 100 searching) 0
      (sensor 900 1 ∷ sensor 100 0 ∷ sensor 100 0 ∷ sensor 100 0 ∷ sensor 0 0 ∷ sensor 0 0 ∷ [])
      (sensor 900 1) refl searching-IsLive (inl refl) reported (omega arith) refl refl

-- If the host writes the number of the can search itself, the callback is still null when the front
-- sensor is over the edge.
null_callback : step_program thousandths 2 (λ d. d) inputs (robot 100 power_on) ≡ none
unfolding step_program program_of sample run_program signal_sensor search_call check_sensors
    check_from check_sensor can_search_signal transition dispatch search_wall reverse
    set_motors_backwards
null_callback = refl
