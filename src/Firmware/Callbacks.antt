-- ===== src/Firmware/Callbacks.antt =====
-- What calls into teensy/usb_rawhid/example.c from outside of its loop: `function_called`, which the
-- server calls, and the timer interrupt.
use beaverbot.Prelude.{ℕ, ◌^◌, ◌==◌, if◌then◌else◌, Bool, true, false, Option, some, ◌>>=◌}
use beaverbot.CanSearch.{sig_can_spotted, Floats}
use beaverbot.CanSearch.Machine.{can_search_signal, can_search_tick}
use beaverbot.Firmware.Robot.{Gpio, Guidance, Robot, updated}
use beaverbot.Firmware.Drive.{motor_set_, do_beep}
use beaverbot.Firmware.Trees.{sym_motorset, sym_beep, sym_guidance}
use beaverbot.Firmware.Program.{Samples, bit_of, can_search_number, search_call}

module _ (fl : Floats) (pointer : ℕ) (by_zero : ℕ → ℕ) where
  open fl use {F, rat, of_int, add, mul, div, to_u16}

  -- A can is seen, if the program searches and the window has a width.
  unfoldable pub guide : Guidance → Robot → Option Robot
  unfolding search_call
  guide g r =
      if r.teensy.program == can_search_number
      then (if g.window_width == 0
          then some r
          else search_call
              (can_search_signal fl sig_can_spotted (div (of_int g.x) (of_int g.window_width))
                (div (of_int g.y) (of_int g.window_height)))
              r)
      else some r

  unfoldable pub function_called : (function_id : ℕ) → Robot → Option (Bool × Robot)
  unfolding guide
  function_called id r =
      if id == sym_motorset
      then some (true, record r { registers = motor_set_ r.motor_set r.registers })
      else if id == sym_beep
      then some (true, record r { registers = do_beep by_zero r.beep r.registers })
      else if id == sym_guidance
      then guide r.guidance r >>= (λ r'. some (true, r'))
      else some (false, r)

  -- READ_PIN of every port.
  abbrev pub read_pins : (ℕ → ℕ) → (ℕ → Gpio) → ℕ → Gpio
  read_pins pin gpio k = record (gpio k) { pin = pin k }

  -- READ_ADC.
  abbrev pub read_adc : (didr0 : ℕ) → (mux value : ℕ) → (ℕ → ℕ) → ℕ → ℕ
  read_adc didr0 mux value adc = if bit_of (2 ^ mux) didr0 == 0 then adc else updated mux value adc

  abbrev pub read_all : (didr0 : ℕ) → (ℕ → ℕ) → (ℕ → ℕ) → ℕ → ℕ
  read_all d c adc =
      let low =
        read_adc d 3 (c 3) (read_adc d 2 (c 2) (read_adc d 1 (c 1) (read_adc d 0 (c 0) adc))) in
      let high =
        read_adc d 7 (c 7) (read_adc d 6 (c 6) (read_adc d 5 (c 5) (read_adc d 4 (c 4) low))) in
      read_adc d 0 (c 8) high

  unfoldable pub timer_interrupt : Samples → Robot → Option Robot
  unfolding search_call
  timer_interrupt x r =
      let t = r.teensy in
      let r' = record r {
        teensy = record t {
          gpio = read_pins x.pin t.gpio;
          adc = record t.adc { adc = read_all r.registers.didr0 x.conversion t.adc.adc };
        };
      } in
      if t.program == can_search_number then search_call (can_search_tick fl) r' else some r'
