-- ===== src/Firmware/Robot.antt =====
-- The state of teensy/usb_rawhid/example.c: its structs, the registers that it uses, and the state of
-- the search and of the server. An array of a struct is a function of the index.
use beaverbot.Prelude.{ℕ, ◌+◌, ◌-◌, ◌/◌, ◌%◌, ◌==◌, if◌then◌else◌, Bool, List}
use beaverbot.CanSearch.{Search}
use beaverbot.Server.{Server}
use beaverbot.Firmware.Sensors.{Sensor}

pub record Gpio : Type 0 where
  pub ddr : ℕ
  pub port : ℕ
  pub pin : ℕ

pub record Adc : Type 0 where
  pub didr0 : ℕ
  pub didr1 : ℕ
  pub adc : ℕ → ℕ

pub record Timer2 : Type 0 where
  pub tccr2a : ℕ
  pub tccr2b : ℕ
  pub ocr2a : ℕ
  pub ocr2b : ℕ

-- `struct teensy_t`.
pub record Teensy : Type 0 where
  pub led : ℕ
  pub gpio : ℕ → Gpio
  pub adc : Adc
  pub timer2 : Timer2
  pub program : ℕ
  pub sensors : List Sensor

pub record Motor : Type 0 where
  pub direction : ℕ
  pub value : ℕ

-- `struct motor_set_t`.
pub record MotorSet : Type 0 where
  pub first : Motor
  pub second : Motor

-- `struct beep_t`.
pub record Beep : Type 0 where
  pub freq : ℕ
  pub duration : ℕ

-- `struct guidance_t`.
pub record Guidance : Type 0 where
  pub x : ℕ
  pub y : ℕ
  pub window_width : ℕ
  pub window_height : ℕ

-- DDRA to DDRF and PORTA to PORTF, by the port's index, and the other registers that are written.
pub record Registers : Type 0 where
  pub ddr : ℕ → ℕ
  pub port : ℕ → ℕ
  pub didr0 : ℕ
  pub didr1 : ℕ
  pub tccr2a : ℕ
  pub tccr2b : ℕ
  pub ocr2a : ℕ
  pub ocr2b : ℕ

-- The variables of `stay_on_table`.
pub record Stay : Type 0 where
  pub sot_state : ℕ
  pub saw_table_edge_front : ℕ
  pub saw_table_edge_rear : ℕ

-- `in_bootloader` says that the program has jumped to the boot loader and does not run any more.
pub record Robot : Type 0 where
  pub teensy : Teensy
  pub motor_set : MotorSet
  pub beep : Beep
  pub guidance : Guidance
  pub stay : Stay
  pub registers : Registers
  pub search : Search
  pub server : Server
  pub in_bootloader : Bool

abbrev pub port_b : ℕ
port_b = 1

abbrev pub port_c : ℕ
port_c = 2

abbrev pub port_d : ℕ
port_d = 3

abbrev pub port_f : ℕ
port_f = 5

-- The function with another value at one index.
abbrev pub updated : {A : Type 0} → ℕ → A → (ℕ → A) → ℕ → A
updated i x f k = if k == i then x else f k

-- A bit of a byte, by its weight, set, cleared and turned over.
abbrev pub set_bit : (weight byte : ℕ) → ℕ
set_bit weight byte = if byte / weight % 2 == 0 then byte + weight else byte

abbrev pub clear_bit : (weight byte : ℕ) → ℕ
clear_bit weight byte = if byte / weight % 2 == 0 then byte else byte - weight

abbrev pub flip_bit : (weight byte : ℕ) → ℕ
flip_bit weight byte = if byte / weight % 2 == 0 then byte + weight else byte - weight

abbrev pub set_port : ℕ → ℕ → Registers → Registers
set_port i x r = record r { port = updated i x r.port }

abbrev pub set_ddr : ℕ → ℕ → Registers → Registers
set_ddr i x r = record r { ddr = updated i x r.ddr }
