-- ===== src/Firmware/Drive.antt =====
-- What teensy/usb_rawhid/example.c does to the registers: `motor_set_`, `motor_set__`, `do_beep`,
-- `node_post_write` and `stay_on_table`.
use beaverbot.Prelude.{
  ℕ, zero, suc, ◌+◌, ◌-◌, ◌%◌, ◌||◌, ltb, ◌==◌, not, if◌then◌else◌, Option, none, some, ◌>>=◌, List,
  [], ◌∷◌,
}
use beaverbot.CanSearch.{Output, motors, null_call, delay_ms}
use beaverbot.Firmware.Sensors.{Sensor}
use beaverbot.Firmware.Robot.{
  MotorSet, Beep, Registers, Stay, Teensy, set_port, set_ddr, set_bit, clear_bit, flip_bit, port_c,
  port_d, port_f,
}

-- The two bits of a motor's direction: `forwards` for 1 and `backwards` for 2.
abbrev pub direction_bits : (direction forwards backwards : ℕ) → ℕ
direction_bits direction forwards backwards =
    if direction == 1 then forwards else if direction == 2 then backwards else 0

unfoldable pub motor_set_ : MotorSet → Registers → Registers
motor_set_ ms r =
    record (set_port port_f
      (direction_bits ms.first.direction 2 1 + direction_bits ms.second.direction 8 4) r) {
        ocr2a = ms.first.value;
        ocr2b = ms.second.value;
      }

unfoldable pub motor_set__ : (direction1 value1 direction2 value2 : ℕ) → Registers → Registers
unfolding motor_set_
motor_set__ direction1 value1 direction2 value2 r =
    motor_set_
      (record {
        first = record { direction = direction1; value = value1 };
        second = record { direction = direction2; value = value2 };
      })
      r

-- The calls that the search makes through its callback, the latest first; a call of the null
-- pointer is a fault.
unfoldable pub drive : List Output → Registers → Option Registers
unfolding motor_set__
drive [] r = some r
drive (motors d1 v1 d2 v2 ∷ rest) r = do r' ← drive rest r; some (motor_set__ d1 v1 d2 v2 r')
drive (null_call ∷ rest) r = none
drive (delay_ms n ∷ rest) r = drive rest r

-- `duration % freq`, where `by_zero` is what the processor's division leaves for a zero divisor.
abbrev pub remainder : (by_zero : ℕ → ℕ) → ℕ → ℕ → ℕ
remainder by_zero duration zero = by_zero duration
remainder by_zero duration (suc n) = duration % suc n

-- The `while` loop, which counts the duration down, on PORTC.
unfoldable pub beep_loop : (by_zero : ℕ → ℕ) → (freq duration portc : ℕ) → ℕ
beep_loop by_zero freq zero portc = portc
beep_loop by_zero freq (suc d) portc =
    beep_loop by_zero freq d
      (if remainder by_zero (suc d) freq == 0 then flip_bit 1 portc else portc)

-- A duration from 32768 on is a negative `int`, and the loop does not run.
unfoldable pub do_beep : (by_zero : ℕ → ℕ) → Beep → Registers → Registers
unfolding beep_loop
do_beep by_zero b r =
    let r' = set_ddr port_c (set_bit 2 (set_bit 1 (r.ddr port_c))) r in
    if ltb b.duration 32768
    then set_port port_c (beep_loop by_zero b.freq b.duration (r'.port port_c)) r'
    else r'

-- WRITE_PORT.
abbrev pub write_port : Teensy → ℕ → Registers → Registers
write_port t i r = set_port i (t.gpio i).port (set_ddr i (t.gpio i).ddr r)

unfoldable pub node_post_write : Teensy → Registers → Registers
node_post_write t r =
    let led =
      set_port port_d
        (if not (t.led == 0) then set_bit 64 (r.port port_d) else clear_bit 64 (r.port port_d)) r in
    record (write_port t 5
      (write_port t 4 (write_port t 3 (write_port t 2 (write_port t 1 (write_port t 0 led)))))) {
        didr0 = t.adc.didr0;
        didr1 = t.adc.didr1;
        tccr2a = t.timer2.tccr2a;
        tccr2b = t.timer2.tccr2b;
        ocr2a = t.timer2.ocr2a;
        ocr2b = t.timer2.ocr2b;
      }

abbrev pub sot_find_edge : ℕ
sot_find_edge = 1

abbrev pub sot_found_edge : ℕ
sot_found_edge = 2

abbrev pub set_speeds : (ocr2a ocr2b : ℕ) → Registers → Registers
set_speeds ocr2a ocr2b r = record r { ocr2a = ocr2a; ocr2b = ocr2b }

-- What the sensors over the edge start.
unfoldable pub see_edges : (s0 s1 s2 : Sensor) → Stay → Stay
see_edges s0 s1 s2 stay = record stay {
  saw_table_edge_front =
      if ltb s0.trigger s0.value || ltb s1.trigger s1.value
      then 10000
      else stay.saw_table_edge_front;
  saw_table_edge_rear = if ltb s2.trigger s2.value then 30000 else stay.saw_table_edge_rear;
}

-- The part of `stay_on_table` under `if (saw_table_edge_front)`, with the values of the booms.
unfoldable pub stay_drive : (boom_front boom_back : ℕ) → Stay → Registers → Stay × Registers
stay_drive boom_front boom_back stay r =
    if not (stay.saw_table_edge_front == 0)
    then (
      record stay {
        sot_state = sot_find_edge;
        saw_table_edge_front = stay.saw_table_edge_front - 1;
      },
      set_speeds 60 20 (set_port port_f 5 r),
    )
    else if not (boom_front == 0)
    then (
      record stay { sot_state = sot_found_edge },
      set_speeds (if not (boom_back == 0) then 0 else 75) 100 (set_port port_f 10 r),
    )
    else if stay.sot_state == sot_find_edge
    then (stay, set_speeds 75 100 (set_port port_f 10 r))
    else (stay, set_speeds 100 75 (set_port port_f 10 r))

-- The end of `stay_on_table`.
unfoldable pub stay_stop : Stay × Registers → Stay × Registers
stay_stop (stay, r) =
    if not (stay.saw_table_edge_rear == 0)
    then (
      record stay { saw_table_edge_rear = stay.saw_table_edge_rear - 1 },
      set_speeds 0 0 (set_port port_f 0 r),
    )
    else (stay, r)

-- On the six sensors, whose number is fixed; the list is never shorter.
unfoldable pub stay_on_table : List Sensor → Stay → Registers → Stay × Registers
unfolding see_edges stay_drive stay_stop
stay_on_table (s0 ∷ s1 ∷ s2 ∷ s3 ∷ s4 ∷ s5 ∷ rest) stay r =
    stay_stop (stay_drive s4.value s5.value (see_edges s0 s1 s2 stay) r)
stay_on_table sensors stay r = (stay, r)
