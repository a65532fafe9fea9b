-- ===== src/CanSearch/Motors.antt =====
-- The motor commands of teensy/usb_rawhid/can_search.c.
use beaverbot.Prelude.{ℕ, ◌+◌, ◌-◌, ◌*◌, ◌/◌, if◌then◌else◌, u8}
use beaverbot.CanSearch.{Floats, Search, motor_set, spin_duty, spin_super_duty}

unfoldable pub set_left_motor : Search → Search
set_left_motor s = motor_set 0 0 1 s.base_duty_cycle s

unfoldable pub set_right_motor : Search → Search
set_right_motor s = motor_set 1 s.base_duty_cycle 0 0 s

unfoldable pub set_motors_forwards : Search → Search
set_motors_forwards s = motor_set 1 s.base_duty_cycle 1 s.base_duty_cycle s

unfoldable pub set_motors_forwards_slow : Search → Search
set_motors_forwards_slow s = motor_set 1 (s.base_duty_cycle * 2 / 3) 1 (s.base_duty_cycle * 2 / 3) s

unfoldable pub set_motors_forwards_left_hardish : Search → Search
set_motors_forwards_left_hardish s = motor_set 1 s.base_duty_cycle 1 (s.base_duty_cycle * 5 / 7) s

unfoldable pub set_motors_forwards_left_hard : Search → Search
set_motors_forwards_left_hard s = motor_set 1 s.base_duty_cycle 1 (s.base_duty_cycle * 5 / 9) s

unfoldable pub set_motors_forwards_right : Search → Search
set_motors_forwards_right s = motor_set 1 (s.base_duty_cycle * 4 / 5) 1 s.base_duty_cycle s

-- The difference is an `int` that may be negative; 256 more is the same `uint8_t`.
unfoldable pub set_motors_backwards : Search → Search
set_motors_backwards s = motor_set 2 s.base_duty_cycle 2 (s.base_duty_cycle + 256 - 80) s

unfoldable pub set_motors_none : Search → Search
set_motors_none s = motor_set 0 0 0 0 s

unfoldable pub set_motors_spin_right : Search → Search
set_motors_spin_right s = motor_set 2 spin_duty 1 spin_duty s

unfoldable pub set_motors_spin_left : Search → Search
set_motors_spin_left s = motor_set 1 spin_duty 2 spin_duty s

unfoldable pub set_motors_spin_super : Search → Search
set_motors_spin_super s = motor_set 2 spin_super_duty 1 spin_super_duty s

module _ (fl : Floats) where
  open fl use {F, rat, of_int, ltf, sub, mul, div, to_u8}

  -- `diff = base - value; value += (uint8_t)(diff * (DAMPER_SCALE - 1) / DAMPER_SCALE)`
  unfoldable pub damp : ℕ → ℕ → ℕ
  damp base value =
      let diff = u8 (base + 256 - value) in
      u8 (value + to_u8 (div (mul (of_int diff) (sub (rat 4 1) (of_int 1))) (rat 4 1)))

  unfoldable pub set_motors_from_can_pos : F → ℕ → Search → Search
  unfolding damp
  set_motors_from_can_pos x base s =
      let value1 : ℕ =
        if ltf (rat 1 2) x
        then damp base (to_u8 (mul (div (sub x (rat 1 2)) (rat 1 2)) (of_int base)))
        else u8 base in
      let value2 : ℕ =
        if ltf x (rat 1 2)
        then damp base (to_u8 (mul (div x (rat 1 2)) (of_int base)))
        else u8 base in
      motor_set 1 value1 1 value2 s
