-- ===== src/Firmware/Edge.antt =====
-- What teensy/usb_rawhid/example.c does to the motors when the can search meets the table's edge.
use beaverbot.Prelude.{
  ℕ, zero, suc, ◌-◌, ◌<◌, ◌≡◌, ◌⊎◌, refl, ap, ◌∙◌, sym, true, Option, some, >>=-some, List, ◌∷◌,
  All, arith, inl, inr,
}
use mathlib.Core.Path.{subst}
use mathlib.Core.Option.{some-injective}
use beaverbot.CanSearch.{Signal, sig_front_left, sig_front_right, Floats, Output, motors}
use beaverbot.CanSearch.Handlers.{is_set}
use beaverbot.CanSearch.Machine.{can_search_signal}
use beaverbot.CanSearch.Invariant.{IsDriven, IsLive}
use beaverbot.CanSearch.Ticks.{at_rest}
use beaverbot.CanSearch.Runs.{signal, step, after, step-IsLive}
use beaverbot.CanSearch.Edge.{IsRoaming, BacksOff, edge-BacksOff}
use beaverbot.Firmware.Sensors.{Sensor, check_sensors}
use beaverbot.Firmware.Robot.{Registers, Robot, port_f}
use beaverbot.Firmware.Drive.{drive, motor_set_, motor_set__}
use beaverbot.Firmware.Program.{
  Inputs, step_program, can_search_number, search_call, sensor_at, signal_of, signal_sensor,
  run_program, sample, program_of, with_sensors,
}
use beaverbot.Firmware.Events.{drive-IsDriven, quiet, quiet-IsLive}

-- Both motors backwards, the first with the duty cycle and the second with 80 less.
pub record Reverses (duty : ℕ) (r : Registers) : Type 0 where
  pub directions : r.port port_f ≡ 5
  pub first : r.ocr2a ≡ duty
  pub second : r.ocr2b ≡ duty - 80

drive-Reverses :
    (duty : ℕ) (outputs rest : List Output) (r : Registers)
    → All IsDriven outputs
    → outputs ≡ motors 2 duty 2 (duty - 80) ∷ rest
    → (r' : Registers) × (drive outputs r ≡ some r') × Reverses duty r'
unfolding drive motor_set__ motor_set_
drive-Reverses duty outputs rest r h e =
    let driven : All IsDriven (motors 2 duty 2 (duty - 80) ∷ rest) = subst (All IsDriven) e h in
    let (r', d) = drive-IsDriven rest r driven.1 in
    (
      motor_set__ 2 duty 2 (duty - 80) r',
      ap (λ l. drive l r) e ∙ >>=-some _ d,
      record { directions = refl; first = refl; second = refl },
    )

module _ (fl : Floats) (pointer : ℕ) (by_zero : ℕ → ℕ) where
  open fl use {F, of_int}

  -- The robot has backed off.
  pub record HasBackedOff (call : Option Robot) : Type 0 where
    pub robot : Robot
    pub done : call ≡ some robot
    pub backs_off : BacksOff robot.search
    pub reverses : Reverses robot.search.base_duty_cycle robot.registers

  -- The search may handle the signal to the end, with a live search.
  signal_edge :
      (g : Signal) (p1 p2 : F) (r : Robot)
      → IsLive at_rest r.search
      → IsRoaming r.search.current_state
      → (g ≡ sig_front_left) ⊎ (g ≡ sig_front_right)
      → is_set fl p1 ≡ true
      → HasBackedOff (search_call (can_search_signal fl g p1 p2) r)
  unfolding search_call step
  signal_edge g p1 p2 r live roams front on =
      let q = quiet-IsLive r.search live in
      let (u, e, backs) = edge-BacksOff fl g p1 p2 (quiet r.search) q roams front on in
      let (e', live') = step-IsLive fl (signal g p1 p2 (ground arith)) (quiet r.search) q in
      let driven : All IsDriven u.outputs =
        subst (λ s. All IsDriven s.outputs) (some-injective _ _ (sym e' ∙ e))
          live'.bounded.driven in
      let (rest, outputs) = backs.2 in
      let (registers, d, reverses) =
        drive-Reverses u.base_duty_cycle u.outputs rest r.registers driven outputs in
      record {
        robot = record r { search = u; registers = registers };
        done = >>=-some _ e ∙ >>=-some _ d;
        backs_off = backs;
        reverses = reverses;
      }

  HasBackedOff-by : {a b : Option Robot} → a ≡ b → HasBackedOff b → HasBackedOff a
  HasBackedOff-by e h = record {
    robot = h.robot;
    done = e ∙ h.done;
    backs_off = h.backs_off;
    reverses = h.reverses;
  }

  front_signal :
      (n : ℕ)
      → n < 2
      → (g : Signal) × (signal_of n ≡ some g) × ((g ≡ sig_front_left) ⊎ (g ≡ sig_front_right))
  front_signal zero h = (sig_front_left, refl, inl refl)
  front_signal (suc zero) h = (sig_front_right, refl, inr refl)
  front_signal (suc (suc n)) h = absurd (omega arith)

  one-is_set : {n : ℕ} → n ≡ 1 → is_set fl (of_int n) ≡ true
  one-is_set e = rw (e, fl.to_int-of_int 1 (omega arith)) refl

  -- When the can search runs, live and in one of the roaming states, and the step's check reports that
  -- a front sensor is off the table, the step is carried out and leaves the search backing off and both
  -- motors turning backwards, the first with the duty cycle of the search and the second with 80 less.
  pub step-HasBackedOff :
      (i : Inputs) (r : Robot) (n : ℕ) (after : List Sensor) (s : Sensor)
      → r.teensy.program ≡ can_search_number
      → IsLive at_rest r.search
      → IsRoaming r.search.current_state
      → check_sensors (sample i r).teensy.sensors ≡ some (n, after)
      → n < 2
      → sensor_at n after ≡ some s
      → s.triggered ≡ 1
      → HasBackedOff (step_program fl pointer by_zero i r)
  unfolding step_program run_program program_of signal_sensor sample
  step-HasBackedOff i r n after s program live roams reports front there off =
      let (g, e, is_front) = front_signal n front in
      HasBackedOff-by
        (ap (λ p. run_program fl pointer by_zero p (sample i r)) (ap program_of program)
          ∙ ap (λ x. signal_sensor fl pointer by_zero x (sample i r)) reports
          ∙ >>=-some _ there
          ∙ rw e refl)
        (signal_edge g (of_int s.triggered) (of_int 0) (with_sensors after (sample i r)) live roams
          is_front (one-is_set off))
