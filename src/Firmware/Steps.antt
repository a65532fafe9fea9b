-- ===== src/Firmware/Steps.antt =====
-- Each call of teensy/usb_rawhid/example.c keeps what holds between two of them.
use beaverbot.Prelude.{
  ℕ, ◌<◌, ◌≡◌, refl, ap, ◌∙◌, Bool, true, false, ◌==◌, Option, some, ◌>>=◌, >>=-some, List, arith,
  Bool-cases, Option-cases, inl, inr, map, length, if◌then◌else◌,
}
use beaverbot.CanSearch.{sm_push, sm_spin, Signal, sig_can_spotted, Floats, SearchMode}
use beaverbot.CanSearch.Invariant.{IsLive}
use beaverbot.CanSearch.Diagram.Follows.{IsOutside}
use beaverbot.CanSearch.Ticks.{at_rest}
use beaverbot.CanSearch.Runs.{step, signal, tick}
use beaverbot.CanSearch.Machine.{can_search_init, can_search_signal, can_search_tick}
use beaverbot.Server.{emit, sent}
use beaverbot.Server.Chunks.Answers.{event-IsAnswered}
use beaverbot.Firmware.Sensors.{Sensor, check_sensors}
use beaverbot.Firmware.Robot.{Guidance, Robot}
use beaverbot.Firmware.Trees.{sym_tablesensorevent, sym_motorset, sym_beep, sym_guidance}
use beaverbot.Firmware.Program.{
  Program, Inputs, Samples, step_program, can_search_number, search_call, signal_of, signal_sensor,
  report_sensor, send_sensor_event, run_program, sample, program_of, with_sensors, event_of,
  program_can_search, with_program, program_null, program_calibrate_table_sensors,
  program_report_sensors, program_report_sensors_with_beep, program_stay_on_table,
  program_can_search_init_01, program_can_search_init_02, program_bootloader, other_program, beeps,
}
use beaverbot.Firmware.Callbacks.{timer_interrupt, function_called, guide}
use beaverbot.Firmware.Events.{
  IsReady, Stays, call-Calls, init-Calls, called-Stays, check_sensors-there, check_sensors-there,
  Stays-by, Stays-then, IsReady-same,
}
use beaverbot.Kowhai.Access.Bytes.{length-to_bytes}

module _ (fl : Floats) (pointer : ℕ) (by_zero : ℕ → ℕ) where
  open fl use {F, of_int}

  signal-Stays :
      (g : Signal) (p1 p2 : F) (r : Robot)
      → IsOutside g
      → IsLive at_rest r.search
      → 7 < r.server.max_packet_size
      → Stays (search_call (can_search_signal fl g p1 p2) r)
  unfolding step
  signal-Stays g p1 p2 r o live room =
      called-Stays fl pointer by_zero (can_search_signal fl g p1 p2) r room
        (call-Calls fl pointer by_zero (signal g p1 p2 o) r live)

  guide-Stays : (g : Guidance) (r : Robot) → IsReady r → Stays (guide fl pointer by_zero g r)
  unfolding guide
  guide-Stays g r h = elim (Bool-cases (r.teensy.program == can_search_number)) [
    | inr other ↦ rw other (r, refl, h)
    | inl searching ↦ elim (Bool-cases (g.window_width == 0)) [
      | inl no_window ↦ rw (searching, no_window) (r, refl, h)
      | inr window ↦
          rw (searching, window)
            (signal-Stays sig_can_spotted _ _ r (λ e. cc, λ e. cc) (h.searching (ground arith))
              h.room)
    ]
  ]

  signal_of-IsOutside : (n : ℕ) {g : Signal} → signal_of n ≡ some g → IsOutside g
  signal_of-IsOutside n e = ground arith

  signal_sensor-Stays :
      (r : Robot)
      → IsReady r
      → IsLive at_rest r.search
      → Stays (signal_sensor fl pointer by_zero (check_sensors r.teensy.sensors) r)
  unfolding signal_sensor
  signal_sensor-Stays r h live = elim (check_sensors-there r.teensy.sensors) [
    | inl quiet ↦ Stays-by (ap (λ x. signal_sensor fl pointer by_zero x r) quiet) (r, refl, h)
    | inr (n, after, s, reports, there) ↦
        Stays-by (ap (λ x. signal_sensor fl pointer by_zero x r) reports ∙ >>=-some _ there)
          (elim (Option-cases (signal_of n)) [
            | inl e ↦ rw e (with_sensors after r, refl, IsReady-same refl refl refl h)
            | inr (g, e) ↦ rw e (
                signal-Stays g (of_int s.triggered) (of_int 0) (with_sensors after r)
                  (signal_of-IsOutside n e) live h.room)
          ])
  ]

  send_event-Stays :
      (event : List ℕ) (r : Robot)
      → length event < 65536
      → IsReady r
      → Stays (send_sensor_event fl pointer by_zero event r)
  unfolding send_sensor_event
  send_event-Stays event r small h =
      let sends =
        event-IsAnswered pointer r.server sym_tablesensorevent event (omega arith) small h.room in
      Stays-by (>>=-some _ sends.done) (
        record r { server = emit r.server (map sent sends.packets) },
        refl,
        IsReady-same refl refl refl h,
      )

  beeped-Stays :
      (beep : Bool) (n : ℕ) (s : Sensor) (r : Robot)
      → IsReady r
      → Stays (some (if beep then beeps fl pointer by_zero n s r else r))
  beeped-Stays false n s r h = (r, refl, h)
  beeped-Stays true n s r h = elim (Bool-cases (s.triggered == 0)) [
    | inl e ↦ rw e (_, refl, IsReady-same refl refl refl h)
    | inr e ↦ rw e (_, refl, IsReady-same refl refl refl h)
  ]

  report_sensor-Stays :
      (beep : Bool) (r : Robot)
      → IsReady r
      → Stays (report_sensor fl pointer by_zero beep (check_sensors r.teensy.sensors) r)
  unfolding report_sensor
  report_sensor-Stays beep r h = elim (check_sensors-there r.teensy.sensors) [
    | inl quiet ↦ Stays-by (ap (λ x. report_sensor fl pointer by_zero beep x r) quiet) (r, refl, h)
    | inr (n, after, s, reports, there) ↦
        Stays-by (ap (λ x. report_sensor fl pointer by_zero beep x r) reports ∙ >>=-some _ there) (
          Stays-then _
            (send_event-Stays (event_of fl pointer by_zero n s) (with_sensors after r)
              (omega (arith, length-to_bytes 2 s.value)) (IsReady-same refl refl refl h))
            (beeped-Stays beep n s))
  ]

  init-Stays :
      (mode : SearchMode) (r : Robot)
      → IsReady r
      → Stays (
          search_call (can_search_init fl mode) r
          >>= (λ r'. some (with_program can_search_number r')))
  init-Stays mode r h =
      let c = init-Calls fl pointer by_zero mode r h.bounded in
      Stays-by (>>=-some _ c.done)
        (_, refl, record { bounded = c.live.bounded; searching = λ e. c.live; room = h.room })

  run_program-Stays :
      (p : Program) (r : Robot)
      → IsReady r
      → (p ≡ program_can_search → IsLive at_rest r.search)
      → Stays (run_program fl pointer by_zero p r)
  unfolding run_program
  run_program-Stays program_null r h live = (r, refl, h)
  run_program-Stays program_calibrate_table_sensors r h live = (
    _,
    refl,
    record { bounded = h.bounded; searching = λ e. absurd (omega arith); room = h.room },
  )
  run_program-Stays program_report_sensors r h live = report_sensor-Stays false r h
  run_program-Stays program_report_sensors_with_beep r h live = report_sensor-Stays true r h
  run_program-Stays program_stay_on_table r h live = (_, refl, IsReady-same refl refl refl h)
  run_program-Stays program_can_search_init_01 r h live =
      init-Stays sm_push _ (IsReady-same refl refl refl h)
  run_program-Stays program_can_search_init_02 r h live =
      init-Stays sm_spin _ (IsReady-same refl refl refl h)
  run_program-Stays program_bootloader r h live = (_, refl, IsReady-same refl refl refl h)
  run_program-Stays program_can_search r h live = signal_sensor-Stays r h (live refl)
  run_program-Stays other_program r h live = (r, refl, h)

  program_of-can_search : (n : ℕ) → program_of n ≡ program_can_search → n ≡ can_search_number
  unfolding program_of
  program_of-can_search n e = ground arith

  pub step-Stays :
      (i : Inputs) (r : Robot) → IsReady r → Stays (step_program fl pointer by_zero i r)
  unfolding step_program sample
  step-Stays i r h =
      run_program-Stays (program_of r.teensy.program) (sample i r) (IsReady-same refl refl refl h)
        (λ e. h.searching (program_of-can_search r.teensy.program e))

  pub interrupt-Stays :
      (x : Samples) (r : Robot) → IsReady r → Stays (timer_interrupt fl pointer by_zero x r)
  unfolding timer_interrupt step
  interrupt-Stays x r h = elim (Bool-cases (r.teensy.program == can_search_number)) [
    | inr other ↦ rw other (_, refl, IsReady-same refl refl refl h)
    | inl searching ↦ rw searching (
        called-Stays fl pointer by_zero (can_search_tick fl) _ h.room
          (call-Calls fl pointer by_zero tick _ (h.searching (ground arith))))
  ]

  abbrev answered : Robot → Option (Bool × Robot)
  answered r = some (true, r)

  -- The robot after a call of a function.
  pub call-Stays :
      (id : ℕ) (r : Robot)
      → IsReady r
      → Stays (function_called fl pointer by_zero id r >>= (λ result. some result.1))
  unfolding function_called
  call-Stays id r h = elim (Bool-cases (id == sym_motorset)) [
    | inl e ↦ rw e (_, refl, IsReady-same refl refl refl h)
    | inr e ↦ elim (Bool-cases (id == sym_beep)) [
      | inl f ↦ rw (e, f) (_, refl, IsReady-same refl refl refl h)
      | inr f ↦ elim (Bool-cases (id == sym_guidance)) [
        | inr g ↦ rw (e, f, g) (r, refl, h)
        | inl g ↦
            let (r', d, h') = guide-Stays r.guidance r h in
            rw (e, f, g)
              (
                r',
                ap
                    (λ (o : Option Robot).
                      (o >>= answered) >>= (λ (result : Bool × Robot). some result.1))
                    d,
                h',
              )
      ]
    ]
  ]
