-- ===== src/Firmware/Events.antt =====
-- Runs of teensy/usb_rawhid/example.c: steps of the main loop, timer interrupts, and what the host does
-- through the server, in any order.
use beaverbot.Prelude.{
  ℕ, suc, ◌+◌, ◌<◌, ◌≡◌, ◌⊎◌, refl, ap, ◌∙◌, true, false, Option, none, some, ◌>>=◌, >>=-some, List,
  [], ◌∷◌, All, arith, Option-cases, inl, inr, sym, if◌then◌else◌, Bool,
}
use beaverbot.CanSearch.{SearchMode, Floats, Search, Output, motors, null_call, delay_ms}
use beaverbot.CanSearch.Invariant.{IsDriven, IsBounded, IsLive}
use beaverbot.CanSearch.Ticks.{at_rest}
use beaverbot.CanSearch.Runs.{
  Call, step, after, step-IsLive, after_init, can_search_init-after_init, after_init-IsLive,
}
use beaverbot.CanSearch.Machine.{can_search_init}
use beaverbot.Firmware.Sensors.{
  Sensor, check_from, check_sensor, check_from-report, check_from-quiet, check_sensors,
}
use beaverbot.Firmware.Robot.{Teensy, MotorSet, Beep, Guidance, Registers, Robot}
use beaverbot.Firmware.Drive.{drive, node_post_write, motor_set__}
use beaverbot.Firmware.Program.{
  Inputs, Samples, step_program, can_search_number, search_call, sensor_at,
}
use beaverbot.Firmware.Callbacks.{timer_interrupt, function_called}

-- Driven commands go through the callback.
pub drive-IsDriven :
    (outputs : List Output) (r : Registers)
    → All IsDriven outputs
    → (r' : Registers) × (drive outputs r ≡ some r')
unfolding drive
drive-IsDriven [] r h = (r, refl)
drive-IsDriven (motors d1 v1 d2 v2 ∷ rest) r (h, hs) =
    let (r', e) = drive-IsDriven rest r hs in (motor_set__ d1 v1 d2 v2 r', >>=-some _ e)
drive-IsDriven (null_call ∷ rest) r (h, hs) = absurd h
drive-IsDriven (delay_ms n ∷ rest) r (h, hs) = drive-IsDriven rest r hs

abbrev pub quiet : Search → Search
quiet s = record s { outputs = [] }

-- A call of the search that ends with driven commands.
pub record Calls (call : Search → Option Search) (r : Robot) : Type 0 where
  pub search : Search
  pub registers : Registers
  pub done : search_call call r ≡ some (record r { search = search; registers = registers })
  pub live : IsLive at_rest search

calls :
    (call : Search → Option Search) (r : Robot) (s : Search)
    → call (quiet r.search) ≡ some s
    → IsLive at_rest s
    → Calls call r
unfolding search_call
calls call r s e h =
    let (registers, d) = drive-IsDriven s.outputs r.registers h.bounded.driven in
    record { search = s; registers = registers; done = >>=-some _ e ∙ >>=-some _ d; live = h }

pub quiet-IsLive : (s : Search) → IsLive at_rest s → IsLive at_rest (quiet s)
quiet-IsLive s h = ground arith

quiet-IsBounded : (s : Search) → IsBounded at_rest s → IsBounded at_rest (quiet s)
quiet-IsBounded s h = ground arith

-- The sensor that is reported, if one is, is one of the list.
check_from-there :
    (i : ℕ) (l : List Sensor)
    → (check_from i l ≡ none)
      ⊎ (n : ℕ) × (after : List Sensor) × (s : Sensor) × (check_from i l ≡ some (i + n, after))
        × (sensor_at n after ≡ some s)
unfolding check_from
check_from-there i [] = inl refl
check_from-there i (s ∷ rest) = elim (Option-cases (check_sensor i s)) [
  | inr (s', f) ↦ inr (
    0,
    s' ∷ rest,
    s',
    check_from-report i s rest f ∙ ap (λ k. some (k, s' ∷ rest)) (omega arith),
    refl,
  )
  | inl f ↦ elim (check_from-there (suc i) rest) [
    | inl g ↦ inl (check_from-quiet i s rest f g)
    | inr (n, after, t, g, there) ↦ inr (
      suc n,
      s ∷ after,
      t,
      check_from-quiet i s rest f g ∙ ap (λ k. some (k, s ∷ after)) (omega arith),
      there,
    )
  ]
]

pub check_sensors-there :
    (l : List Sensor)
    → (check_sensors l ≡ none)
      ⊎ (n : ℕ) × (after : List Sensor) × (s : Sensor) × (check_sensors l ≡ some (n, after))
        × (sensor_at n after ≡ some s)
unfolding check_sensors
check_sensors-there l = elim (check_from-there 0 l) [
  | inl quiet ↦ inl quiet
  | inr (n, after, s, e, there) ↦
      inr (n, after, s, e ∙ ap (λ k. some (k, after)) (omega arith), there)
]

-- Before a step: the search's timers are bounded, whatever its state, it is live if the program is the
-- can search, and an event fits a packet.
pub record IsReady (r : Robot) : Type 0 where
  pub bounded : IsBounded at_rest r.search
  pub searching : r.teensy.program ≡ can_search_number → IsLive at_rest r.search
  pub room : 7 < r.server.max_packet_size

-- What readiness looks at.
pub IsReady-same :
    {r r' : Robot}
    → r'.search ≡ r.search
    → r'.teensy.program ≡ r.teensy.program
    → r'.server.max_packet_size ≡ r.server.max_packet_size
    → IsReady r
    → IsReady r'
IsReady-same a b c h = record {
  bounded = rw a h.bounded;
  searching = λ e. rw a (h.searching (sym b ∙ e));
  room = rw c h.room;
}

-- A call that ends with a ready robot.
abbrev pub Stays : Option Robot → Type 0
Stays r = (r' : Robot) × (r ≡ some r') × IsReady r'

pub Stays-by : {a b : Option Robot} → a ≡ b → Stays b → Stays a
Stays-by e (r', d, h) = (r', e ∙ d, h)

pub Stays-then :
    {a : Option Robot} (k : Robot → Option Robot)
    → Stays a
    → ((r : Robot) → IsReady r → Stays (k r))
    → Stays (a >>= k)
Stays-then k (r, e, h) next = Stays-by (>>=-some k e) (next r h)

module _ (fl : Floats) (pointer : ℕ) (by_zero : ℕ → ℕ) where
  open fl use {F}

  -- What happens to the program. The host writes to the struct of the program, the last write of a
  -- sequence or one before, or calls a function, whose arguments it has written.
  pub data Event : Type 0 where
    main_step : Inputs → Event
    interrupt : Samples → Event
    host_write : (last : Bool) → (Teensy → Teensy) → Event
    host_call : MotorSet → Beep → Guidance → (function_id : ℕ) → Event

  -- The host starts the can search by one of its two initialisations only.
  abbrev pub IsProper : Event → Type 0
  IsProper (host_write last f) =
      (t : Teensy) → (f t).program ≡ can_search_number → t.program ≡ can_search_number
  IsProper _ = Unit

  unfoldable pub happen : Event → Robot → Option Robot
  happen (main_step i) r = step_program fl pointer by_zero i r
  happen (interrupt x) r = timer_interrupt fl pointer by_zero x r
  happen (host_write last f) r = some (record r {
    teensy = f r.teensy;
    registers = if last then node_post_write (f r.teensy) r.registers else r.registers;
  })
  happen (host_call m b g id) r =
      function_called fl pointer by_zero id (record r { motor_set = m; beep = b; guidance = g })
      >>= (λ result. some result.1)

  -- After the jump to the boot loader nothing happens any more.
  unfoldable pub run_events : List Event → Robot → Option Robot
  unfolding happen
  run_events [] r = some r
  run_events (e ∷ es) r = elim r.in_bootloader [
    | true ↦ some r
    | false ↦ happen e r >>= (λ r'. run_events es r')
  ]

  -- A call of a live search.
  pub call-Calls : (c : Call fl) (r : Robot) → IsLive at_rest r.search → Calls (step fl c) r
  call-Calls c r h =
      let (e, live) = step-IsLive fl c (quiet r.search) (quiet-IsLive r.search h) in
      calls (step fl c) r (after fl c (quiet r.search)) e live

  pub init-Calls :
      (mode : SearchMode) (r : Robot)
      → IsBounded at_rest r.search
      → Calls (can_search_init fl mode) r
  init-Calls mode r h =
      calls (can_search_init fl mode) r (after_init fl mode (quiet r.search))
        (can_search_init-after_init fl mode (quiet r.search))
        (after_init-IsLive fl mode (quiet r.search) (quiet-IsBounded r.search h))

  -- A call of the search on a robot that is ready.
  pub called-Stays :
      (call : Search → Option Search) (r : Robot)
      → 7 < r.server.max_packet_size
      → Calls call r
      → Stays (search_call call r)
  called-Stays call r room c = (
    record r { search = c.search; registers = c.registers },
    c.done,
    record { bounded = c.live.bounded; searching = λ e. c.live; room = room },
  )
