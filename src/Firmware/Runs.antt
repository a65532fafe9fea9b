-- ===== src/Firmware/Runs.antt =====
-- What holds of any run of teensy/usb_rawhid/example.c, whatever the sensors, the timer and the host do.
use beaverbot.Prelude.{
  ℕ, ◌<◌, ◌≡◌, refl, ap, Bool, true, false, some, ◌>>=◌, List, [], ◌∷◌, All, arith, Bool-cases, inl,
  inr, ◌≢◌,
}
use beaverbot.CanSearch.{Floats, power_on}
use beaverbot.CanSearch.Invariant.{IsLive}
use beaverbot.CanSearch.Ticks.{at_rest}
use beaverbot.Firmware.Robot.{Robot}
use beaverbot.Firmware.Program.{can_search_number}
use beaverbot.Firmware.Events.{
  IsReady, Stays, Event, IsProper, happen, run_events, Stays-by, Stays-then, IsReady-same,
}
use beaverbot.Firmware.Steps.{step-Stays, interrupt-Stays, call-Stays}

module _ (fl : Floats) (pointer : ℕ) (by_zero : ℕ → ℕ) where
  happen-Stays :
      (e : Event fl pointer by_zero) (r : Robot)
      → IsProper fl pointer by_zero e
      → IsReady r
      → Stays (happen fl pointer by_zero e r)
  unfolding happen
  happen-Stays (Event.main_step i) r p h = step-Stays fl pointer by_zero i r h
  happen-Stays (Event.interrupt x) r p h = interrupt-Stays fl pointer by_zero x r h
  happen-Stays (Event.host_write last f) r p h = (
    _,
    refl,
    record { bounded = h.bounded; searching = λ e. h.searching (p r.teensy e); room = h.room },
  )
  happen-Stays (Event.host_call m b g id) r p h =
      call-Stays fl pointer by_zero id _ (IsReady-same refl refl refl h)

  events-Stays :
      (es : List (Event fl pointer by_zero)) (r : Robot)
      → All (IsProper fl pointer by_zero) es
      → IsReady r
      → Stays (run_events fl pointer by_zero es r)
  unfolding run_events
  events-Stays [] r p h = (r, refl, h)
  events-Stays (e ∷ es) r (p, ps) h =
      let rest = happen fl pointer by_zero e r >>= λ r'. run_events fl pointer by_zero es r' in
      let by_flag : (b : Bool)
          → r.in_bootloader ≡ b
          → run_events fl pointer by_zero (e ∷ es) r ≡ elim b [ true ↦ some r | false ↦ rest ] =
        λ b. ap (λ b. elim b [ true ↦ some r | false ↦ rest ]) in
      elim (Bool-cases r.in_bootloader) [
        | inl end ↦ (r, by_flag true end, h)
        | inr runs ↦ Stays-by (by_flag false runs) (
            Stays-then (run_events fl pointer by_zero es) (happen-Stays e r p h)
              (λ r' h'. events-Stays es r' ps h'))
      ]

  -- From power on, with another program than the can search and packets for an event, whatever steps,
  -- interrupts, writes and function calls come in any order, if the host does not put in the can search
  -- itself but by its initialisations, they all run to the end, and if the program is the can search
  -- then, the search is live.
  pub run_events-IsLive :
      (es : List (Event fl pointer by_zero)) (r : Robot)
      → r.search ≡ power_on
      → r.teensy.program ≢ can_search_number
      → 7 < r.server.max_packet_size
      → All (IsProper fl pointer by_zero) es
      → (r' : Robot) × (run_events fl pointer by_zero es r ≡ some r')
        × (r'.teensy.program ≡ can_search_number → IsLive at_rest r'.search)
  run_events-IsLive es r on other room p =
      let (r', e, h) = events-Stays es r p (record {
        bounded = rw on (omega arith);
        searching = λ e. absurd (other e);
        room = room;
      }) in
      (r', e, h.searching)
