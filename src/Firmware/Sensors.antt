-- ===== src/Firmware/Sensors.antt =====
-- `check_sensors` of teensy/usb_rawhid/example.c: the next change of a table sensor. Numbers of 16 bits
-- wrap around, as `unsigned int` does on the robot.
use beaverbot.Prelude.{
  ℕ, zero, suc, ◌+◌, ◌-◌, ◌%◌, ◌≤◌, ◌<◌, ◌≡◌, refl, ◌∙◌, Bool, true, false, ◌==◌, ltb, leb,
  if◌then◌else◌, Option, none, some, ◌>>=◌, >>=-some, List, [], ◌∷◌, arith, Bool-cases, inl, inr,
  map, ap,
}

-- `struct table_sensor_t`.
pub record Sensor : Type 0 where
  pub trigger : ℕ
  pub value : ℕ
  pub triggered : ℕ

abbrev pub adc_hist : ℕ
adc_hist = 10

-- One round of the loop: the sensor as it is reported, or nothing.
unfoldable pub check_sensor : ℕ → Sensor → Option Sensor
check_sensor i s =
    if ltb 3 i
    then (if s.triggered == s.value then none else some (record s { triggered = s.value % 256 }))
    else if s.triggered == 0
    then (if ltb ((s.trigger + 50) % 65536) s.value
        then some (record s { triggered = 1 })
        else none)
    else if ltb s.value ((s.trigger + 65536 - adc_hist) % 65536)
    then some (record s { triggered = 0 })
    else none

-- The loop from index `i` on; `none` is -1.
unfoldable pub check_from : ℕ → List Sensor → Option (ℕ × List Sensor)
check_from i [] = none
check_from i (s ∷ rest) =
    let later = check_from (suc i) rest in
    elim (check_sensor i s) [
      | some s' ↦ some (i, s' ∷ rest)
      | none ↦ elim later [ none ↦ none | some r ↦ some (r.0, s ∷ r.1) ]
    ]

unfoldable pub check_sensors : List Sensor → Option (ℕ × List Sensor)
check_sensors sensors = check_from 0 sensors

-- A sensor that needs no report: its last report agrees with its value, up to the hysteresis.
abbrev pub settled : ℕ → Sensor → Bool
settled i s =
    if ltb 3 i
    then s.triggered == s.value
    else if s.triggered == 0
    then leb s.value (s.trigger + 50)
    else leb s.trigger (s.value + adc_hist)

-- The report after a change.
abbrev pub reported : ℕ → Sensor → Sensor
reported i s = record s {
  triggered = (if ltb 3 i then s.value else if s.triggered == 0 then 1 else 0);
}

-- How many of the sensors need a report.
abbrev pub unsettled : ℕ → List Sensor → ℕ
unsettled i [] = 0
unsettled i (s ∷ rest) = (if settled i s then 0 else 1) + unsettled (suc i) rest

-- Triggers that the hysteresis does not carry past zero or 65535, and pin values of one byte.
abbrev pub AllSane : ℕ → List Sensor → Type 0
AllSane i [] = Unit
AllSane i (s ∷ rest) =
    (adc_hist ≤ s.trigger)
    × (s.trigger + 50 < 65536)
    × (3 < i → s.value < 256)
    × AllSane (suc i) rest

check_sensor-settled :
    (i : ℕ) (s : Sensor)
    → adc_hist ≤ s.trigger
    → s.trigger + 50 < 65536
    → (3 < i → s.value < 256)
    → check_sensor i s ≡ (if settled i s then none else some (reported i s))
unfolding check_sensor
check_sensor-settled i s a b c =
    let up : (s.trigger + 50) % 65536 ≡ s.trigger + 50 = omega arith in
    let down : (s.trigger + 65536 - adc_hist) % 65536 ≡ s.trigger - adc_hist = omega arith in
    let byte : 3 < i → s.value % 256 ≡ s.value = λ h. omega (arith, c h) in ground arith

reported-settled : (i : ℕ) (s : Sensor) → settled i s ≡ false → settled i (reported i s) ≡ true
reported-settled i s e = ground arith

pub check_from-quiet :
    (i : ℕ) (s : Sensor) (rest : List Sensor) {r : Option (ℕ × List Sensor)}
    → check_sensor i s ≡ none
    → check_from (suc i) rest ≡ r
    → check_from i (s ∷ rest) ≡ elim r [ none ↦ none | some r ↦ some (r.0, s ∷ r.1) ]
unfolding check_from
check_from-quiet i s rest e f = rw (e, f, check_from) refl

pub check_from-report :
    (i : ℕ) (s : Sensor) (rest : List Sensor) {t : Sensor}
    → check_sensor i s ≡ some t
    → check_from i (s ∷ rest) ≡ some (i, t ∷ rest)
unfolding check_from
check_from-report i s rest e = rw (e, check_from) refl

check_from-settled :
    (i : ℕ) (l : List Sensor) → AllSane i l → unsettled i l ≡ 0 → check_from i l ≡ none
check_from-settled i [] h e = unfold check_from in refl
check_from-settled i (s ∷ rest) (a, b, c, h) e =
    let t : settled i s ≡ true = ground arith in
    let q : unsettled (suc i) rest ≡ 0 = omega arith in
    check_from-quiet i s rest (check_sensor-settled i s a b c ∙ rw t refl)
      (check_from-settled (suc i) rest h q)

-- A call that reports a sensor: one sensor fewer needs a report, and the values are as they were.
pub record Reports (i : ℕ) (l : List Sensor) (n : ℕ) : Type 0 where
  pub index : ℕ
  pub after : List Sensor
  pub found : check_from i l ≡ some (index, after)
  pub fewer : unsettled i after ≡ n
  pub sane : AllSane i after
  pub same : map (λ s. s.value) after ≡ map (λ s. s.value) l

check_from-Reports :
    (i : ℕ) (l : List Sensor) (n : ℕ) → AllSane i l → unsettled i l ≡ suc n → Reports i l n
check_from-Reports i [] n h e = absurd (omega arith)
check_from-Reports i (s ∷ rest) n (a, b, c, h) e = elim (Bool-cases (settled i s)) [
  | inr f ↦
      let q : unsettled i (s ∷ rest) ≡ 1 + unsettled (suc i) rest = rw f refl in
      record {
        index = i;
        after = reported i s ∷ rest;
        found = check_from-report i s rest (check_sensor-settled i s a b c ∙ rw f refl);
        fewer = rw (reported-settled i s f) (omega arith);
        sane = (a, b, c, h);
        same = refl;
      }
  | inl t ↦
      let q : unsettled i (s ∷ rest) ≡ 0 + unsettled (suc i) rest = rw t refl in
      let r = check_from-Reports (suc i) rest n h (omega arith) in
      record {
        index = r.index;
        after = s ∷ r.after;
        found = check_from-quiet i s rest (check_sensor-settled i s a b c ∙ rw t refl) r.found;
        fewer = rw t (omega (arith, r.fewer));
        sane = (a, b, c, r.sane);
        same = ap (λ l. s.value ∷ l) r.same;
      }
]

-- Calls one after the other, while the values stay as they are.
unfoldable pub checks : ℕ → List Sensor → Option (List Sensor)
unfolding check_sensors
checks zero l = some l
checks (suc n) l = do (i, l') ← check_sensors l; checks n l'

-- With sane triggers and values that do not change, every call reports one sensor for as long as one
-- needs it, each brings the number of these down by one, and then the calls report nothing.
pub checks-settled :
    (n : ℕ) (l : List Sensor)
    → AllSane 0 l
    → unsettled 0 l ≡ n
    → (after : List Sensor) × (checks n l ≡ some after)
      × (unsettled 0 after ≡ 0)
      × (check_sensors after ≡ none)
      × (map (λ s. s.value) after ≡ map (λ s. s.value) l)
unfolding checks check_sensors
checks-settled zero l h e = (l, refl, e, check_from-settled 0 l h e, refl)
checks-settled (suc n) l h e =
    let r = check_from-Reports 0 l n h e in
    let (after, c, u, d, m) = checks-settled n r.after r.sane r.fewer in
    (after, >>=-some _ r.found ∙ c, u, d, m ∙ r.same)
