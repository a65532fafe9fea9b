-- ===== src/Firmware/Trees.antt =====
-- The tree descriptors of teensy/usb_rawhid/example.c, with the symbols of
-- teensy/usb_rawhid/symbols.h, and the trees that they spell.
use beaverbot.Prelude.{ℕ, List, [], ◌∷◌, ◌≡◌, refl, false}
use beaverbot.Kowhai.{Node, kow_branch_start, kow_branch_end, kow_uint8, kow_uint16}
use beaverbot.Kowhai.Forest.{Forest, nil, leaf, branch, Tags, uint8, uint16, flatten}

abbrev pub port_count : ℕ
port_count = 6

abbrev pub adc_count : ℕ
adc_count = 8

abbrev pub table_sensor_count : ℕ
table_sensor_count = 6

abbrev pub motor_count : ℕ
motor_count = 2

abbrev pub sym_teensy : ℕ
sym_teensy = 0

abbrev pub sym_led : ℕ
sym_led = 1

abbrev pub sym_gpio : ℕ
sym_gpio = 2

abbrev pub sym_ddr : ℕ
sym_ddr = 3

abbrev pub sym_port : ℕ
sym_port = 4

abbrev pub sym_pin : ℕ
sym_pin = 5

abbrev pub sym_adc : ℕ
sym_adc = 6

abbrev pub sym_didr0 : ℕ
sym_didr0 = 7

abbrev pub sym_didr1 : ℕ
sym_didr1 = 8

abbrev pub sym_timer2 : ℕ
sym_timer2 = 9

abbrev pub sym_tccr2a : ℕ
sym_tccr2a = 10

abbrev pub sym_tccr2b : ℕ
sym_tccr2b = 11

abbrev pub sym_ocr2a : ℕ
sym_ocr2a = 12

abbrev pub sym_ocr2b : ℕ
sym_ocr2b = 13

abbrev pub sym_program : ℕ
sym_program = 14

abbrev pub sym_tablesensor : ℕ
sym_tablesensor = 15

abbrev pub sym_trigger : ℕ
sym_trigger = 16

abbrev pub sym_value : ℕ
sym_value = 17

abbrev pub sym_triggered : ℕ
sym_triggered = 18

abbrev pub sym_tablesensorevent : ℕ
sym_tablesensorevent = 19

abbrev pub sym_sensor : ℕ
sym_sensor = 20

abbrev pub sym_motorset : ℕ
sym_motorset = 21

abbrev pub sym_motor : ℕ
sym_motor = 22

abbrev pub sym_direction : ℕ
sym_direction = 23

abbrev pub sym_beep : ℕ
sym_beep = 24

abbrev pub sym_frequency : ℕ
sym_frequency = 25

abbrev pub sym_duration : ℕ
sym_duration = 26

abbrev pub sym_guidance : ℕ
sym_guidance = 27

abbrev pub sym_x : ℕ
sym_x = 28

abbrev pub sym_y : ℕ
sym_y = 29

abbrev pub sym_windowwidth : ℕ
sym_windowwidth = 30

abbrev pub sym_windowheight : ℕ
sym_windowheight = 31

abbrev pub node : (type symbol count tag : ℕ) → Node
node type symbol count tag = record { type = type; symbol = symbol; count = count; tag = tag }

abbrev pub teensy_descriptor : List Node
teensy_descriptor =
    node kow_branch_start sym_teensy 1 0
    ∷ node kow_uint8 sym_led 1 0
    ∷ node kow_branch_start sym_gpio port_count 0
    ∷ node kow_uint8 sym_ddr 1 0
    ∷ node kow_uint8 sym_port 1 0
    ∷ node kow_uint8 sym_pin 1 0
    ∷ node kow_branch_end sym_gpio 1 0
    ∷ node kow_branch_start sym_adc 1 0
    ∷ node kow_uint8 sym_didr0 1 0
    ∷ node kow_uint8 sym_didr1 1 0
    ∷ node kow_uint16 sym_adc adc_count 0
    ∷ node kow_branch_end sym_adc 1 0
    ∷ node kow_branch_start sym_timer2 1 0
    ∷ node kow_uint8 sym_tccr2a 1 0
    ∷ node kow_uint8 sym_tccr2b 1 0
    ∷ node kow_uint8 sym_ocr2a 1 0
    ∷ node kow_uint8 sym_ocr2b 1 0
    ∷ node kow_branch_end sym_timer2 1 0
    ∷ node kow_uint8 sym_program 1 0
    ∷ node kow_branch_start sym_tablesensor table_sensor_count 0
    ∷ node kow_uint16 sym_trigger 1 0
    ∷ node kow_uint16 sym_value 1 0
    ∷ node kow_uint8 sym_triggered 1 0
    ∷ node kow_branch_end sym_tablesensor 0 0
    ∷ node kow_branch_end sym_teensy 1 0
    ∷ []

abbrev pub table_sensor_event_descriptor : List Node
table_sensor_event_descriptor =
    node kow_branch_start sym_tablesensorevent 1 0
    ∷ node kow_uint8 sym_sensor 1 0
    ∷ node kow_uint8 sym_triggered 1 0
    ∷ node kow_uint16 sym_value 1 0
    ∷ node kow_branch_end sym_tablesensorevent 1 0
    ∷ []

abbrev pub motor_set_descriptor : List Node
motor_set_descriptor =
    node kow_branch_start sym_motorset 1 0
    ∷ node kow_branch_start sym_motor motor_count 0
    ∷ node kow_uint8 sym_direction 1 0
    ∷ node kow_uint8 sym_value 1 0
    ∷ node kow_branch_end sym_motor 1 0
    ∷ node kow_branch_end sym_motorset 1 0
    ∷ []

abbrev pub beep_descriptor : List Node
beep_descriptor =
    node kow_branch_start sym_beep 1 0
    ∷ node kow_uint16 sym_frequency 1 0
    ∷ node kow_uint16 sym_duration 1 0
    ∷ node kow_branch_end sym_beep 1 0
    ∷ []

abbrev pub guidance_descriptor : List Node
guidance_descriptor =
    node kow_branch_start sym_guidance 1 0
    ∷ node kow_uint16 sym_x 1 0
    ∷ node kow_uint16 sym_y 1 0
    ∷ node kow_uint16 sym_windowwidth 1 0
    ∷ node kow_uint16 sym_windowheight 1 0
    ∷ node kow_branch_end sym_guidance 1 0
    ∷ []

abbrev pub tags : (symbol count : ℕ) → Tags
tags symbol count = record { symbol = symbol; count = count; tag = 0 }

-- The members of `teensy_descriptor`.
abbrev pub teensy_members : Forest
teensy_members = leaf uint8 (tags sym_led 1) (
    branch false (tags sym_gpio port_count) (tags sym_gpio 1)
      (leaf uint8 (tags sym_ddr 1) (leaf uint8 (tags sym_port 1) (leaf uint8 (tags sym_pin 1) nil)))
      (branch false (tags sym_adc 1) (tags sym_adc 1)
        (leaf uint8 (tags sym_didr0 1)
          (leaf uint8 (tags sym_didr1 1) (leaf uint16 (tags sym_adc adc_count) nil)))
        (branch false (tags sym_timer2 1) (tags sym_timer2 1)
          (leaf uint8 (tags sym_tccr2a 1) (
            leaf uint8 (tags sym_tccr2b 1)
              (leaf uint8 (tags sym_ocr2a 1) (leaf uint8 (tags sym_ocr2b 1) nil))))
          (leaf uint8 (tags sym_program 1) (
            branch false (tags sym_tablesensor table_sensor_count) (tags sym_tablesensor 0)
              (leaf uint16 (tags sym_trigger 1)
                (leaf uint16 (tags sym_value 1) (leaf uint8 (tags sym_triggered 1) nil)))
              nil)))))

teensy_descriptor-flatten :
    flatten (branch false (tags sym_teensy 1) (tags sym_teensy 1) teensy_members nil) []
    ≡ teensy_descriptor
teensy_descriptor-flatten = refl

-- The members of `table_sensor_event_descriptor`.
abbrev pub table_sensor_event_members : Forest
table_sensor_event_members =
    leaf uint8 (tags sym_sensor 1)
      (leaf uint8 (tags sym_triggered 1) (leaf uint16 (tags sym_value 1) nil))

table_sensor_event_descriptor-flatten :
    flatten
      (branch false
        (tags sym_tablesensorevent 1)
        (tags sym_tablesensorevent 1)
        table_sensor_event_members
        nil)
      []
    ≡ table_sensor_event_descriptor
table_sensor_event_descriptor-flatten = refl

-- The members of `motor_set_descriptor`.
abbrev pub motor_set_members : Forest
motor_set_members =
    branch false (tags sym_motor motor_count) (tags sym_motor 1)
      (leaf uint8 (tags sym_direction 1) (leaf uint8 (tags sym_value 1) nil)) nil

motor_set_descriptor-flatten :
    flatten (branch false (tags sym_motorset 1) (tags sym_motorset 1) motor_set_members nil) []
    ≡ motor_set_descriptor
motor_set_descriptor-flatten = refl

-- The members of `beep_descriptor`.
abbrev pub beep_members : Forest
beep_members = leaf uint16 (tags sym_frequency 1) (leaf uint16 (tags sym_duration 1) nil)

beep_descriptor-flatten :
    flatten (branch false (tags sym_beep 1) (tags sym_beep 1) beep_members nil) [] ≡ beep_descriptor
beep_descriptor-flatten = refl

-- The members of `guidance_descriptor`.
abbrev pub guidance_members : Forest
guidance_members = leaf uint16 (tags sym_x 1) (
    leaf uint16 (tags sym_y 1)
      (leaf uint16 (tags sym_windowwidth 1) (leaf uint16 (tags sym_windowheight 1) nil)))

guidance_descriptor-flatten :
    flatten (branch false (tags sym_guidance 1) (tags sym_guidance 1) guidance_members nil) []
    ≡ guidance_descriptor
guidance_descriptor-flatten = refl
