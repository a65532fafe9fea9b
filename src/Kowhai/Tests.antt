-- ===== src/Kowhai/Tests.antt =====
-- Tests of the model of teensy/usb_rawhid/kowhai/kowhai.c, on the trees of
-- teensy/usb_rawhid/example.c, and uses of its theorems.
use beaverbot.Prelude.{
  ℕ, ◌<◌, ◌≡◌, refl, false, some, List, [], ◌∷◌, pos, negsuc, arith, ◌*ℤ◌, ◌+ℤ◌, div_ℕ, ap, ◌∙◌,
}
use beaverbot.Kowhai.{
  Symbol, ok, node_data_too_small, invalid_offset, invalid_node_type, kow_branch_end,
  kowhai_get_node_type_size,
}
use beaverbot.Kowhai.Forest.{Tags, Forest, leaf, nil, uint8, flatten, node_of, char}
use beaverbot.Kowhai.Size.{size_loop, get_node_size, kowhai_get_node_size, kowhai_get_node_count}
use beaverbot.Kowhai.Lookup.{found, get_node, kowhai_get_node, done_at}
use beaverbot.Kowhai.Measure.{size_and_count-first}
use beaverbot.Kowhai.Resolve.{Hit, resolve}
use beaverbot.Kowhai.Resolve.Find.{get_node-resolve, to_lookup}
use beaverbot.Kowhai.Resolve.Root.{root, kowhai_get_node-resolve}
use beaverbot.Kowhai.Access.{to_bytes, kowhai_read, kowhai_write}
use beaverbot.Kowhai.Access.Bytes.{Replaced}
use beaverbot.Kowhai.Access.Hits.{whole}
use beaverbot.Kowhai.Access.Copies.{write-read, write-refused, write-overruns}
use beaverbot.Kowhai.Access.Typed.{setter, getter, setter-getter, access-invalid_type}
use beaverbot.Firmware.Trees.{
  tags, teensy_descriptor, teensy_members, sym_teensy, sym_tablesensor, sym_value,
  motor_set_members, sym_motorset, sym_motor, sym_direction,
}
use beaverbot.Kowhai.Resolve.InTree.{Place, found-in_tree}

abbrev at : (name array_index : ℕ) → Symbol
at name array_index = record { name = name; array_index = array_index }

-- `sizeof(struct teensy_t)` is 72.
teensy_size : kowhai_get_node_size teensy_descriptor ≡ some (pos 72)
unfolding kowhai_get_node_size get_node_size size_loop kowhai_get_node_type_size ◌*ℤ◌ ◌+ℤ◌
teensy_size = refl

sensor_2_value :
    kowhai_get_node teensy_descriptor (at sym_teensy 0 ∷ at sym_tablesensor 2 ∷ at sym_value 0 ∷ [])
    ≡ some (found (pos 54) 21)
unfolding kowhai_get_node get_node done_at kowhai_get_node_size get_node_size size_loop
    kowhai_get_node_type_size ◌*ℤ◌ ◌+ℤ◌ div_ℕ
sensor_2_value = refl

abbrev teensy : Tags
teensy = tags sym_teensy 1

-- The motors' settings.
abbrev motors : Tags
motors = tags sym_motorset 1

abbrev four_bytes : List ℕ
four_bytes = 1 ∷ 200 ∷ 2 ∷ 100 ∷ []

size_and_count-first_example :
    (kowhai_get_node_size (flatten (root teensy teensy teensy_members) []) ≡ some (pos 72))
    × (kowhai_get_node_count (flatten (root teensy teensy teensy_members) []) ≡ some 25)
size_and_count-first_example = size_and_count-first (root teensy teensy teensy_members) [] tt

get_node-resolve_example :
    get_node 6
      (flatten motor_set_members (node_of kow_branch_end motors ∷ []))
      1
      (at sym_motor 1 ∷ [])
      false
      false
      (pos 0)
    ≡ some (found (pos 2) 1)
unfolding resolve
get_node-resolve_example =
    get_node-resolve motor_set_members 6 false motors [] 1 (at sym_motor 1) [] 0 (omega arith)

kowhai_get_node-resolve_example :
    kowhai_get_node
      (flatten (root motors motors motor_set_members) [])
      (at sym_motorset 0 ∷ at sym_motor 1 ∷ at sym_direction 0 ∷ [])
    ≡ some (found (pos 2) 2)
unfolding resolve
kowhai_get_node-resolve_example =
    kowhai_get_node-resolve motors motors motor_set_members (at sym_motorset 0)
      (at sym_motor 1 ∷ at sym_direction 0 ∷ [])

abbrev motor_1 : Hit
motor_1 = record { offset = 2; index = 1; target = motor_set_members }

motor_1-resolve :
    resolve false (root motors motors motor_set_members) (at sym_motorset 0 ∷ at sym_motor 1 ∷ [])
    ≡ some motor_1
unfolding resolve
motor_1-resolve = refl

found-in_tree_example : Place (flatten (root motors motors motor_set_members) []) 1 (pos 2) 1
found-in_tree_example =
    found-in_tree motors motors motor_set_members (at sym_motorset 0) (at sym_motor 1 ∷ []) (
      kowhai_get_node-resolve motors motors motor_set_members (at sym_motorset 0)
        (at sym_motor 1 ∷ [])
      ∙ ap (λ r. some (to_lookup 0 0 r)) motor_1-resolve)

write-read_example :
    (after : List ℕ) × (kowhai_write
        (whole motors motors motor_set_members four_bytes)
        (at sym_motorset 0 ∷ at sym_motor 1 ∷ [])
        (pos 0)
        (7 ∷ 8 ∷ [])
      ≡ some (ok, whole motors motors motor_set_members after))
    × Replaced 2 (7 ∷ 8 ∷ []) four_bytes after
    × (kowhai_read
          (whole motors motors motor_set_members after)
          (at sym_motorset 0 ∷ at sym_motor 1 ∷ [])
          (pos 0)
          2
        ≡ some (ok, 7 ∷ 8 ∷ []))
write-read_example =
    write-read motors motors motor_set_members four_bytes (at sym_motorset 0) (at sym_motor 1 ∷ [])
      motor_1-resolve 0 (7 ∷ 8 ∷ []) (omega arith) (omega arith)

write-refused_example :
    (kowhai_write
        (whole motors motors motor_set_members four_bytes)
        (at sym_motorset 0 ∷ at sym_motor 1 ∷ [])
        (negsuc 0)
        four_bytes
      ≡ some (invalid_offset, whole motors motors motor_set_members four_bytes))
    × (kowhai_write
          (whole motors motors motor_set_members four_bytes)
          (at sym_motorset 0 ∷ at sym_motor 1 ∷ [])
          (pos 1)
          four_bytes
        ≡ some (node_data_too_small, whole motors motors motor_set_members four_bytes))
write-refused_example =
    write-refused motors motors motor_set_members four_bytes (at sym_motorset 0)
      (at sym_motor 1 ∷ []) motor_1-resolve 0 1 four_bytes (omega arith)

-- Two bytes that belong to something else stand behind the motors' settings.
abbrev six_bytes : List ℕ
six_bytes = 1 ∷ 200 ∷ 2 ∷ 100 ∷ 50 ∷ 60 ∷ []

write-overruns_example :
    (after : List ℕ) × (kowhai_write
        (whole motors motors motor_set_members six_bytes)
        (at sym_motorset 0 ∷ at sym_motor 1 ∷ [])
        (pos 0)
        four_bytes
      ≡ some (ok, whole motors motors motor_set_members after))
    × Replaced 2 four_bytes six_bytes after
    × (4 < 6)
write-overruns_example =
    write-overruns motors motors motor_set_members six_bytes (at sym_motorset 0)
      (at sym_motor 1 ∷ []) motor_1-resolve four_bytes (omega arith) refl (omega arith)
      (omega arith)

abbrev direction_1 : List Symbol
direction_1 = at sym_motor 1 ∷ at sym_direction 0 ∷ []

abbrev direction_tail : Forest
direction_tail = leaf uint8 (tags sym_value 1) nil

direction_1-resolve :
    resolve false (root motors motors motor_set_members) (at sym_motorset 0 ∷ direction_1)
    ≡ some (record {
      offset = 2;
      index = 2;
      target = leaf uint8 (tags sym_direction 1) direction_tail;
    })
unfolding resolve
direction_1-resolve = refl

setter-getter_example :
    (after : List ℕ) × (setter uint8
        (whole motors motors motor_set_members four_bytes)
        (at sym_motorset 0 ∷ direction_1)
        255
      ≡ some (ok, whole motors motors motor_set_members after))
    × Replaced 2 (to_bytes 1 255) four_bytes after
    × (getter uint8 (whole motors motors motor_set_members after) (at sym_motorset 0 ∷ direction_1)
        ≡ some (ok, 255))
setter-getter_example =
    setter-getter motors motors motor_set_members four_bytes (at sym_motorset 0) direction_1 uint8
      (tags sym_direction 1) direction_tail 2 2 255 direction_1-resolve (omega arith) (omega arith)

access-invalid_type_example :
    (setter char
        (whole motors motors motor_set_members four_bytes)
        (at sym_motorset 0 ∷ direction_1)
        5
      ≡ some (invalid_node_type, whole motors motors motor_set_members four_bytes))
    × (getter char
          (whole motors motors motor_set_members four_bytes)
          (at sym_motorset 0 ∷ direction_1)
        ≡ some (invalid_node_type, 0))
access-invalid_type_example =
    access-invalid_type motors motors motor_set_members four_bytes (at sym_motorset 0) direction_1
      char 5 direction_1-resolve (λ e. omega arith)
