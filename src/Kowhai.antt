-- ===== src/Kowhai.antt =====
-- The data of teensy/usb_rawhid/kowhai/kowhai.h: descriptors of a tree of values, as the flat list
-- of nodes that the code walks, and the sizes of the node types.
use beaverbot.Prelude.{ℕ, Bool, ◌||◌, ◌==◌, if◌then◌else◌, ℤ, pos, negsuc, List}
pub mod Size
pub mod Lookup
pub mod Forest
pub mod Measure
pub mod Resolve
pub mod Access
pub mod Bounds
pub mod Tests

-- `struct kowhai_node_t`; all four are `uint16_t`.
pub record Node : Type 0 where
  pub type : ℕ
  pub symbol : ℕ
  pub count : ℕ
  pub tag : ℕ

-- `union kowhai_symbol_t`: one step of a path.
pub record Symbol : Type 0 where
  pub name : ℕ
  pub array_index : ℕ

-- `struct kowhai_tree_t`: the descriptor and the bytes that it describes.
pub record Tree : Type 0 where
  pub desc : List Node
  pub bytes : List ℕ

pub data Status : Type 0 where
  ok invalid_symbol_path invalid_descriptor invalid_offset node_data_too_small : Status
  invalid_node_type packet_buffer_too_small invalid_protocol_command packet_buffer_too_big : Status
  target_buffer_too_small buffer_invalid scratch_too_small not_found : Status
  invalid_sequence no_data : Status

abbrev pub kow_branch_start : ℕ
kow_branch_start = 0x0000

abbrev pub kow_branch_end : ℕ
kow_branch_end = 0x0001

abbrev pub kow_branch_u_start : ℕ
kow_branch_u_start = 0x0002

abbrev pub kow_int8 : ℕ
kow_int8 = 0x0070

abbrev pub kow_uint8 : ℕ
kow_uint8 = 0x0071

abbrev pub kow_int16 : ℕ
kow_int16 = 0x0072

abbrev pub kow_uint16 : ℕ
kow_uint16 = 0x0073

abbrev pub kow_int32 : ℕ
kow_int32 = 0x0074

abbrev pub kow_uint32 : ℕ
kow_uint32 = 0x0075

abbrev pub kow_float : ℕ
kow_float = 0x0076

abbrev pub kow_char : ℕ
kow_char = 0x0077

unfoldable pub kowhai_get_node_type_size : ℕ → ℤ
kowhai_get_node_type_size type =
    if type == kow_branch_start || (type == kow_branch_u_start || type == kow_branch_end)
    then pos 0
    else if type == kow_int8 || (type == kow_uint8 || type == kow_char)
    then pos 1
    else if type == kow_int16 || type == kow_uint16
    then pos 2
    else if type == kow_int32 || (type == kow_uint32 || type == kow_float)
    then pos 4
    else negsuc 0

-- `case KOW_BRANCH_START: case KOW_BRANCH_U_START:`
abbrev pub is_branch : ℕ → Bool
is_branch type = type == kow_branch_start || type == kow_branch_u_start
