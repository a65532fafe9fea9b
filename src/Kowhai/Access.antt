-- ===== src/Kowhai/Access.antt =====
-- Reading and writing the bytes behind a path: `kowhai_read`, `kowhai_write` and the typed accesses
-- of teensy/usb_rawhid/kowhai/kowhai.c. `none` is an access outside the memory that is modelled: past
-- the descriptor, the path or the tree's bytes. Values are bit patterns, the low byte first.
use beaverbot.Prelude.{
  ℕ, zero, suc, ◌+◌, ◌*◌, ◌/◌, ◌%◌, Bool, true, false, ◌||◌, ◌==◌, leb, ltb_ℤ, is_nonneg,
  if◌then◌else◌, Option, none, some, ◌>>=◌, ℤ, pos, negsuc, ◌+ℤ◌, List, [], ◌∷◌, ◌++◌, length, take,
  drop,
}
use beaverbot.Kowhai.{
  Node, Symbol, Tree, Status, ok, invalid_offset, node_data_too_small, invalid_node_type, kow_int8,
  kow_uint8, kow_int16, kow_uint16, kow_int32, kow_uint32, kow_float, kow_char,
}
use beaverbot.Kowhai.Size.{kowhai_get_node_size}
use beaverbot.Kowhai.Lookup.{found, failed, kowhai_get_node}
pub mod Bytes
pub mod Hits
pub mod Copies
pub mod Typed

-- `memcpy` out of the tree's bytes, and into them.
unfoldable pub load : List ℕ → ℤ → ℕ → Option (List ℕ)
load bytes (negsuc n) size = none
load bytes (pos at) size =
    if leb (at + size) (length bytes) then some (take size (drop at bytes)) else none

unfoldable pub store : List ℕ → ℤ → List ℕ → Option (List ℕ)
store bytes (negsuc n) value = none
store bytes (pos at) value =
    if leb (at + length value) (length bytes)
    then some (take at bytes ++ (value ++ drop (at + length value) bytes))
    else none

unfoldable pub kowhai_read : Tree → List Symbol → ℤ → ℕ → Option (Status × List ℕ)
kowhai_read tree symbols read_offset read_size = do
  node ← kowhai_get_node tree.desc symbols
  elim node [
    | failed status ↦ some (status, [])
    | found offset target ↦ elim (is_nonneg read_offset) [
      | false ↦ some (invalid_offset, [])
      | true ↦ do
        size ← kowhai_get_node_size (drop target tree.desc)
        elim (ltb_ℤ size (pos read_size +ℤ read_offset)) [
          | true ↦ some (node_data_too_small, [])
          | false ↦ do result ← load tree.bytes (offset +ℤ read_offset) read_size; some (ok, result)
        ]
    ]
  ]

unfoldable pub kowhai_write : Tree → List Symbol → ℤ → List ℕ → Option (Status × Tree)
kowhai_write tree symbols write_offset value = do
  node ← kowhai_get_node tree.desc symbols
  elim node [
    | failed status ↦ some (status, tree)
    | found offset target ↦ elim (is_nonneg write_offset) [
      | false ↦ some (invalid_offset, tree)
      | true ↦ do
        size ← kowhai_get_node_size (drop target tree.desc)
        elim (ltb_ℤ size (pos (length value) +ℤ write_offset)) [
          | true ↦ some (node_data_too_small, tree)
          | false ↦ do
            bytes ← store tree.bytes (offset +ℤ write_offset) value
            some (ok, record tree { bytes = bytes })
        ]
    ]
  ]

-- The number that some bytes spell, and the bytes of a number.
unfoldable pub from_bytes : List ℕ → ℕ
from_bytes [] = 0
from_bytes (b ∷ bs) = b + 256 * from_bytes bs

unfoldable pub to_bytes : ℕ → ℕ → List ℕ
to_bytes zero v = []
to_bytes (suc w) v = v % 256 ∷ to_bytes w (v / 256)

-- `node->type`; a null node would be a fault.
abbrev pub type_at : List Node → Option ℕ
type_at [] = none
type_at (n ∷ rest) = some n.type

-- The five typed reads differ in the node types that they accept and in their width.
unfoldable pub get_value : (ℕ → Bool) → ℕ → Tree → List Symbol → Option (Status × ℕ)
get_value accepts w tree symbols = do
  node ← kowhai_get_node tree.desc symbols
  elim node [
    | failed status ↦ some (status, 0)
    | found offset target ↦ do
      type ← type_at (drop target tree.desc)
      elim (accepts type) [
        | false ↦ some (invalid_node_type, 0)
        | true ↦ do bytes ← load tree.bytes offset w; some (ok, from_bytes bytes)
      ]
  ]

unfoldable pub set_value : (ℕ → Bool) → ℕ → Tree → List Symbol → ℕ → Option (Status × Tree)
set_value accepts w tree symbols value = do
  node ← kowhai_get_node tree.desc symbols
  elim node [
    | failed status ↦ some (status, tree)
    | found offset target ↦ do
      type ← type_at (drop target tree.desc)
      elim (accepts type) [
        | false ↦ some (invalid_node_type, tree)
        | true ↦ do
          bytes ← store tree.bytes offset (to_bytes w value)
          some (ok, record tree { bytes = bytes })
      ]
  ]

abbrev pub is_int8 : ℕ → Bool
is_int8 type = type == kow_int8 || type == kow_uint8

abbrev pub is_char : ℕ → Bool
is_char type = type == kow_char

abbrev pub is_int16 : ℕ → Bool
is_int16 type = type == kow_int16 || type == kow_uint16

abbrev pub is_int32 : ℕ → Bool
is_int32 type = type == kow_int32 || type == kow_uint32

abbrev pub is_float : ℕ → Bool
is_float type = type == kow_float

unfoldable pub kowhai_get_int8 : Tree → List Symbol → Option (Status × ℕ)
kowhai_get_int8 = get_value is_int8 1

unfoldable pub kowhai_get_char : Tree → List Symbol → Option (Status × ℕ)
kowhai_get_char = get_value is_char 1

unfoldable pub kowhai_get_int16 : Tree → List Symbol → Option (Status × ℕ)
kowhai_get_int16 = get_value is_int16 2

unfoldable pub kowhai_get_int32 : Tree → List Symbol → Option (Status × ℕ)
kowhai_get_int32 = get_value is_int32 4

unfoldable pub kowhai_get_float : Tree → List Symbol → Option (Status × ℕ)
kowhai_get_float = get_value is_float 4

unfoldable pub kowhai_set_int8 : Tree → List Symbol → ℕ → Option (Status × Tree)
kowhai_set_int8 = set_value is_int8 1

unfoldable pub kowhai_set_char : Tree → List Symbol → ℕ → Option (Status × Tree)
kowhai_set_char = set_value is_char 1

unfoldable pub kowhai_set_int16 : Tree → List Symbol → ℕ → Option (Status × Tree)
kowhai_set_int16 = set_value is_int16 2

unfoldable pub kowhai_set_int32 : Tree → List Symbol → ℕ → Option (Status × Tree)
kowhai_set_int32 = set_value is_int32 4

unfoldable pub kowhai_set_float : Tree → List Symbol → ℕ → Option (Status × Tree)
kowhai_set_float = set_value is_float 4
