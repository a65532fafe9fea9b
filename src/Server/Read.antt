-- ===== src/Server/Read.antt =====
-- The cases KOW_CMD_READ_DATA and KOW_CMD_READ_DESCRIPTOR of `kowhai_server_process_packet` in
-- teensy/usb_rawhid/kowhai/kowhai_protocol_server.c.
use beaverbot.Prelude.{
  ℕ, ◌/◌, Bool, ltb, if◌then◌else◌, Option, none, some, ◌>>=◌, ℤ, pos, negsuc, ◌-ℤ◌, ◌*ℤ◌, div_ℕ,
  List, [], ◌∷◌, ◌++◌, drop, u16,
}
use beaverbot.Kowhai.{Node, Symbol, ok, no_data}
use beaverbot.Kowhai.Size.{kowhai_get_node_size}
use beaverbot.Kowhai.Lookup.{found, failed, kowhai_get_node}
use beaverbot.Kowhai.Access.{kowhai_read, to_bytes}
use beaverbot.Protocol.{
  Protocol, DataSpec, data_spec, descriptor, cmd_read_data_ack, cmd_read_data_ack_end,
  cmd_read_descriptor_ack, cmd_read_descriptor_ack_end,
}
use beaverbot.Server.{
  TreePointers, Server, with_command, with_spec, populate_tree, get_tree_index, check_tree_id,
  invalid_tree_id, tree_of,
}
use beaverbot.Server.Chunks.{send_all}
use beaverbot.Server.Write.{send_error}
pub mod Reads
pub mod Descriptors
pub mod Delivered

abbrev pub last_symbol : List Symbol → Option Symbol
last_symbol [] = none
last_symbol (y ∷ []) = some y
last_symbol (y ∷ z ∷ ys) = last_symbol (z ∷ ys)

-- What there is to read from the picked element of an array on.
unfoldable pub rest_size : ℤ → Node → Symbol → ℤ
rest_size size n y = if ltb 1 n.count then size -ℤ div_ℕ size n.count *ℤ pos y.array_index else size

-- A negative size, which no packet holds, is a fault.
abbrev pub natural_size : ℤ → Option ℕ
natural_size (pos n) = some n
natural_size (negsuc n) = none

-- The bytes are read into the packet buffer. The status of the read is not looked at in C; here a
-- failure ends it, which no part of a node that was found brings about: its parts end within the size
-- that `kowhai_read` checks.
abbrev pub read_protocol :
    Protocol → DataSpec → TreePointers → (type : ℕ) → Bool → (offset size : ℕ) → Option Protocol
read_protocol p d tree type last offset size = do
  (status, bytes) ← kowhai_read (tree_of tree) d.symbols (pos offset) size
  elim status [
    | ok ↦ some (
        with_spec (with_command p (if last then cmd_read_data_ack_end else cmd_read_data_ack))
          (data_spec (record d { memory = record { type = type; offset = offset; size = size } }))
          bytes)
    | failure ↦ none
  ]

unfoldable pub read_node :
    (pointer : ℕ) → Server → Protocol → DataSpec → TreePointers → (target : ℕ) → Option Server
read_node pointer s p d tree target = do
  y ← last_symbol d.symbols
  size ← kowhai_get_node_size (drop target (tree_of tree).desc)
  elim (drop target (tree_of tree).desc) [
    | [] ↦ none
    | n ∷ rest ↦ do
      bytes ← natural_size (rest_size size n y)
      send_all pointer s (with_command p cmd_read_data_ack) (read_protocol p d tree n.type) bytes
  ]

unfoldable pub read_tree :
    (pointer : ℕ) → Server → Protocol → DataSpec → TreePointers → Option Server
read_tree pointer s p d tree = elim tree.bytes [
  | none ↦ send_error s p no_data
  | some bytes ↦ do
    node ← kowhai_get_node (tree_of tree).desc d.symbols
    elim node [
      | failed status ↦ send_error s p status
      | found offset target ↦ read_node pointer s p d tree target
    ]
]

unfoldable pub read_data : (pointer : ℕ) → Server → Protocol → DataSpec → Option Server
read_data pointer s p d =
    if check_tree_id s p.header.id
    then read_tree pointer s p d (populate_tree s p.header.id)
    else invalid_tree_id s p

-- `struct kowhai_node_t` in memory.
abbrev pub nodes_bytes : List Node → List ℕ
nodes_bytes [] = []
nodes_bytes (n ∷ ns) =
    to_bytes 2 n.type
    ++ (to_bytes 2 n.symbol ++ (to_bytes 2 n.count ++ (to_bytes 2 n.tag ++ nodes_bytes ns)))

abbrev pub descriptor_protocol :
    Protocol → (size_of_all : ℕ) → List Node → Bool → (offset size : ℕ) → Option Protocol
descriptor_protocol p all nodes last offset size = some (
    with_spec
      (with_command p (if last then cmd_read_descriptor_ack_end else cmd_read_descriptor_ack))
      (descriptor (record { node_count = u16 (all / 8); offset = offset; size = size }))
      (drop offset (nodes_bytes nodes)))

unfoldable pub send_descriptor : (pointer : ℕ) → Server → Protocol → Option Server
send_descriptor pointer s p =
    if check_tree_id s p.header.id
    then (do
      (index, item) ← get_tree_index s p.header.id
      send_all pointer s (with_command p cmd_read_descriptor_ack)
          (descriptor_protocol p item.descriptor_size (tree_of (populate_tree s p.header.id)).desc)
          item.descriptor_size)
    else invalid_tree_id s p
