-- ===== src/Server.antt =====
-- The server of teensy/usb_rawhid/kowhai/kowhai_protocol_server.h and kowhai_protocol_server.c: its
-- state, the searches in its lists and the sending of one packet. `none` is a fault: an access
-- outside the memory, bytes sent that were not written, or a loop that does not end. Each tree has
-- memory of its own.
pub mod Trees
pub mod Keeps
pub mod Init
pub mod Chunks
pub mod Write
pub mod Read
pub mod Call
pub mod Process
pub mod Tests
use beaverbot.Prelude.{
  ℕ, suc, ◌-◌, Bool, true, false, not, ◌==◌, ltb, if◌then◌else◌, Option, none, some, ◌>>=◌, ℤ, List,
  [], ◌∷◌, ◌++◌, length,
}
use beaverbot.Kowhai.{Node, Tree}
use beaverbot.Protocol.{Spec, Protocol, FunctionDetails, cmd_error_invalid_tree_id}
use beaverbot.Protocol.Create.{kowhai_protocol_create}
use beaverbot.Protocol.Overhead.{kowhai_protocol_get_overhead}

-- `struct kowhai_protocol_id_list_item_t`.
pub record ListId : Type 0 where
  pub id : ℕ
  pub type : ℕ

-- The array that a `struct kowhai_node_t*` points at, and where it lies.
pub record Descriptor : Type 0 where
  pub address : ℕ
  pub nodes : List Node

-- `none` is the null pointer.
pub record TreeItem : Type 0 where
  pub list_id : ListId
  pub desc : Option Descriptor
  pub descriptor_size : ℕ
  pub bytes : Option (List ℕ)

pub record FunctionItem : Type 0 where
  pub list_id : ListId
  pub details : FunctionDetails

-- The node that is being written, by its address, with its offset and the bytes written so far.
pub record Writing : Type 0 where
  pub node : ℕ
  pub offset : ℤ
  pub bytes_written : ℕ

-- What the server does outside: packets sent and callbacks called, with their arguments.
pub data Effect : Type 0 where
  sent : List ℕ → Effect
  pre_write : (tree_id node : ℕ) (offset : ℤ) → Effect
  post_write : (tree_id node : ℕ) (offset : ℤ) (bytes_written : ℕ) → Effect
  called : (function_id : ℕ) → Effect

-- `struct kowhai_protocol_server_t` and, the oldest first, what it did. Counts are lengths; a null
-- `current_write_node` is `none`. The packet buffer is written anew before each sending.
pub record Server : Type 0 where
  pub max_packet_size : ℕ
  pub tree_list : List TreeItem
  pub tree_id_list : List ListId
  pub function_list : List FunctionItem
  pub function_id_list : List ListId
  pub symbol_list : List (List ℕ)
  pub current_write : Option Writing
  pub log : List Effect

-- The application's callbacks, by what they do to the trees.
pub record Callbacks : Type 0 where
  pub node_pre_write : (tree_id node : ℕ) (offset : ℤ) → List TreeItem → List TreeItem
  pub node_post_write :
      (tree_id node : ℕ) (offset : ℤ) (bytes_written : ℕ) → List TreeItem → List TreeItem
  pub function_called : (function_id : ℕ) → List TreeItem → Bool × List TreeItem

abbrev pub kow_undefined_symbol : ℕ
kow_undefined_symbol = 65535

-- The first tree with an id, and its index from `i` on.
abbrev pub find_tree : List TreeItem → ℕ → ℕ → Option (ℕ × TreeItem)
find_tree [] id i = none
find_tree (t ∷ ts) id i = if t.list_id.id == id then some (i, t) else find_tree ts id (suc i)

abbrev pub get_tree_index : Server → ℕ → Option (ℕ × TreeItem)
get_tree_index s id = find_tree s.tree_list id 0

-- Null pointers, or those of a tree of the list.
pub record TreePointers : Type 0 where
  pub desc : Option Descriptor
  pub bytes : Option (List ℕ)

abbrev pub pointers_of : Option (ℕ × TreeItem) → TreePointers
pointers_of none = record { desc = none; bytes = none }
pointers_of (some (i, t)) = record { desc = t.desc; bytes = t.bytes }

unfoldable pub populate_tree : Server → ℕ → TreePointers
populate_tree s tree_id =
    if not (tree_id == kow_undefined_symbol)
    then pointers_of (get_tree_index s tree_id)
    else pointers_of none

abbrev pub has_tree : List TreeItem → ℕ → Bool
has_tree [] id = false
has_tree (t ∷ ts) id = if t.list_id.id == id then true else has_tree ts id

unfoldable pub check_tree_id : Server → ℕ → Bool
check_tree_id s id = has_tree s.tree_list id

abbrev pub find_function : List FunctionItem → ℕ → Option FunctionItem
find_function [] id = none
find_function (f ∷ fs) id = if f.list_id.id == id then some f else find_function fs id

unfoldable pub get_function_index : Server → ℕ → Option FunctionItem
get_function_index s id = find_function s.function_list id

-- What the library's functions on trees take: null pointers are empty arrays.
abbrev pub nodes_of : Option Descriptor → List Node
nodes_of none = []
nodes_of (some d) = d.nodes

abbrev pub bytes_of : Option (List ℕ) → List ℕ
bytes_of none = []
bytes_of (some bytes) = bytes

abbrev pub tree_of : TreePointers → Tree
tree_of t = record { desc = nodes_of t.desc; bytes = bytes_of t.bytes }

-- Bytes are changed through the pointer to them.
abbrev pub overwrite : List ℕ → Option (List ℕ) → Option (List ℕ)
overwrite bytes none = none
overwrite bytes (some before) = some bytes

-- The bytes of the first tree with an id.
abbrev pub set_bytes : ℕ → List ℕ → List TreeItem → List TreeItem
set_bytes id bytes [] = []
set_bytes id bytes (t ∷ ts) =
    if t.list_id.id == id
    then record t { bytes = overwrite bytes t.bytes } ∷ ts
    else t ∷ set_bytes id bytes ts

abbrev pub with_command : Protocol → ℕ → Protocol
with_command p command = record p { header = record { command = command; id = p.header.id } }

abbrev pub with_spec : Protocol → Spec → List ℕ → Protocol
with_spec p spec buffer = record p { payload = record { spec = spec; buffer = buffer } }

abbrev pub emit : Server → List Effect → Server
emit s effects = record s { log = s.log ++ effects }

-- The packet that is made in the packet buffer. Its status is not looked at, and `bytes_required`
-- bytes are sent; a fault, if not all of these were written.
unfoldable pub create_packet : ℕ → Protocol → Option (List ℕ)
create_packet size p = do
  c ← kowhai_protocol_create size p
  if c.bytes_required == length c.packet then some c.packet else none

unfoldable pub send : Server → Protocol → Option Server
send s p = do packet ← create_packet s.max_packet_size p; some (emit s (sent packet ∷ []))

unfoldable pub invalid_tree_id : Server → Protocol → Option Server
unfolding send
invalid_tree_id s p = send s (with_command p cmd_error_invalid_tree_id)

-- `max_payload_size`. If it were negative, the loops that send packets would not end.
abbrev pub max_payload : (pointer : ℕ) → Server → Protocol → Option ℕ
max_payload pointer s p =
    let overhead = (kowhai_protocol_get_overhead pointer p).1 in
    if ltb s.max_packet_size overhead then none else some (s.max_packet_size - overhead)
