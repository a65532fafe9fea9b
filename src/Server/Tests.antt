-- ===== src/Server/Tests.antt =====
-- Tests of the model of teensy/usb_rawhid/kowhai/kowhai_protocol_server.c on a small server, and uses
-- of its theorems.
use beaverbot.Prelude.{
  ℕ, ◌+◌, ◌≤◌, ◌<◌, ◌≡◌, ◌≢◌, refl, true, false, inl, Option, some, none, List, [], ◌∷◌, ◌++◌,
  length, pos, arith, ◌*ℤ◌, ◌+ℤ◌, div_ℕ, ap, ◌∙◌,
}
use beaverbot.Kowhai.{
  Symbol, Status, ok, kowhai_get_node_type_size, packet_buffer_too_small, invalid_symbol_path,
  invalid_sequence,
}
use beaverbot.Kowhai.Forest.{Tags, Forest, leaf, nil, uint8, flatten}
use beaverbot.Kowhai.Size.{kowhai_get_node_size, get_node_size, size_loop}
use beaverbot.Kowhai.Lookup.{kowhai_get_node, get_node, done_at}
use beaverbot.Kowhai.Resolve.{Hit, resolve}
use beaverbot.Kowhai.Resolve.Root.{root}
use beaverbot.Kowhai.Access.{to_bytes, from_bytes, store}
use beaverbot.Protocol.{
  Protocol, Header, Memory, DataSpec, FunctionCall, FunctionDetails, layout_of, cleared, data_spec,
  function_call, cmd_read_data, cmd_get_symbol_list, cmd_write_data_end, cmd_call_function,
  cmd_read_descriptor, cmd_event, cmd_event_end,
}
use beaverbot.Protocol.Parse.{
  kowhai_protocol_parse, parse_payload, parse_symbols, read_symbols, parse_data_payload,
  parse_memory, parse_function_call, no_memory,
}
use beaverbot.Protocol.Create.{kowhai_protocol_create, put, create_payload}
use beaverbot.Protocol.Sound.{IsPath}
use beaverbot.Protocol.Overhead.{kowhai_protocol_get_overhead}
use beaverbot.Server.{
  ListId, Descriptor, TreeItem, FunctionItem, Server, Callbacks, Writing, Effect, sent, called,
  emit, create_packet, send, check_tree_id,
}
use beaverbot.Server.Init.{init_tree_descriptor_sizes, descriptor_size_of}
use beaverbot.Server.Chunks.{
  kowhai_server_process_event, copy_string_list_to_buffer, event_protocol, send_chunks,
}
use beaverbot.Server.Chunks.Strings.{copy_string_list_to_buffer_lem}
use beaverbot.Server.Chunks.Received.{IsReceived, send_chunks-IsReceived}
use beaverbot.Server.Chunks.Answers.{event-Serves, event-IsAnswered}
use beaverbot.Server.Chunks.Delivered.{IsAnswered}
use beaverbot.Server.Keeps.{IsKeeping, Keeps}
use beaverbot.Server.Write.Sequence.{IsQuiet}
use beaverbot.Server.Process.{
  request_of, kowhai_server_process_packet, process_parsed, accept, handle,
}
use beaverbot.Server.Process.Invariant.{process-Keeps}
pub mod Requests
pub mod Calls

abbrev pub tags : (symbol count : ℕ) → Tags
tags symbol count = record { symbol = symbol; count = count; tag = 0 }

-- A structure 7 with an array 8 of three bytes.
abbrev pub members : Forest
members = leaf uint8 (tags 8 3) nil

abbrev pub described : Descriptor
described = record { address = 100; nodes = flatten (root (tags 7 1) (tags 0 0) members) [] }

abbrev pub item : ℕ → Option (List ℕ) → TreeItem
item id bytes = record {
  list_id = record { id = id; type = 0 };
  desc = some described;
  descriptor_size = 24;
  bytes = bytes;
}

-- Tree 1 has bytes, tree 2 has none.
abbrev pub trees : List TreeItem
trees = item 1 (some (10 ∷ 20 ∷ 30 ∷ [])) ∷ item 2 none ∷ []

-- A function that takes tree 1 and gives it back.
abbrev pub function : FunctionItem
function = record {
  list_id = record { id = 9; type = 0 };
  details = record { tree_in_id = 1; tree_out_id = 1 };
}

abbrev pub server : Server
server = record {
  max_packet_size = 18;
  tree_list = trees;
  tree_id_list = record { id = 1; type = 0 } ∷ record { id = 2; type = 0 } ∷ [];
  function_list = function ∷ [];
  function_id_list = record { id = 9; type = 0 } ∷ [];
  symbol_list = (97 ∷ 98 ∷ []) ∷ (99 ∷ []) ∷ [];
  current_write = none;
  log = [];
}

abbrev pub callbacks : Callbacks
callbacks = record {
  node_pre_write = λ id node offset ts. ts;
  node_post_write = λ id node offset n ts. ts;
  function_called = λ id ts. (true, ts);
}

abbrev pub quiet : IsQuiet callbacks
quiet = record {
  before_write = λ id node offset ts. refl;
  after_write = λ id node offset n ts. refl;
}

abbrev pub keeping : IsKeeping callbacks
keeping = record {
  pre = λ id node offset ts. refl;
  post = λ id node offset n ts. refl;
  call = λ id ts. refl;
}

abbrev pub empty : (command id : ℕ) → Protocol
empty command id = record {
  header = record { command = command; id = id };
  payload = record { spec = cleared; buffer = [] };
}

-- Twelve bytes in two packets.
abbrev twelve : List ℕ
twelve = 1 ∷ 2 ∷ 3 ∷ 4 ∷ 5 ∷ 6 ∷ 7 ∷ 8 ∷ 9 ∷ 10 ∷ 11 ∷ 12 ∷ []

event-IsAnswered_example :
    IsAnswered server 5 cmd_event cmd_event_end twelve
      (kowhai_server_process_event 2 server 5 twelve)
event-IsAnswered_example =
    event-IsAnswered 2 server 5 twelve (omega arith) (omega arith) (omega arith)

send_chunks-IsReceived_example :
    IsReceived 18 11 (event_protocol 5 twelve) 5 cmd_event cmd_event_end twelve 13 0 12
send_chunks-IsReceived_example =
    send_chunks-IsReceived 18 11 (event_protocol 5 twelve) 5 cmd_event cmd_event_end twelve
      (event-Serves 2 server 5 twelve (omega arith) (omega arith) 11 (omega arith)) (omega arith) 13
      0 12 (omega arith) (omega arith) refl

copy_string_list_to_buffer_lem_example :
    copy_string_list_to_buffer server.symbol_list 1 3 ≡ some (98 ∷ 0 ∷ 99 ∷ [])
copy_string_list_to_buffer_lem_example = copy_string_list_to_buffer_lem server.symbol_list 1 3

-- A request for the version.
version_answered :
    kowhai_server_process_packet 2 callbacks server (0 ∷ 3 ∷ 0 ∷ [])
    ≡ some (ok, emit server (sent (0x0F ∷ 3 ∷ 0 ∷ 6 ∷ 0 ∷ 0 ∷ 0 ∷ []) ∷ []))
unfolding kowhai_server_process_packet process_parsed accept handle request_of send create_packet
    kowhai_protocol_create put create_payload layout_of to_bytes from_bytes kowhai_protocol_parse
    parse_payload
version_answered = refl

process-Keeps_example : Keeps server (emit server (sent (0x0F ∷ 3 ∷ 0 ∷ 6 ∷ 0 ∷ 0 ∷ 0 ∷ []) ∷ []))
process-Keeps_example =
    process-Keeps 2 callbacks keeping server
      (emit server (sent (0x0F ∷ 3 ∷ 0 ∷ 6 ∷ 0 ∷ 0 ∷ 0 ∷ []) ∷ [])) (0 ∷ 3 ∷ 0 ∷ [])
      version_answered
