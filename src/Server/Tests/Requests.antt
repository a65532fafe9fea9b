-- ===== src/Server/Tests/Requests.antt =====
-- Uses of the theorems on the requests of teensy/usb_rawhid/kowhai/kowhai_protocol_server.c.
use beaverbot.Prelude.{
  ℕ, ◌+◌, ◌<◌, ◌≡◌, refl, false, inl, inr, some, none, List, [], ◌∷◌, pos, arith, ◌*◌,
}
use beaverbot.Kowhai.{Symbol, ok, packet_buffer_too_small}
use beaverbot.Kowhai.Resolve.{Hit, resolve}
use beaverbot.Kowhai.Resolve.Root.{root}
use beaverbot.Kowhai.Access.{from_bytes}
use beaverbot.Kowhai.Access.Bytes.{Replaced}
use beaverbot.Protocol.{
  Protocol, Memory, layout_of, data_spec, cmd_read_data, cmd_read_data_ack, cmd_read_data_ack_end,
  cmd_get_symbol_list, cmd_get_symbol_list_ack, cmd_get_symbol_list_ack_end, cmd_write_data_end,
  cmd_write_data_ack, cmd_read_descriptor, cmd_read_descriptor_ack, cmd_read_descriptor_ack_end,
  cmd_error_invalid_command, cmd_error_invalid_tree_id, cmd_error_invalid_symbol_path,
}
use beaverbot.Protocol.Parse.{
  kowhai_protocol_parse, parse_payload, parse_symbols, read_symbols, parse_data_payload,
  parse_memory, no_memory,
}
use beaverbot.Protocol.Sound.{IsPath}
use beaverbot.Server.{Server, sent, set_bytes, pre_write, post_write}
use beaverbot.Server.Read.{nodes_bytes}
use beaverbot.Server.Read.Delivered.{asked}
use beaverbot.Server.Write.{write_data}
use beaverbot.Server.Write.Done.{write_data-written}
use beaverbot.Server.Chunks.Received.{piece}
use beaverbot.Server.Chunks.Delivered.{IsAnswered}
use beaverbot.Server.Process.{request_of, kowhai_server_process_packet}
use beaverbot.Server.Process.Answers.{
  symbol_list-IsAnswered, descriptor-IsAnswered, read-IsAnswered,
}
use beaverbot.Server.Process.Errors.{replied, bad_packet-replied, unknown_tree-replied}
use beaverbot.Server.Process.Aborted.{write-aborted, write-no_data}
use beaverbot.Server.Tests.{tags, members, described, item, server, callbacks, quiet, empty}

symbol_list_parsed : kowhai_protocol_parse (0x90 ∷ 0 ∷ 0 ∷ []) ≡ (ok, empty cmd_get_symbol_list 0)
unfolding kowhai_protocol_parse parse_payload layout_of from_bytes
symbol_list_parsed = refl

symbol_list-IsAnswered_example :
    IsAnswered server 0 cmd_get_symbol_list_ack cmd_get_symbol_list_ack_end
      (97 ∷ 98 ∷ 0 ∷ 99 ∷ 0 ∷ [])
      (kowhai_server_process_packet 2 callbacks server (0x90 ∷ 0 ∷ 0 ∷ []))
symbol_list-IsAnswered_example =
    symbol_list-IsAnswered 2 callbacks server (0x90 ∷ 0 ∷ 0 ∷ []) (empty cmd_get_symbol_list 0)
      (omega arith) symbol_list_parsed (omega arith) refl (omega arith) (omega arith)

descriptor_parsed : kowhai_protocol_parse (0x40 ∷ 1 ∷ 0 ∷ []) ≡ (ok, empty cmd_read_descriptor 1)
unfolding kowhai_protocol_parse parse_payload layout_of from_bytes
descriptor_parsed = refl

descriptor-IsAnswered_example :
    IsAnswered server 1 cmd_read_descriptor_ack cmd_read_descriptor_ack_end
      (nodes_bytes described.nodes)
      (kowhai_server_process_packet 2 callbacks server (0x40 ∷ 1 ∷ 0 ∷ []))
descriptor-IsAnswered_example =
    descriptor-IsAnswered 2 callbacks server (0x40 ∷ 1 ∷ 0 ∷ []) (empty cmd_read_descriptor 1)
      (omega arith) descriptor_parsed (omega arith) refl (omega arith)
      (item 1 (some (10 ∷ 20 ∷ 30 ∷ []))) described refl (omega arith) refl refl (omega arith)

-- A path to the array's element with an index.
abbrev at : (name array_index : ℕ) → Symbol
at name array_index = record { name = name; array_index = array_index }

-- The second byte is read, and what follows it.
abbrev read_packet : ℕ → List ℕ
read_packet id = 0x30 ∷ id ∷ 0 ∷ 2 ∷ 7 ∷ 0 ∷ 0 ∷ 0 ∷ 8 ∷ 0 ∷ 1 ∷ 0 ∷ []

abbrev carries : (command id : ℕ) → Memory → List ℕ → Protocol
carries command id memory buffer = record {
  header = record { command = command; id = id };
  payload = record { spec = data_spec (asked (at 7 0) (at 8 1 ∷ []) memory); buffer = buffer };
}

read_parsed :
    (id : ℕ)
    → id < 256
    → kowhai_protocol_parse (read_packet id) ≡ (ok, carries cmd_read_data id no_memory [])
unfolding kowhai_protocol_parse parse_payload layout_of from_bytes parse_symbols read_symbols
read_parsed id h = let e : id + 256 * 0 ≡ id = omega arith in rw e refl

abbrev wide : Server
wide = record server { max_packet_size = 20 }

abbrev resolved : Hit
resolved = record { offset = 1; index = 1; target = members }

found_at : resolve false (root (tags 7 1) (tags 0 0) members) (at 7 0 ∷ at 8 1 ∷ []) ≡ some resolved
unfolding resolve
found_at = refl

abbrev path : (memory : Memory) → IsPath (asked (at 7 0) (at 8 1 ∷ []) memory)
path memory = record {
  short = omega arith;
  counted = refl;
  words = ((omega arith, omega arith), ((omega arith, omega arith), tt));
}

read-IsAnswered_example :
    IsAnswered wide 1 cmd_read_data_ack cmd_read_data_ack_end
      (20 ∷ 30 ∷ [])
      (kowhai_server_process_packet 3 callbacks wide (read_packet 1))
read-IsAnswered_example =
    read-IsAnswered 3 callbacks wide (read_packet 1) (carries cmd_read_data 1 no_memory [])
      (omega arith) (read_parsed 1 (omega arith)) (omega arith) (tags 7 1) (tags 0 0) members 100
      (10 ∷ 20 ∷ 30 ∷ []) (at 7 0) (at 8 1 ∷ []) no_memory (item 1 (some (10 ∷ 20 ∷ 30 ∷ [])))
      found_at (omega arith) refl refl (path no_memory) refl (omega arith) refl refl (omega arith)
      (omega arith)

-- The path is missing.
abbrev short_packet : List ℕ
short_packet = 0x30 ∷ 7 ∷ 0 ∷ []

abbrev short_protocol : Protocol
short_protocol = record {
  header = record { command = cmd_read_data; id = 7 };
  payload = record {
    spec = data_spec (record { count = 0; symbols = []; memory = no_memory });
    buffer = [];
  };
}

short_parsed : kowhai_protocol_parse short_packet ≡ (packet_buffer_too_small, short_protocol)
unfolding kowhai_protocol_parse parse_payload layout_of from_bytes parse_symbols
short_parsed = refl

bad_packet-replied_example :
    kowhai_server_process_packet 2 callbacks server short_packet
    ≡ some (packet_buffer_too_small, replied server cmd_error_invalid_command 7)
bad_packet-replied_example =
    bad_packet-replied 2 callbacks server short_packet short_protocol (omega arith) (omega arith)
      packet_buffer_too_small packet_buffer_too_small short_parsed
      (inl ((λ e. cc), (λ e. cc), refl))

unknown_tree-replied_example :
    kowhai_server_process_packet 2 callbacks server (read_packet 3)
    ≡ some (ok, replied server cmd_error_invalid_tree_id 3)
unknown_tree-replied_example =
    unknown_tree-replied 2 callbacks server (read_packet 3) (carries cmd_read_data 3 no_memory [])
      (omega arith) (omega arith) (read_parsed 3 (omega arith))
      (asked (at 7 0) (at 8 1 ∷ []) no_memory) ((λ e. omega arith), ((λ e. omega arith), tt))
      (inr (refl, inr refl))

-- A byte is written to the second place, as the end of a sequence.
abbrev write_memory : Memory
write_memory = record { type = 0x71; offset = 0; size = 1 }

abbrev write_packet : ℕ → ℕ → List ℕ
write_packet id symbol =
    0x21 ∷ id ∷ 0 ∷ 2 ∷ 7 ∷ 0 ∷ 0 ∷ 0 ∷ symbol ∷ 0 ∷ 1 ∷ 0 ∷ 0x71 ∷ 0 ∷ 0 ∷ 0 ∷ 1 ∷ 0 ∷ 99 ∷ []

abbrev write_protocol : ℕ → ℕ → Protocol
write_protocol id symbol = record {
  header = record { command = cmd_write_data_end; id = id };
  payload = record {
    spec = data_spec (asked (at 7 0) (at symbol 1 ∷ []) write_memory);
    buffer = 99 ∷ [];
  };
}

write_parsed : kowhai_protocol_parse (write_packet 2 8) ≡ (ok, write_protocol 2 8)
unfolding kowhai_protocol_parse parse_payload layout_of from_bytes parse_symbols read_symbols
    parse_data_payload parse_memory
write_parsed = refl

write-no_data_example : kowhai_server_process_packet 2 callbacks wide (write_packet 2 8) ≡ none
unfolding request_of
write-no_data_example =
    write-no_data 2 callbacks wide (write_packet 2 8) (write_protocol 2 8) (omega arith)
      (omega arith) write_parsed (asked (at 7 0) (at 8 1 ∷ []) write_memory) refl (item 2 none) refl
      (omega arith) (tags 7 1) (tags 0 0) members 100 (at 7 0) (at 8 1 ∷ []) found_at quiet refl
      refl refl refl tt (omega arith) (omega arith) (omega arith)

wrong_parsed : kowhai_protocol_parse (write_packet 1 6) ≡ (ok, write_protocol 1 6)
unfolding kowhai_protocol_parse parse_payload layout_of from_bytes parse_symbols read_symbols
    parse_data_payload parse_memory
wrong_parsed = refl

wrong_nothing : resolve false (root (tags 7 1) (tags 0 0) members) (at 7 0 ∷ at 6 1 ∷ []) ≡ none
unfolding resolve
wrong_nothing = refl

write-aborted_example :
    kowhai_server_process_packet 2 callbacks wide (write_packet 1 6)
    ≡ some (ok, replied wide cmd_error_invalid_symbol_path 1)
write-aborted_example =
    write-aborted 2 callbacks wide (write_packet 1 6) (write_protocol 1 6) (omega arith)
      (omega arith) wrong_parsed (asked (at 7 0) (at 6 1 ∷ []) write_memory) refl
      (item 1 (some (10 ∷ 20 ∷ 30 ∷ []))) refl (omega arith) (tags 7 1) (tags 0 0) members 100
      (at 7 0) (at 6 1 ∷ []) cmd_error_invalid_symbol_path (inr refl) refl refl
      (inl (wrong_nothing, refl))

write_data-written_example :
    (after : List ℕ) × (answer : List ℕ) × (write_data callbacks wide
        (write_protocol 1 8)
        (asked (at 7 0) (at 8 1 ∷ []) write_memory)
      ≡ some (record wide {
        tree_list = set_bytes 1 after server.tree_list;
        log = pre_write 1 108 (pos 1) ∷ post_write 1 108 (pos 1) 1 ∷ sent answer ∷ [];
      }))
    × Replaced 1 (99 ∷ []) (10 ∷ 20 ∷ 30 ∷ []) after
    × (piece answer
        ≡ some (record { command = cmd_write_data_ack; id = 1; offset = 0; bytes = 99 ∷ [] }))
write_data-written_example =
    write_data-written callbacks quiet wide (write_protocol 1 8) (tags 7 1) (tags 0 0) members 100
      (10 ∷ 20 ∷ 30 ∷ []) (at 7 0) (at 8 1 ∷ []) write_memory (item 1 (some (10 ∷ 20 ∷ 30 ∷ [])))
      found_at (omega arith) (path write_memory) (omega arith) (omega arith) (omega arith)
      (omega arith) refl (omega arith) refl (omega arith) refl refl tt (omega arith) (omega arith)
