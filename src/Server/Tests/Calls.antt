-- ===== src/Server/Tests/Calls.antt =====
-- Uses of the theorems on function calls of teensy/usb_rawhid/kowhai/kowhai_protocol_server.c.
use beaverbot.Prelude.{ℕ, ◌≡◌, refl, some, none, List, [], ◌∷◌, pos, arith, ◌*ℤ◌, ◌+ℤ◌}
use beaverbot.Kowhai.{ok, kowhai_get_node_type_size}
use beaverbot.Kowhai.Size.{kowhai_get_node_size, get_node_size, size_loop}
use beaverbot.Kowhai.Access.{from_bytes, store}
use beaverbot.Kowhai.Access.Bytes.{Replaced}
use beaverbot.Protocol.{
  Protocol, FunctionCall, layout_of, function_call, cmd_call_function, cmd_call_function_ack,
  cmd_call_function_result, cmd_call_function_result_end, cmd_error_invalid_payload_size,
}
use beaverbot.Protocol.Parse.{
  kowhai_protocol_parse, parse_payload, parse_function_call, parse_sized,
}
use beaverbot.Server.{Server, sent, called, emit, set_bytes, get_function_index}
use beaverbot.Server.Chunks.Received.{piece}
use beaverbot.Server.Chunks.Delivered.{IsAnswered}
use beaverbot.Server.Process.{request_of, kowhai_server_process_packet}
use beaverbot.Server.Process.Errors.{replied}
use beaverbot.Server.Process.Calls.{call-refused, call-partial, call-IsAnswered}
use beaverbot.Server.Tests.{item, function, server, callbacks, described}

abbrev call_of : (offset size : ℕ) → FunctionCall
call_of offset size = record { offset = offset; size = size }

abbrev calling : (offset size : ℕ) → List ℕ → Protocol
calling offset size buffer = record {
  header = record { command = cmd_call_function; id = 9 };
  payload = record { spec = function_call (call_of offset size); buffer = buffer };
}

-- The second byte, the second and the third, and one too many.
part : kowhai_protocol_parse (0x70 ∷ 9 ∷ 0 ∷ 1 ∷ 0 ∷ 1 ∷ 0 ∷ 55 ∷ []) ≡ (ok, calling 1 1 (55 ∷ []))
unfolding kowhai_protocol_parse parse_payload layout_of from_bytes parse_function_call parse_sized
part = refl

rest :
    kowhai_protocol_parse (0x70 ∷ 9 ∷ 0 ∷ 1 ∷ 0 ∷ 2 ∷ 0 ∷ 55 ∷ 66 ∷ [])
    ≡ (ok, calling 1 2 (55 ∷ 66 ∷ []))
unfolding kowhai_protocol_parse parse_payload layout_of from_bytes parse_function_call parse_sized
rest = refl

over :
    kowhai_protocol_parse (0x70 ∷ 9 ∷ 0 ∷ 2 ∷ 0 ∷ 2 ∷ 0 ∷ 55 ∷ 66 ∷ [])
    ≡ (ok, calling 2 2 (55 ∷ 66 ∷ []))
unfolding kowhai_protocol_parse parse_payload layout_of from_bytes parse_function_call parse_sized
over = refl

three : kowhai_get_node_size described.nodes ≡ some (pos 3)
unfolding kowhai_get_node_size get_node_size size_loop kowhai_get_node_type_size ◌*ℤ◌ ◌+ℤ◌
three = refl

known : get_function_index server 9 ≡ some function
unfolding get_function_index
known = refl

abbrev bytes : List ℕ
bytes = 10 ∷ 20 ∷ 30 ∷ []

call-refused_example :
    kowhai_server_process_packet 2 callbacks server (0x70 ∷ 9 ∷ 0 ∷ 2 ∷ 0 ∷ 2 ∷ 0 ∷ 55 ∷ 66 ∷ [])
    ≡ some (ok, replied server cmd_error_invalid_payload_size 9)
unfolding request_of
call-refused_example =
    call-refused 2 callbacks server (0x70 ∷ 9 ∷ 0 ∷ 2 ∷ 0 ∷ 2 ∷ 0 ∷ 55 ∷ 66 ∷ [])
      (calling 2 2 (55 ∷ 66 ∷ [])) (omega arith) over refl (call_of 2 2) refl function known
      (item 1 (some bytes)) described 3 bytes refl (omega arith) refl refl three (omega arith)
      (omega arith)

call-partial_example :
    (after : List ℕ) × (answer : List ℕ) × Replaced 1 (55 ∷ []) bytes after
    × (kowhai_server_process_packet 2 callbacks server (0x70 ∷ 9 ∷ 0 ∷ 1 ∷ 0 ∷ 1 ∷ 0 ∷ 55 ∷ [])
        ≡ some (
          ok,
          emit
              (record server { tree_list = set_bytes 1 after server.tree_list })
              (sent answer ∷ []),
        ))
    × (piece answer
        ≡ some (record { command = cmd_call_function_ack; id = 9; offset = 0; bytes = [] }))
unfolding request_of
call-partial_example =
    call-partial 2 callbacks server (0x70 ∷ 9 ∷ 0 ∷ 1 ∷ 0 ∷ 1 ∷ 0 ∷ 55 ∷ []) (calling 1 1 (55 ∷ []))
      (omega arith) part refl (call_of 1 1) refl function known (item 1 (some bytes)) described 3
      bytes refl (omega arith) refl refl three (omega arith) (omega arith) (omega arith)
      (omega arith) (omega arith) (omega arith)

abbrev changed : List ℕ
changed = 10 ∷ 55 ∷ 66 ∷ []

stored_rest : store bytes (pos 1) (55 ∷ 66 ∷ []) ≡ some changed
unfolding store
stored_rest = refl

abbrev after_call : Server
after_call = record server {
  tree_list = item 1 (some changed) ∷ item 2 none ∷ [];
  log = called 9 ∷ [];
}

call-IsAnswered_example :
    Replaced 1 (55 ∷ 66 ∷ []) bytes changed
    × IsAnswered after_call 9 cmd_call_function_result cmd_call_function_result_end changed (
        kowhai_server_process_packet 2 callbacks server
          (0x70 ∷ 9 ∷ 0 ∷ 1 ∷ 0 ∷ 2 ∷ 0 ∷ 55 ∷ 66 ∷ []))
unfolding request_of
call-IsAnswered_example =
    call-IsAnswered 2 callbacks server (0x70 ∷ 9 ∷ 0 ∷ 1 ∷ 0 ∷ 2 ∷ 0 ∷ 55 ∷ 66 ∷ [])
      (calling 1 2 (55 ∷ 66 ∷ [])) (omega arith) rest refl (call_of 1 2) refl function known
      (item 1 (some bytes)) described 3 bytes refl (omega arith) refl refl three changed changed
      (item 1 (some changed) ∷ item 2 none ∷ []) (item 1 (some changed)) described (omega arith)
      (omega arith) (omega arith) (omega arith) (omega arith) refl stored_rest refl refl
      (omega arith) refl refl three (omega arith)
