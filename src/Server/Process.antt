-- ===== src/Server/Process.antt =====
-- `kowhai_server_process_packet` of teensy/usb_rawhid/kowhai/kowhai_protocol_server.c.
use beaverbot.Prelude.{ℕ, ◌||◌, ltb, ◌==◌, if◌then◌else◌, Option, none, some, ◌>>=◌, List, length}
use beaverbot.Kowhai.{Status, ok, invalid_protocol_command, packet_buffer_too_big}
use beaverbot.Protocol.{
  DataSpec, FunctionCall, Spec, Protocol, version, data_spec, function_call, cmd_get_version,
  cmd_get_version_ack, cmd_get_tree_list, cmd_get_tree_list_ack, cmd_get_tree_list_ack_end,
  cmd_write_data, cmd_write_data_end, cmd_read_data, cmd_read_descriptor, cmd_get_function_list,
  cmd_get_function_list_ack, cmd_get_function_list_ack_end, cmd_get_function_details,
  cmd_call_function, cmd_get_symbol_list, cmd_get_symbol_list_ack, cmd_get_symbol_list_ack_end,
  cmd_error_invalid_command,
}
use beaverbot.Protocol.Parse.{kowhai_protocol_parse}
use beaverbot.Server.{Server, Callbacks, with_command, with_spec, send}
use beaverbot.Server.Chunks.{send_id_list, send_string_list}
use beaverbot.Server.Write.{write_data}
use beaverbot.Server.Read.{read_data, send_descriptor}
use beaverbot.Server.Call.{get_function_details, call_function}
pub mod Answers
pub mod Errors
pub mod Calls
pub mod Invariant
pub mod Aborted

abbrev pub kowhai_version : ℕ
kowhai_version = 6

-- The commands of the switch.
pub data Request : Type 0 where
  get_version get_tree_list write read get_descriptor get_function_list : Request
  get_details call get_symbol_list other : Request

unfoldable pub request_of : ℕ → Request
request_of c =
    if c == cmd_get_version
    then get_version
    else if c == cmd_get_tree_list || c == cmd_get_tree_list_ack_end
    then get_tree_list
    else if c == cmd_write_data || c == cmd_write_data_end
    then write
    else if c == cmd_read_data
    then read
    else if c == cmd_read_descriptor
    then get_descriptor
    else if c == cmd_get_function_list
    then get_function_list
    else if c == cmd_get_function_details
    then get_details
    else if c == cmd_call_function
    then call
    else if c == cmd_get_symbol_list
    then get_symbol_list
    else other

-- The member of the payload that the command has; the parse has stored it.
unfoldable pub with_data : Spec → (DataSpec → Option Server) → Option Server
with_data (data_spec d) k = k d
with_data spec k = none

unfoldable pub with_call : Spec → (FunctionCall → Option Server) → Option Server
with_call (function_call c) k = k c
with_call spec k = none

module _ (pointer : ℕ) (calls : Callbacks) where
  -- The switch.
  unfoldable pub handle : Server → Protocol → Request → Option Server
  handle s p get_version =
      send s
        (with_spec (with_command p cmd_get_version_ack) (version kowhai_version) p.payload.buffer)
  handle s p get_tree_list =
      send_id_list pointer s p cmd_get_tree_list_ack cmd_get_tree_list_ack_end s.tree_id_list
  handle s p write = with_data p.payload.spec (λ d. write_data calls s p d)
  handle s p read = with_data p.payload.spec (λ d. read_data pointer s p d)
  handle s p get_descriptor = send_descriptor pointer s p
  handle s p get_function_list =
      send_id_list pointer s p cmd_get_function_list_ack cmd_get_function_list_ack_end
        s.function_id_list
  handle s p get_details = get_function_details s p
  handle s p call = with_call p.payload.spec (λ c. call_function pointer calls s p c)
  handle s p get_symbol_list =
      send_string_list pointer s p cmd_get_symbol_list_ack cmd_get_symbol_list_ack_end s.symbol_list
  handle s p other = send s (with_command p cmd_error_invalid_command)

  -- A packet that could not be parsed is answered, and its status returned.
  unfoldable pub refuse : Server → Protocol → Status → Option (Status × Server)
  refuse s p status = do s' ← send s (with_command p cmd_error_invalid_command); some (status, s')

  unfoldable pub accept : Server → Protocol → Option (Status × Server)
  accept s p = do s' ← handle s p (request_of p.header.command); some (ok, s')

  unfoldable pub process_parsed : Server → Status → Protocol → Option (Status × Server)
  process_parsed s ok p = accept s p
  process_parsed s invalid_protocol_command p = accept s p
  process_parsed s status p = refuse s p status

  unfoldable pub kowhai_server_process_packet : Server → List ℕ → Option (Status × Server)
  kowhai_server_process_packet s packet =
      if ltb s.max_packet_size (length packet)
      then some (packet_buffer_too_big, s)
      else let (status, p) = kowhai_protocol_parse packet in process_parsed s status p
