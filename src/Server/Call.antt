-- ===== src/Server/Call.antt =====
-- The cases KOW_CMD_GET_FUNCTION_DETAILS and KOW_CMD_CALL_FUNCTION of `kowhai_server_process_packet` in
-- teensy/usb_rawhid/kowhai/kowhai_protocol_server.c.
use beaverbot.Prelude.{
  ℕ, ◌+◌, Bool, true, false, not, ◌&&◌, ◌||◌, ltb_ℤ, ◌==◌, if◌then◌else◌, Option, none, some, ◌>>=◌,
  ℤ, pos, negsuc, List, [], ◌∷◌, take, drop,
}
use beaverbot.Kowhai.Size.{kowhai_get_node_size}
use beaverbot.Kowhai.Access.{store}
use beaverbot.Protocol.{
  Protocol, FunctionCall, function_call, function_details, cmd_get_function_details_ack,
  cmd_call_function_ack, cmd_call_function_result, cmd_call_function_result_end,
  cmd_call_function_failed, cmd_error_invalid_function_id, cmd_error_invalid_payload_offset,
  cmd_error_invalid_payload_size,
}
use beaverbot.Server.{
  Descriptor, FunctionItem, Server, Callbacks, called, kow_undefined_symbol, emit, with_command,
  with_spec, populate_tree, get_function_index, check_tree_id, invalid_tree_id, send, set_bytes,
  bytes_of, TreePointers, TreeItem,
}
use beaverbot.Server.Chunks.{send_all}
pub mod Results

unfoldable pub get_function_details : Server → Protocol → Option Server
get_function_details s p = elim (get_function_index s p.header.id) [
  | none ↦ send s (with_spec (with_command p cmd_error_invalid_function_id) p.payload.spec [])
  | some f ↦
      send s
        (with_spec (with_command p cmd_get_function_details_ack) (function_details f.details) [])
]

abbrev pub no_call : FunctionCall
no_call = record { offset = 0; size = 0 }

-- An answer without bytes.
abbrev pub call_answer : Protocol → ℕ → Protocol
call_answer p command = with_spec (with_command p command) (function_call no_call) []

-- A size of a descriptor, which is zero for the null pointer.
abbrev pub data_size : Option Descriptor → Option ℤ
data_size none = some (pos 0)
data_size (some d) = kowhai_get_node_size d.nodes

abbrev pub result_protocol : Protocol → List ℕ → Bool → (offset size : ℕ) → Option Protocol
result_protocol p bytes last offset size = some (
    with_spec
      (with_command p (if last then cmd_call_function_result_end else cmd_call_function_result))
      (function_call (record { offset = offset; size = size })) (drop offset bytes))

-- "send return tree". A negative size, which no packet holds, is a fault.
unfoldable pub send_result :
    (pointer : ℕ) → Server → Protocol → Descriptor → Option (List ℕ) → Option Server
send_result pointer s p d bytes = do
  size ← kowhai_get_node_size d.nodes
  elim size [
    | pos n ↦
        send_all pointer s (call_answer p cmd_call_function_result)
          (result_protocol p (bytes_of bytes)) n
    | negsuc n ↦ none
  ]

-- The answer to a call that was made, with the tree of its results.
unfoldable pub answer_call : (pointer : ℕ) → Server → Protocol → TreePointers → Bool → Option Server
answer_call pointer s p tree false = send s (call_answer p cmd_call_function_failed)
answer_call pointer s p tree true = elim tree.desc [
  | none ↦ send s (call_answer p cmd_call_function_result_end)
  | some d ↦ send_result pointer s p d tree.bytes
]

-- What the application's function returns, and the trees as it leaves them.
unfoldable pub finish_call :
    (pointer : ℕ) → Server → Protocol → FunctionItem → Bool × List TreeItem → Option Server
finish_call pointer s p f (done, trees) =
    let s' = emit (record s { tree_list = trees }) (called p.header.id ∷ []) in
    answer_call pointer s' p (populate_tree s' f.details.tree_out_id) done

-- All bytes are there: the application is called, and its result is sent.
unfoldable pub run_function :
    (pointer : ℕ) → Callbacks → Server → Protocol → FunctionItem → Option Server
run_function pointer calls s p f =
    finish_call pointer s p f (calls.function_called p.header.id s.tree_list)

-- Whether all bytes of the arguments are there.
abbrev pub is_complete : FunctionCall → ℤ → Bool
is_complete c (pos n) = n == 0 || c.offset + c.size == n
is_complete c (negsuc n) = false

-- `memcpy` to the tree of the arguments; without bytes it does nothing, with the null pointer too.
unfoldable pub store_arguments : Server → (tree_id offset : ℕ) → List ℕ → Option Server
store_arguments s tree_id offset [] = some s
store_arguments s tree_id offset (b ∷ bs) = do
  bytes ← store (bytes_of (populate_tree s tree_id).bytes) (pos offset) (b ∷ bs)
  some (record s { tree_list = set_bytes tree_id bytes s.tree_list })

unfoldable pub write_arguments :
    (pointer : ℕ) → Callbacks → Server → Protocol → FunctionCall → FunctionItem → ℤ → Option Server
write_arguments pointer calls s p c f tree_data_size =
    if ltb_ℤ tree_data_size (pos c.offset)
    then send s (with_command p cmd_error_invalid_payload_offset)
    else if ltb_ℤ tree_data_size (pos (c.offset + c.size))
    then send s (with_command p cmd_error_invalid_payload_size)
    else store_arguments s f.details.tree_in_id c.offset (take c.size p.payload.buffer) >>= (λ s'.
      if is_complete c tree_data_size
      then run_function pointer calls s' p f
      else send s' (call_answer p cmd_call_function_ack))

-- With the function of the list that has the id, if there is one.
unfoldable pub call_found :
    (pointer : ℕ)
    → Callbacks
    → Server
    → Protocol
    → FunctionCall
    → Option FunctionItem
    → Option Server
call_found pointer calls s p c none = send s (with_command p cmd_error_invalid_function_id)
call_found pointer calls s p c (some f) =
    if not (f.details.tree_in_id == kow_undefined_symbol)
      && not (check_tree_id s f.details.tree_in_id)
    then invalid_tree_id s p
    else data_size (populate_tree s f.details.tree_in_id).desc
      >>= (λ size. write_arguments pointer calls s p c f size)

unfoldable pub call_function :
    (pointer : ℕ) → Callbacks → Server → Protocol → FunctionCall → Option Server
call_function pointer calls s p c =
    call_found pointer calls s p c (get_function_index s p.header.id)
