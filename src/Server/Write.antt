-- ===== src/Server/Write.antt =====
-- The cases KOW_CMD_WRITE_DATA and KOW_CMD_WRITE_DATA_END of `kowhai_server_process_packet` in
-- teensy/usb_rawhid/kowhai/kowhai_protocol_server.c.
use beaverbot.Prelude.{
  ℕ, ◌+◌, ◌*◌, ltb, ◌==◌, if◌then◌else◌, Option, none, some, ◌>>=◌, ℤ, pos, [], ◌∷◌, take,
}
use beaverbot.Kowhai.{
  Status, ok, invalid_symbol_path, invalid_offset, node_data_too_small, invalid_sequence, no_data,
}
use beaverbot.Kowhai.Lookup.{found, failed, kowhai_get_node}
use beaverbot.Kowhai.Access.{kowhai_read, kowhai_write}
use beaverbot.Protocol.{
  Protocol, DataSpec, cmd_write_data_end, cmd_write_data_ack, cmd_error_invalid_symbol_path,
  cmd_error_invalid_payload_offset, cmd_error_invalid_payload_size, cmd_error_invalid_sequence,
  cmd_error_no_data, cmd_error_unknown,
}
use beaverbot.Server.{
  Descriptor, Writing, Server, Callbacks, pre_write, post_write, with_command, with_spec, emit,
  send, populate_tree, check_tree_id, invalid_tree_id, tree_of, set_bytes, TreePointers,
}
pub mod Sequence
pub mod Done

unfoldable pub error_command : Status → ℕ
error_command invalid_symbol_path = cmd_error_invalid_symbol_path
error_command invalid_offset = cmd_error_invalid_payload_offset
error_command node_data_too_small = cmd_error_invalid_payload_size
error_command invalid_sequence = cmd_error_invalid_sequence
error_command no_data = cmd_error_no_data
error_command status = cmd_error_unknown

-- The error answer.
unfoldable pub send_error : Server → Protocol → Status → Option Server
send_error s p status = send s (with_command p (error_command status))

-- The address of a node of a descriptor.
abbrev pub node_address : Option Descriptor → ℕ → ℕ
node_address none target = 8 * target
node_address (some d) target = d.address + 8 * target

-- `bytes_written` by the write that a packet asks for.
abbrev pub written_by : DataSpec → ℕ
written_by d = d.memory.offset + d.memory.size

-- "check/set current write node": the node that is written must be the current one, if there is one;
-- otherwise it becomes that, and `node_pre_write` is called.
unfoldable pub begin_at :
    Callbacks → Server → (id node : ℕ) → ℤ → Option Writing → Status × Server × Writing
begin_at calls s id node offset (some w) = (if node == w.node then ok else invalid_sequence, s, w)
begin_at calls s id node offset none =
    let w : Writing = record { node = node; offset = offset; bytes_written = 0 } in
    (
      ok,
      emit
          (record s {
            tree_list = calls.node_pre_write id node offset s.tree_list;
            current_write = some w;
          })
          (pre_write id node offset ∷ []),
      w,
    )

unfoldable pub begin_write : Callbacks → Server → (id node : ℕ) → ℤ → Status × Server × Writing
begin_write calls s id node offset = begin_at calls s id node offset s.current_write

-- "update current_write_node_bytes_written", and at the end of the sequence `node_post_write` is called.
unfoldable pub note_write : Callbacks → Server → (command id written : ℕ) → Writing → Server
note_write calls s command id written w =
    let most = if ltb w.bytes_written written then written else w.bytes_written in
    if command == cmd_write_data_end
    then emit
        (record s {
          tree_list = calls.node_post_write id w.node w.offset most s.tree_list;
          current_write = none;
        })
        (post_write id w.node w.offset most ∷ [])
    else record s { current_write = some (record w { bytes_written = most }) }

-- The acknowledgement, with the bytes as they are now read back. If that failed, bytes of the request
-- would be sent.
unfoldable pub acknowledge_write : Server → Protocol → DataSpec → Option Server
acknowledge_write s p d = do
  (status, bytes) ←
      kowhai_read (tree_of (populate_tree s p.header.id)) d.symbols (pos d.memory.offset)
        d.memory.size
  send s (
      with_spec (with_command p cmd_write_data_ack) p.payload.spec
        (elim status [ ok ↦ bytes | failure ↦ p.payload.buffer ]))

-- The current write node is cleared, and the error answered.
unfoldable pub fail_write : Server → Protocol → Status → Option Server
fail_write s p status = send_error (record s { current_write = none }) p status

-- "write to tree", in the sequence `w`.
unfoldable pub continue_write : Callbacks → Server → Protocol → DataSpec → Writing → Option Server
continue_write calls s p d w = do
  (status, tree) ←
      kowhai_write (tree_of (populate_tree s p.header.id)) d.symbols (pos d.memory.offset)
        (take d.memory.size p.payload.buffer)
  elim status [
    | ok ↦
        let s' = record s { tree_list = set_bytes p.header.id tree.bytes s.tree_list } in
        acknowledge_write (note_write calls s' p.header.command p.header.id (written_by d) w) p d
    | failure ↦ fail_write s p failure
  ]

-- What follows the check of the sequence.
unfoldable pub proceed : Callbacks → Protocol → DataSpec → Status × Server × Writing → Option Server
proceed calls p d (ok, s, w) = continue_write calls s p d w
proceed calls p d (failure, s, w) = fail_write s p failure

-- The write of a node that was found.
unfoldable pub write_found :
    Callbacks → Server → Protocol → DataSpec → (node : ℕ) → ℤ → Option Server
write_found calls s p d node offset =
    proceed calls p d (begin_write calls s p.header.id node offset)

unfoldable pub write_node : Callbacks → Server → Protocol → DataSpec → TreePointers → Option Server
write_node calls s p d tree = do
  node ← kowhai_get_node (tree_of tree).desc d.symbols
  elim node [
    | failed status ↦ fail_write s p status
    | found offset target ↦ write_found calls s p d (node_address tree.desc target) offset
  ]

unfoldable pub write_data : Callbacks → Server → Protocol → DataSpec → Option Server
write_data calls s p d =
    if check_tree_id s p.header.id
    then write_node calls s p d (populate_tree s p.header.id)
    else invalid_tree_id s p
