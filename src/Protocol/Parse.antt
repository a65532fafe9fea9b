-- ===== src/Protocol/Parse.antt =====
-- Reading packets: the `parse_*` functions and `kowhai_protocol_parse` of
-- teensy/usb_rawhid/kowhai/kowhai_protocol.c. A packet of `packet_size` bytes is their list; the
-- memory that `memset` clears and that a failed call has not written stays cleared.
use beaverbot.Prelude.{ℕ, zero, suc, ◌+◌, ◌-◌, ◌*◌, ltb, if◌then◌else◌, List, [], ◌∷◌, length, drop}
use beaverbot.Kowhai.{Symbol, Status, ok, packet_buffer_too_small, invalid_protocol_command}
use beaverbot.Protocol.{
  Header, Memory, DataSpec, Spec, Payload, Protocol, cmd_error_invalid_command,
  cmd_error_invalid_tree_id, cmd_error_invalid_function_id, cmd_error_invalid_symbol_path,
  cmd_error_invalid_payload_offset, cmd_error_invalid_payload_size, cmd_error_invalid_sequence,
  cmd_error_no_data, one_of, layout_of, field, cleared, version, id_list, data_spec, descriptor,
  function_details, function_call, event, string_list, unknown, no_payload, version_payload,
  id_list_payload, read_payload, data_payload, descriptor_payload, details_payload, call_payload,
  event_payload, string_list_payload,
}

unfoldable pub parse_version : List ℕ → Status × Payload
parse_version packet =
    if ltb (length packet) 4
    then (packet_buffer_too_small, record { spec = cleared; buffer = [] })
    else (ok, record { spec = version (field 0 4 packet); buffer = [] })

-- The symbols at the start of some bytes.
unfoldable pub read_symbols : ℕ → List ℕ → List Symbol
read_symbols zero bytes = []
read_symbols (suc n) bytes =
    record { name = field 0 2 bytes; array_index = field 2 2 bytes } ∷ read_symbols n (drop 4 bytes)

abbrev pub no_memory : Memory
no_memory = record { type = 0; offset = 0; size = 0 }

-- With `*symbols_size`, which is zero where the code does not set it.
unfoldable pub parse_symbols : List ℕ → Status × DataSpec × ℕ
parse_symbols packet =
    if ltb (length packet) 1
    then (packet_buffer_too_small, record { count = 0; symbols = []; memory = no_memory }, 0)
    else let count = field 0 1 packet in
      if ltb (length packet) (1 + 4 * count)
      then (packet_buffer_too_small, record { count = count; symbols = []; memory = no_memory }, 0)
      else (
        ok,
        record { count = count; symbols = read_symbols count (drop 1 packet); memory = no_memory },
        1 + 4 * count,
      )

-- The rest of a read or write packet, behind `n` bytes of symbols.
unfoldable pub parse_memory : DataSpec → ℕ → List ℕ → Status × Payload
parse_memory symbols n packet =
    if ltb (length packet) (n + 6)
    then (packet_buffer_too_small, record { spec = data_spec symbols; buffer = [] })
    else let rest = drop n packet in
      let spec = data_spec (record symbols {
        memory = record { type = field 0 2 rest; offset = field 2 2 rest; size = field 4 2 rest };
      }) in
      if ltb (length packet - (n + 6)) (field 4 2 rest)
      then (packet_buffer_too_small, record { spec = spec; buffer = [] })
      else (ok, record { spec = spec; buffer = drop 6 rest })

unfoldable pub parse_data_payload : List ℕ → Status × Payload
parse_data_payload packet =
    let (status, symbols, n) = parse_symbols packet in
    elim status [
      | ok ↦ parse_memory symbols n packet
      | failure ↦ (failure, record { spec = data_spec symbols; buffer = [] })
    ]

-- A structure of `n` bytes, and the buffer behind it, which `size` finds to be large enough.
unfoldable pub parse_sized : ℕ → (List ℕ → Spec) → (List ℕ → ℕ) → List ℕ → Status × Payload
parse_sized n spec size packet =
    if ltb (length packet) n
    then (packet_buffer_too_small, record { spec = cleared; buffer = [] })
    else if ltb (length packet - n) (size packet)
    then (packet_buffer_too_small, record { spec = spec packet; buffer = [] })
    else (ok, record { spec = spec packet; buffer = drop n packet })

abbrev pub read_descriptor : List ℕ → Spec
read_descriptor p =
    descriptor (record { node_count = field 0 2 p; offset = field 2 2 p; size = field 4 2 p })

unfoldable pub parse_descriptor_payload : List ℕ → Status × Payload
unfolding parse_sized
parse_descriptor_payload = parse_sized 6 read_descriptor (field 4 2)

abbrev pub read_id_list : List ℕ → Spec
read_id_list p =
    id_list (record { list_count = field 0 2 p; offset = field 2 2 p; size = field 4 2 p })

unfoldable pub parse_id_list : List ℕ → Status × Payload
unfolding parse_sized
parse_id_list = parse_sized 6 read_id_list (field 4 2)

abbrev pub read_string_list : List ℕ → Spec
read_string_list p = string_list (record {
  list_count = field 0 2 p;
  list_total_size = field 2 4 p;
  offset = field 6 2 p;
  size = field 8 2 p;
})

-- The size that is checked is `spec.id_list.size`, which lies on the upper half of
-- `spec.string_list.list_total_size`.
unfoldable pub parse_string_list : List ℕ → Status × Payload
unfolding parse_sized
parse_string_list = parse_sized 10 read_string_list (field 4 2)

unfoldable pub parse_function_details : List ℕ → Status × Payload
parse_function_details packet =
    if ltb (length packet) 4
    then (packet_buffer_too_small, record { spec = cleared; buffer = [] })
    else (
      ok,
      record {
        spec =
            function_details
              (record { tree_in_id = field 0 2 packet; tree_out_id = field 2 2 packet });
        buffer = [];
      },
    )

abbrev pub read_call : List ℕ → Spec
read_call p = function_call (record { offset = field 0 2 p; size = field 2 2 p })

unfoldable pub parse_function_call : List ℕ → Status × Payload
unfolding parse_sized
parse_function_call = parse_sized 4 read_call (field 2 2)

abbrev pub read_event : List ℕ → Spec
read_event p = event (record { offset = field 0 2 p; size = field 2 2 p })

unfoldable pub parse_event : List ℕ → Status × Payload
unfolding parse_sized
parse_event = parse_sized 4 read_event (field 2 2)

abbrev pub error_commands : List ℕ
error_commands =
    cmd_error_invalid_command ∷ cmd_error_invalid_function_id ∷ cmd_error_invalid_payload_offset
    ∷ cmd_error_invalid_payload_size ∷ cmd_error_invalid_sequence ∷ cmd_error_invalid_symbol_path
    ∷ cmd_error_invalid_tree_id ∷ cmd_error_no_data ∷ []

abbrev pub no_spec : Payload
no_spec = record { spec = cleared; buffer = [] }

-- The switch, at the bytes behind the header.
unfoldable pub parse_payload : ℕ → List ℕ → Status × Payload
parse_payload command packet = elim (layout_of command) [
  | no_payload ↦ (ok, no_spec)
  | version_payload ↦ parse_version packet
  | id_list_payload ↦ parse_id_list packet
  | read_payload ↦
      let (status, symbols, n) = parse_symbols packet in
      (status, record { spec = data_spec symbols; buffer = [] })
  | data_payload ↦ parse_data_payload packet
  | descriptor_payload ↦ parse_descriptor_payload packet
  | details_payload ↦ parse_function_details packet
  | call_payload ↦ parse_function_call packet
  | event_payload ↦ parse_event packet
  | string_list_payload ↦ parse_string_list packet
  | unknown ↦
      if one_of command error_commands then (ok, no_spec) else (invalid_protocol_command, no_spec)
]

unfoldable pub kowhai_protocol_parse : List ℕ → Status × Protocol
kowhai_protocol_parse packet =
    if ltb (length packet) 3
    then (
      packet_buffer_too_small,
      record { header = record { command = 0; id = 0 }; payload = no_spec },
    )
    else let header : Header = record { command = field 0 1 packet; id = field 1 2 packet } in
      let (status, payload) = parse_payload header.command (drop 3 packet) in
      (status, record { header = header; payload = payload })
