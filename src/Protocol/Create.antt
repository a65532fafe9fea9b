-- ===== src/Protocol/Create.antt =====
-- Writing packets: `kowhai_protocol_create` of teensy/usb_rawhid/kowhai/kowhai_protocol.c. `none` is
-- a read past the memory that the protocol's pointers give, or of a member of the union of the
-- payload that was not stored.
use beaverbot.Prelude.{
  ℕ, ◌+◌, ◌*◌, true, false, ltb, Option, none, some, ◌>>=◌, List, [], ◌∷◌, ◌++◌, length, take,
}
use beaverbot.Kowhai.{Symbol, Status, ok, packet_buffer_too_small, invalid_protocol_command}
use beaverbot.Kowhai.Access.{to_bytes}
use beaverbot.Protocol.{
  Header, IdList, DataSpec, DescriptorSpec, FunctionDetails, FunctionCall, Event, StringList,
  Memory, Spec, Protocol, Layout, version, id_list, data_spec, descriptor, function_details,
  function_call, event, string_list, no_payload, version_payload, id_list_payload, read_payload,
  data_payload, descriptor_payload, details_payload, call_payload, event_payload,
  string_list_payload, unknown, layout_of,
}

-- The bytes of the packed structures.
abbrev pub header_bytes : Header → List ℕ
header_bytes h = to_bytes 1 h.command ++ to_bytes 2 h.id

abbrev pub id_list_bytes : IdList → List ℕ
id_list_bytes l = to_bytes 2 l.list_count ++ (to_bytes 2 l.offset ++ to_bytes 2 l.size)

abbrev pub memory_bytes : Memory → List ℕ
memory_bytes m = to_bytes 2 m.type ++ (to_bytes 2 m.offset ++ to_bytes 2 m.size)

abbrev pub descriptor_bytes : DescriptorSpec → List ℕ
descriptor_bytes d = to_bytes 2 d.node_count ++ (to_bytes 2 d.offset ++ to_bytes 2 d.size)

abbrev pub details_bytes : FunctionDetails → List ℕ
details_bytes d = to_bytes 2 d.tree_in_id ++ to_bytes 2 d.tree_out_id

abbrev pub call_bytes : FunctionCall → List ℕ
call_bytes c = to_bytes 2 c.offset ++ to_bytes 2 c.size

abbrev pub event_bytes : Event → List ℕ
event_bytes e = to_bytes 2 e.offset ++ to_bytes 2 e.size

abbrev pub string_list_bytes : StringList → List ℕ
string_list_bytes l =
    to_bytes 2 l.list_count
    ++ (to_bytes 4 l.list_total_size ++ (to_bytes 2 l.offset ++ to_bytes 2 l.size))

abbrev pub symbols_bytes : List Symbol → List ℕ
symbols_bytes [] = []
symbols_bytes (y ∷ ys) = to_bytes 2 y.name ++ (to_bytes 2 y.array_index ++ symbols_bytes ys)

-- What was done so far: the status, `*bytes_required` and what was written.
pub record Created : Type 0 where
  pub status : Status
  pub bytes_required : ℕ
  pub packet : List ℕ

-- `*bytes_required` grows by `n`, the size is checked, and `n` bytes of `source` are copied.
abbrev pub copy : ℕ → ℕ → List ℕ → Created → Option Created
copy packet_size n source c =
    let required = c.bytes_required + n in
    elim (ltb packet_size required) [
      | true ↦ some (record {
        status = packet_buffer_too_small;
        bytes_required = required;
        packet = c.packet;
      })
      | false ↦ elim (ltb (length source) n) [
        | true ↦ none
        | false ↦
            some (record {
              status = ok;
              bytes_required = required;
              packet = c.packet ++ take n source;
            })
      ]
    ]

-- One round of the code; after a failure nothing more is done.
unfoldable pub put : ℕ → ℕ → List ℕ → Created → Option Created
put packet_size n source c = elim c.status [ ok ↦ copy packet_size n source c | failure ↦ some c ]

-- A structure and the buffer behind it.
abbrev pub put_sized : ℕ → List ℕ → ℕ → List ℕ → Created → Option Created
put_sized packet_size structure size buffer c = do
  c' ← put packet_size (length structure) structure c
  put packet_size size buffer c'

-- The symbol count and the symbols.
unfoldable pub put_symbols : ℕ → DataSpec → Created → Option Created
unfolding put
put_symbols packet_size d c = do
  c' ← put packet_size 1 (to_bytes 1 d.count) c
  put packet_size (4 * d.count) (symbols_bytes d.symbols) c'

-- The switch, behind the header.
unfoldable pub create_payload : ℕ → Layout → Spec → List ℕ → Created → Option Created
unfolding put put_symbols
create_payload packet_size no_payload spec buffer c = some c
create_payload packet_size version_payload (version v) buffer c = put packet_size 4 (to_bytes 4 v) c
create_payload packet_size id_list_payload (id_list l) buffer c =
    put_sized packet_size (id_list_bytes l) l.size buffer c
create_payload packet_size read_payload (data_spec d) buffer c = put_symbols packet_size d c
create_payload packet_size data_payload (data_spec d) buffer c = do
  c' ← put_symbols packet_size d c
  put_sized packet_size (memory_bytes d.memory) d.memory.size buffer c'
create_payload packet_size descriptor_payload (descriptor d) buffer c =
    put_sized packet_size (descriptor_bytes d) d.size buffer c
create_payload packet_size details_payload (function_details d) buffer c =
    put packet_size 4 (details_bytes d) c
create_payload packet_size call_payload (function_call f) buffer c =
    put_sized packet_size (call_bytes f) f.size buffer c
create_payload packet_size event_payload (event e) buffer c =
    put_sized packet_size (event_bytes e) e.size buffer c
create_payload packet_size string_list_payload (string_list l) buffer c =
    put_sized packet_size (string_list_bytes l) l.size buffer c
create_payload packet_size unknown spec buffer c = elim c.status [
  | ok ↦ some (record c { status = invalid_protocol_command })
  | failure ↦ some c
]
create_payload packet_size layout spec buffer c = none

unfoldable pub kowhai_protocol_create : ℕ → Protocol → Option Created
unfolding put layout_of create_payload
kowhai_protocol_create packet_size p = do
  c ←
      put packet_size 3 (header_bytes p.header)
        (record { status = ok; bytes_required = 0; packet = [] })
  create_payload packet_size (layout_of p.header.command) p.payload.spec p.payload.buffer c
