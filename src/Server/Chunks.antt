-- ===== src/Server/Chunks.antt =====
-- The loops of teensy/usb_rawhid/kowhai/kowhai_protocol_server.c that send data in several packets.
use beaverbot.Prelude.{
  ℕ, zero, suc, ◌+◌, ◌-◌, ◌*◌, Bool, true, false, ltb, u16, if◌then◌else◌, Option, none, some,
  ◌>>=◌, List, [], ◌∷◌, ◌++◌, length, take, drop, map,
}
use beaverbot.Kowhai.Access.{to_bytes}
use beaverbot.Protocol.{Protocol, cleared, id_list, string_list, event, cmd_event, cmd_event_end}
use beaverbot.Server.{
  ListId, Server, sent, with_command, with_spec, emit, create_packet, max_payload,
}
use beaverbot.Kowhai.{Status, ok}
pub mod Strings
pub mod Received
pub mod Delivered
pub mod Answers
pub mod Lists

-- The packets of one answer, in order: `protocol last offset size` is what is created for each. The
-- offset is a `uint16_t`. Each round but the last takes `room` bytes, so the fuel is their number
-- and one more; with no room the loop does not end.
unfoldable pub send_chunks :
    (max_packet_size room : ℕ) (protocol : Bool → (offset size : ℕ) → Option Protocol)
    → (fuel offset size : ℕ) → Option (List (List ℕ))
unfolding create_packet
send_chunks max_packet_size room protocol zero offset size = none
send_chunks max_packet_size room protocol (suc fuel) offset size = elim (ltb room size) [
  | true ↦ do
    p ← protocol false offset (u16 room)
    packet ← create_packet max_packet_size p
    packets ← send_chunks max_packet_size room protocol fuel (u16 (offset + u16 room)) (size - room)
    some (packet ∷ packets)
  | false ↦ do
    p ← protocol true offset (u16 size)
    packet ← create_packet max_packet_size p
    some (packet ∷ [])
]

-- A whole answer of `size` bytes, from offset 0 on.
unfoldable pub send_all :
    (pointer : ℕ)
    → Server
    → Protocol
    → (Bool → (offset size : ℕ) → Option Protocol)
    → (size : ℕ) → Option Server
unfolding send_chunks
send_all pointer s p protocol size = do
  room ← max_payload pointer s p
  packets ← send_chunks s.max_packet_size room protocol (suc size) 0 size
  some (emit s (map sent packets))

abbrev pub id_bytes : List ListId → List ℕ
id_bytes [] = []
id_bytes (i ∷ is) = to_bytes 2 i.id ++ (to_bytes 2 i.type ++ id_bytes is)

abbrev pub id_list_protocol :
    Protocol → (ack ack_end : ℕ) → List ListId → Bool → (offset size : ℕ) → Option Protocol
id_list_protocol p ack ack_end ids last offset size = some (
    with_spec (with_command p (if last then ack_end else ack))
      (id_list (record { list_count = u16 (length ids); offset = offset; size = size }))
      (drop offset (id_bytes ids)))

unfoldable pub send_id_list :
    (pointer : ℕ) → Server → Protocol → (ack ack_end : ℕ) → List ListId → Option Server
unfolding send_all
send_id_list pointer s p ack ack_end ids =
    send_all pointer s (with_command p ack) (id_list_protocol p ack ack_end ids) (length ids * 4)

-- A string is its bytes up to the zero byte that ends it.
unfoldable pub get_string_list_size : List (List ℕ) → ℕ
get_string_list_size [] = 0
get_string_list_size (s ∷ ss) = length s + 1 + get_string_list_size ss

abbrev pub distance : ℕ → ℕ → ℕ
distance a b = if ltb a b then b - a else a - b

-- What is written to the buffer from the current position on. `memcpy` reads within the string and
-- its zero byte; a fault, if it does not.
unfoldable pub copy_strings : List (List ℕ) → (marker offset buffer_size : ℕ) → Option (List ℕ)
copy_strings [] marker offset buffer_size = some []
copy_strings (s ∷ ss) marker offset buffer_size =
    let l = length s + 1 in
    elim (ltb (marker + l) offset) [
      | true ↦ elim buffer_size [
        | zero ↦ some []
        | suc n ↦ copy_strings ss (marker + l) offset (suc n)
      ]
      | false ↦
          let string_offset = distance marker offset in
          elim (ltb l string_offset) [
            | true ↦ none
            | false ↦
                let copy_size =
                  if ltb buffer_size (l - string_offset) then buffer_size else l - string_offset in
                let piece = take copy_size (drop string_offset (s ++ 0 ∷ [])) in
                elim (buffer_size - copy_size) [
                  | zero ↦ some piece
                  | suc n ↦ do
                    rest ← copy_strings ss (marker + l) (offset + copy_size) (suc n)
                    some (piece ++ rest)
                ]
          ]
    ]

unfoldable pub copy_string_list_to_buffer :
    List (List ℕ) → (offset buffer_size : ℕ) → Option (List ℕ)
unfolding copy_strings
copy_string_list_to_buffer strings offset buffer_size = copy_strings strings 0 offset buffer_size

-- `room` is the size of the buffer that the strings are copied to.
abbrev pub string_list_protocol :
    Protocol
    → (ack ack_end : ℕ) → List (List ℕ)
    → (room : ℕ) → Bool
    → (offset size : ℕ) → Option Protocol
string_list_protocol p ack ack_end strings room last offset size = do
  buffer ← copy_string_list_to_buffer strings offset room
  some (
      with_spec (with_command p (if last then ack_end else ack))
        (string_list (record {
          list_count = u16 (length strings);
          list_total_size = get_string_list_size strings;
          offset = offset;
          size = size;
        }))
        buffer)

unfoldable pub send_string_list :
    (pointer : ℕ) → Server → Protocol → (ack ack_end : ℕ) → List (List ℕ) → Option Server
unfolding send_all copy_string_list_to_buffer get_string_list_size
send_string_list pointer s p ack ack_end strings = do
  room ← max_payload pointer s (with_command p ack)
  send_all pointer s (with_command p ack) (string_list_protocol p ack ack_end strings room)
      (get_string_list_size strings)

abbrev pub event_protocol : ℕ → List ℕ → Bool → (offset size : ℕ) → Option Protocol
event_protocol tree_id buffer last offset size = some (record {
  header = record { command = if last then cmd_event_end else cmd_event; id = tree_id };
  payload = record {
    spec = event (record { offset = offset; size = size });
    buffer = drop offset buffer;
  };
})

unfoldable pub kowhai_server_process_event :
    (pointer : ℕ) → Server → ℕ → List ℕ → Option (Status × Server)
unfolding send_all
kowhai_server_process_event pointer s tree_id buffer = do
  s' ←
      send_all pointer s
        (record {
          header = record { command = cmd_event; id = tree_id };
          payload = record { spec = cleared; buffer = buffer };
        })
        (event_protocol tree_id buffer) (length buffer)
  some (ok, s')
