-- ===== src/Protocol/Tests.antt =====
-- Tests of the model of teensy/usb_rawhid/kowhai/kowhai_protocol.c, and uses of its theorems.
use beaverbot.Prelude.{ℕ, ◌+◌, ◌≤◌, ◌≡◌, refl, some, List, [], ◌∷◌, ◌++◌, length, arith, ◌<◌}
use beaverbot.Kowhai.{ok, kow_uint16, packet_buffer_too_small}
use beaverbot.Kowhai.Access.{to_bytes, from_bytes}
use beaverbot.Protocol.{
  Header, DataSpec, StringList, Protocol, layout_of, cmd_write_data, cmd_get_symbol_list_ack,
  data_spec, string_list, data_payload,
}
use beaverbot.Protocol.Parse.{
  kowhai_protocol_parse, parse_payload, read_symbols, parse_data_payload, parse_symbols,
  parse_memory,
}
use beaverbot.Protocol.Create.{
  kowhai_protocol_create, header_bytes, string_list_bytes, Created, put, create_payload,
  put_symbols,
}
use beaverbot.Protocol.Sound.{Sound, sound_data, IsPath, packet_of}
use beaverbot.Protocol.Written.{made}
use beaverbot.Protocol.RoundTrip.{create-parse}
use beaverbot.Protocol.Overhead.{kowhai_protocol_get_overhead, overhead-packet_of}
use beaverbot.Protocol.Checked.{parse-IsChecked, string_list-unchecked}
use beaverbot.Protocol.Room.{IsWithin, create-IsWithin}
use beaverbot.Protocol.Short.{create-Stops}

abbrev head : Header
head = record { command = cmd_write_data; id = 300 }

abbrev spec : DataSpec
spec = record {
  count = 1;
  symbols = record { name = 21; array_index = 258 } ∷ [];
  memory = record { type = kow_uint16; offset = 0; size = 2 };
}

abbrev write : Protocol
write = record { header = head; payload = record { spec = data_spec spec; buffer = 7 ∷ 8 ∷ [] } }

write_layout : layout_of cmd_write_data ≡ data_payload
unfolding layout_of
write_layout = refl

write_bytes :
    packet_of write ≡ 0x20 ∷ 44 ∷ 1 ∷ 1 ∷ 21 ∷ 0 ∷ 2 ∷ 1 ∷ 0x73 ∷ 0 ∷ 0 ∷ 0 ∷ 2 ∷ 0 ∷ 7 ∷ 8 ∷ []
unfolding to_bytes layout_of
write_bytes = refl

abbrev path : IsPath spec
path = record { short = omega arith; counted = refl; words = ((omega arith, omega arith), tt) }

write-Sound : Sound (layout_of cmd_write_data) (data_spec spec) (7 ∷ 8 ∷ [])
unfolding layout_of
write-Sound = sound_data spec (7 ∷ 8 ∷ []) path (omega arith) (omega arith) (omega arith) refl

write_fits : length (packet_of write) ≤ 64
unfolding to_bytes layout_of
write_fits = omega arith

write_short : 15 < length (packet_of write)
unfolding to_bytes layout_of
write_short = omega arith

create-parse_example :
    (packet : List ℕ) × (kowhai_protocol_create 64 write ≡ some (made packet))
    × (kowhai_protocol_parse packet ≡ (ok, write))
create-parse_example = create-parse 64 write (omega arith) (omega arith) write-Sound write_fits

-- With pointers of two bytes one byte too many is reported.
overhead-packet_of_example : 15 + 2 ≡ length (packet_of write) + 1
unfolding layout_of kowhai_protocol_get_overhead
overhead-packet_of_example = overhead-packet_of 2 write write-Sound refl

write-parse : kowhai_protocol_parse (packet_of write) ≡ (ok, write)
unfolding kowhai_protocol_parse parse_payload layout_of to_bytes from_bytes read_symbols
    parse_data_payload parse_symbols parse_memory
write-parse = refl

parse-IsChecked_example : 2 ≤ 2
unfolding layout_of
parse-IsChecked_example = parse-IsChecked (packet_of write) write write-parse (λ e. cc)

-- A list of strings that claims ten bytes and has none.
abbrev ten : StringList
ten = record { list_count = 1; list_total_size = 10; offset = 0; size = 10 }

string_list-unchecked_example :
    kowhai_protocol_parse (
      header_bytes (record { command = cmd_get_symbol_list_ack; id = 0 })
      ++ (string_list_bytes ten ++ []))
    ≡ (
      ok,
      record {
        header = record { command = cmd_get_symbol_list_ack; id = 0 };
        payload = record { spec = string_list ten; buffer = [] };
      },
    )
unfolding layout_of
string_list-unchecked_example =
    string_list-unchecked (record { command = cmd_get_symbol_list_ack; id = 0 }) ten [] refl
      (omega arith) (omega arith) (omega arith) (omega arith) (omega arith) (omega arith)

create-Stops_example :
    (c : Created) × (kowhai_protocol_create 15 write ≡ some c)
    × (c.status ≡ packet_buffer_too_small)
create-Stops_example = create-Stops 15 write write-Sound write_short

-- The header, the path and the memory fit, the two bytes of data do not.
abbrev cut : Created
cut = record {
  status = packet_buffer_too_small;
  bytes_required = 16;
  packet = 0x20 ∷ 44 ∷ 1 ∷ 1 ∷ 21 ∷ 0 ∷ 2 ∷ 1 ∷ 0x73 ∷ 0 ∷ 0 ∷ 0 ∷ 2 ∷ 0 ∷ [];
}

create_cut : kowhai_protocol_create 15 write ≡ some cut
unfolding kowhai_protocol_create put layout_of create_payload put_symbols to_bytes
create_cut = refl

create-IsWithin_example : IsWithin 15 cut
create-IsWithin_example = create-IsWithin 15 write create_cut
