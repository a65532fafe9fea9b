-- ===== src/Protocol/Checked.antt =====
-- The size checks of `kowhai_protocol_parse` in teensy/usb_rawhid/kowhai/kowhai_protocol.c.
use beaverbot.Prelude.{
  ℕ, ◌≤◌, ◌<◌, ◌≡◌, ◌≢◌, List, [], ◌++◌, length, length-drop, drop, arith, refl, ltb, Bool-cases,
  inl, inr,
}
use beaverbot.Kowhai.{Status, ok}
use beaverbot.Kowhai.Access.{to_bytes}
use beaverbot.Protocol.{
  DataSpec, Protocol, Payload, Header, Spec, Layout, layout_of, StringList, field, id_list,
  data_spec, descriptor, function_call, event, string_list, no_payload, version_payload,
  id_list_payload, read_payload, data_payload, descriptor_payload, details_payload, call_payload,
  event_payload, string_list_payload, unknown, DataSpec,
}
use beaverbot.Protocol.Parse.{
  parse_sized, parse_symbols, parse_memory, parse_data_payload, parse_payload,
  kowhai_protocol_parse, parse_version, parse_id_list, parse_descriptor_payload,
  parse_function_details, parse_function_call, parse_event, parse_string_list, read_string_list,
  read_id_list, read_descriptor, read_call, read_event,
}
use beaverbot.Protocol.Create.{header_bytes, string_list_bytes}
use beaverbot.Protocol.Sound.{IsWord, byte_value, word_value, long_value, upper_value}
use beaverbot.Protocol.RoundTrip.{parse_sized-fits}
use mathlib.Core.Path.{subst}

-- The size of the buffer that a payload promises.
abbrev pub buffer_size : Spec → ℕ
buffer_size (id_list l) = l.size
buffer_size (data_spec d) = d.memory.size
buffer_size (descriptor d) = d.size
buffer_size (function_call f) = f.size
buffer_size (event e) = e.size
buffer_size (string_list l) = l.size
buffer_size spec = 0

-- A parse that succeeds leaves so large a buffer.
abbrev pub IsChecked : Status × Payload → Type 0
IsChecked (status, p) = status ≡ ok → buffer_size p.spec ≤ length p.buffer

sized-IsChecked :
    (n : ℕ) (spec : List ℕ → Spec) (size : List ℕ → ℕ) (packet : List ℕ)
    → buffer_size (spec packet) ≡ size packet
    → IsChecked (parse_sized n spec size packet)
unfolding parse_sized
sized-IsChecked n spec size packet q e = let l = length-drop n packet in ground arith

memory-IsChecked : (s : DataSpec) (n : ℕ) (packet : List ℕ) → IsChecked (parse_memory s n packet)
unfolding parse_memory
memory-IsChecked s n packet e =
    let l = length-drop n packet in let m = length-drop 6 (drop n packet) in ground arith

data-IsChecked : (packet : List ℕ) → IsChecked (parse_data_payload packet)
unfolding parse_data_payload
data-IsChecked packet = by_status (parse_symbols packet).0
  where
    by_status :
        (t : Status)
        → IsChecked (elim t [
          | ok ↦ parse_memory (parse_symbols packet).1 (parse_symbols packet).2 packet
          | failure ↦ (failure, record { spec = data_spec (parse_symbols packet).1; buffer = [] })
        ])
    by_status ok = memory-IsChecked (parse_symbols packet).1 (parse_symbols packet).2 packet
    by_status _ = λ e. cc

symbols-memory : (packet : List ℕ) → (parse_symbols packet).1.memory.size ≡ 0
unfolding parse_symbols
symbols-memory packet = ground arith

layout-IsChecked :
    (layout : Layout) (command : ℕ) (packet : List ℕ)
    → layout_of command ≡ layout
    → layout ≢ string_list_payload
    → IsChecked (parse_payload command packet)
unfolding parse_payload parse_version parse_id_list parse_descriptor_payload parse_function_details
    parse_function_call parse_event
layout-IsChecked no_payload command packet k n = rw (k, parse_payload) (λ e. omega arith)
layout-IsChecked version_payload command packet k n = rw (k, parse_payload) (λ e. ground arith)
layout-IsChecked id_list_payload command packet k n =
    rw (k, parse_payload) (sized-IsChecked 6 read_id_list (field 4 2) packet refl)
layout-IsChecked read_payload command packet k n =
    rw (k, parse_payload) (λ e. omega (arith, symbols-memory packet))
layout-IsChecked data_payload command packet k n = rw (k, parse_payload) (data-IsChecked packet)
layout-IsChecked descriptor_payload command packet k n =
    rw (k, parse_payload) (sized-IsChecked 6 read_descriptor (field 4 2) packet refl)
layout-IsChecked details_payload command packet k n = rw (k, parse_payload) (λ e. ground arith)
layout-IsChecked call_payload command packet k n =
    rw (k, parse_payload) (sized-IsChecked 4 read_call (field 2 2) packet refl)
layout-IsChecked event_payload command packet k n =
    rw (k, parse_payload) (sized-IsChecked 4 read_event (field 2 2) packet refl)
layout-IsChecked string_list_payload command packet k n = absurd (n refl)
layout-IsChecked unknown command packet k n = rw (k, parse_payload) (λ e. ground arith)

abbrev IsAllChecked : Status × Protocol → Type 0
IsAllChecked (status, p) =
    status ≡ ok
    → layout_of p.header.command ≢ string_list_payload
    → buffer_size p.payload.spec ≤ length p.payload.buffer

parse-IsAllChecked : (packet : List ℕ) → IsAllChecked (kowhai_protocol_parse packet)
unfolding kowhai_protocol_parse
parse-IsAllChecked packet = elim (Bool-cases (ltb (length packet) 3)) [
  | inl t ↦ rw t (λ e n. cc)
  | inr t ↦ rw t (λ e n. layout-IsChecked _ (field 0 1 packet) (drop 3 packet) refl n e)
]

-- When a packet is parsed successfully and its command is none that carries a list of strings, then
-- the buffer that the payload points at has as many bytes in the packet as the payload says.
pub parse-IsChecked :
    (packet : List ℕ) (p : Protocol)
    → kowhai_protocol_parse packet ≡ (ok, p)
    → layout_of p.header.command ≢ string_list_payload
    → buffer_size p.payload.spec ≤ length p.payload.buffer
parse-IsChecked packet p e n = subst IsAllChecked e (parse-IsAllChecked packet) refl n

-- A packet with a list of strings is parsed successfully whatever size it gives for its buffer, and
-- however few bytes follow, if the total size of the strings is below 65536: the check reads the
-- upper half of that total for the size.
pub string_list-unchecked :
    (h : Header) (l : StringList) (buffer : List ℕ)
    → layout_of h.command ≡ string_list_payload
    → h.command < 256
    → IsWord h.id
    → IsWord l.list_count
    → IsWord l.list_total_size
    → IsWord l.offset
    → IsWord l.size
    → kowhai_protocol_parse (header_bytes h ++ (string_list_bytes l ++ buffer))
      ≡ (ok, record { header = h; payload = record { spec = string_list l; buffer = buffer } })
unfolding kowhai_protocol_parse to_bytes parse_payload parse_string_list
string_list-unchecked h l buffer k c i a b o s =
    let small : l.list_total_size < 4294967296 = omega arith in
    let fits : field 4 2 (string_list_bytes l ++ buffer) ≤ length buffer =
      rw (upper_value l.list_total_size small) (omega arith) in
    rw
      (
        byte_value h.command c,
        word_value h.id i,
        k,
        parse_payload,
        parse_sized-fits 10 read_string_list (field 4 2) (string_list_bytes l ++ buffer)
            (omega arith) (omega (arith, fits)),
        word_value l.list_count a,
        long_value l.list_total_size small,
        word_value l.offset o,
        word_value l.size s,
      )
      (ground arith)
