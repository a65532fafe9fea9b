-- ===== src/Protocol/RoundTrip.antt =====
-- `kowhai_protocol_parse` of teensy/usb_rawhid/kowhai/kowhai_protocol.c reads what
-- `kowhai_protocol_create` writes.
use beaverbot.Prelude.{
  ℕ, ◌+◌, ◌-◌, ◌*◌, ◌≤◌, ◌<◌, ◌≡◌, some, List, [], ◌++◌, length, length-append, drop, drop-append,
  arith, refl, ap, sym, ◌∙◌, drop-add,
}
use beaverbot.Kowhai.{ok}
use beaverbot.Kowhai.Access.{to_bytes}
use beaverbot.Protocol.{Protocol, DataSpec, Memory, Spec, Layout, layout_of, field, data_spec}
use beaverbot.Protocol.Parse.{
  parse_sized, parse_symbols, parse_memory, parse_data_payload, parse_payload,
  kowhai_protocol_parse, parse_version, parse_id_list, parse_descriptor_payload,
  parse_function_details, parse_function_call, parse_event, parse_string_list, no_memory,
  read_symbols, read_descriptor, read_id_list, read_string_list, read_call, read_event,
}
use beaverbot.Protocol.Create.{
  kowhai_protocol_create, memory_bytes, symbols_bytes, id_list_bytes, descriptor_bytes, call_bytes,
  event_bytes, string_list_bytes,
}
use beaverbot.Protocol.Sound.{
  Sound, sound_none, sound_version, sound_id_list, sound_read, sound_data, sound_descriptor,
  sound_details, sound_call, sound_event, sound_string_list, body, packet_of, IsPath, IsWord,
  length-symbols_bytes, read_symbols-symbols_bytes, byte_value, word_value, long_value, upper_value,
}
use beaverbot.Protocol.Written.{made, create-packet_of}
use mathlib.Core.List.{append-nil}

pub parse_sized-fits :
    (n : ℕ) (spec : List ℕ → Spec) (size : List ℕ → ℕ) (packet : List ℕ)
    → n ≤ length packet
    → size packet ≤ length packet - n
    → parse_sized n spec size packet ≡ (ok, record { spec = spec packet; buffer = drop n packet })
unfolding parse_sized
parse_sized-fits n spec size packet h k = ground arith

drop-symbols :
    (d : DataSpec) (rest : List ℕ)
    → IsPath d
    → drop (4 * d.count) (symbols_bytes d.symbols ++ rest) ≡ rest
drop-symbols d rest p =
    let e : 4 * d.count ≡ length (symbols_bytes d.symbols) =
      omega (arith, length-symbols_bytes d.symbols, p.counted) in
    rw e (drop-append (symbols_bytes d.symbols) rest)

parse_symbols-path :
    (d : DataSpec) (rest : List ℕ)
    → IsPath d
    → parse_symbols (to_bytes 1 d.count ++ (symbols_bytes d.symbols ++ rest))
      ≡ (ok, record d { memory = no_memory }, 1 + 4 * d.count)
unfolding parse_symbols to_bytes
parse_symbols-path d rest p =
    let l = length-append (symbols_bytes d.symbols) rest in
    let s = length-symbols_bytes d.symbols in
    let c = p.counted in
    let r : read_symbols d.count (symbols_bytes d.symbols ++ rest) ≡ d.symbols =
      rw (← c) (read_symbols-symbols_bytes d.symbols rest p.words) in
    rw (byte_value d.count p.short) (ground arith)

parse_memory-body :
    (s : DataSpec) (m : Memory) (n : ℕ) (packet buffer : List ℕ)
    → drop n packet ≡ memory_bytes m ++ buffer
    → n + 6 + length buffer ≡ length packet
    → IsWord m.type
    → IsWord m.offset
    → IsWord m.size
    → length buffer ≡ m.size
    → parse_memory s n packet
      ≡ (ok, record { spec = data_spec (record s { memory = m }); buffer = buffer })
unfolding parse_memory to_bytes
parse_memory-body s m n packet buffer d l t o z e =
    rw (d, word_value m.type t, word_value m.offset o, word_value m.size z) (ground arith)

read-parsed :
    (d : DataSpec)
    → IsPath d
    → d.memory ≡ no_memory
    → parse_symbols (to_bytes 1 d.count ++ symbols_bytes d.symbols) ≡ (ok, d, 1 + 4 * d.count)
read-parsed d p m =
    ap (λ b. parse_symbols (to_bytes 1 d.count ++ b)) (sym (append-nil (symbols_bytes d.symbols)))
    ∙ parse_symbols-path d [] p
    ∙ ap (λ z. (ok, record d { memory = z }, 1 + 4 * d.count)) (sym m)

after_symbols :
    (packet : List ℕ) (s : DataSpec) (n : ℕ)
    → parse_symbols packet ≡ (ok, s, n)
    → parse_data_payload packet ≡ parse_memory s n packet
unfolding parse_data_payload
after_symbols packet s n e = rw (e, parse_data_payload) (ap (λ r. parse_memory r.1 r.2 packet) e)

data-parsed :
    (d : DataSpec) (buffer : List ℕ)
    → IsPath d
    → IsWord d.memory.type
    → IsWord d.memory.offset
    → IsWord d.memory.size
    → length buffer ≡ d.memory.size
    → parse_data_payload
        (to_bytes 1 d.count ++ (symbols_bytes d.symbols ++ (memory_bytes d.memory ++ buffer)))
      ≡ (ok, record { spec = data_spec d; buffer = buffer })
unfolding to_bytes
data-parsed d buffer p t o s e =
    let l = length-append (symbols_bytes d.symbols) (memory_bytes d.memory ++ buffer) in
    after_symbols _ _ _ (parse_symbols-path d (memory_bytes d.memory ++ buffer) p)
    ∙ parse_memory-body (record d { memory = no_memory }) d.memory (1 + 4 * d.count) _ buffer
        (drop-add 1 (4 * d.count)
            (to_bytes 1 d.count ++ (symbols_bytes d.symbols ++ (memory_bytes d.memory ++ buffer)))
          ∙ drop-symbols d (memory_bytes d.memory ++ buffer) p)
        (omega (arith, length-symbols_bytes d.symbols, p.counted)) t o s e

body-parsed :
    (command : ℕ) (layout : Layout) (spec : Spec) (buffer : List ℕ)
    → layout_of command ≡ layout
    → Sound layout spec buffer
    → parse_payload command (body layout spec buffer)
      ≡ (ok, record { spec = spec; buffer = buffer })
unfolding parse_payload to_bytes parse_version parse_id_list parse_descriptor_payload
    parse_function_details parse_function_call parse_event parse_string_list
body-parsed command _ _ _ k sound_none = rw (k, parse_payload) refl
body-parsed command _ _ _ k (sound_version v w) = rw (k, parse_payload, long_value v w) refl
body-parsed command _ _ _ k (sound_id_list l buffer a b c e) =
    let fits : field 4 2 (id_list_bytes l ++ buffer) ≤ length buffer =
      rw (word_value l.size c) (omega arith) in
    rw (k, parse_payload)
      (parse_sized-fits 6 read_id_list (field 4 2) (id_list_bytes l ++ buffer) (omega arith)
          (omega (arith, fits))
        ∙ rw (word_value l.list_count a, word_value l.offset b, word_value l.size c) refl)
body-parsed command _ _ _ k (sound_read d p m) = rw (k, parse_payload, read-parsed d p m) refl
body-parsed command _ _ _ k (sound_data d buffer p t o s e) =
    rw (k, parse_payload) (data-parsed d buffer p t o s e)
body-parsed command _ _ _ k (sound_descriptor d buffer a b c e) =
    let fits : field 4 2 (descriptor_bytes d ++ buffer) ≤ length buffer =
      rw (word_value d.size c) (omega arith) in
    rw (k, parse_payload)
      (parse_sized-fits 6 read_descriptor (field 4 2) (descriptor_bytes d ++ buffer) (omega arith)
          (omega (arith, fits))
        ∙ rw (word_value d.node_count a, word_value d.offset b, word_value d.size c) refl)
body-parsed command _ _ _ k (sound_details d a b) =
    rw (k, parse_payload, word_value d.tree_in_id a, word_value d.tree_out_id b) refl
body-parsed command _ _ _ k (sound_call f buffer a b e) =
    let fits : field 2 2 (call_bytes f ++ buffer) ≤ length buffer =
      rw (word_value f.size b) (omega arith) in
    rw (k, parse_payload)
      (parse_sized-fits 4 read_call (field 2 2) (call_bytes f ++ buffer) (omega arith)
          (omega (arith, fits))
        ∙ rw (word_value f.offset a, word_value f.size b) refl)
body-parsed command _ _ _ k (sound_event v buffer a b e) =
    let fits : field 2 2 (event_bytes v ++ buffer) ≤ length buffer =
      rw (word_value v.size b) (omega arith) in
    rw (k, parse_payload)
      (parse_sized-fits 4 read_event (field 2 2) (event_bytes v ++ buffer) (omega arith)
          (omega (arith, fits))
        ∙ rw (word_value v.offset a, word_value v.size b) refl)
body-parsed command _ _ _ k (sound_string_list l buffer a b c d e u) =
    let fits : field 4 2 (string_list_bytes l ++ buffer) ≤ length buffer =
      rw (upper_value l.list_total_size b) (omega arith) in
    rw (k, parse_payload)
      (parse_sized-fits 10 read_string_list (field 4 2) (string_list_bytes l ++ buffer)
          (omega arith) (omega (arith, fits))
        ∙ rw
            (
              word_value l.list_count a,
              long_value l.list_total_size b,
              word_value l.offset c,
              word_value l.size d,
            )
            refl)

-- A packet that is created for a sound protocol, whose command has a byte and whose id a word, in a
-- buffer with room for it, is of the length that is reported, and parsing it gives the protocol back.
pub create-parse :
    (packet_size : ℕ) (p : Protocol)
    → p.header.command < 256
    → IsWord p.header.id
    → Sound (layout_of p.header.command) p.payload.spec p.payload.buffer
    → length (packet_of p) ≤ packet_size
    → (packet : List ℕ) × (kowhai_protocol_create packet_size p ≡ some (made packet))
      × (kowhai_protocol_parse packet ≡ (ok, p))
unfolding kowhai_protocol_parse to_bytes
create-parse packet_size p c i s h = (
  packet_of p,
  create-packet_of packet_size p s h,
  rw
      (
        byte_value p.header.command c,
        word_value p.header.id i,
        body-parsed p.header.command _ _ _ refl s,
      )
      (ground arith),
)
