-- ===== src/Protocol/Written.antt =====
-- What `kowhai_protocol_create` of teensy/usb_rawhid/kowhai/kowhai_protocol.c writes.
use beaverbot.Prelude.{
  ℕ, ◌+◌, ◌*◌, ◌≤◌, ◌≡◌, some, >>=-some, List, [], ◌∷◌, ◌++◌, length, length-append, take, arith,
  refl, ap, ◌∙◌, sym,
}
use beaverbot.Kowhai.{ok}
use beaverbot.Kowhai.Access.{to_bytes}
use beaverbot.Kowhai.Access.Bytes.{length-to_bytes}
use beaverbot.Protocol.{DataSpec, Protocol, Spec, Layout, layout_of, Header}
use beaverbot.Protocol.Create.{
  Created, put, put_sized, put_symbols, symbols_bytes, create_payload, kowhai_protocol_create,
  header_bytes, id_list_bytes, memory_bytes, descriptor_bytes, details_bytes, call_bytes,
  event_bytes, string_list_bytes,
}
use beaverbot.Protocol.Sound.{
  IsPath, length-symbols_bytes, Sound, sound_none, sound_version, sound_id_list, sound_read,
  sound_data, sound_descriptor, sound_details, sound_call, sound_event, sound_string_list, body,
  packet_of,
}
use mathlib.Core.List.{append_assoc, append-nil}

-- So many bytes were written, without a failure.
abbrev pub made : List ℕ → Created
made packet = record { status = ok; bytes_required = length packet; packet = packet }

take-all : (xs : List ℕ) → take (length xs) xs ≡ xs
take-all [] = refl
take-all (x ∷ xs) = ap (λ l. x ∷ l) (take-all xs)

pub put-made :
    (packet_size n : ℕ) (source packet : List ℕ)
    → length source ≡ n
    → length packet + n ≤ packet_size
    → put packet_size n source (made packet) ≡ some (made (packet ++ source))
unfolding put
put-made packet_size n source packet e h =
    let t = take-all source in let l = length-append packet source in ground arith

put_sized-made :
    (packet_size n : ℕ) (structure buffer packet : List ℕ)
    → length buffer ≡ n
    → length packet + (length structure + n) ≤ packet_size
    → put_sized packet_size structure n buffer (made packet)
      ≡ some (made ((packet ++ structure) ++ buffer))
put_sized-made packet_size n structure buffer packet e h =
    let l = length-append packet structure in
    >>=-some _ (put-made packet_size (length structure) structure packet refl (omega arith))
    ∙ put-made packet_size n buffer (packet ++ structure) e (omega arith)

pub put_symbols-made :
    (packet_size : ℕ) (d : DataSpec) (packet : List ℕ)
    → IsPath d
    → length packet + (1 + 4 * d.count) ≤ packet_size
    → put_symbols packet_size d (made packet)
      ≡ some (made ((packet ++ to_bytes 1 d.count) ++ symbols_bytes d.symbols))
unfolding put_symbols
put_symbols-made packet_size d packet p h =
    let l = length-append packet (to_bytes 1 d.count) in
    let one = length-to_bytes 1 d.count in
    let s = length-symbols_bytes d.symbols in
    let c = p.counted in
    >>=-some _ (put-made packet_size 1 (to_bytes 1 d.count) packet one (omega arith))
    ∙ put-made packet_size (4 * d.count) (symbols_bytes d.symbols) (packet ++ to_bytes 1 d.count)
        (omega arith) (omega arith)

pub length-header_bytes : (h : Header) → length (header_bytes h) ≡ 3
length-header_bytes h =
    let l = length-append (to_bytes 1 h.command) (to_bytes 2 h.id) in
    let x = length-to_bytes 1 h.command in let z = length-to_bytes 2 h.id in omega arith

-- A structure and its buffer, as one.
sized-body :
    (packet_size n : ℕ) (structure buffer packet : List ℕ)
    → length buffer ≡ n
    → length packet + length (structure ++ buffer) ≤ packet_size
    → put_sized packet_size structure n buffer (made packet)
      ≡ some (made (packet ++ (structure ++ buffer)))
sized-body packet_size n structure buffer packet e h =
    let l = length-append structure buffer in
    put_sized-made packet_size n structure buffer packet e (omega arith)
    ∙ ap (λ p. some (made p)) (append_assoc packet structure buffer)

body-made :
    (packet_size : ℕ) (layout : Layout) (spec : Spec) (buffer packet : List ℕ)
    → Sound layout spec buffer
    → length packet + length (body layout spec buffer) ≤ packet_size
    → create_payload packet_size layout spec buffer (made packet)
      ≡ some (made (packet ++ body layout spec buffer))
unfolding create_payload
body-made packet_size _ _ _ packet sound_none h = ap (λ p. some (made p)) (sym (append-nil packet))
body-made packet_size _ _ _ packet (sound_version v w) h =
    put-made packet_size 4 (to_bytes 4 v) packet (length-to_bytes 4 v)
      (omega (arith, length-to_bytes 4 v))
body-made packet_size _ _ _ packet (sound_id_list l buffer a b c e) h =
    sized-body packet_size l.size (id_list_bytes l) buffer packet e h
body-made packet_size _ _ _ packet (sound_read d p m) h =
    let l = length-append (to_bytes 1 d.count) (symbols_bytes d.symbols) in
    put_symbols-made packet_size d packet p
      (omega (arith, length-to_bytes 1 d.count, length-symbols_bytes d.symbols, p.counted))
    ∙ ap (λ p. some (made p)) (append_assoc packet (to_bytes 1 d.count) (symbols_bytes d.symbols))
body-made packet_size _ _ _ packet (sound_data d buffer p t o s e) h =
    let l =
      length-append (to_bytes 1 d.count)
        (symbols_bytes d.symbols ++ (memory_bytes d.memory ++ buffer)) in
    let m = length-append (symbols_bytes d.symbols) (memory_bytes d.memory ++ buffer) in
    let n = length-append (packet ++ to_bytes 1 d.count) (symbols_bytes d.symbols) in
    let k = length-append packet (to_bytes 1 d.count) in
    >>=-some _ (
      put_symbols-made packet_size d packet p
        (omega (arith, length-to_bytes 1 d.count, length-symbols_bytes d.symbols, p.counted)))
    ∙ sized-body packet_size d.memory.size (memory_bytes d.memory) buffer
        ((packet ++ to_bytes 1 d.count) ++ symbols_bytes d.symbols) e (omega arith)
    ∙ ap (λ p. some (made p))
        (append_assoc (packet ++ to_bytes 1 d.count) (symbols_bytes d.symbols)
            (memory_bytes d.memory ++ buffer)
          ∙ append_assoc packet (to_bytes 1 d.count)
              (symbols_bytes d.symbols ++ (memory_bytes d.memory ++ buffer)))
body-made packet_size _ _ _ packet (sound_descriptor d buffer a b c e) h =
    sized-body packet_size d.size (descriptor_bytes d) buffer packet e h
body-made packet_size _ _ _ packet (sound_details d a b) h =
    let l = length-append (to_bytes 2 d.tree_in_id) (to_bytes 2 d.tree_out_id) in
    let x = length-to_bytes 2 d.tree_in_id in
    let z = length-to_bytes 2 d.tree_out_id in
    put-made packet_size 4 (details_bytes d) packet (omega arith) (omega arith)
body-made packet_size _ _ _ packet (sound_call f buffer a b e) h =
    sized-body packet_size f.size (call_bytes f) buffer packet e h
body-made packet_size _ _ _ packet (sound_event v buffer a b e) h =
    sized-body packet_size v.size (event_bytes v) buffer packet e h
body-made packet_size _ _ _ packet (sound_string_list l buffer a b c d e u) h =
    sized-body packet_size l.size (string_list_bytes l) buffer packet e h

-- A sound protocol for which there is room is written whole, and nothing else is.
pub create-packet_of :
    (packet_size : ℕ) (p : Protocol)
    → Sound (layout_of p.header.command) p.payload.spec p.payload.buffer
    → length (packet_of p) ≤ packet_size
    → kowhai_protocol_create packet_size p ≡ some (made (packet_of p))
unfolding kowhai_protocol_create
create-packet_of packet_size p s h =
    let b = body (layout_of p.header.command) p.payload.spec p.payload.buffer in
    let l = length-append (header_bytes p.header) b in
    let e = length-header_bytes p.header in
    >>=-some _ (put-made packet_size 3 (header_bytes p.header) [] e (omega arith))
    ∙ body-made packet_size _ _ _ (header_bytes p.header) s (omega arith)
