-- ===== src/Protocol/Short.antt =====
-- `kowhai_protocol_create` of teensy/usb_rawhid/kowhai/kowhai_protocol.c in a buffer that is too small.
use beaverbot.Prelude.{
  ℕ, ◌+◌, ◌*◌, ◌≤◌, ◌<◌, ◌≡◌, Option, some, ◌>>=◌, >>=-some, List, [], ◌++◌, length, length-append,
  arith, refl, ◌∙◌, Bool-cases, inl, inr, leb,
}
use beaverbot.Kowhai.{Status, ok, packet_buffer_too_small}
use beaverbot.Kowhai.Access.{to_bytes}
use beaverbot.Kowhai.Access.Bytes.{length-to_bytes}
use beaverbot.Protocol.{Protocol, Layout, Spec, DataSpec, layout_of, data_payload, data_spec}
use beaverbot.Protocol.Create.{
  Created, put, copy, put_sized, put_symbols, create_payload, kowhai_protocol_create, header_bytes,
  symbols_bytes, id_list_bytes, memory_bytes, descriptor_bytes, details_bytes, call_bytes,
  event_bytes, string_list_bytes,
}
use beaverbot.Protocol.Sound.{
  Sound, sound_none, sound_version, sound_id_list, sound_read, sound_data, sound_descriptor,
  sound_details, sound_call, sound_event, sound_string_list, body, packet_of, IsPath,
  length-symbols_bytes,
}
use beaverbot.Protocol.Written.{made, put-made, length-header_bytes, put_symbols-made}
use beaverbot.Protocol.Short.Rounds.{
  Stops, put-stopped, chain-stopped, put-short, sized-short, symbols-short, sized-stopped,
  symbols-stopped,
}
pub mod Rounds

module _ (packet_size : ℕ) where
  -- The header did not fit.
  payload-stopped :
      (layout : Layout) (spec : Spec) (buffer : List ℕ) (c : Created)
      → Sound layout spec buffer
      → c.status ≡ packet_buffer_too_small
      → create_payload packet_size layout spec buffer c ≡ some c
  unfolding create_payload
  payload-stopped _ _ _ c sound_none e = refl
  payload-stopped _ _ _ c (sound_version v w) e = put-stopped packet_size 4 (to_bytes 4 v) c e
  payload-stopped _ _ _ c (sound_id_list l buffer _ _ _ _) e =
      sized-stopped packet_size (id_list_bytes l) l.size buffer c e
  payload-stopped _ _ _ c (sound_read d p m) e = symbols-stopped packet_size d c e
  payload-stopped _ _ _ c (sound_data d buffer _ _ _ _ _) e =
      >>=-some _ (symbols-stopped packet_size d c e)
      ∙ sized-stopped packet_size (memory_bytes d.memory) d.memory.size buffer c e
  payload-stopped _ _ _ c (sound_descriptor d buffer _ _ _ _) e =
      sized-stopped packet_size (descriptor_bytes d) d.size buffer c e
  payload-stopped _ _ _ c (sound_details d _ _) e = put-stopped packet_size 4 (details_bytes d) c e
  payload-stopped _ _ _ c (sound_call f buffer _ _ _) e =
      sized-stopped packet_size (call_bytes f) f.size buffer c e
  payload-stopped _ _ _ c (sound_event v buffer _ _ _) e =
      sized-stopped packet_size (event_bytes v) v.size buffer c e
  payload-stopped _ _ _ c (sound_string_list l buffer _ _ _ _ _ _) e =
      sized-stopped packet_size (string_list_bytes l) l.size buffer c e

  data-short :
      (d : DataSpec) (buffer packet : List ℕ)
      → IsPath d
      → length buffer ≡ d.memory.size
      → packet_size < length packet + length (body data_payload (data_spec d) buffer)
      → Stops packet_size
          (create_payload packet_size data_payload (data_spec d) buffer (made packet))
  unfolding create_payload
  data-short d buffer packet p e h =
      elim (Bool-cases (leb (length packet + (1 + 4 * d.count)) packet_size)) [
        | inl a ↦
            let fits : length packet + (1 + 4 * d.count) ≤ packet_size = ground arith in
            let q = (packet ++ to_bytes 1 d.count) ++ symbols_bytes d.symbols in
            let lq = length-append (packet ++ to_bytes 1 d.count) (symbols_bytes d.symbols) in
            let lp = length-append packet (to_bytes 1 d.count) in
            let l1 =
              length-append (to_bytes 1 d.count)
                (symbols_bytes d.symbols ++ (memory_bytes d.memory ++ buffer)) in
            let l2 = length-append (symbols_bytes d.symbols) (memory_bytes d.memory ++ buffer) in
            let (c, z, s) =
              sized-short packet_size (memory_bytes d.memory) buffer q d.memory.size e
                (omega arith) in
            (c, >>=-some _ (put_symbols-made packet_size d packet p fits) ∙ z, s)
        | inr a ↦
            let long : packet_size < length packet + (1 + 4 * d.count) = ground arith in
            chain-stopped packet_size (put_symbols packet_size d (made packet))
              (put_sized packet_size (memory_bytes d.memory) d.memory.size buffer)
              (symbols-short packet_size d packet long)
              (sized-stopped packet_size (memory_bytes d.memory) d.memory.size buffer)
      ]

  payload-short :
      (layout : Layout) (spec : Spec) (buffer packet : List ℕ)
      → Sound layout spec buffer
      → length packet ≤ packet_size
      → packet_size < length packet + length (body layout spec buffer)
      → Stops packet_size (create_payload packet_size layout spec buffer (made packet))
  unfolding create_payload
  payload-short _ _ _ packet sound_none r h = absurd (omega arith)
  payload-short _ _ _ packet (sound_version v w) r h =
      put-short packet_size 4 (to_bytes 4 v) packet (omega (arith, length-to_bytes 4 v))
  payload-short _ _ _ packet (sound_id_list l buffer _ _ _ e) r h =
      sized-short packet_size (id_list_bytes l) buffer packet l.size e h
  payload-short _ _ _ packet (sound_read d p m) r h = symbols-short packet_size d packet (
      omega (
        arith,
        length-append (to_bytes 1 d.count) (symbols_bytes d.symbols),
        length-to_bytes 1 d.count,
        length-symbols_bytes d.symbols,
        p.counted,
      ))
  payload-short _ _ _ packet (sound_data d buffer p _ _ _ e) r h = data-short d buffer packet p e h
  payload-short _ _ _ packet (sound_descriptor d buffer _ _ _ e) r h =
      sized-short packet_size (descriptor_bytes d) buffer packet d.size e h
  payload-short _ _ _ packet (sound_details d _ _) r h =
      put-short packet_size 4 (details_bytes d) packet (
        omega (
          arith,
          length-append (to_bytes 2 d.tree_in_id) (to_bytes 2 d.tree_out_id),
          length-to_bytes 2 d.tree_in_id,
          length-to_bytes 2 d.tree_out_id,
        ))
  payload-short _ _ _ packet (sound_call f buffer _ _ e) r h =
      sized-short packet_size (call_bytes f) buffer packet f.size e h
  payload-short _ _ _ packet (sound_event v buffer _ _ e) r h =
      sized-short packet_size (event_bytes v) buffer packet v.size e h
  payload-short _ _ _ packet (sound_string_list l buffer _ _ _ _ e _) r h =
      sized-short packet_size (string_list_bytes l) buffer packet l.size e h

  -- A sound protocol whose packet does not fit the buffer is refused with
  -- KOW_STATUS_PACKET_BUFFER_TOO_SMALL.
  pub create-Stops :
      (p : Protocol)
      → Sound (layout_of p.header.command) p.payload.spec p.payload.buffer
      → packet_size < length (packet_of p)
      → (c : Created) × (kowhai_protocol_create packet_size p ≡ some c)
        × (c.status ≡ packet_buffer_too_small)
  unfolding kowhai_protocol_create
  create-Stops p s h =
      let l =
        length-append (header_bytes p.header)
          (body (layout_of p.header.command) p.payload.spec p.payload.buffer) in
      let three = length-header_bytes p.header in
      elim (Bool-cases (leb 3 packet_size)) [
        | inl a ↦
            let fits : 3 ≤ packet_size = ground arith in
            let (c, z, t) =
              payload-short (layout_of p.header.command) p.payload.spec p.payload.buffer
                (header_bytes p.header) s (omega arith) (omega arith) in
            (
              c,
              >>=-some _ (put-made packet_size 3 (header_bytes p.header) [] three (omega arith))
                  ∙ z,
              t,
            )
        | inr a ↦
            let long : packet_size < 3 = ground arith in
            chain-stopped packet_size (put packet_size 3 (header_bytes p.header) (made []))
              (create_payload packet_size (layout_of p.header.command) p.payload.spec
                p.payload.buffer)
              (put-short packet_size 3 (header_bytes p.header) [] (omega arith))
              (λ c e.
                payload-stopped (layout_of p.header.command) p.payload.spec p.payload.buffer c s e)
      ]
