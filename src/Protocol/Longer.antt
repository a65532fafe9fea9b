-- ===== src/Protocol/Longer.antt =====
-- `kowhai_protocol_create` of teensy/usb_rawhid/kowhai/kowhai_protocol.c, at a pointer into a longer
-- buffer than the payload's size.
use beaverbot.Prelude.{
  ℕ, ◌≤◌, ◌≡◌, ◌>>=◌, List, [], ◌∷◌, length, length-take, take, arith, refl, ap, zero, suc,
}
use beaverbot.Kowhai.{ok}
use beaverbot.Protocol.{
  Protocol, Layout, Spec, layout_of, version, id_list, data_spec, descriptor, function_details,
  function_call, event, string_list, version_payload, id_list_payload, read_payload, data_payload,
  descriptor_payload, details_payload, call_payload, event_payload, string_list_payload,
}
use beaverbot.Protocol.Create.{
  Created, put, put_sized, put_symbols, header_bytes, create_payload, kowhai_protocol_create,
  id_list_bytes, memory_bytes, descriptor_bytes, call_bytes, event_bytes, string_list_bytes,
}
use beaverbot.Protocol.Checked.{buffer_size}
use mathlib.Core.Path.{fun_ext}

pub take-take : (n : ℕ) (xs : List ℕ) → take n (take n xs) ≡ take n xs
take-take zero xs = refl
take-take (suc n) [] = refl
take-take (suc n) (x ∷ xs) = ap (λ l. x ∷ l) (take-take n xs)

module _ (packet_size : ℕ) where
  put-take :
      (n : ℕ) (source : List ℕ) (c : Created)
      → n ≤ length source
      → put packet_size n source c ≡ put packet_size n (take n source) c
  unfolding put
  put-take n source c h = let l = length-take n source in let t = take-take n source in ground arith

  sized-take :
      (structure : List ℕ) (n : ℕ) (buffer : List ℕ) (c : Created)
      → n ≤ length buffer
      → put_sized packet_size structure n buffer c
        ≡ put_sized packet_size structure n (take n buffer) c
  sized-take structure n buffer c h =
      ap (λ f. put packet_size (length structure) structure c >>= f)
        (fun_ext (λ c'. put-take n buffer c' h))

  payload-take :
      (layout : Layout) (spec : Spec) (buffer : List ℕ) (c : Created)
      → buffer_size spec ≤ length buffer
      → create_payload packet_size layout spec buffer c
        ≡ create_payload packet_size layout spec (take (buffer_size spec) buffer) c
  unfolding create_payload
  payload-take id_list_payload (id_list l) buffer c h =
      sized-take (id_list_bytes l) l.size buffer c h
  payload-take data_payload (data_spec d) buffer c h =
      ap (λ f. put_symbols packet_size d c >>= f)
        (fun_ext (λ c'. sized-take (memory_bytes d.memory) d.memory.size buffer c' h))
  payload-take descriptor_payload (descriptor d) buffer c h =
      sized-take (descriptor_bytes d) d.size buffer c h
  payload-take call_payload (function_call f) buffer c h =
      sized-take (call_bytes f) f.size buffer c h
  payload-take event_payload (event e) buffer c h = sized-take (event_bytes e) e.size buffer c h
  payload-take string_list_payload (string_list l) buffer c h =
      sized-take (string_list_bytes l) l.size buffer c h
  payload-take version_payload (version v) buffer c h = refl
  payload-take read_payload (data_spec d) buffer c h = refl
  payload-take details_payload (function_details d) buffer c h = refl
  payload-take _ _ buffer c h = refl

  -- The protocol with its buffer cut to the payload's size.
  pub create-take :
      (p : Protocol)
      → buffer_size p.payload.spec ≤ length p.payload.buffer
      → kowhai_protocol_create packet_size p
        ≡ kowhai_protocol_create packet_size (record p {
          payload = record p.payload {
            buffer = take (buffer_size p.payload.spec) p.payload.buffer;
          };
        })
  unfolding kowhai_protocol_create
  create-take p h =
      ap
        (λ f.
          put packet_size 3 (header_bytes p.header)
            (record { status = ok; bytes_required = 0; packet = [] })
          >>= f)
        (fun_ext
          (λ c. payload-take (layout_of p.header.command) p.payload.spec p.payload.buffer c h))
