-- ===== src/Protocol/Room.antt =====
-- `kowhai_protocol_create` of teensy/usb_rawhid/kowhai/kowhai_protocol.c stays within its buffer.
use beaverbot.Prelude.{
  ℕ, ◌+◌, ◌*◌, ◌≤◌, ◌≡◌, Option, none, some, ◌>>=◌, List, [], length, length-append, length-take,
  arith, refl, ltb, Bool-cases, inl, inr, take,
}
use beaverbot.Kowhai.{Status, ok, invalid_protocol_command}
use beaverbot.Kowhai.Access.{to_bytes}
use beaverbot.Protocol.{
  Protocol, Layout, Spec, DataSpec, layout_of, version, id_list, data_spec, descriptor,
  function_details, function_call, event, string_list, no_payload, version_payload, id_list_payload,
  read_payload, data_payload, descriptor_payload, details_payload, call_payload, event_payload,
  string_list_payload, unknown,
}
use beaverbot.Protocol.Create.{
  Created, put, put_sized, put_symbols, create_payload, kowhai_protocol_create, header_bytes,
  id_list_bytes, memory_bytes, descriptor_bytes, details_bytes, call_bytes, event_bytes,
  string_list_bytes, copy, symbols_bytes,
}
use mathlib.Core.Path.{subst}

module _ (packet_size : ℕ) where
  -- What was written fits the buffer, and without a failure it is as long as reported.
  pub record IsWithin (c : Created) : Type 0 where
    pub room : length c.packet ≤ packet_size
    pub exact : c.status ≡ ok → c.bytes_required ≡ length c.packet

  abbrev Holds : Option Created → Type 0
  Holds none = Unit
  Holds (some c) = IsWithin c

  -- Two steps, one after the other.
  chain :
      (m : Option Created) (f : Created → Option Created)
      → Holds m
      → ((c : Created) → IsWithin c → Holds (f c))
      → Holds (m >>= f)
  chain none f h k = tt
  chain (some c) f h k = k c h

  copy-Holds :
      (n : ℕ) (source : List ℕ) (c : Created)
      → c.status ≡ ok
      → IsWithin c
      → Holds (copy packet_size n source c)
  copy-Holds n source c s w =
      let l = length-append c.packet (take n source) in
      let t = length-take n source in
      let e = w.exact s in
      elim (Bool-cases (ltb packet_size (c.bytes_required + n))) [
        | inl a ↦ rw (a, Holds, copy) (record { room = w.room; exact = λ x. cc })
        | inr a ↦ elim (Bool-cases (ltb (length source) n)) [
          | inl b ↦ rw (a, b, Holds, copy) tt
          | inr b ↦
              let fits : c.bytes_required + n ≤ packet_size = ground arith in
              let long : n ≤ length source = ground arith in
              rw (a, b, Holds, copy) (record { room = omega arith; exact = λ x. omega arith })
        ]
      ]

  put-Holds :
      (n : ℕ) (source : List ℕ) (c : Created) → IsWithin c → Holds (put packet_size n source c)
  unfolding put
  put-Holds n source c w = by_status c.status refl
    where
      by_status :
          (t : Status)
          → c.status ≡ t
          → Holds (elim t [ ok ↦ copy packet_size n source c | failure ↦ some c ])
      by_status ok e = copy-Holds n source c e w
      by_status _ e = w

  sized-Holds :
      (structure : List ℕ) (size : ℕ) (buffer : List ℕ) (c : Created)
      → IsWithin c
      → Holds (put_sized packet_size structure size buffer c)
  sized-Holds structure size buffer c w =
      chain (put packet_size (length structure) structure c) (put packet_size size buffer)
        (put-Holds (length structure) structure c w) (put-Holds size buffer)

  symbols-Holds : (d : DataSpec) (c : Created) → IsWithin c → Holds (put_symbols packet_size d c)
  unfolding put_symbols
  symbols-Holds d c w =
      chain (put packet_size 1 (to_bytes 1 d.count) c)
        (put packet_size (4 * d.count) (symbols_bytes d.symbols))
        (put-Holds 1 (to_bytes 1 d.count) c w) (put-Holds (4 * d.count) (symbols_bytes d.symbols))

  payload-Holds :
      (layout : Layout) (spec : Spec) (buffer : List ℕ) (c : Created)
      → IsWithin c
      → Holds (create_payload packet_size layout spec buffer c)
  unfolding create_payload
  payload-Holds no_payload spec buffer c w = w
  payload-Holds version_payload (version v) buffer c w = put-Holds 4 (to_bytes 4 v) c w
  payload-Holds id_list_payload (id_list l) buffer c w =
      sized-Holds (id_list_bytes l) l.size buffer c w
  payload-Holds read_payload (data_spec d) buffer c w = symbols-Holds d c w
  payload-Holds data_payload (data_spec d) buffer c w =
      chain (put_symbols packet_size d c)
        (put_sized packet_size (memory_bytes d.memory) d.memory.size buffer) (symbols-Holds d c w)
        (sized-Holds (memory_bytes d.memory) d.memory.size buffer)
  payload-Holds descriptor_payload (descriptor d) buffer c w =
      sized-Holds (descriptor_bytes d) d.size buffer c w
  payload-Holds details_payload (function_details d) buffer c w = put-Holds 4 (details_bytes d) c w
  payload-Holds call_payload (function_call f) buffer c w =
      sized-Holds (call_bytes f) f.size buffer c w
  payload-Holds event_payload (event e) buffer c w = sized-Holds (event_bytes e) e.size buffer c w
  payload-Holds string_list_payload (string_list l) buffer c w =
      sized-Holds (string_list_bytes l) l.size buffer c w
  payload-Holds unknown spec buffer c w = by_status c.status
    where
      by_status :
          (t : Status)
          → Holds (elim t [
            | ok ↦ some (record c { status = invalid_protocol_command })
            | failure ↦ some c
          ])
      by_status ok = record { room = w.room; exact = λ x. cc }
      by_status _ = w
  payload-Holds layout spec buffer c w = tt

  -- Whatever the protocol, what is written fits the buffer; and when no failure is returned, as many
  -- bytes are written as are reported.
  pub create-IsWithin :
      (p : Protocol) {c : Created} → kowhai_protocol_create packet_size p ≡ some c → IsWithin c
  unfolding kowhai_protocol_create
  create-IsWithin p {c} e =
      let start : IsWithin (record { status = ok; bytes_required = 0; packet = [] }) = record {
        room = omega arith;
        exact = λ x. refl;
      } in
      subst Holds e (
        chain
          (put packet_size 3 (header_bytes p.header)
            (record { status = ok; bytes_required = 0; packet = [] }))
          (create_payload packet_size (layout_of p.header.command) p.payload.spec p.payload.buffer)
          (put-Holds 3 (header_bytes p.header) _ start)
          (payload-Holds (layout_of p.header.command) p.payload.spec p.payload.buffer))
