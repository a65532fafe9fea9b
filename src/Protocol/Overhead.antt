-- ===== src/Protocol/Overhead.antt =====
-- `kowhai_protocol_get_overhead` of teensy/usb_rawhid/kowhai/kowhai_protocol.c. The size of a pointer
-- is a parameter: two bytes on the robot.
use beaverbot.Prelude.{
  ℕ, ◌+◌, ◌-◌, ◌*◌, ◌≡◌, max, if◌then◌else◌, List, [], ◌∷◌, ◌++◌, length, length-append, arith, ap,
}
use beaverbot.Kowhai.{Status, ok, invalid_protocol_command}
use beaverbot.Kowhai.Access.{to_bytes}
use beaverbot.Protocol.{
  Spec, Protocol, Layout, layout_of, one_of, data_spec, no_payload, version_payload,
  id_list_payload, read_payload, data_payload, descriptor_payload, details_payload, call_payload,
  event_payload, string_list_payload, unknown, cmd_get_version, cmd_call_function_failed,
}
use beaverbot.Protocol.Create.{symbols_bytes, memory_bytes}
use beaverbot.Protocol.Sound.{
  Sound, sound_none, sound_version, sound_id_list, sound_read, sound_data, sound_descriptor,
  sound_details, sound_call, sound_event, sound_string_list, body, packet_of, length-symbols_bytes,
}

module _ (pointer : ℕ) where
  -- `sizeof(union kowhai_protocol_payload_spec_t)`: its largest members are the data's, with a pointer
  -- among seven other bytes, and the string list of ten.
  abbrev pub sizeof_spec : ℕ
  sizeof_spec = max 10 (1 + pointer + 6)

  abbrev pub sizeof_protocol : ℕ
  sizeof_protocol = 3 + (sizeof_spec + pointer)

  abbrev pub symbol_count : Spec → ℕ
  symbol_count (data_spec d) = d.count
  symbol_count spec = 0

  -- With `*overhead`, which is zero where the code does not set it.
  unfoldable pub overhead_of : Layout → (command : ℕ) → Spec → Status × ℕ
  overhead_of no_payload command spec =
      if one_of command (cmd_get_version ∷ cmd_call_function_failed ∷ [])
      then (invalid_protocol_command, 0)
      else (ok, 3)
  overhead_of version_payload command spec = (invalid_protocol_command, 0)
  overhead_of id_list_payload command spec = (ok, 3 + 6)
  overhead_of read_payload command spec = (ok, 3 + 1 + 4 * symbol_count spec)
  overhead_of data_payload command spec =
      (ok, sizeof_protocol - pointer + 4 * symbol_count spec - pointer)
  overhead_of descriptor_payload command spec = (ok, 3 + 6)
  overhead_of details_payload command spec = (ok, 3 + 4)
  overhead_of call_payload command spec = (ok, 3 + 4)
  overhead_of event_payload command spec = (ok, 3 + 4)
  overhead_of string_list_payload command spec = (ok, 3 + 10)
  overhead_of unknown command spec = (invalid_protocol_command, 0)

  unfoldable pub kowhai_protocol_get_overhead : Protocol → Status × ℕ
  unfolding layout_of overhead_of
  kowhai_protocol_get_overhead p =
      overhead_of (layout_of p.header.command) p.header.command p.payload.spec

  -- How much more is reported than is there.
  abbrev pub excess : Layout → ℕ
  excess data_payload = 3 - pointer
  excess layout = 0

  body-overhead :
      (command : ℕ) (layout : Layout) (spec : Spec) (buffer : List ℕ) {n : ℕ}
      → Sound layout spec buffer
      → overhead_of layout command spec ≡ (ok, n)
      → n + length buffer ≡ 3 + length (body layout spec buffer) + excess layout
  unfolding overhead_of to_bytes
  body-overhead command _ _ _ sound_none e = ground arith
  body-overhead command _ _ _ (sound_version v w) e = ground arith
  body-overhead command _ _ _ (sound_id_list l buffer a b c d) e = omega (arith, ap (λ r. r.1) e)
  body-overhead command _ _ _ (sound_read d p m) e =
      omega (arith, ap (λ r. r.1) e, length-symbols_bytes d.symbols, p.counted)
  body-overhead command _ _ _ (sound_data d buffer p t o s l) e =
      let a = length-append (symbols_bytes d.symbols) (memory_bytes d.memory ++ buffer) in
      omega (arith, ap (λ r. r.1) e, length-symbols_bytes d.symbols, p.counted)
  body-overhead command _ _ _ (sound_descriptor d buffer a b c l) e = omega (arith, ap (λ r. r.1) e)
  body-overhead command _ _ _ (sound_details d a b) e = omega (arith, ap (λ r. r.1) e)
  body-overhead command _ _ _ (sound_call f buffer a b l) e = omega (arith, ap (λ r. r.1) e)
  body-overhead command _ _ _ (sound_event v buffer a b l) e = omega (arith, ap (λ r. r.1) e)
  body-overhead command _ _ _ (sound_string_list s buffer a b c d l u) e =
      omega (arith, ap (λ r. r.1) e)

  -- An overhead that is reported for a sound protocol is, with the buffer, the length of the packet
  -- that is created for it; for the commands that carry data it is too large by what a pointer is
  -- shorter than three bytes.
  pub overhead-packet_of :
      (p : Protocol) {n : ℕ}
      → Sound (layout_of p.header.command) p.payload.spec p.payload.buffer
      → kowhai_protocol_get_overhead p ≡ (ok, n)
      → n + length p.payload.buffer ≡ length (packet_of p) + excess (layout_of p.header.command)
  unfolding kowhai_protocol_get_overhead to_bytes
  overhead-packet_of p s e = omega (arith, body-overhead p.header.command _ _ p.payload.buffer s e)
