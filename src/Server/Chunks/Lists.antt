-- ===== src/Server/Chunks/Lists.antt =====
-- Lists of strings of teensy/usb_rawhid/kowhai/kowhai_protocol_server.c, as they are received.
use beaverbot.Prelude.{
  ℕ, ◌+◌, ◌-◌, ◌≤◌, ◌<◌, ◌≡◌, Bool, true, false, if◌then◌else◌, u16, some, >>=-some, List, length,
  length-take, length-drop, take, drop, take-shorter, arith, refl, ap, ◌∙◌,
}
use beaverbot.Protocol.{Protocol, layout_of, string_list, string_list_payload, Spec}
use beaverbot.Protocol.Sound.{IsWord, sound_string_list}
use beaverbot.Protocol.Overhead.{kowhai_protocol_get_overhead, overhead_of}
use beaverbot.Server.{Server, with_command, with_spec, max_payload}
use beaverbot.Server.Chunks.{send_all, send_string_list, string_list_protocol, get_string_list_size}
use beaverbot.Server.Chunks.Strings.{
  string_bytes, get_string_list_size-length, copy_string_list_to_buffer_lem,
}
use beaverbot.Server.Chunks.Received.{Serves, IsReadable}
use beaverbot.Server.Chunks.Delivered.{
  IsDelivered, IsSent, sound-IsSent, sent-IsReadable, send_all-IsDelivered,
}

module _ (pointer : ℕ) (s : Server) (p : Protocol) (strings : List (List ℕ))
    (word : IsWord p.header.id) (small : length (string_bytes strings) < 65536) where
  abbrev copied : (room offset : ℕ) → List ℕ
  copied room offset = take room (drop offset (string_bytes strings))

  abbrev packet_spec : (offset size : ℕ) → Spec
  packet_spec offset size = string_list (record {
    list_count = u16 (length strings);
    list_total_size = get_string_list_size strings;
    offset = offset;
    size = size;
  })

  strings-IsSent :
      (command room offset size : ℕ)
      → layout_of command ≡ string_list_payload
      → command < 256
      → room + 13 ≤ s.max_packet_size
      → size ≤ room
      → offset + size ≤ length (string_bytes strings)
      → IsSent s.max_packet_size
          (with_spec (with_command p command) (packet_spec offset size) (copied room offset))
  unfolding kowhai_protocol_get_overhead
  strings-IsSent command room offset size k c h r e =
      let all = string_bytes strings in
      let a = length-take room (drop offset all) in
      let b = length-drop offset all in
      let t = length-take size (copied room offset) in
      let n = get_string_list_size-length strings in
      sound-IsSent pointer s.max_packet_size _ {n = 13} c word
        (rw k (
          sound_string_list _ _ (omega arith) (omega arith) (omega arith) (omega arith)
            (omega arith) (omega arith)))
        (omega arith) (rw (k, overhead_of) refl) (omega arith)

  strings-IsReadable :
      (ack ack_end room : ℕ) (last : Bool) (offset size : ℕ)
      → layout_of (if last then ack_end else ack) ≡ string_list_payload
      → (if last then ack_end else ack) < 256
      → room + 13 ≤ s.max_packet_size
      → size ≤ room
      → offset + size ≤ length (string_bytes strings)
      → IsReadable s.max_packet_size room
          (string_list_protocol p ack ack_end strings room)
          p.header.id
          ack
          ack_end
          (string_bytes strings)
          last
          offset
          size
  strings-IsReadable ack ack_end room last offset size k c h r e =
      sent-IsReadable s.max_packet_size room (string_list_protocol p ack ack_end strings room)
        p.header.id ack ack_end (string_bytes strings) last offset size
        (with_spec (with_command p (if last then ack_end else ack)) (packet_spec offset size)
          (copied room offset))
        (>>=-some _ (copy_string_list_to_buffer_lem strings offset room))
        (rw (take-shorter size room (drop offset (string_bytes strings)) r) refl)
        (strings-IsSent (if last then ack_end else ack) room offset size k c h r e)

  strings-Serves :
      (ack ack_end room : ℕ)
      → layout_of ack ≡ string_list_payload
      → layout_of ack_end ≡ string_list_payload
      → ack < 256
      → ack_end < 256
      → room + 13 ≤ s.max_packet_size
      → Serves s.max_packet_size room
          (string_list_protocol p ack ack_end strings room)
          p.header.id
          ack
          ack_end
          (string_bytes strings)
  strings-Serves ack ack_end room k k' c c' r true offset size h e =
      strings-IsReadable ack ack_end room true offset size k' c' r h e
  strings-Serves ack ack_end room k k' c c' r false offset size h e =
      strings-IsReadable ack ack_end room false offset size k c r h e

  send_string_list-send_all :
      (ack ack_end : ℕ) {room : ℕ}
      → max_payload pointer s (with_command p ack) ≡ some room
      → send_string_list pointer s p ack ack_end strings
        ≡ send_all pointer s
            (with_command p ack)
            (string_list_protocol p ack ack_end strings room)
            (length (string_bytes strings))
  unfolding send_string_list
  send_string_list-send_all ack ack_end {room} there =
      >>=-some _ there
      ∙ ap
          (send_all pointer s (with_command p ack)
            (string_list_protocol p ack ack_end strings room))
          (get_string_list_size-length strings)

  pub string_list-IsDelivered :
      (ack ack_end : ℕ)
      → layout_of ack ≡ string_list_payload
      → layout_of ack_end ≡ string_list_payload
      → ack < 256
      → ack_end < 256
      → 13 < s.max_packet_size
      → IsDelivered s p.header.id ack ack_end
          (string_bytes strings)
          (send_string_list pointer s p ack ack_end strings)
  unfolding kowhai_protocol_get_overhead
  string_list-IsDelivered ack ack_end k k' c c' h =
      let room = s.max_packet_size - 13 in
      let there : max_payload pointer s (with_command p ack) ≡ some room =
        rw (k, overhead_of) (ground arith) in
      rw (send_string_list-send_all ack ack_end there) (
        send_all-IsDelivered pointer s (with_command p ack)
          (string_list_protocol p ack ack_end strings room) p.header.id ack ack_end
          (string_bytes strings) there (omega arith) small
          (strings-Serves ack ack_end room k k' c c' (omega arith)))
