-- ===== src/Server/Chunks/Answers.antt =====
-- Events and lists of ids of teensy/usb_rawhid/kowhai/kowhai_protocol_server.c, as they are received.
use beaverbot.Prelude.{
  ℕ, ◌+◌, ◌-◌, ◌*◌, ◌≤◌, ◌<◌, ◌≡◌, Bool, true, false, if◌then◌else◌, u16, List, [], ◌∷◌, ◌++◌,
  length, length-append, length-take, length-drop, take, drop, arith, refl,
}
use beaverbot.Kowhai.Access.{to_bytes}
use beaverbot.Kowhai.Access.Bytes.{length-to_bytes}
use beaverbot.Protocol.{
  Protocol, layout_of, id_list, cmd_event, cmd_event_end, cleared, id_list_payload,
}
use beaverbot.Protocol.Sound.{IsWord, sound_event, sound_id_list}
use beaverbot.Protocol.Overhead.{kowhai_protocol_get_overhead, overhead_of}
use beaverbot.Server.{ListId, Server, with_command, with_spec}
use beaverbot.Server.Chunks.{
  id_bytes, id_list_protocol, send_id_list, event_protocol, kowhai_server_process_event,
}
use beaverbot.Server.Chunks.Received.{Serves}
use beaverbot.Server.Chunks.Delivered.{
  IsDelivered, IsSent, sound-IsSent, sent-IsReadable, send_all-IsDelivered, delivered-IsAnswered,
  IsAnswered,
}

-- As many bytes as a part has are there.
pub part_there :
    (offset size : ℕ) (all : List ℕ) → offset + size ≤ length all → size ≤ length (drop offset all)
part_there offset size all h = omega (arith, length-drop offset all)

pub part_length :
    (offset size : ℕ) (all : List ℕ)
    → offset + size ≤ length all
    → length (take size (drop offset all)) ≡ size
part_length offset size all h =
    omega (arith, length-take size (drop offset all), length-drop offset all)

module _ (pointer : ℕ) (s : Server) (tree_id : ℕ) (buffer : List ℕ) (word : IsWord tree_id)
    (small : length buffer < 65536) where
  pub event-Serves :
      (room : ℕ)
      → room + 7 ≤ s.max_packet_size
      → Serves s.max_packet_size room
          (event_protocol tree_id buffer)
          tree_id
          cmd_event
          cmd_event_end
          buffer
  unfolding layout_of kowhai_protocol_get_overhead
  event-Serves room r true offset size h e =
      sent-IsReadable s.max_packet_size room (event_protocol tree_id buffer) tree_id cmd_event
        cmd_event_end buffer true offset size _ refl refl
        (sound-IsSent pointer s.max_packet_size _ (omega arith) word
          (sound_event _ _ (omega arith) (omega arith) (part_length offset size buffer e))
          (part_there offset size buffer e) refl (omega arith))
  event-Serves room r false offset size h e =
      sent-IsReadable s.max_packet_size room (event_protocol tree_id buffer) tree_id cmd_event
        cmd_event_end buffer false offset size _ refl refl
        (sound-IsSent pointer s.max_packet_size _ (omega arith) word
          (sound_event _ _ (omega arith) (omega arith) (part_length offset size buffer e))
          (part_there offset size buffer e) refl (omega arith))

  -- An event of less than 65536 bytes is delivered under its tree's id, if packets can have more than
  -- the seven bytes of overhead.
  pub event-IsAnswered :
      7 < s.max_packet_size
      → IsAnswered s tree_id cmd_event cmd_event_end buffer
          (kowhai_server_process_event pointer s tree_id buffer)
  unfolding layout_of kowhai_protocol_get_overhead kowhai_server_process_event
  event-IsAnswered h = delivered-IsAnswered s tree_id cmd_event cmd_event_end buffer _ (
      send_all-IsDelivered pointer s
        (record {
          header = record { command = cmd_event; id = tree_id };
          payload = record { spec = cleared; buffer = buffer };
        })
        (event_protocol tree_id buffer) tree_id cmd_event cmd_event_end buffer
        {room = s.max_packet_size - 7} (ground arith) (omega arith) small
        (event-Serves (s.max_packet_size - 7) (omega arith)))

length-id_bytes : (ids : List ListId) → length (id_bytes ids) ≡ length ids * 4
length-id_bytes [] = refl
length-id_bytes (i ∷ is) =
    let a = length-append (to_bytes 2 i.id) (to_bytes 2 i.type ++ id_bytes is) in
    let b = length-append (to_bytes 2 i.type) (id_bytes is) in
    omega (arith, length-to_bytes 2 i.id, length-to_bytes 2 i.type, length-id_bytes is)

module _ (pointer : ℕ) (s : Server) (p : Protocol) (ids : List ListId) (word : IsWord p.header.id)
    (small : length ids * 4 < 65536) where
  id_list-IsSent :
      (ack ack_end : ℕ) (last : Bool) (offset size : ℕ)
      → layout_of (if last then ack_end else ack) ≡ id_list_payload
      → (if last then ack_end else ack) < 256
      → size + 9 ≤ s.max_packet_size
      → offset + size ≤ length (id_bytes ids)
      → IsSent s.max_packet_size (
          with_spec
            (with_command p (if last then ack_end else ack))
            (id_list (record { list_count = u16 (length ids); offset = offset; size = size }))
            (drop offset (id_bytes ids)))
  unfolding kowhai_protocol_get_overhead
  id_list-IsSent ack ack_end last offset size k c h e =
      sound-IsSent pointer s.max_packet_size _ {n = 9} c word
        (rw k (
          sound_id_list _ _ (omega arith) (omega (arith, length-id_bytes ids))
            (omega (arith, length-id_bytes ids)) (part_length offset size (id_bytes ids) e)))
        (part_there offset size (id_bytes ids) e) (rw (k, overhead_of) refl) (omega arith)

  id_list-Serves :
      (ack ack_end room : ℕ)
      → layout_of ack ≡ id_list_payload
      → layout_of ack_end ≡ id_list_payload
      → ack < 256
      → ack_end < 256
      → room + 9 ≤ s.max_packet_size
      → Serves s.max_packet_size room
          (id_list_protocol p ack ack_end ids)
          p.header.id
          ack
          ack_end
          (id_bytes ids)
  id_list-Serves ack ack_end room k k' c c' r true offset size h e =
      sent-IsReadable s.max_packet_size room (id_list_protocol p ack ack_end ids) p.header.id ack
        ack_end (id_bytes ids) true offset size _ refl refl
        (id_list-IsSent ack ack_end true offset size k' c' (omega arith) e)
  id_list-Serves ack ack_end room k k' c c' r false offset size h e =
      sent-IsReadable s.max_packet_size room (id_list_protocol p ack ack_end ids) p.header.id ack
        ack_end (id_bytes ids) false offset size _ refl refl
        (id_list-IsSent ack ack_end false offset size k c (omega arith) e)

  pub id_list-IsDelivered :
      (ack ack_end : ℕ)
      → layout_of ack ≡ id_list_payload
      → layout_of ack_end ≡ id_list_payload
      → ack < 256
      → ack_end < 256
      → 9 < s.max_packet_size
      → IsDelivered s p.header.id ack ack_end
          (id_bytes ids)
          (send_id_list pointer s p ack ack_end ids)
  unfolding kowhai_protocol_get_overhead send_id_list
  id_list-IsDelivered ack ack_end k k' c c' h =
      let l = length-id_bytes ids in
      rw (← l) (
        send_all-IsDelivered pointer s (with_command p ack) (id_list_protocol p ack ack_end ids)
          p.header.id ack ack_end (id_bytes ids) {room = s.max_packet_size - 9}
          (rw (k, overhead_of) (ground arith)) (omega arith) (omega arith)
          (id_list-Serves ack ack_end (s.max_packet_size - 9) k k' c c' (omega arith)))
