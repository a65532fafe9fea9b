-- ===== src/Server/Read/Descriptors.antt =====
-- Answers to descriptor requests of teensy/usb_rawhid/kowhai/kowhai_protocol_server.c, as they are
-- received.
use beaverbot.Prelude.{
  ℕ, ◌+◌, ◌-◌, ◌*◌, ◌/◌, ◌≤◌, ◌<◌, ◌≡◌, true, false, u16, List, [], ◌∷◌, ◌++◌, length,
  length-append, drop, arith, refl,
}
use beaverbot.Kowhai.{Node}
use beaverbot.Kowhai.Access.{to_bytes}
use beaverbot.Kowhai.Access.Bytes.{length-to_bytes}
use beaverbot.Protocol.{
  Protocol, layout_of, descriptor, descriptor_payload, cmd_read_descriptor_ack,
  cmd_read_descriptor_ack_end,
}
use beaverbot.Protocol.Sound.{IsWord, sound_descriptor}
use beaverbot.Protocol.Overhead.{kowhai_protocol_get_overhead, overhead_of}
use beaverbot.Server.{Server, with_command, with_spec}
use beaverbot.Server.Read.{nodes_bytes, descriptor_protocol}
use beaverbot.Server.Chunks.{send_all}
use beaverbot.Server.Chunks.Received.{Serves}
use beaverbot.Server.Chunks.Answers.{part_length, part_there}
use beaverbot.Server.Chunks.Delivered.{
  IsDelivered, IsSent, sound-IsSent, sent-IsReadable, send_all-IsDelivered,
}

pub length-nodes_bytes : (ns : List Node) → length (nodes_bytes ns) ≡ 8 * length ns
length-nodes_bytes [] = refl
length-nodes_bytes (n ∷ ns) =
    let a =
      length-append (to_bytes 2 n.type)
        (to_bytes 2 n.symbol ++ (to_bytes 2 n.count ++ (to_bytes 2 n.tag ++ nodes_bytes ns))) in
    let b =
      length-append (to_bytes 2 n.symbol)
        (to_bytes 2 n.count ++ (to_bytes 2 n.tag ++ nodes_bytes ns)) in
    let c = length-append (to_bytes 2 n.count) (to_bytes 2 n.tag ++ nodes_bytes ns) in
    let d = length-append (to_bytes 2 n.tag) (nodes_bytes ns) in
    omega (
      arith,
      length-to_bytes 2 n.type,
      length-to_bytes 2 n.symbol,
      length-to_bytes 2 n.count,
      length-to_bytes 2 n.tag,
      length-nodes_bytes ns,
    )

module _ (pointer : ℕ) (s : Server) (p : Protocol) (nodes : List Node) (word : IsWord p.header.id)
    (small : 8 * length nodes < 65536) where
  abbrev all : List ℕ
  all = nodes_bytes nodes

  descriptor-IsSent :
      (command offset size : ℕ)
      → layout_of command ≡ descriptor_payload
      → command < 256
      → size + 9 ≤ s.max_packet_size
      → offset + size ≤ length all
      → IsSent s.max_packet_size (
          with_spec
            (with_command p command)
            (descriptor
              (record { node_count = u16 (length all / 8); offset = offset; size = size }))
            (drop offset all))
  unfolding kowhai_protocol_get_overhead
  descriptor-IsSent command offset size k c h e =
      let l = length-nodes_bytes nodes in
      sound-IsSent pointer s.max_packet_size _ {n = 9} c word
        (rw k (
          sound_descriptor _ _ (omega arith) (omega arith) (omega arith)
            (part_length offset size all e)))
        (part_there offset size all e) (rw (k, overhead_of) refl) (omega arith)

  descriptor-Serves :
      (room : ℕ)
      → room + 9 ≤ s.max_packet_size
      → Serves s.max_packet_size room
          (descriptor_protocol p (length all) nodes)
          p.header.id
          cmd_read_descriptor_ack
          cmd_read_descriptor_ack_end
          all
  unfolding layout_of
  descriptor-Serves room r true offset size h e =
      sent-IsReadable s.max_packet_size room (descriptor_protocol p (length all) nodes) p.header.id
        cmd_read_descriptor_ack cmd_read_descriptor_ack_end all true offset size _ refl refl
        (descriptor-IsSent cmd_read_descriptor_ack_end offset size refl (omega arith) (omega arith)
          e)
  descriptor-Serves room r false offset size h e =
      sent-IsReadable s.max_packet_size room (descriptor_protocol p (length all) nodes) p.header.id
        cmd_read_descriptor_ack cmd_read_descriptor_ack_end all false offset size _ refl refl
        (descriptor-IsSent cmd_read_descriptor_ack offset size refl (omega arith) (omega arith) e)

  pub descriptor-IsDelivered :
      9 < s.max_packet_size
      → IsDelivered s p.header.id cmd_read_descriptor_ack cmd_read_descriptor_ack_end all (
          send_all pointer s
            (with_command p cmd_read_descriptor_ack)
            (descriptor_protocol p (length all) nodes)
            (length all))
  unfolding kowhai_protocol_get_overhead layout_of
  descriptor-IsDelivered r =
      send_all-IsDelivered pointer s (with_command p cmd_read_descriptor_ack)
        (descriptor_protocol p (length all) nodes) p.header.id cmd_read_descriptor_ack
        cmd_read_descriptor_ack_end all {room = s.max_packet_size - 9} (ground arith) (omega arith)
        (omega (arith, length-nodes_bytes nodes))
        (descriptor-Serves (s.max_packet_size - 9) (omega arith))
