-- ===== src/Server/Call/Results.antt =====
-- Results of functions and the storing of their arguments, in
-- teensy/usb_rawhid/kowhai/kowhai_protocol_server.c.
use beaverbot.Prelude.{
  ℕ, ◌+◌, ◌-◌, ◌≤◌, ◌<◌, ◌≡◌, true, false, some, >>=-some, pos, List, [], ◌∷◌, length, drop, arith,
  refl,
}
use beaverbot.Kowhai.Size.{kowhai_get_node_size}
use beaverbot.Kowhai.Access.{store}
use beaverbot.Protocol.{
  Protocol, layout_of, function_call, cmd_call_function_result, cmd_call_function_result_end,
  call_payload,
}
use beaverbot.Protocol.Sound.{IsWord, sound_call}
use beaverbot.Protocol.Overhead.{kowhai_protocol_get_overhead, overhead_of}
use beaverbot.Server.{
  Server, Descriptor, populate_tree, set_bytes, bytes_of, with_command, with_spec,
}
use beaverbot.Server.Call.{store_arguments, send_result, result_protocol, call_answer}
use beaverbot.Server.Chunks.Received.{Serves}
use beaverbot.Server.Chunks.Answers.{part_length, part_there}
use beaverbot.Server.Chunks.Delivered.{
  IsDelivered, IsSent, sound-IsSent, sent-IsReadable, send_all-IsDelivered,
}

-- The bytes of a result, as they are received.
module _ (pointer : ℕ) (s : Server) (p : Protocol) (bytes : List ℕ) (word : IsWord p.header.id)
    (small : length bytes < 65536) where
  result-IsSent :
      (command offset size : ℕ)
      → layout_of command ≡ call_payload
      → command < 256
      → size + 7 ≤ s.max_packet_size
      → offset + size ≤ length bytes
      → IsSent s.max_packet_size (
          with_spec
            (with_command p command)
            (function_call (record { offset = offset; size = size }))
            (drop offset bytes))
  unfolding kowhai_protocol_get_overhead
  result-IsSent command offset size k c h e =
      sound-IsSent pointer s.max_packet_size _ {n = 7} c word
        (rw k (sound_call _ _ (omega arith) (omega arith) (part_length offset size bytes e)))
        (part_there offset size bytes e) (rw (k, overhead_of) refl) (omega arith)

  result-Serves :
      (room : ℕ)
      → room + 7 ≤ s.max_packet_size
      → Serves s.max_packet_size room
          (result_protocol p bytes)
          p.header.id
          cmd_call_function_result
          cmd_call_function_result_end
          bytes
  unfolding layout_of
  result-Serves room r true offset size h e =
      sent-IsReadable s.max_packet_size room (result_protocol p bytes) p.header.id
        cmd_call_function_result cmd_call_function_result_end bytes true offset size _ refl refl
        (result-IsSent cmd_call_function_result_end offset size refl (omega arith) (omega arith) e)
  result-Serves room r false offset size h e =
      sent-IsReadable s.max_packet_size room (result_protocol p bytes) p.header.id
        cmd_call_function_result cmd_call_function_result_end bytes false offset size _ refl refl
        (result-IsSent cmd_call_function_result offset size refl (omega arith) (omega arith) e)

  pub result-IsDelivered :
      (d : Descriptor)
      → kowhai_get_node_size d.nodes ≡ some (pos (length bytes))
      → 7 < s.max_packet_size
      → IsDelivered s p.header.id cmd_call_function_result cmd_call_function_result_end bytes
          (send_result pointer s p d (some bytes))
  unfolding kowhai_protocol_get_overhead layout_of send_result
  result-IsDelivered d e h = rw e (
      send_all-IsDelivered pointer s (call_answer p cmd_call_function_result)
        (result_protocol p bytes) p.header.id cmd_call_function_result cmd_call_function_result_end
        bytes {room = s.max_packet_size - 7} (ground arith) (omega arith) small
        (result-Serves (s.max_packet_size - 7) (omega arith)))

pub stored_arguments :
    (s : Server) (id offset : ℕ) (value : List ℕ) {after : List ℕ}
    → 0 < length value
    → store (bytes_of (populate_tree s id).bytes) (pos offset) value ≡ some after
    → store_arguments s id offset value
      ≡ some (record s { tree_list = set_bytes id after s.tree_list })
unfolding store_arguments
stored_arguments s id offset [] h e = absurd (omega arith)
stored_arguments s id offset (b ∷ bs) h e = >>=-some _ e
