-- ===== src/Server/Read/Delivered.antt =====
-- Answers to read requests of teensy/usb_rawhid/kowhai/kowhai_protocol_server.c, as they are received.
use beaverbot.Prelude.{
  ℕ, ◌+◌, ◌-◌, ◌*◌, ◌≤◌, ◌<◌, ◌≡◌, Bool, true, false, if◌then◌else◌, some, >>=-some, List, [], ◌∷◌,
  length, take, drop, arith, refl, ap, ◌∙◌, take-shorter,
}
use beaverbot.Kowhai.{Symbol, Node}
use beaverbot.Kowhai.Forest.{Tags, Forest, extent, flatten}
use beaverbot.Kowhai.Measure.{first_count}
use beaverbot.Kowhai.Resolve.{Hit, resolve}
use beaverbot.Kowhai.Resolve.Root.{root}
use beaverbot.Kowhai.Bounds.{last}
use beaverbot.Kowhai.Access.Hits.{get_node-hit, size-hit}
use beaverbot.Protocol.{
  Protocol, DataSpec, Memory, layout_of, data_spec, data_payload, cmd_read_data_ack,
  cmd_read_data_ack_end,
}
use beaverbot.Protocol.Sound.{IsWord, IsPath, sound_data}
use beaverbot.Protocol.Overhead.{
  kowhai_protocol_get_overhead, overhead_of, sizeof_protocol, symbol_count,
}
use beaverbot.Server.{Server, TreePointers, with_command, with_spec}
use beaverbot.Server.Read.{read_protocol, read_node, read_tree, natural_size}
use beaverbot.Server.Read.Reads.{
  picked, pointers, read-picked, last_symbol-last, node-picked, rest-picked,
}
use beaverbot.Server.Chunks.{send_all}
use beaverbot.Server.Chunks.Received.{Serves, IsReadable}
use beaverbot.Server.Chunks.Answers.{part_length}
use beaverbot.Server.Chunks.Delivered.{
  IsDelivered, IsSent, sound-IsSent, sent-IsReadable, send_all-IsDelivered,
}

-- A path and what a request gives for the memory.
abbrev pub asked : Symbol → List Symbol → Memory → DataSpec
asked y ys m = record { count = length (y ∷ ys); symbols = y ∷ ys; memory = m }

-- The overhead of a packet with data.
abbrev pub data_overhead : (pointer : ℕ) → List Symbol → ℕ
data_overhead pointer symbols = sizeof_protocol pointer - pointer + 4 * length symbols - pointer

module _ (pointer : ℕ) (s : Server) (p : Protocol) (o c : Tags) (children : Forest) (address : ℕ)
    (bytes : List ℕ) (y : Symbol) (ys : List Symbol) {h : Hit}
    (found_at : resolve false (root o c children) (y ∷ ys) ≡ some h)
    (there : extent false 0 (root o c children) ≤ length bytes) (m : Memory)
    (carries : p.payload.spec ≡ data_spec (asked y ys m)) (path : IsPath (asked y ys m))
    (word : IsWord p.header.id)
    (small : length (picked o c children address bytes y ys found_at there) < 65536) where
  abbrev all : List ℕ
  all = picked o c children address bytes y ys found_at there

  abbrev tree : TreePointers
  tree = pointers o c children address bytes y ys found_at there

  read-IsSent :
      (type command offset size : ℕ)
      → type < 256
      → layout_of command ≡ data_payload
      → command < 256
      → data_overhead pointer (y ∷ ys) + size ≤ s.max_packet_size
      → offset + size ≤ length all
      → IsSent s.max_packet_size (
          with_spec
            (with_command p command)
            (data_spec (record (asked y ys m) {
              memory = record { type = type; offset = offset; size = size };
            }))
            (take size (drop offset all)))
  unfolding kowhai_protocol_get_overhead
  read-IsSent type command offset size t k l r e =
      let z = part_length offset size all e in
      sound-IsSent pointer s.max_packet_size _ {n = data_overhead pointer (y ∷ ys)} l word
        (rw k (
          sound_data _ _ (record { short = path.short; counted = path.counted; words = path.words })
            (omega arith) (omega arith) (omega arith)
            (part_length 0 size (take size (drop offset all)) (omega arith))))
        (omega arith) (rw (k, overhead_of) refl) r

  read-IsReadable :
      (room type : ℕ) (last : Bool) (offset size : ℕ)
      → type < 256
      → data_overhead pointer (y ∷ ys) + room ≤ s.max_packet_size
      → size ≤ room
      → offset + size ≤ length all
      → layout_of (if last then cmd_read_data_ack_end else cmd_read_data_ack) ≡ data_payload
      → (if last then cmd_read_data_ack_end else cmd_read_data_ack) < 256
      → IsReadable s.max_packet_size room
          (read_protocol p (asked y ys m) tree type)
          p.header.id
          cmd_read_data_ack
          cmd_read_data_ack_end
          all
          last
          offset
          size
  read-IsReadable room type last offset size t r z e k l =
      sent-IsReadable s.max_packet_size room (read_protocol p (asked y ys m) tree type) p.header.id
        cmd_read_data_ack cmd_read_data_ack_end all last offset size _
        (>>=-some _ (read-picked o c children address bytes y ys found_at there offset size e))
        (ap
          (λ b. record {
            command = if last then cmd_read_data_ack_end else cmd_read_data_ack;
            id = p.header.id;
            offset = offset;
            bytes = b;
          })
          (take-shorter size size (drop offset all) (omega arith)))
        (read-IsSent type (if last then cmd_read_data_ack_end else cmd_read_data_ack) offset size t
          k l (omega arith) e)

  read-Serves :
      (room type : ℕ)
      → type < 256
      → data_overhead pointer (y ∷ ys) + room ≤ s.max_packet_size
      → Serves s.max_packet_size room
          (read_protocol p (asked y ys m) tree type)
          p.header.id
          cmd_read_data_ack
          cmd_read_data_ack_end
          all
  unfolding layout_of
  read-Serves room type t r true offset size z e =
      read-IsReadable room type true offset size t r z e refl (omega arith)
  read-Serves room type t r false offset size z e =
      read-IsReadable room type false offset size t r z e refl (omega arith)

  read_node-send_all :
      (n : Node) (others : List Node)
      → drop h.index (flatten (root o c children) []) ≡ n ∷ others
      → n.count ≡ first_count h.target
      → read_node pointer s p (asked y ys m) tree h.index
        ≡ send_all pointer s
            (with_command p cmd_read_data_ack)
            (read_protocol p (asked y ys m) tree n.type)
            (length all)
  unfolding read_node
  read_node-send_all n others at k =
      >>=-some _ (last_symbol-last y ys)
      ∙ >>=-some _ (size-hit o c children y ys found_at)
      ∙ rw at (
          >>=-some _
            (ap natural_size (rest-picked o c children address bytes y ys found_at there n k)))

  read_node-IsDelivered :
      data_overhead pointer (y ∷ ys) < s.max_packet_size
      → IsDelivered s p.header.id cmd_read_data_ack cmd_read_data_ack_end all
          (read_node pointer s p (asked y ys m) tree h.index)
  unfolding kowhai_protocol_get_overhead layout_of
  read_node-IsDelivered r =
      let (n, others, at, k, t) = node-picked o c children address bytes y ys found_at there in
      let room = s.max_packet_size - data_overhead pointer (y ∷ ys) in
      let counted : symbol_count pointer p.payload.spec ≡ length (y ∷ ys) =
        ap (symbol_count pointer) carries in
      rw (read_node-send_all n others at k) (
        send_all-IsDelivered pointer s (with_command p cmd_read_data_ack)
          (read_protocol p (asked y ys m) tree n.type) p.header.id cmd_read_data_ack
          cmd_read_data_ack_end all {room = room} (ground arith) (omega arith) small
          (read-Serves room n.type t (omega arith)))

  pub read_tree-IsDelivered :
      data_overhead pointer (y ∷ ys) < s.max_packet_size
      → IsDelivered s p.header.id cmd_read_data_ack cmd_read_data_ack_end all
          (read_tree pointer s p (asked y ys m) tree)
  unfolding read_tree
  read_tree-IsDelivered r = rw (get_node-hit o c children y ys found_at) (read_node-IsDelivered r)
