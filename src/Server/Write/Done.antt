-- ===== src/Server/Write/Done.antt =====
-- A write that `kowhai_server_process_packet` of
-- teensy/usb_rawhid/kowhai/kowhai_protocol_server.c carries out.
use beaverbot.Prelude.{
  ℕ, ◌+◌, ◌-◌, ◌*◌, ◌≤◌, ◌≡◌, ◌≢◌, false, some, >>=-some, List, [], ◌∷◌, ◌++◌, length, length-take,
  take, arith, refl, ap, ◌∙◌, sym, pos, take-long,
}
use beaverbot.Kowhai.{Symbol, ok}
use beaverbot.Kowhai.Forest.{Tags, Forest, extent, flatten}
use beaverbot.Kowhai.Measure.{first_elem, first_count}
use beaverbot.Kowhai.Resolve.{Hit, resolve}
use beaverbot.Kowhai.Resolve.Root.{root}
use beaverbot.Kowhai.Bounds.{last}
use beaverbot.Kowhai.Access.{kowhai_read, kowhai_write}
use beaverbot.Kowhai.Access.Bytes.{Replaced}
use beaverbot.Kowhai.Access.Hits.{whole, get_node-hit}
use beaverbot.Kowhai.Access.Copies.{write-read}
use beaverbot.Protocol.{Protocol, Memory, layout_of, data_spec, cmd_write_data_ack}
use beaverbot.Protocol.Sound.{IsWord, IsPath, sound_data}
use beaverbot.Protocol.Overhead.{kowhai_protocol_get_overhead}
use beaverbot.Server.{
  Server, Callbacks, TreeItem, Writing, sent, emit, set_bytes, with_command, with_spec, send,
  get_tree_index, populate_tree, kow_undefined_symbol,
}
use beaverbot.Server.Trees.{check_tree_id-known, populate_tree-known, populate_tree-set_bytes}
use beaverbot.Server.Write.{
  acknowledge_write, continue_write, write_node, write_data, write_found, proceed,
}
use beaverbot.Server.Write.Sequence.{
  IsQuiet, Follows, sequence, begins, begun, begin_write-begun, remains, ends, note_write-noted,
}
use beaverbot.Server.Chunks.Received.{piece, piece_of}
use beaverbot.Server.Chunks.Delivered.{IsSent, sound-IsSent}
use beaverbot.Server.Read.Delivered.{asked}

module _ (calls : Callbacks) (quiet : IsQuiet calls) (s : Server) (p : Protocol) (o c : Tags)
    (children : Forest) (address : ℕ) (bytes : List ℕ) (y : Symbol) (ys : List Symbol) {h : Hit}
    (m : Memory) {i : ℕ} (t : TreeItem)
    (found_at : resolve false (root o c children) (y ∷ ys) ≡ some h)
    (there : extent false 0 (root o c children) ≤ length bytes) (path : IsPath (asked y ys m))
    (word : IsWord p.header.id) (type_word : IsWord m.type) (offset_word : IsWord m.offset)
    (size_word : IsWord m.size) (carries : p.payload.spec ≡ data_spec (asked y ys m))
    (has_buffer : m.size ≤ length p.payload.buffer)
    (known : get_tree_index s p.header.id ≡ some (i, t))
    (defined : p.header.id ≢ kow_undefined_symbol)
    (has_desc : t.desc
      ≡ some (record { address = address; nodes = flatten (root o c children) [] }))
    (has_bytes : t.bytes ≡ some bytes) (follows : Follows (address + 8 * h.index) s.current_write)
    (inside : m.offset + m.size
      ≤ first_elem h.target * (first_count h.target - (last y ys).array_index))
    (room : 10 + 4 * length (y ∷ ys) + m.size ≤ s.max_packet_size) where
  abbrev value : List ℕ
  value = take m.size p.payload.buffer

  abbrev node : ℕ
  node = address + 8 * h.index

  abbrev current : Writing
  current = sequence node h.offset s.current_write

  -- The server after the write, which left these bytes and sent this answer.
  abbrev pub written : (after answer : List ℕ) → Server
  written after answer = record s {
    tree_list = set_bytes p.header.id after s.tree_list;
    current_write = remains p.header.command (m.offset + m.size) current;
    log =
        ((s.log ++ begins p.header.id node h.offset s.current_write)
          ++ ends p.header.command p.header.id (m.offset + m.size) current)
        ++ (sent answer ∷ []);
  }

  length-value : length value ≡ m.size
  length-value = omega (arith, length-take m.size p.payload.buffer)

  -- The server between the write and its answer.
  abbrev noted : Server
  noted = record s {
    current_write = remains p.header.command (m.offset + m.size) current;
    log =
        (s.log ++ begins p.header.id node h.offset s.current_write)
        ++ ends p.header.command p.header.id (m.offset + m.size) current;
  }

  abbrev between : (after : List ℕ) → Server
  between after = record noted { tree_list = set_bytes p.header.id after s.tree_list }

  answer-IsSent :
      IsSent s.max_packet_size (with_spec (with_command p cmd_write_data_ack) p.payload.spec value)
  unfolding layout_of kowhai_protocol_get_overhead
  answer-IsSent =
      let l = length-value in
      rw carries (
        sound-IsSent 3 s.max_packet_size
          (with_spec (with_command p cmd_write_data_ack) (data_spec (asked y ys m)) value)
          {n = 10 + 4 * length (y ∷ ys)} (omega arith) word
          (sound_data _ _ path type_word offset_word size_word
            (omega (arith, length-take m.size value)))
          (omega arith) (ground arith) room)

  acknowledged :
      (after : List ℕ)
      → kowhai_read (whole o c children after) (y ∷ ys) (pos m.offset) m.size ≡ some (ok, value)
      → acknowledge_write (between after) p (asked y ys m)
        ≡ some (emit (between after) (sent answer-IsSent.packet ∷ []))
  unfolding acknowledge_write send
  acknowledged after e =
      rw
        (
          populate_tree-set_bytes noted p.header.id {t = t} after known defined has_bytes,
          has_desc,
          e,
        )
        (>>=-some _ answer-IsSent.created)

  continued :
      (after : List ℕ)
      → kowhai_write (whole o c children bytes) (y ∷ ys) (pos m.offset) value
        ≡ some (ok, whole o c children after)
      → kowhai_read (whole o c children after) (y ∷ ys) (pos m.offset) m.size ≡ some (ok, value)
      → continue_write calls (begun s p.header.id node h.offset) p (asked y ys m) current
        ≡ some (written after answer-IsSent.packet)
  unfolding continue_write
  continued after w e =
      let s' = begun s p.header.id node h.offset in
      rw (populate_tree-known s' p.header.id {t = t} known defined, has_desc, has_bytes, w)
        (ap (λ r. acknowledge_write r p (asked y ys m))
            (note_write-noted calls
              (record s' { tree_list = set_bytes p.header.id after s.tree_list }) p.header.command
              p.header.id (m.offset + m.size) current quiet)
          ∙ acknowledged after e)

  write_found-written :
      (after : List ℕ)
      → kowhai_write (whole o c children bytes) (y ∷ ys) (pos m.offset) value
        ≡ some (ok, whole o c children after)
      → kowhai_read (whole o c children after) (y ∷ ys) (pos m.offset) m.size ≡ some (ok, value)
      → write_found calls s p (asked y ys m) node (pos h.offset)
        ≡ some (written after answer-IsSent.packet)
  unfolding write_found proceed
  write_found-written after w e =
      ap (proceed calls p (asked y ys m))
        (begin_write-begun calls s p.header.id node h.offset quiet follows)
      ∙ continued after w e

  write_data-write_found :
      write_data calls s p (asked y ys m) ≡ write_found calls s p (asked y ys m) node (pos h.offset)
  unfolding write_data write_node
  write_data-write_found =
      let pointers : populate_tree s p.header.id ≡ record {
        desc = some (record { address = address; nodes = flatten (root o c children) [] });
        bytes = some bytes;
      } =
        rw (populate_tree-known s p.header.id {t = t} known defined, has_desc, has_bytes) refl in
      rw (check_tree_id-known s p.header.id known) (
        ap (write_node calls s p (asked y ys m)) pointers
        ∙ >>=-some _ (get_node-hit o c children y ys found_at))

  answer-piece :
      piece answer-IsSent.packet
      ≡ some (record {
        command = cmd_write_data_ack;
        id = p.header.id;
        offset = m.offset;
        bytes = value;
      })
  answer-piece =
      answer-IsSent.read
      ∙ ap (λ spec. some (piece_of (with_spec (with_command p cmd_write_data_ack) spec value)))
          carries
      ∙ ap
          (λ b. some (record {
            command = cmd_write_data_ack;
            id = p.header.id;
            offset = m.offset;
            bytes = b;
          }))
          (take-long m.size value (omega (arith, length-value)))

  -- A write of bytes to a tree of the list: its root is a structure, its bytes are all there, the path
  -- leads somewhere, the write stays between the element that the path picks and the end of its array,
  -- it belongs to the current write sequence, if there is one, and the callbacks leave the trees alone.
  -- The bytes are put there and all others stay; a new sequence is announced to the callback before,
  -- and the end of a sequence after the write, with the sequence's node and the most bytes written; the
  -- sequence goes on, or is none after its end. Then one packet is sent, and nothing else is done: it
  -- acknowledges the write with the request's id, offset and bytes.
  pub write_data-written :
      (after : List ℕ) × (answer : List ℕ) × (write_data calls s p (asked y ys m)
        ≡ some (written after answer))
      × Replaced (h.offset + m.offset) value bytes after
      × (piece answer
          ≡ some (record {
            command = cmd_write_data_ack;
            id = p.header.id;
            offset = m.offset;
            bytes = value;
          }))
  write_data-written =
      let (after, wrote, replaced, reads) =
        write-read o c children bytes y ys found_at m.offset value there
          (omega (arith, inside, length-value)) in
      (
        after,
        answer-IsSent.packet,
        write_data-write_found
            ∙ write_found-written after wrote (
                sym (
                  ap (λ n. kowhai_read (whole o c children after) (y ∷ ys) (pos m.offset) n)
                    length-value)
                ∙ reads),
        replaced,
        answer-piece,
      )
