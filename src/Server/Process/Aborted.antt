-- ===== src/Server/Process/Aborted.antt =====
-- Writes that `kowhai_server_process_packet` of
-- teensy/usb_rawhid/kowhai/kowhai_protocol_server.c does not carry out.
use beaverbot.Prelude.{
  ℕ, ◌+◌, ◌*◌, ◌≤◌, ◌<◌, ◌≡◌, ◌≢◌, ◌⊎◌, inl, inr, false, ◌==◌, none, some, ◌>>=◌, >>=-some, List,
  [], ◌∷◌, length, length-take, take, arith, refl, ap, ◌∙◌, ℤ, pos, leb, sym,
}
use beaverbot.Kowhai.{Symbol, Status, ok, invalid_sequence, invalid_symbol_path}
use beaverbot.Kowhai.Forest.{Tags, Forest, flatten}
use beaverbot.Kowhai.Measure.{first_size}
use beaverbot.Kowhai.Resolve.{Hit, resolve}
use beaverbot.Kowhai.Resolve.Root.{root, kowhai_get_node-resolve}
use beaverbot.Kowhai.Lookup.{found, failed, kowhai_get_node}
use beaverbot.Kowhai.Access.{kowhai_write, store}
use beaverbot.Kowhai.Access.Hits.{whole, get_node-hit, write-through}
use beaverbot.Protocol.{
  Protocol, DataSpec, layout_of, data_spec, unknown, cmd_error_invalid_symbol_path,
  cmd_error_invalid_sequence,
}
use beaverbot.Protocol.Parse.{kowhai_protocol_parse}
use beaverbot.Server.{
  Server, Callbacks, TreeItem, Writing, get_tree_index, kow_undefined_symbol, nodes_of,
}
use beaverbot.Server.Trees.{check_tree_id-known, populate_tree-known}
use beaverbot.Server.Write.{
  write_data, write_node, write_found, proceed, fail_write, send_error, error_command, begin_write,
  begin_at, continue_write, node_address,
}
use beaverbot.Server.Write.Sequence.{IsQuiet, Follows, begun, sequence, begin_write-begun}
use beaverbot.Server.Process.{request_of, handle, with_data, kowhai_server_process_packet, write}
use beaverbot.Server.Process.Answers.{process-handle}
use beaverbot.Server.Process.Errors.{replied, send-error, IsWrite, request_of-IsWrite}
use beaverbot.Kowhai.Resolve.Find.{to_lookup}

error_layout : (status : Status) → layout_of (error_command status) ≡ unknown
unfolding error_command layout_of
error_layout ok = refl
error_layout _ = refl

module _ (pointer : ℕ) (calls : Callbacks) (s : Server) (packet : List ℕ) (p : Protocol)
    (fits : length packet ≤ s.max_packet_size) (room : 3 ≤ s.max_packet_size)
    (parsed : kowhai_protocol_parse packet ≡ (ok, p)) (d : DataSpec)
    (carries : p.payload.spec ≡ data_spec d) {i : ℕ} (t : TreeItem)
    (known : get_tree_index s p.header.id ≡ some (i, t))
    (defined : p.header.id ≢ kow_undefined_symbol) where
  fail_write-replied :
      (status : Status)
      → fail_write s p status
        ≡ some (replied (record s { current_write = none }) (error_command status) p.header.id)
  unfolding fail_write send_error
  fail_write-replied status =
      send-error (record s { current_write = none }) p (error_command status) (error_layout status)
        room

  write-handled :
      handle pointer calls s p write
      ≡ write_node calls s p d (record { desc = t.desc; bytes = t.bytes })
  unfolding handle with_data write_data
  write-handled =
      ap (λ spec. with_data spec (λ d'. write_data calls s p d')) carries
      ∙ rw
          (
            check_tree_id-known s p.header.id known,
            populate_tree-known s p.header.id {t = t} known defined,
          )
          refl

  other_node :
      (w : Writing) (node : ℕ) (offset : ℤ)
      → s.current_write ≡ some w
      → node ≢ w.node
      → write_found calls s p d node offset ≡ fail_write s p invalid_sequence
  unfolding write_found begin_write begin_at proceed
  other_node w node offset e n =
      let other : (node == w.node) ≡ false = ground arith in
      ap (λ cw. proceed calls p d (begin_at calls s p.header.id node offset cw)) e ∙ rw other refl

  aborted :
      (status : Status) (command : ℕ)
      → IsWrite p.header.command
      → error_command status ≡ command
      → write_node calls s p d (record { desc = t.desc; bytes = t.bytes }) ≡ fail_write s p status
      → kowhai_server_process_packet pointer calls s packet
        ≡ some (ok, replied (record s { current_write = none }) command p.header.id)
  aborted status command e same fails =
      process-handle pointer calls s packet p fits parsed write
        (request_of-IsWrite p.header.command e)
      ∙ >>=-some _ (
          write-handled
          ∙ fails
          ∙ fail_write-replied status
          ∙ ap (λ c. some (replied (record s { current_write = none }) c p.header.id)) same)

  -- A write, with either command, to a tree of the list whose root is a structure ends the current write
  -- sequence and is answered with one error, and nothing else is done, in two cases: the path means
  -- nothing in the tree, which gives the invalid symbol path error; and it leads to another node than
  -- that of the current sequence, which gives the invalid sequence error.
  pub write-aborted :
      (o c : Tags) (children : Forest) (address : ℕ) (y : Symbol) (ys : List Symbol) (command : ℕ)
      → IsWrite p.header.command
      → t.desc ≡ some (record { address = address; nodes = flatten (root o c children) [] })
      → d.symbols ≡ y ∷ ys
      → (resolve false (root o c children) (y ∷ ys) ≡ none)
          × (command ≡ cmd_error_invalid_symbol_path)
        ⊎ (w : Writing) × (h : Hit) × (s.current_write ≡ some w)
          × (resolve false (root o c children) (y ∷ ys) ≡ some h)
          × (address + 8 * h.index ≢ w.node)
          × (command ≡ cmd_error_invalid_sequence)
      → kowhai_server_process_packet pointer calls s packet
        ≡ some (ok, replied (record s { current_write = none }) command p.header.id)
  unfolding write_node error_command
  write-aborted o c children address y ys command e has_desc path (inl (nothing, k)) =
      let missing : kowhai_get_node (nodes_of t.desc) d.symbols
          ≡ some (failed invalid_symbol_path) =
        rw (has_desc, path)
          (kowhai_get_node-resolve o c children y ys ∙ ap (λ r. some (to_lookup 0 0 r)) nothing) in
      aborted invalid_symbol_path command e (sym k) (>>=-some _ missing)
  write-aborted o c children address y ys command e has_desc path
        (inr (w, h, current, found_at, other, k)) =
      let there : kowhai_get_node (nodes_of t.desc) d.symbols
          ≡ some (found (pos h.offset) h.index) =
        rw (has_desc, path) (get_node-hit o c children y ys found_at) in
      aborted invalid_sequence command e (sym k) (
        >>=-some _ there
        ∙ ap (λ desc. write_found calls s p d (node_address desc h.index) (pos h.offset)) has_desc
        ∙ other_node w (address + 8 * h.index) (pos h.offset) current other)

  module _ (o c : Tags) (children : Forest) (address : ℕ) (y : Symbol) (ys : List Symbol) {h : Hit}
      (found_at : resolve false (root o c children) (y ∷ ys) ≡ some h) where
    null_write :
        (offset : ℕ) (value : List ℕ)
        → 0 < length value
        → length value + offset ≤ first_size h.target
        → kowhai_write (whole o c children []) (y ∷ ys) (pos offset) value ≡ none
    unfolding store
    null_write offset value v k =
        let out : leb (h.offset + offset + length value) 0 ≡ false = ground arith in
        write-through o c children y ys found_at [] offset value k ∙ rw out refl

    null_continue :
        (s' : Server) (w : Writing)
        → get_tree_index s' p.header.id ≡ some (i, t)
        → t.bytes ≡ none
        → t.desc ≡ some (record { address = address; nodes = flatten (root o c children) [] })
        → d.symbols ≡ y ∷ ys
        → 0 < d.memory.size
        → d.memory.size ≤ length p.payload.buffer
        → d.memory.size + d.memory.offset ≤ first_size h.target
        → continue_write calls s' p d w ≡ none
    unfolding continue_write
    null_continue s' w there no_bytes has_desc path some_bytes has_buffer inside =
        let l : length (take d.memory.size p.payload.buffer) ≡ d.memory.size =
          omega (arith, length-take d.memory.size p.payload.buffer) in
        rw
          (
            populate_tree-known s' p.header.id {t = t} there defined,
            has_desc,
            no_bytes,
            path,
            null_write d.memory.offset (take d.memory.size p.payload.buffer) (omega arith)
                (omega arith),
          )
          refl

    -- A request to write at least one byte to a tree of the list that has no data, though it has a
    -- descriptor, whose root is a structure and in which the path leads somewhere and has the size for
    -- the write, stores through the null pointer, if it belongs to the current write sequence and the
    -- callbacks leave the trees alone.
    pub write-no_data :
        IsQuiet calls
        → request_of p.header.command ≡ write
        → t.bytes ≡ none
        → t.desc ≡ some (record { address = address; nodes = flatten (root o c children) [] })
        → d.symbols ≡ y ∷ ys
        → Follows (address + 8 * h.index) s.current_write
        → 0 < d.memory.size
        → d.memory.size ≤ length p.payload.buffer
        → d.memory.size + d.memory.offset ≤ first_size h.target
        → kowhai_server_process_packet pointer calls s packet ≡ none
    unfolding write_node write_found proceed
    write-no_data quiet e no_bytes has_desc path follows some_bytes has_buffer inside =
        let node = address + 8 * h.index in
        let there : kowhai_get_node (nodes_of t.desc) d.symbols
            ≡ some (found (pos h.offset) h.index) =
          rw (has_desc, path) (get_node-hit o c children y ys found_at) in
        process-handle pointer calls s packet p fits parsed write e
        ∙ ap (λ r. r >>= λ s'. some (ok, s'))
            (write-handled
              ∙ >>=-some _ there
              ∙ ap (λ desc. write_found calls s p d (node_address desc h.index) (pos h.offset))
                  has_desc
              ∙ ap (proceed calls p d)
                  (begin_write-begun calls s p.header.id node h.offset quiet follows)
              ∙ null_continue (begun s p.header.id node h.offset)
                  (sequence node h.offset s.current_write) known no_bytes has_desc path some_bytes
                  has_buffer inside)
