-- ===== src/Server/Process/Answers.antt =====
-- Requests that `kowhai_server_process_packet` of
-- teensy/usb_rawhid/kowhai/kowhai_protocol_server.c answers with data.
use beaverbot.Prelude.{
  ℕ, ◌*◌, ◌≤◌, ◌<◌, ◌≡◌, ◌≢◌, false, ltb, some, ◌>>=◌, List, [], ◌∷◌, length, arith, refl, ap, ◌∙◌,
  sym,
}
use beaverbot.Kowhai.{Symbol, ok}
use beaverbot.Kowhai.Forest.{Tags, Forest, extent, flatten}
use beaverbot.Kowhai.Resolve.{Hit, resolve}
use beaverbot.Kowhai.Resolve.Root.{root}
use beaverbot.Protocol.{
  Protocol, DataSpec, Memory, layout_of, data_spec, cmd_get_tree_list, cmd_get_tree_list_ack,
  cmd_get_tree_list_ack_end, cmd_get_function_list, cmd_get_function_list_ack,
  cmd_get_function_list_ack_end, cmd_get_symbol_list, cmd_get_symbol_list_ack,
  cmd_get_symbol_list_ack_end, cmd_read_data, cmd_read_data_ack, cmd_read_data_ack_end,
  cmd_read_descriptor, cmd_read_descriptor_ack, cmd_read_descriptor_ack_end,
}
use beaverbot.Protocol.Parse.{kowhai_protocol_parse}
use beaverbot.Protocol.Sound.{IsWord, IsPath}
use beaverbot.Server.{
  Server, Callbacks, TreeItem, Descriptor, get_tree_index, kow_undefined_symbol, with_command,
}
use beaverbot.Server.Chunks.{id_bytes, send_all}
use beaverbot.Server.Chunks.Strings.{string_bytes}
use beaverbot.Server.Chunks.Delivered.{IsAnswered, IsDelivered, delivered-IsAnswered}
use beaverbot.Server.Chunks.Answers.{id_list-IsDelivered}
use beaverbot.Server.Chunks.Lists.{string_list-IsDelivered}
use beaverbot.Server.Read.{read_data, send_descriptor, nodes_bytes, descriptor_protocol, read_tree}
use beaverbot.Server.Read.Reads.{picked}
use beaverbot.Server.Read.Delivered.{asked, data_overhead, read_tree-IsDelivered}
use beaverbot.Server.Read.Descriptors.{descriptor-IsDelivered, length-nodes_bytes}
use beaverbot.Server.Process.{
  Request, request_of, handle, kowhai_server_process_packet, process_parsed, accept, get_tree_list,
  get_function_list, get_symbol_list, read, get_descriptor, with_data,
}
use beaverbot.Server.Trees.{check_tree_id-known, populate_tree-known}

module _ (pointer : ℕ) (calls : Callbacks) (s : Server) (packet : List ℕ) (p : Protocol)
    (fits : length packet ≤ s.max_packet_size)
    (parsed : kowhai_protocol_parse packet ≡ (ok, p)) where
  -- A parsed packet goes to the handler of its command.
  pub process-handle :
      (r : Request)
      → request_of p.header.command ≡ r
      → kowhai_server_process_packet pointer calls s packet
        ≡ (handle pointer calls s p r >>= λ s'. some (ok, s'))
  unfolding kowhai_server_process_packet process_parsed accept
  process-handle r e =
      let t : ltb s.max_packet_size (length packet) ≡ false = ground arith in rw (t, parsed, e) refl

  pub handled-IsAnswered :
      (r : Request) (id ack ack_end : ℕ) (all : List ℕ)
      → request_of p.header.command ≡ r
      → IsDelivered s id ack ack_end all (handle pointer calls s p r)
      → IsAnswered s id ack ack_end all (kowhai_server_process_packet pointer calls s packet)
  handled-IsAnswered r id ack ack_end all e d =
      rw (process-handle r e) (delivered-IsAnswered s id ack ack_end all _ d)

  send_descriptor-send_all :
      {i : ℕ} (t : TreeItem) (d : Descriptor)
      → get_tree_index s p.header.id ≡ some (i, t)
      → p.header.id ≢ kow_undefined_symbol
      → t.desc ≡ some d
      → t.descriptor_size ≡ length (nodes_bytes d.nodes)
      → send_descriptor pointer s p
        ≡ send_all pointer s
            (with_command p cmd_read_descriptor_ack)
            (descriptor_protocol p (length (nodes_bytes d.nodes)) d.nodes)
            (length (nodes_bytes d.nodes))
  unfolding send_descriptor
  send_descriptor-send_all t d known n some_desc size =
      rw
        (
          check_tree_id-known s p.header.id known,
          known,
          populate_tree-known s p.header.id known n,
          some_desc,
          size,
        )
        refl

  read_data-read_tree :
      {i : ℕ} (t : TreeItem) (d : DataSpec)
      → get_tree_index s p.header.id ≡ some (i, t)
      → p.header.id ≢ kow_undefined_symbol
      → read_data pointer s p d
        ≡ read_tree pointer s p d (record { desc = t.desc; bytes = t.bytes })
  unfolding read_data
  read_data-read_tree t d known n =
      rw (check_tree_id-known s p.header.id known, populate_tree-known s p.header.id known n) refl

  pub read-handled :
      (d : DataSpec) {i : ℕ} (t : TreeItem)
      → p.payload.spec ≡ data_spec d
      → get_tree_index s p.header.id ≡ some (i, t)
      → p.header.id ≢ kow_undefined_symbol
      → handle pointer calls s p read
        ≡ read_tree pointer s p d (record { desc = t.desc; bytes = t.bytes })
  unfolding handle with_data
  read-handled d t carries known n =
      ap (λ spec. with_data spec (λ d'. read_data pointer s p d')) carries
      ∙ read_data-read_tree t d known n

  module _ (word : IsWord p.header.id) where
    pub tree_list-IsAnswered :
        p.header.command ≡ cmd_get_tree_list
        → 9 < s.max_packet_size
        → length s.tree_id_list * 4 < 65536
        → IsAnswered s p.header.id cmd_get_tree_list_ack cmd_get_tree_list_ack_end
            (id_bytes s.tree_id_list)
            (kowhai_server_process_packet pointer calls s packet)
    unfolding request_of layout_of handle
    tree_list-IsAnswered e h small =
        handled-IsAnswered get_tree_list p.header.id cmd_get_tree_list_ack cmd_get_tree_list_ack_end
          (id_bytes s.tree_id_list) (ap request_of e)
          (id_list-IsDelivered pointer s p s.tree_id_list word small cmd_get_tree_list_ack
            cmd_get_tree_list_ack_end refl refl (omega arith) (omega arith) h)

    pub function_list-IsAnswered :
        p.header.command ≡ cmd_get_function_list
        → 9 < s.max_packet_size
        → length s.function_id_list * 4 < 65536
        → IsAnswered s p.header.id cmd_get_function_list_ack cmd_get_function_list_ack_end
            (id_bytes s.function_id_list)
            (kowhai_server_process_packet pointer calls s packet)
    unfolding request_of layout_of handle
    function_list-IsAnswered e h small =
        handled-IsAnswered get_function_list p.header.id cmd_get_function_list_ack
          cmd_get_function_list_ack_end (id_bytes s.function_id_list) (ap request_of e)
          (id_list-IsDelivered pointer s p s.function_id_list word small cmd_get_function_list_ack
            cmd_get_function_list_ack_end refl refl (omega arith) (omega arith) h)

    -- A request for the symbols is answered with all of them, one after the other and each with its zero
    -- byte, under the request's id, if these are fewer than 65536 bytes and packets can have more than
    -- the thirteen bytes of overhead.
    pub symbol_list-IsAnswered :
        p.header.command ≡ cmd_get_symbol_list
        → 13 < s.max_packet_size
        → length (string_bytes s.symbol_list) < 65536
        → IsAnswered s p.header.id cmd_get_symbol_list_ack cmd_get_symbol_list_ack_end
            (string_bytes s.symbol_list)
            (kowhai_server_process_packet pointer calls s packet)
    unfolding request_of layout_of handle
    symbol_list-IsAnswered e h small =
        handled-IsAnswered get_symbol_list p.header.id cmd_get_symbol_list_ack
          cmd_get_symbol_list_ack_end (string_bytes s.symbol_list) (ap request_of e)
          (string_list-IsDelivered pointer s p s.symbol_list word small cmd_get_symbol_list_ack
            cmd_get_symbol_list_ack_end refl refl (omega arith) (omega arith) h)

    -- A request for a tree's descriptor is answered with the bytes of its nodes, under the tree's id, if
    -- the tree is in the list, its descriptor's size is that of its nodes and below 65536, and packets
    -- can have more than the nine bytes of overhead.
    pub descriptor-IsAnswered :
        p.header.command ≡ cmd_read_descriptor
        → 9 < s.max_packet_size
        → {i : ℕ} (t : TreeItem) (d : Descriptor) → get_tree_index s p.header.id ≡ some (i, t)
        → p.header.id ≢ kow_undefined_symbol
        → t.desc ≡ some d
        → t.descriptor_size ≡ 8 * length d.nodes
        → 8 * length d.nodes < 65536
        → IsAnswered s p.header.id cmd_read_descriptor_ack cmd_read_descriptor_ack_end
            (nodes_bytes d.nodes)
            (kowhai_server_process_packet pointer calls s packet)
    unfolding request_of handle
    descriptor-IsAnswered e h t d known n some_desc size small =
        handled-IsAnswered get_descriptor p.header.id cmd_read_descriptor_ack
          cmd_read_descriptor_ack_end (nodes_bytes d.nodes) (ap request_of e)
          (rw
            (send_descriptor-send_all t d known n some_desc
              (size ∙ sym (length-nodes_bytes d.nodes)))
            (descriptor-IsDelivered pointer s p d.nodes word small h))

    -- A request to read at a path that leads somewhere, in a tree of the list whose root is a structure
    -- and whose bytes are all there, is answered, under the tree's id, with the bytes from the element
    -- that the path picks to the end of its array, if these are fewer than 65536, the request is a
    -- packet's, and packets can have more bytes than the overhead.
    pub read-IsAnswered :
        (o c : Tags) (children : Forest) (address : ℕ) (bytes : List ℕ) (y : Symbol)
        (ys : List Symbol) {h : Hit} (m : Memory) {i : ℕ} (t : TreeItem)
        (found_at : resolve false (root o c children) (y ∷ ys) ≡ some h)
        (there : extent false 0 (root o c children) ≤ length bytes)
        → p.header.command ≡ cmd_read_data
        → p.payload.spec ≡ data_spec (asked y ys m)
        → IsPath (asked y ys m)
        → get_tree_index s p.header.id ≡ some (i, t)
        → p.header.id ≢ kow_undefined_symbol
        → t.desc ≡ some (record { address = address; nodes = flatten (root o c children) [] })
        → t.bytes ≡ some bytes
        → length (picked o c children address bytes y ys found_at there) < 65536
        → data_overhead pointer (y ∷ ys) < s.max_packet_size
        → IsAnswered s p.header.id cmd_read_data_ack cmd_read_data_ack_end
            (picked o c children address bytes y ys found_at there)
            (kowhai_server_process_packet pointer calls s packet)
    unfolding request_of
    read-IsAnswered o c children address bytes y ys m t found_at there e carries path known n
          has_desc has_bytes small room =
        handled-IsAnswered read p.header.id cmd_read_data_ack cmd_read_data_ack_end
          (picked o c children address bytes y ys found_at there) (ap request_of e)
          (rw (read-handled (asked y ys m) t carries known n, has_desc, has_bytes)
            (read_tree-IsDelivered pointer s p o c children address bytes y ys found_at there m
              carries path word small room))
