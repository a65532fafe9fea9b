-- ===== src/Server/Keeps/Sends.antt =====
-- Answers of teensy/usb_rawhid/kowhai/kowhai_protocol_server.c that change nothing but what was sent.
use beaverbot.Prelude.{ℕ, suc, Bool, Option, none, some, ◌>>=◌, List, [], ◌∷◌, map, refl, ℤ, drop}
use beaverbot.Kowhai.{Status, no_data, Symbol}
use beaverbot.Kowhai.Lookup.{found, failed, Lookup, kowhai_get_node}
use beaverbot.Kowhai.Size.{kowhai_get_node_size}
use beaverbot.Kowhai.{Node}
use beaverbot.Protocol.{Protocol, DataSpec, cmd_read_data_ack}
use beaverbot.Server.{
  ListId, Server, TreePointers, Effect, sent, emit, with_command, create_packet, max_payload, send,
  invalid_tree_id, populate_tree, check_tree_id, get_tree_index, tree_of,
}
use beaverbot.Server.Chunks.{
  send_chunks, send_all, send_id_list, send_string_list, id_list_protocol, string_list_protocol,
  get_string_list_size,
}
use beaverbot.Server.Write.{send_error}
use beaverbot.Server.Read.{
  read_node, read_tree, read_data, send_descriptor, last_symbol, natural_size, read_protocol,
  rest_size,
}
use beaverbot.Server.Keeps.{Keeps, Holds, chain, Holds-if, Keeps-changed}

sent-Keeps : (s : Server) (effects : List Effect) → Keeps s (emit s effects)
sent-Keeps s effects = Keeps-changed s s.tree_list s.current_write effects refl

pub send-Holds : (s : Server) (p : Protocol) → Holds s (send s p)
unfolding send
send-Holds s p =
    chain s (create_packet s.max_packet_size p) _ (λ packet e. sent-Keeps s (sent packet ∷ []))

pub invalid_tree_id-Holds : (s : Server) (p : Protocol) → Holds s (invalid_tree_id s p)
unfolding invalid_tree_id
invalid_tree_id-Holds s p = send-Holds s _

pub send_error-Holds :
    (s : Server) (p : Protocol) (status : Status) → Holds s (send_error s p status)
unfolding send_error
send_error-Holds s p status = send-Holds s _

pub send_all-Holds :
    (pointer : ℕ) (s : Server) (p : Protocol)
    (protocol : Bool → (offset size : ℕ) → Option Protocol) (size : ℕ)
    → Holds s (send_all pointer s p protocol size)
unfolding send_all
send_all-Holds pointer s p protocol size = chain s (max_payload pointer s p) _ λ room e.
    chain s (send_chunks s.max_packet_size room protocol (suc size) 0 size) _
      λ packets e'. sent-Keeps s (map sent packets)

pub send_id_list-Holds :
    (pointer : ℕ) (s : Server) (p : Protocol) (ack ack_end : ℕ) (ids : List ListId)
    → Holds s (send_id_list pointer s p ack ack_end ids)
unfolding send_id_list
send_id_list-Holds pointer s p ack ack_end ids =
    send_all-Holds pointer s (with_command p ack) (id_list_protocol p ack ack_end ids) _

pub send_string_list-Holds :
    (pointer : ℕ) (s : Server) (p : Protocol) (ack ack_end : ℕ) (strings : List (List ℕ))
    → Holds s (send_string_list pointer s p ack ack_end strings)
unfolding send_string_list
send_string_list-Holds pointer s p ack ack_end strings =
    chain s (max_payload pointer s (with_command p ack)) _ λ room e.
      send_all-Holds pointer s (with_command p ack)
        (string_list_protocol p ack ack_end strings room) (get_string_list_size strings)

read_node-Holds :
    (pointer : ℕ) (s : Server) (p : Protocol) (d : DataSpec) (tree : TreePointers) (target : ℕ)
    → Holds s (read_node pointer s p d tree target)
unfolding read_node
read_node-Holds pointer s p d tree target = chain s (last_symbol d.symbols) _ λ y e.
    chain s (kowhai_get_node_size (drop target (tree_of tree).desc)) _
      λ size e'. by_nodes size y (drop target (tree_of tree).desc)
  where
    by_nodes :
        (size : ℤ) (y : Symbol) (nodes : List Node)
        → Holds s (elim nodes [
          | [] ↦ none
          | n ∷ rest ↦ natural_size (rest_size size n y) >>= λ bytes.
              send_all pointer s
                (with_command p cmd_read_data_ack)
                (read_protocol p d tree n.type)
                bytes
        ])
    by_nodes size y [] = tt
    by_nodes size y (n ∷ rest) = chain s (natural_size (rest_size size n y)) _ λ bytes e.
        send_all-Holds pointer s (with_command p cmd_read_data_ack) (read_protocol p d tree n.type)
          bytes

pub read_data-Holds :
    (pointer : ℕ) (s : Server) (p : Protocol) (d : DataSpec) → Holds s (read_data pointer s p d)
unfolding read_data read_tree
read_data-Holds pointer s p d =
    Holds-if s (check_tree_id s p.header.id) _ _ (by_bytes (populate_tree s p.header.id))
      (invalid_tree_id-Holds s p)
  where
    by_node :
        (tree : TreePointers) (r : Lookup)
        → Holds s (elim r [
          | failed status ↦ send_error s p status
          | found offset target ↦ read_node pointer s p d tree target
        ])
    by_node tree (failed status) = send_error-Holds s p status
    by_node tree (found offset target) = read_node-Holds pointer s p d tree target

    by_bytes : (tree : TreePointers) → Holds s (read_tree pointer s p d tree)
    by_bytes tree = by_option tree.bytes
      where
        by_option :
            (o : Option (List ℕ))
            → Holds s (elim o [
              | none ↦ send_error s p no_data
              | some bytes ↦ kowhai_get_node (tree_of tree).desc d.symbols >>= λ r. elim r [
                | failed status ↦ send_error s p status
                | found offset target ↦ read_node pointer s p d tree target
              ]
            ])
        by_option none = send_error-Holds s p no_data
        by_option (some bytes) =
            chain s (kowhai_get_node (tree_of tree).desc d.symbols) _ λ r e. by_node tree r

pub send_descriptor-Holds :
    (pointer : ℕ) (s : Server) (p : Protocol) → Holds s (send_descriptor pointer s p)
unfolding send_descriptor
send_descriptor-Holds pointer s p =
    Holds-if s (check_tree_id s p.header.id) _ _
      (chain s (get_tree_index s p.header.id) _ λ r e. send_all-Holds pointer s _ _ _)
      (invalid_tree_id-Holds s p)
