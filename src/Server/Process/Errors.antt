-- ===== src/Server/Process/Errors.antt =====
-- What `kowhai_server_process_packet` of teensy/usb_rawhid/kowhai/kowhai_protocol_server.c answers with
-- an error.
use beaverbot.Prelude.{
  ℕ, ◌≤◌, ◌≡◌, ◌≢◌, ◌⊎◌, inl, inr, false, ltb, some, >>=-some, List, [], ◌∷◌, length, arith, refl,
  ap, ◌∙◌, All, ◌==◌,
}
use beaverbot.Kowhai.{Status, ok, invalid_protocol_command, invalid_symbol_path}
use beaverbot.Protocol.{
  Header, Protocol, DataSpec, layout_of, data_spec, unknown, cmd_error_invalid_command,
  cmd_error_invalid_tree_id, cmd_get_version, cmd_get_tree_list, cmd_write_data, cmd_write_data_end,
  cmd_read_data, cmd_read_descriptor, cmd_get_function_list, cmd_get_function_details,
  cmd_call_function, cmd_get_symbol_list, cmd_get_tree_list_ack_end,
}
use beaverbot.Protocol.Create.{header_bytes, kowhai_protocol_create, create_payload}
use beaverbot.Protocol.Parse.{kowhai_protocol_parse}
use beaverbot.Protocol.Written.{put-made, length-header_bytes}
use beaverbot.Server.{
  Server, Callbacks, sent, emit, with_command, create_packet, send, invalid_tree_id, check_tree_id,
  TreeItem, has_tree,
}
use beaverbot.Server.Write.{write_data}
use beaverbot.Server.Read.{read_data, send_descriptor}
use beaverbot.Server.Process.{
  Request, request_of, handle, with_data, kowhai_server_process_packet, process_parsed, refuse,
  accept, other, read, write, get_descriptor,
}
use beaverbot.Server.Process.Answers.{process-handle}

-- A packet of a header only.
abbrev pub error_packet : (command id : ℕ) → List ℕ
error_packet command id = header_bytes (record { command = command; id = id })

-- One packet is sent, and nothing else is done.
abbrev pub replied : Server → (command id : ℕ) → Server
replied s command id = emit s (sent (error_packet command id) ∷ [])

create-error :
    (size : ℕ) (p : Protocol) (command : ℕ)
    → layout_of command ≡ unknown
    → 3 ≤ size
    → create_packet size (with_command p command) ≡ some (error_packet command p.header.id)
unfolding create_packet kowhai_protocol_create create_payload
create-error size p command k h =
    let h' : Header = record { command = command; id = p.header.id } in
    let l = length-header_bytes h' in
    let w = put-made size 3 (header_bytes h') [] l (omega arith) in
    rw (w, k, create_payload) (ground arith)

pub send-error :
    (s : Server) (p : Protocol) (command : ℕ)
    → layout_of command ≡ unknown
    → 3 ≤ s.max_packet_size
    → send s (with_command p command) ≡ some (replied s command p.header.id)
unfolding send
send-error s p command k h = >>=-some _ (create-error s.max_packet_size p command k h)

-- The commands by which a host asks for something, as kowhai_protocol.h lists them, each without its
-- acknowledgements.
abbrev pub requests : List ℕ
requests =
    cmd_get_version ∷ cmd_get_tree_list ∷ cmd_write_data ∷ cmd_write_data_end ∷ cmd_read_data
    ∷ cmd_read_descriptor ∷ cmd_get_function_list ∷ cmd_get_function_details ∷ cmd_call_function
    ∷ cmd_get_symbol_list ∷ []

-- None of these, and not the acknowledgement KOW_CMD_GET_TREE_LIST_ACK_END, which the server takes for
-- a request.
abbrev pub IsNoRequest : ℕ → Type 0
IsNoRequest c = All (λ x. c ≢ x) (cmd_get_tree_list_ack_end ∷ requests)

request_of-other : (c : ℕ) → IsNoRequest c → request_of c ≡ other
unfolding request_of
request_of-other c h = ground arith

-- No tree of the list has the id.
abbrev pub IsUnlisted : ℕ → List TreeItem → Type 0
IsUnlisted id ts = All (λ t. t.list_id.id ≢ id) ts

has_tree-IsUnlisted : (id : ℕ) (ts : List TreeItem) → IsUnlisted id ts → has_tree ts id ≡ false
has_tree-IsUnlisted id [] h = refl
has_tree-IsUnlisted id (t ∷ ts) (n, h) =
    let e : (t.list_id.id == id) ≡ false = ground arith in rw e (has_tree-IsUnlisted id ts h)

check_tree_id-IsUnlisted :
    (s : Server) (id : ℕ) → IsUnlisted id s.tree_list → check_tree_id s id ≡ false
unfolding check_tree_id
check_tree_id-IsUnlisted s id h = has_tree-IsUnlisted id s.tree_list h

-- The two commands to write.
abbrev pub IsWrite : ℕ → Type 0
IsWrite c = (c ≡ cmd_write_data) ⊎ (c ≡ cmd_write_data_end)

pub request_of-IsWrite : (c : ℕ) → IsWrite c → request_of c ≡ write
unfolding request_of
request_of-IsWrite c (inl e) = rw e refl
request_of-IsWrite c (inr e) = rw e refl

module _ (pointer : ℕ) (calls : Callbacks) (s : Server) (packet : List ℕ) (p : Protocol)
    (fits : length packet ≤ s.max_packet_size) (room : 3 ≤ s.max_packet_size) where
  refuse-replied :
      (status : Status)
      → status ≢ ok
      → status ≢ invalid_protocol_command
      → process_parsed pointer calls s status p
        ≡ some (status, replied s cmd_error_invalid_command p.header.id)
  unfolding process_parsed refuse layout_of
  refuse-replied ok n m = absurd (n refl)
  refuse-replied invalid_protocol_command n m = absurd (m refl)
  refuse-replied invalid_symbol_path n m =
      >>=-some _ (send-error s p cmd_error_invalid_command refl room)
  refuse-replied _ n m = >>=-some _ (send-error s p cmd_error_invalid_command refl room)

  accept-replied :
      IsNoRequest p.header.command
      → accept pointer calls s p ≡ some (ok, replied s cmd_error_invalid_command p.header.id)
  unfolding accept handle layout_of
  accept-replied e =
      rw (request_of-other p.header.command e)
        (>>=-some _ (send-error s p cmd_error_invalid_command refl room))

  -- A packet within the size limit that is not parsed, for another reason than its command, is answered
  -- with one invalid command error under the id that was read, and its status is returned. A command
  -- that is none of the ten requests of kowhai_protocol.h gets the same answer, whether it is known to
  -- the parse or not, and KOW_STATUS_OK is returned; the acknowledgement KOW_CMD_GET_TREE_LIST_ACK_END
  -- is left out, since the server takes it for a request. Nothing else is done in both cases.
  pub bad_packet-replied :
      (status answer : Status)
      → kowhai_protocol_parse packet ≡ (status, p)
      → ((status ≢ ok) × (status ≢ invalid_protocol_command) × (answer ≡ status))
        ⊎ ((status ≡ ok) ⊎ (status ≡ invalid_protocol_command))
          × IsNoRequest p.header.command
          × (answer ≡ ok)
      → kowhai_server_process_packet pointer calls s packet
        ≡ some (answer, replied s cmd_error_invalid_command p.header.id)
  unfolding kowhai_server_process_packet process_parsed
  bad_packet-replied status answer parsed (inl (n, m, e)) =
      let t : ltb s.max_packet_size (length packet) ≡ false = ground arith in
      rw (t, parsed, e) (refuse-replied status n m)
  bad_packet-replied status answer parsed (inr (inl k, r, e)) =
      let t : ltb s.max_packet_size (length packet) ≡ false = ground arith in
      rw (t, parsed, k, e) (accept-replied r)
  bad_packet-replied status answer parsed (inr (inr k, r, e)) =
      let t : ltb s.max_packet_size (length packet) ≡ false = ground arith in
      rw (t, parsed, k, e) (accept-replied r)

  module _ (parsed : kowhai_protocol_parse packet ≡ (ok, p)) where
    pub handled-replied :
        (r : Request) (command : ℕ)
        → request_of p.header.command ≡ r
        → handle pointer calls s p r ≡ some (replied s command p.header.id)
        → kowhai_server_process_packet pointer calls s packet
          ≡ some (ok, replied s command p.header.id)
    handled-replied r command e d =
        process-handle pointer calls s packet p fits parsed r e ∙ >>=-some _ d

    invalid_tree_id-replied :
        invalid_tree_id s p ≡ some (replied s cmd_error_invalid_tree_id p.header.id)
    unfolding invalid_tree_id layout_of
    invalid_tree_id-replied = send-error s p cmd_error_invalid_tree_id refl room

    no_tree : IsUnlisted p.header.id s.tree_list → check_tree_id s p.header.id ≡ false
    no_tree = check_tree_id-IsUnlisted s p.header.id

    -- A request to write, to read or for a descriptor whose id is that of no tree of the list is answered
    -- with one invalid tree id error, and nothing else is done.
    pub unknown_tree-replied :
        (d : DataSpec)
        → IsUnlisted p.header.id s.tree_list
        → ((p.header.command ≡ cmd_read_descriptor)
            ⊎ (p.payload.spec ≡ data_spec d)
              × (IsWrite p.header.command ⊎ (p.header.command ≡ cmd_read_data)))
        → kowhai_server_process_packet pointer calls s packet
          ≡ some (ok, replied s cmd_error_invalid_tree_id p.header.id)
    unfolding handle write_data read_data send_descriptor with_data request_of
    unknown_tree-replied d unlisted (inl e) =
        handled-replied get_descriptor cmd_error_invalid_tree_id (ap request_of e)
          (rw (no_tree unlisted) invalid_tree_id-replied)
    unknown_tree-replied d unlisted (inr (carries, inl e)) =
        handled-replied write cmd_error_invalid_tree_id (request_of-IsWrite p.header.command e) (
          ap (λ spec. with_data spec (λ d'. write_data calls s p d')) carries
          ∙ rw (no_tree unlisted) invalid_tree_id-replied)
    unknown_tree-replied d unlisted (inr (carries, inr e)) =
        handled-replied read cmd_error_invalid_tree_id (ap request_of e) (
          ap (λ spec. with_data spec (λ d'. read_data pointer s p d')) carries
          ∙ rw (no_tree unlisted) invalid_tree_id-replied)
