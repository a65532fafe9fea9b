-- ===== src/Server/Process/Invariant.antt =====
-- What every call of `kowhai_server_process_packet` of
-- teensy/usb_rawhid/kowhai/kowhai_protocol_server.c keeps, and sequences of calls.
use beaverbot.Prelude.{
  ℕ, ◌≡◌, ltb, Option, none, some, ◌>>=◌, >>=-eq-some, List, [], ◌∷◌, length, refl, Bool-cases, inl,
  inr,
}
use beaverbot.Kowhai.{Status, ok, invalid_protocol_command, packet_buffer_too_big}
use beaverbot.Protocol.{Protocol, Spec, cleared, DataSpec, FunctionCall, data_spec, function_call}
use beaverbot.Server.{Server, Callbacks}
use beaverbot.Server.Keeps.{Keeps, IsKeeping, Holds, Keeps-trans, Keeps-quietly}
use beaverbot.Server.Keeps.Sends.{
  send-Holds, send_id_list-Holds, send_string_list-Holds, read_data-Holds, send_descriptor-Holds,
}
use beaverbot.Server.Keeps.Writes.{write_data-Holds}
use beaverbot.Server.Keeps.Calls.{get_function_details-Holds, call_function-Holds}
use beaverbot.Server.Process.{
  Request, request_of, handle, with_data, with_call, refuse, accept, process_parsed,
  kowhai_server_process_packet, get_version, get_tree_list, write, read, get_descriptor,
  get_function_list, get_details, call, get_symbol_list, other,
}
use mathlib.Core.Path.{subst}
use mathlib.Core.Option.{some-injective}

with_data-Holds :
    (s : Server) (spec : Spec) (k : DataSpec → Option Server)
    → ((d : DataSpec) → Holds s (k d))
    → Holds s (with_data spec k)
unfolding with_data
with_data-Holds s (data_spec d) k h = h d
with_data-Holds s cleared k h = tt
with_data-Holds s _ k h = tt

with_call-Holds :
    (s : Server) (spec : Spec) (k : FunctionCall → Option Server)
    → ((c : FunctionCall) → Holds s (k c))
    → Holds s (with_call spec k)
unfolding with_call
with_call-Holds s (function_call c) k h = h c
with_call-Holds s cleared k h = tt
with_call-Holds s _ k h = tt

module _ (pointer : ℕ) (calls : Callbacks) (keeping : IsKeeping calls) where
  handle-Holds : (s : Server) (p : Protocol) (r : Request) → Holds s (handle pointer calls s p r)
  unfolding handle
  handle-Holds s p get_version = send-Holds s _
  handle-Holds s p get_tree_list = send_id_list-Holds pointer s p _ _ s.tree_id_list
  handle-Holds s p write =
      with_data-Holds s p.payload.spec _ λ d. write_data-Holds calls keeping p d s
  handle-Holds s p read = with_data-Holds s p.payload.spec _ λ d. read_data-Holds pointer s p d
  handle-Holds s p get_descriptor = send_descriptor-Holds pointer s p
  handle-Holds s p get_function_list = send_id_list-Holds pointer s p _ _ s.function_id_list
  handle-Holds s p get_details = get_function_details-Holds s p
  handle-Holds s p call =
      with_call-Holds s p.payload.spec _ λ c. call_function-Holds pointer calls keeping p s c
  handle-Holds s p get_symbol_list = send_string_list-Holds pointer s p _ _ s.symbol_list
  handle-Holds s p other = send-Holds s _

  -- The same of a call that returns a status too.
  abbrev Ends : Server → Option (Status × Server) → Type 0
  Ends s none = Unit
  Ends s (some r) = Keeps s r.1

  Holds-Ends :
      (s : Server) (status : Status) (r : Option Server)
      → Holds s r
      → Ends s (r >>= λ s'. some (status, s'))
  Holds-Ends s status none h = tt
  Holds-Ends s status (some s') h = h

  accept-Ends : (s : Server) (p : Protocol) → Ends s (accept pointer calls s p)
  unfolding accept
  accept-Ends s p = Holds-Ends s ok _ (handle-Holds s p (request_of p.header.command))

  process_parsed-Ends :
      (s : Server) (status : Status) (p : Protocol)
      → Ends s (process_parsed pointer calls s status p)
  unfolding process_parsed refuse
  process_parsed-Ends s ok p = accept-Ends s p
  process_parsed-Ends s invalid_protocol_command p = accept-Ends s p
  process_parsed-Ends s packet_buffer_too_big p =
      Holds-Ends s packet_buffer_too_big _ (send-Holds s _)
  process_parsed-Ends s status p = Holds-Ends s status _ (send-Holds s _)

  process-Ends :
      (s : Server) (packet : List ℕ) → Ends s (kowhai_server_process_packet pointer calls s packet)
  unfolding kowhai_server_process_packet
  process-Ends s packet = elim (Bool-cases (ltb s.max_packet_size (length packet))) [
    | inl big ↦ rw big (Keeps-quietly s s.tree_list s.current_write refl)
    | inr fits ↦ rw fits (process_parsed-Ends s _ _)
  ]

  -- Whatever the bytes of a packet, if the call comes to an end, then the packet size, the lists of ids,
  -- of functions and of symbols, and the trees' ids, descriptors, descriptor sizes and numbers of bytes
  -- are as before, and what was done before is still the start of the log. The callbacks are to keep
  -- as much of the trees.
  pub process-Keeps :
      (s s' : Server) (packet : List ℕ) {status : Status}
      → kowhai_server_process_packet pointer calls s packet ≡ some (status, s')
      → Keeps s s'
  process-Keeps s s' packet e = subst (Ends s) e (process-Ends s packet)

  -- Packets, one after the other.
  unfoldable pub process_all : Server → List (List ℕ) → Option Server
  process_all s [] = some s
  process_all s (packet ∷ packets) = do
    (status, s') ← kowhai_server_process_packet pointer calls s packet
    process_all s' packets

  pub process_all-Keeps :
      (s s' : Server) (packets : List (List ℕ)) → process_all s packets ≡ some s' → Keeps s s'
  unfolding process_all
  process_all-Keeps s s' [] e =
      subst (Keeps s) (some-injective _ _ e) (Keeps-quietly s s.tree_list s.current_write refl)
  process_all-Keeps s s' (packet ∷ packets) e =
      let ((status, s''), first, rest) =
        >>=-eq-some (kowhai_server_process_packet pointer calls s packet) _ e in
      Keeps-trans (process-Keeps s s'' packet first) (process_all-Keeps s'' s' packets rest)
