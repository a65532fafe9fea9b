-- ===== src/Server/Process/Calls.antt =====
-- Function calls that `kowhai_server_process_packet` of
-- teensy/usb_rawhid/kowhai/kowhai_protocol_server.c carries out.
use beaverbot.Prelude.{
  ℕ, ◌+◌, ◌≤◌, ◌<◌, ◌≡◌, ◌≢◌, ◌==◌, true, false, if◌then◌else◌, ltb, ltb_ℤ, some, >>=-some, pos,
  List, [], ◌∷◌, length, take, arith, refl, ap, ◌∙◌, inl, inr, Bool-cases, length-take, sym,
}
use beaverbot.Kowhai.{ok}
use beaverbot.Kowhai.Size.{kowhai_get_node_size}
use beaverbot.Kowhai.Access.{store}
use beaverbot.Protocol.{
  Protocol, FunctionCall, layout_of, function_call, cmd_call_function_result,
  cmd_call_function_result_end, cmd_error_invalid_payload_offset, cmd_error_invalid_payload_size,
  cmd_call_function_ack,
}
use beaverbot.Protocol.Parse.{kowhai_protocol_parse}
use beaverbot.Protocol.Sound.{IsWord, sound_call}
use beaverbot.Protocol.Overhead.{kowhai_protocol_get_overhead}
use beaverbot.Server.{
  Server, Callbacks, Descriptor, TreeItem, FunctionItem, get_tree_index, get_function_index,
  populate_tree, kow_undefined_symbol, set_bytes, bytes_of, send, sent, called, emit,
}
use beaverbot.Server.Trees.{check_tree_id-known, populate_tree-known}
use beaverbot.Server.Call.{
  call_function, write_arguments, run_function, send_result, call_answer, data_size, is_complete,
  call_found, answer_call, finish_call,
}
use beaverbot.Server.Chunks.Received.{piece}
use beaverbot.Server.Chunks.Delivered.{sound-IsSent, IsAnswered, delivered-IsAnswered}
use beaverbot.Server.Process.{request_of, handle, with_call, kowhai_server_process_packet, call}
use beaverbot.Server.Process.Errors.{replied, send-error, handled-replied}
use beaverbot.Kowhai.Access.Bytes.{Replaced, store-Replaced}
use mathlib.Core.Path.{subst}
use mathlib.Core.Option.{some-injective}
use beaverbot.Server.Process.Answers.{process-handle}
use beaverbot.Server.Call.Results.{result-IsDelivered, stored_arguments}

module _ (pointer : ℕ) (calls : Callbacks) (s : Server) (packet : List ℕ) (p : Protocol)
    (fits : length packet ≤ s.max_packet_size) (parsed : kowhai_protocol_parse packet ≡ (ok, p))
    (e : request_of p.header.command ≡ call) (c : FunctionCall)
    (carries : p.payload.spec ≡ function_call c) where
  call-handled : handle pointer calls s p call ≡ call_function pointer calls s p c
  unfolding handle with_call
  call-handled = ap (λ spec. with_call spec (λ c'. call_function pointer calls s p c')) carries

  module _ (f : FunctionItem) (known : get_function_index s p.header.id ≡ some f) {i : ℕ}
      (t : TreeItem) (d : Descriptor) (n : ℕ) (bytes : List ℕ)
      (takes : get_tree_index s f.details.tree_in_id ≡ some (i, t))
      (defined : f.details.tree_in_id ≢ kow_undefined_symbol) (has_desc : t.desc ≡ some d)
      (has_bytes : t.bytes ≡ some bytes) (size : kowhai_get_node_size d.nodes ≡ some (pos n)) where
    arguments : populate_tree s f.details.tree_in_id ≡ record { desc = some d; bytes = some bytes }
    arguments =
        rw (populate_tree-known s f.details.tree_in_id {t = t} takes defined, has_desc, has_bytes)
          refl

    call-write_arguments :
        call_function pointer calls s p c ≡ write_arguments pointer calls s p c f (pos n)
    unfolding call_function call_found
    call-write_arguments =
        let other : (f.details.tree_in_id == kow_undefined_symbol) ≡ false = ground arith in
        ap (call_found pointer calls s p c) known
        ∙ rw (other, check_tree_id-known s f.details.tree_in_id takes)
            (>>=-some _ (ap (λ r. data_size r.desc) arguments ∙ size))

    -- A call whose arguments would end behind their tree is answered with an error, and nothing else is
    -- done: an invalid offset if they start behind its end already, and an invalid size otherwise.
    pub call-refused :
        3 ≤ s.max_packet_size
        → n < c.offset + c.size
        → kowhai_server_process_packet pointer calls s packet
          ≡ some (
            ok,
            replied s
                (if ltb n c.offset
                  then cmd_error_invalid_payload_offset
                  else cmd_error_invalid_payload_size)
                p.header.id,
          )
    unfolding write_arguments layout_of
    call-refused room h = handled-replied pointer calls s packet p fits room parsed call _ e (
        call-handled ∙ call-write_arguments ∙ elim (Bool-cases (ltb n c.offset)) [
          | inl behind ↦
              let a : ltb_ℤ (pos n) (pos c.offset) ≡ true = ground arith in
              rw (behind, a, write_arguments)
                (send-error s p cmd_error_invalid_payload_offset refl room)
          | inr before ↦
              let a : ltb_ℤ (pos n) (pos c.offset) ≡ false = ground arith in
              let b : ltb_ℤ (pos n) (pos (c.offset + c.size)) ≡ true = ground arith in
              rw (before, a, write_arguments, b)
                (send-error s p cmd_error_invalid_payload_size refl room)
        ])

    abbrev value : List ℕ
    value = take c.size p.payload.buffer

    -- With the arguments in their tree.
    abbrev pub stored : (after : List ℕ) → Server
    stored after = record s { tree_list = set_bytes f.details.tree_in_id after s.tree_list }

    write_arguments-stored :
        (after : List ℕ)
        → 0 < length value
        → c.offset + c.size ≤ n
        → store bytes (pos c.offset) value ≡ some after
        → write_arguments pointer calls s p c f (pos n) ≡ (
            if is_complete c (pos n)
            then run_function pointer calls (stored after) p f
            else send (stored after) (call_answer p cmd_call_function_ack))
    unfolding write_arguments
    write_arguments-stored after some_bytes h k =
        let a : ltb_ℤ (pos n) (pos c.offset) ≡ false = ground arith in
        let b : ltb_ℤ (pos n) (pos (c.offset + c.size)) ≡ false = ground arith in
        rw (a, write_arguments, b)
          (>>=-some _ (
            stored_arguments s f.details.tree_in_id c.offset value some_bytes
              (ap (λ r. store (bytes_of r.bytes) (pos c.offset) value) arguments ∙ k)))

    length-value : c.size ≤ length p.payload.buffer → length value ≡ c.size
    length-value h = omega (arith, length-take c.size p.payload.buffer)

    -- Part of a function's arguments, which does not end where they end, is put into their tree, at its
    -- offset and with all other bytes as before; it is acknowledged with one packet under the function's
    -- id, and the function is not called. The part is not empty, the packet carries it, the tree has
    -- all its bytes, and packets can have seven bytes.
    pub call-partial :
        IsWord p.header.id
        → 7 ≤ s.max_packet_size
        → n ≤ length bytes
        → 0 < c.size
        → c.size ≤ length p.payload.buffer
        → c.offset + c.size < n
        → (after : List ℕ) × (answer : List ℕ) × Replaced c.offset value bytes after
          × (kowhai_server_process_packet pointer calls s packet
              ≡ some (ok, emit (stored after) (sent answer ∷ [])))
          × (piece answer
              ≡ some (record {
                command = cmd_call_function_ack;
                id = p.header.id;
                offset = 0;
                bytes = [];
              }))
    unfolding layout_of kowhai_protocol_get_overhead send
    call-partial word room whole some_bytes has_buffer short =
        let l = length-value has_buffer in
        let (after, k, replaced) = store-Replaced bytes c.offset value (omega arith) in
        let answer =
          sound-IsSent pointer s.max_packet_size (call_answer p cmd_call_function_ack) {n = 7}
            (omega arith) word (sound_call _ _ (omega arith) (omega arith) refl) (omega arith) refl
            room in
        let partial : is_complete c (pos n) ≡ false = ground arith in
        (
          after,
          answer.packet,
          replaced,
          process-handle pointer calls s packet p fits parsed call e
              ∙ >>=-some _ (
                  call-handled
                  ∙ call-write_arguments
                  ∙ write_arguments-stored after (omega arith) (omega arith) k
                  ∙ rw partial (>>=-some _ answer.created)),
          answer.read,
        )

    -- The end of a function's arguments is put into their tree, at its offset and with all other bytes as
    -- before, and then the function is called, once; if it succeeds and has a tree of results, the bytes of
    -- that tree, as the function left it, are the answer under the function's id, and nothing else is done.
    -- The arguments' end is not empty, the packet carries it, the arguments' tree has all its bytes, the
    -- results are fewer than 65536 bytes, and packets can have more than the seven bytes of overhead.
    pub call-IsAnswered :
        (after result : List ℕ) (trees : List TreeItem) {k : ℕ} (r : TreeItem) (d' : Descriptor)
        → IsWord p.header.id
        → 7 < s.max_packet_size
        → n ≤ length bytes
        → 0 < c.size
        → c.size ≤ length p.payload.buffer
        → c.offset + c.size ≡ n
        → store bytes (pos c.offset) value ≡ some after
        → calls.function_called p.header.id (set_bytes f.details.tree_in_id after s.tree_list)
          ≡ (true, trees)
        → get_tree_index (record s { tree_list = trees }) f.details.tree_out_id ≡ some (k, r)
        → f.details.tree_out_id ≢ kow_undefined_symbol
        → r.desc ≡ some d'
        → r.bytes ≡ some result
        → kowhai_get_node_size d'.nodes ≡ some (pos (length result))
        → length result < 65536
        → Replaced c.offset value bytes after
          × IsAnswered
              (emit (record s { tree_list = trees }) (called p.header.id ∷ []))
              p.header.id
              cmd_call_function_result
              cmd_call_function_result_end
              result
              (kowhai_server_process_packet pointer calls s packet)
    unfolding run_function finish_call answer_call
    call-IsAnswered after result trees r d' word room whole some_bytes has_buffer complete k done
          found defined' r_desc r_bytes r_size small =
        let l = length-value has_buffer in
        let s' = emit (record s { tree_list = trees }) (called p.header.id ∷ []) in
        let (after', k', replaced) = store-Replaced bytes c.offset value (omega arith) in
        let full : is_complete c (pos n) ≡ true = ground arith in
        let results : populate_tree s' f.details.tree_out_id
            ≡ record { desc = some d'; bytes = some result } =
          rw (populate_tree-known s' f.details.tree_out_id {t = r} found defined', r_desc, r_bytes)
            refl in
        let ran : run_function pointer calls (stored after) p f
            ≡ send_result pointer s' p d' (some result) =
          ap (finish_call pointer (stored after) p f) done
          ∙ ap (λ tree. answer_call pointer s' p tree true) results in
        let handled : handle pointer calls s p call ≡ send_result pointer s' p d' (some result) =
          call-handled
          ∙ call-write_arguments
          ∙ write_arguments-stored after (omega arith) (omega arith) k
          ∙ rw full ran in
        (
          subst (Replaced c.offset value bytes) (some-injective _ _ (sym k' ∙ k)) replaced,
          rw (process-handle pointer calls s packet p fits parsed call e, handled)
              (delivered-IsAnswered s' p.header.id cmd_call_function_result
                cmd_call_function_result_end result _
                (result-IsDelivered pointer s' p result word small d' r_size room)),
        )
