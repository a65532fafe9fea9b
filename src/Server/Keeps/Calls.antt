-- ===== src/Server/Keeps/Calls.antt =====
-- Function calls by teensy/usb_rawhid/kowhai/kowhai_protocol_server.c keep the server's configuration.
use beaverbot.Prelude.{
  ℕ, ◌+◌, ◌≡◌, ◌==◌, ◌&&◌, not, Bool, true, false, ltb_ℤ, Bool-cases, inl, inr, Option, none, some,
  ℤ, pos, negsuc, List, [], ◌∷◌, take, arith, refl, ap, ◌∙◌,
}
use beaverbot.Kowhai.Size.{kowhai_get_node_size}
use beaverbot.Kowhai.Access.{store}
use beaverbot.Protocol.{
  Protocol, FunctionCall, cmd_call_function_result_end, cmd_call_function_result,
  cmd_error_invalid_function_id, cmd_get_function_details_ack, function_details,
}
use beaverbot.Server.{
  Server, Callbacks, Descriptor, TreePointers, FunctionItem, called, populate_tree, check_tree_id,
  kow_undefined_symbol, set_bytes, bytes_of, send, get_function_index, with_command, with_spec,
}
use beaverbot.Server.Chunks.{send_all}
use beaverbot.Server.Call.{
  get_function_details, call_function, write_arguments, store_arguments, run_function, send_result,
  call_answer, data_size, result_protocol, answer_call, is_complete, call_found, finish_call,
}
use beaverbot.Server.Keeps.{
  IsKeeping, Holds, chain, Holds-if, Holds-after, Keeps-changed, Keeps-quietly, populated-shapes,
  undefined-null, shapes, chain_server,
}
use beaverbot.Server.Keeps.Sends.{send-Holds, send_all-Holds, invalid_tree_id-Holds}
use beaverbot.Server.Keeps.Writes.{store-length}

pub get_function_details-Holds : (s : Server) (p : Protocol) → Holds s (get_function_details s p)
unfolding get_function_details
get_function_details-Holds s p = by_function (get_function_index s p.header.id)
  where
    by_function :
        (f : Option FunctionItem)
        → Holds s (elim f [
          | none ↦
              send s (with_spec (with_command p cmd_error_invalid_function_id) p.payload.spec [])
          | some f ↦ send s (
              with_spec
                (with_command p cmd_get_function_details_ack)
                (function_details f.details)
                [])
        ])
    by_function none = send-Holds s _
    by_function (some f) = send-Holds s _

send_result-Holds :
    (pointer : ℕ) (s : Server) (p : Protocol) (d : Descriptor) (bytes : Option (List ℕ))
    → Holds s (send_result pointer s p d bytes)
unfolding send_result
send_result-Holds pointer s p d bytes =
    chain s (kowhai_get_node_size d.nodes) _ λ size e. by_size size
  where
    by_size :
        (size : ℤ)
        → Holds s (elim size [
          | pos n ↦
              send_all pointer s
                (call_answer p cmd_call_function_result)
                (result_protocol p (bytes_of bytes))
                n
          | negsuc n ↦ none
        ])
    by_size (pos n) = send_all-Holds pointer s _ _ n
    by_size (negsuc n) = tt

store-null : (at : ℤ) (b : ℕ) (bs : List ℕ) → store [] at (b ∷ bs) ≡ none
unfolding store
store-null (pos at) b bs = ground arith
store-null (negsuc n) b bs = refl

stored-shapes :
    (s : Server) (id offset b : ℕ) (bs : List ℕ) {after : List ℕ}
    → store (bytes_of (populate_tree s id).bytes) (pos offset) (b ∷ bs) ≡ some after
    → shapes (set_bytes id after s.tree_list) ≡ shapes s.tree_list
stored-shapes s id offset b bs {after} e = elim (Bool-cases (id == kow_undefined_symbol)) [
  | inl undefined ↦
      let k : id ≡ kow_undefined_symbol = ground arith in
      cc (
        ap (λ i. store (bytes_of (populate_tree s i).bytes) (pos offset) (b ∷ bs)) k
        ∙ ap (λ tree. store (bytes_of tree.bytes) (pos offset) (b ∷ bs)) (undefined-null s)
        ∙ store-null (pos offset) b bs)
  | inr defined ↦
      populated-shapes s id after (ground arith)
        (store-length (bytes_of (populate_tree s id).bytes) (pos offset) (b ∷ bs) e)
]

store_arguments-Holds :
    (s : Server) (id offset : ℕ) (value : List ℕ) → Holds s (store_arguments s id offset value)
unfolding store_arguments
store_arguments-Holds s id offset [] = Keeps-quietly s s.tree_list s.current_write refl
store_arguments-Holds s id offset (b ∷ bs) =
    chain s (store (bytes_of (populate_tree s id).bytes) (pos offset) (b ∷ bs)) _ λ after e.
      Keeps-quietly s (set_bytes id after s.tree_list) s.current_write
        (stored-shapes s id offset b bs e)

answer_call-Holds :
    (pointer : ℕ) (s : Server) (p : Protocol) (tree : TreePointers) (done : Bool)
    → Holds s (answer_call pointer s p tree done)
unfolding answer_call
answer_call-Holds pointer s p tree false = send-Holds s _
answer_call-Holds pointer s p tree true = by_desc tree.desc
  where
    by_desc :
        (desc : Option Descriptor)
        → Holds s (elim desc [
          | none ↦ send s (call_answer p cmd_call_function_result_end)
          | some d ↦ send_result pointer s p d tree.bytes
        ])
    by_desc none = send-Holds s _
    by_desc (some d) = send_result-Holds pointer s p d tree.bytes

module _ (pointer : ℕ) (calls : Callbacks) (keeping : IsKeeping calls) (p : Protocol) where
  run_function-Holds : (s : Server) (f : FunctionItem) → Holds s (run_function pointer calls s p f)
  unfolding run_function finish_call
  run_function-Holds s f =
      Holds-after _
        (Keeps-changed s (calls.function_called p.header.id s.tree_list).1 s.current_write
          (called p.header.id ∷ []) (keeping.call p.header.id s.tree_list))
        (answer_call-Holds pointer _ p _ _)

  write_arguments-Holds :
      (s : Server) (c : FunctionCall) (f : FunctionItem) (size : ℤ)
      → Holds s (write_arguments pointer calls s p c f size)
  unfolding write_arguments
  write_arguments-Holds s c f size = Holds-if s (ltb_ℤ size (pos c.offset)) _ _ (send-Holds s _) (
      Holds-if s (ltb_ℤ size (pos (c.offset + c.size))) _ _ (send-Holds s _) (
        chain_server s
          (store_arguments s f.details.tree_in_id c.offset (take c.size p.payload.buffer)) _
          (store_arguments-Holds s f.details.tree_in_id c.offset _)
          λ s'. Holds-if s' (is_complete c size) _ _ (run_function-Holds s' f) (send-Holds s' _)))

  call_found-Holds :
      (s : Server) (c : FunctionCall) (f : Option FunctionItem)
      → Holds s (call_found pointer calls s p c f)
  unfolding call_found
  call_found-Holds s c none = send-Holds s _
  call_found-Holds s c (some f) =
      Holds-if s
        (not (f.details.tree_in_id == kow_undefined_symbol)
          && not (check_tree_id s f.details.tree_in_id))
        _ _ (invalid_tree_id-Holds s p)
        (chain s (data_size (populate_tree s f.details.tree_in_id).desc) _
          λ size e. write_arguments-Holds s c f size)

  pub call_function-Holds :
      (s : Server) (c : FunctionCall) → Holds s (call_function pointer calls s p c)
  unfolding call_function
  call_function-Holds s c = call_found-Holds s c (get_function_index s p.header.id)
