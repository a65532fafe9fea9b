-- ===== src/Server/Keeps/Writes.antt =====
-- Writes by teensy/usb_rawhid/kowhai/kowhai_protocol_server.c keep the server's configuration.
use beaverbot.Prelude.{
  ℕ, ◌+◌, ◌≡◌, ◌==◌, Bool, true, false, leb, Bool-cases, inl, inr, Option, none, some, ◌>>=◌, ℤ,
  pos, negsuc, List, [], ◌++◌, length, length-append, length-take, length-drop, take, drop, arith,
  refl, ap, ◌∙◌, sym, ◌+ℤ◌, ltb_ℤ, is_nonneg,
}
use beaverbot.Kowhai.{
  Status, Tree, Symbol, ok, invalid_sequence, node_data_too_small, invalid_offset,
}
use beaverbot.Kowhai.Lookup.{found, failed, Lookup, kowhai_get_node}
use beaverbot.Kowhai.Size.{kowhai_get_node_size}
use beaverbot.Kowhai.Access.{store, kowhai_write, kowhai_read}
use beaverbot.Protocol.{Protocol, DataSpec, cmd_write_data_end}
use beaverbot.Server.{
  Server, Callbacks, TreePointers, Writing, tree_of, populate_tree, check_tree_id,
  kow_undefined_symbol, set_bytes,
}
use beaverbot.Server.Write.{
  write_data, write_node, write_found, proceed, continue_write, acknowledge_write, note_write,
  begin_write, begin_at, fail_write, written_by, node_address,
}
use beaverbot.Server.Keeps.{
  Keeps, IsKeeping, Holds, chain, Holds-if, Holds-after, Keeps-changed, Keeps-quietly, Keeps-trans,
  populated-shapes, undefined-null, shapes,
}
use beaverbot.Server.Keeps.Sends.{send-Holds, send_error-Holds, invalid_tree_id-Holds}
use mathlib.Core.Path.{subst}

pub store-length :
    (bytes : List ℕ) (at : ℤ) (value : List ℕ) {after : List ℕ}
    → store bytes at value ≡ some after
    → length after ≡ length bytes
unfolding store
store-length bytes (negsuc n) value e = cc
store-length bytes (pos at) value e = elim (Bool-cases (leb (at + length value) (length bytes))) [
  | inl fits ↦
      let a = length-append (take at bytes) (value ++ drop (at + length value) bytes) in
      let b = length-append value (drop (at + length value) bytes) in
      let t = length-take at bytes in let d = length-drop (at + length value) bytes in ground arith
  | inr out ↦ cc (sym (rw out at e))
]

-- A result, if there is one, has this property.
abbrev Ends {ℓ κ} : {A : Type ℓ} → (A → Type κ) → Option A → Type κ
Ends P none = Unit
Ends P (some a) = P a

Ends-chain {ℓ κ ι} :
    {A : Type ℓ} {B : Type κ} (P : B → Type ι) (m : Option A) (f : A → Option B)
    → ((a : A) → m ≡ some a → Ends P (f a))
    → Ends P (m >>= f)
Ends-chain P none f h = tt
Ends-chain P (some a) f h = h a refl

module _ (tree : Tree) where
  abbrev SameLength : Status × Tree → Type 0
  SameLength r = length r.1.bytes ≡ length tree.bytes

  -- The bytes of a tree after a write are as many as before.
  kowhai_write-SameLength :
      (ys : List Symbol) (at : ℤ) (value : List ℕ) → Ends SameLength (kowhai_write tree ys at value)
  unfolding kowhai_write
  kowhai_write-SameLength ys at value =
      Ends-chain SameLength (kowhai_get_node tree.desc ys) _ λ r e. by_node r
    where
      by_size :
          (offset : ℤ) (b : Bool)
          → Ends SameLength (elim b [
            | true ↦ some (node_data_too_small, tree)
            | false ↦ store tree.bytes (offset +ℤ at) value >>= λ bytes.
                some (ok, record tree { bytes = bytes })
          ])
      by_size offset true = refl
      by_size offset false =
          Ends-chain SameLength (store tree.bytes (offset +ℤ at) value) _
            λ bytes e. store-length tree.bytes (offset +ℤ at) value e

      by_sign :
          (offset : ℤ) (target : ℕ) (b : Bool)
          → Ends SameLength (elim b [
            | false ↦ some (invalid_offset, tree)
            | true ↦ kowhai_get_node_size (drop target tree.desc) >>= λ size.
                elim (ltb_ℤ size (pos (length value) +ℤ at)) [
                  | true ↦ some (node_data_too_small, tree)
                  | false ↦ store tree.bytes (offset +ℤ at) value >>= λ bytes.
                      some (ok, record tree { bytes = bytes })
                ]
          ])
      by_sign offset target false = refl
      by_sign offset target true =
          Ends-chain SameLength (kowhai_get_node_size (drop target tree.desc)) _
            λ size e. by_size offset (ltb_ℤ size (pos (length value) +ℤ at))

      by_node :
          (r : Lookup)
          → Ends SameLength (elim r [
            | failed status ↦ some (status, tree)
            | found offset target ↦ elim (is_nonneg at) [
              | false ↦ some (invalid_offset, tree)
              | true ↦ kowhai_get_node_size (drop target tree.desc) >>= λ size.
                  elim (ltb_ℤ size (pos (length value) +ℤ at)) [
                    | true ↦ some (node_data_too_small, tree)
                    | false ↦ store tree.bytes (offset +ℤ at) value >>= λ bytes.
                        some (ok, record tree { bytes = bytes })
                  ]
            ]
          ])
      by_node (failed status) = refl
      by_node (found offset target) = by_sign offset target (is_nonneg at)

  kowhai_write-length :
      (ys : List Symbol) (at : ℤ) (value : List ℕ) {r : Status × Tree}
      → kowhai_write tree ys at value ≡ some r
      → SameLength r
  kowhai_write-length ys at value e =
      subst (Ends SameLength) e (kowhai_write-SameLength ys at value)

kowhai_write-null :
    (ys : List Symbol) (at : ℤ) (value : List ℕ)
    → kowhai_write (record { desc = []; bytes = [] }) ys at value ≡ none
unfolding kowhai_write kowhai_get_node
kowhai_write-null ys at value = refl

write-undefined :
    (s : Server) (id : ℕ) (ys : List Symbol) (at : ℤ) (value : List ℕ)
    → id ≡ kow_undefined_symbol
    → kowhai_write (tree_of (populate_tree s id)) ys at value ≡ none
write-undefined s id ys at value k =
    ap (λ i. kowhai_write (tree_of (populate_tree s i)) ys at value) k
    ∙ ap (λ tree. kowhai_write (tree_of tree) ys at value) (undefined-null s)
    ∙ kowhai_write-null ys at value

-- A write that was carried out leaves the shapes of the trees.
written-shapes :
    (s : Server) (id : ℕ) (ys : List Symbol) (at : ℤ) (value : List ℕ) {r : Status × Tree}
    → kowhai_write (tree_of (populate_tree s id)) ys at value ≡ some r
    → shapes (set_bytes id r.1.bytes s.tree_list) ≡ shapes s.tree_list
written-shapes s id ys at value {r} e = elim (Bool-cases (id == kow_undefined_symbol)) [
  | inl undefined ↦ cc (write-undefined s id ys at value (ground arith))
  | inr defined ↦
      populated-shapes s id r.1.bytes (ground arith)
        (kowhai_write-length (tree_of (populate_tree s id)) ys at value e)
]

module _ (calls : Callbacks) (keeping : IsKeeping calls) (p : Protocol) (d : DataSpec) where
  fail_write-Holds : (s : Server) (status : Status) → Holds s (fail_write s p status)
  unfolding fail_write
  fail_write-Holds s status =
      Holds-after _ (Keeps-quietly s s.tree_list none refl) (send_error-Holds _ p status)

  acknowledge_write-Holds : (s : Server) → Holds s (acknowledge_write s p d)
  unfolding acknowledge_write
  acknowledge_write-Holds s =
      chain s
        (kowhai_read (tree_of (populate_tree s p.header.id)) d.symbols (pos d.memory.offset)
          d.memory.size)
        _ λ r e. send-Holds s _

  note_write-Keeps :
      (s : Server) (command id written : ℕ) (w : Writing)
      → Keeps s (note_write calls s command id written w)
  unfolding note_write
  note_write-Keeps s command id written w = elim (Bool-cases (command == cmd_write_data_end)) [
    | inl end ↦ rw end (Keeps-changed s _ none _ (keeping.post id w.node w.offset _ s.tree_list))
    | inr more ↦ rw more (Keeps-quietly s s.tree_list _ refl)
  ]

  continue_write-Holds : (s : Server) (w : Writing) → Holds s (continue_write calls s p d w)
  unfolding continue_write
  continue_write-Holds s w =
      chain s
        (kowhai_write (tree_of (populate_tree s p.header.id)) d.symbols (pos d.memory.offset)
          (take d.memory.size p.payload.buffer))
        _
        λ r e.
          by_status r.1.bytes (written-shapes s p.header.id d.symbols (pos d.memory.offset) _ e) r.0
    where
      by_status :
          (bytes : List ℕ)
          → shapes (set_bytes p.header.id bytes s.tree_list) ≡ shapes s.tree_list
          → (status : Status)
          → Holds s (elim status [
            | ok ↦
                acknowledge_write
                  (note_write calls
                    (record s { tree_list = set_bytes p.header.id bytes s.tree_list })
                    p.header.command
                    p.header.id
                    (written_by d)
                    w)
                  p
                  d
            | failure ↦ fail_write s p failure
          ])
      by_status bytes k ok =
          Holds-after _
            (Keeps-trans
              (Keeps-quietly s (set_bytes p.header.id bytes s.tree_list) s.current_write k)
              (note_write-Keeps _ p.header.command p.header.id (written_by d) w))
            (acknowledge_write-Holds _)
      by_status bytes k _ = fail_write-Holds s _

  proceed-Holds :
      (s : Server) (r : Status × Server × Writing) → Keeps s r.1 → Holds s (proceed calls p d r)
  unfolding proceed
  proceed-Holds s (ok, s', w) k = Holds-after _ k (continue_write-Holds s' w)
  proceed-Holds s (invalid_sequence, s', w) k =
      Holds-after _ k (fail_write-Holds s' invalid_sequence)
  proceed-Holds s (status, s', w) k = Holds-after _ k (fail_write-Holds s' status)

  begin_at-Keeps :
      (s : Server) (id node : ℕ) (offset : ℤ) (cw : Option Writing)
      → Keeps s (begin_at calls s id node offset cw).1
  unfolding begin_at
  begin_at-Keeps s id node offset none =
      Keeps-changed s _ _ _ (keeping.pre id node offset s.tree_list)
  begin_at-Keeps s id node offset (some w) = Keeps-quietly s s.tree_list s.current_write refl

  write_found-Holds :
      (s : Server) (node : ℕ) (offset : ℤ) → Holds s (write_found calls s p d node offset)
  unfolding write_found begin_write
  write_found-Holds s node offset =
      proceed-Holds s _ (begin_at-Keeps s p.header.id node offset s.current_write)

  pub write_data-Holds : (s : Server) → Holds s (write_data calls s p d)
  unfolding write_data write_node
  write_data-Holds s =
      Holds-if s (check_tree_id s p.header.id) _ _
        (chain s (kowhai_get_node (tree_of (populate_tree s p.header.id)).desc d.symbols) _
          λ r e. by_node (populate_tree s p.header.id) r)
        (invalid_tree_id-Holds s p)
    where
      by_node :
          (tree : TreePointers) (r : Lookup)
          → Holds s (elim r [
            | failed status ↦ fail_write s p status
            | found offset target ↦ write_found calls s p d (node_address tree.desc target) offset
          ])
      by_node tree (failed status) = fail_write-Holds s status
      by_node tree (found offset target) = write_found-Holds s _ offset
