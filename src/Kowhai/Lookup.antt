-- ===== src/Kowhai/Lookup.antt =====
-- `get_node` of teensy/usb_rawhid/kowhai/kowhai.c: the node and the byte offset of a path.
use beaverbot.Prelude.{
  ℕ, zero, suc, ◌+◌, Bool, true, false, ◌&&◌, Option, none, some, ◌>>=◌, ◌==◌, ltb, if◌then◌else◌,
  ℤ, pos, ◌+ℤ◌, ◌*ℤ◌, div_ℕ, List, [], ◌∷◌, length, drop,
}
use beaverbot.Kowhai.{
  Node, Symbol, Status, invalid_symbol_path, invalid_descriptor, kow_branch_start, kow_branch_end,
  kow_branch_u_start, is_branch,
}
use beaverbot.Kowhai.Size.{get_node_size, kowhai_get_node_size}

-- KOW_STATUS_OK with `*offset` and the index of `*target_node` in the descriptor, or another status.
pub data Lookup : Type 0 where
  found : (offset : ℤ) (target : ℕ) → Lookup
  failed : Status → Lookup

-- The symbol fits a node, and the node's array is large enough for the index.
abbrev pub symbol_fits : Symbol → Node → Bool
symbol_fits y m = y.name == m.symbol && ltb y.array_index m.count

-- After `done:`, at the node `m` that `y` fits.
unfoldable pub done_at : Node → List Node → Symbol → ℤ → ℕ → Option Lookup
done_at m rest y offset target = do
  size ← kowhai_get_node_size (m ∷ rest)
  some (found (offset +ℤ div_ℕ size m.count *ℤ pos y.array_index) target)

-- `node` from index `i` of the call on, which stands at `here` in the descriptor. A path is its
-- remaining symbols; `none` is a read past them or past the nodes. Each call takes a node, so the
-- fuel is their number. `get_node_size` knows one status only, KOW_STATUS_OK, so the one failure of
-- a nested call is KOW_STATUS_INVALID_SYMBOL_PATH.
unfoldable pub get_node :
    ℕ → List Node → (here : ℕ) → List Symbol → (initial branch_union : Bool) → ℤ → Option Lookup
unfolding done_at
get_node zero nodes here path initial branch_union offset = none
get_node (suc fuel) [] here path initial branch_union offset = none
get_node (suc fuel) (m ∷ rest) here [] initial branch_union offset =
    if m.type == kow_branch_end then some (failed invalid_symbol_path) else none
get_node (suc fuel) (m ∷ rest) here (y ∷ ys) initial branch_union offset =
    let next : Option Lookup = elim initial [
      | true ↦ some (failed invalid_symbol_path)
      | false ↦ do
        (skip_size, skip_nodes) ← get_node_size (m ∷ rest)
        get_node fuel (drop skip_nodes rest) (here + 1 + skip_nodes) (y ∷ ys) false branch_union
            (if branch_union then offset else offset +ℤ skip_size)
    ] in
    elim (m.type == kow_branch_end) [
      | true ↦ some (failed invalid_symbol_path)
      | false ↦ elim (symbol_fits y m) [
        | false ↦ next
        | true ↦ elim ys [
          | [] ↦ done_at m rest y offset here
          | z ∷ zs ↦ elim (is_branch m.type) [
            | false ↦ next
            | true ↦ do
              branch ←
                  get_node fuel rest (here + 1) (z ∷ zs) false (m.type == kow_branch_u_start)
                    (pos 0)
              elim branch [
                | failed status ↦ next
                | found branch_offset target ↦ done_at m rest y (offset +ℤ branch_offset) target
              ]
          ]
        ]
      ]
    ]

unfoldable pub kowhai_get_node : List Node → List Symbol → Option Lookup
unfolding get_node
kowhai_get_node [] path = none
kowhai_get_node (m ∷ rest) path = elim (m.type == kow_branch_start) [
  | false ↦ some (failed invalid_descriptor)
  | true ↦
      get_node (length (m ∷ rest)) (m ∷ rest) 0 path true (m.type == kow_branch_u_start) (pos 0)
]
