-- ===== src/Kowhai/Size.antt =====
-- `get_node_size` of teensy/usb_rawhid/kowhai/kowhai.c. A pointer into a descriptor is the list of
-- the nodes from there on; `none` is a read past the last of them. `int` does not overflow here.
use beaverbot.Prelude.{
  ℕ, zero, suc, ◌+◌, true, false, Option, none, some, ◌>>=◌, ◌==◌, if◌then◌else◌, ltb_ℤ, ℤ, pos,
  ◌+ℤ◌, ◌*ℤ◌, List, [], ◌∷◌, length, drop,
}
use beaverbot.Kowhai.{Node, kow_branch_start, kow_branch_end, is_branch, kowhai_get_node_type_size}

-- The size of a node that is no branch.
abbrev pub plain_size : Node → ℤ
plain_size n = kowhai_get_node_type_size n.type *ℤ pos n.count

-- A branch adds its children's sizes up, a union takes the largest.
abbrev pub accumulate : ℕ → ℤ → ℤ → ℤ
accumulate type size child =
    if type == kow_branch_start then size +ℤ child else if ltb_ℤ size child then child else size

-- The `while (1)` of a branch `n`, from the node after index `i` on, with `size` gathered so far. It
-- gives the size and the number of nodes processed. Each round takes a node, so the fuel is their
-- number.
unfoldable pub size_loop : ℕ → Node → List Node → ℤ → ℕ → Option (ℤ × ℕ)
size_loop zero n nodes size i = none
size_loop (suc fuel) n [] size i = none
size_loop (suc fuel) n (m ∷ rest) size i = elim (is_branch m.type) [
  | true ↦ do
    (child, processed) ← size_loop fuel m rest (pos 0) 0
    size_loop fuel n (drop processed rest) (accumulate n.type size child) (i + 1 + processed)
  | false ↦ elim (m.type == kow_branch_end) [
    | true ↦ some (size *ℤ pos n.count, i + 1)
    | false ↦ size_loop fuel n rest (accumulate n.type size (plain_size m)) (i + 1)
  ]
]

unfoldable pub get_node_size : List Node → Option (ℤ × ℕ)
get_node_size [] = none
get_node_size (n ∷ rest) = elim (is_branch n.type) [
  | true ↦ size_loop (length rest) n rest (pos 0) 0
  | false ↦ some (plain_size n, 0)
]

unfoldable pub kowhai_get_node_size : List Node → Option ℤ
unfolding get_node_size
kowhai_get_node_size nodes = do (size, processed) ← get_node_size nodes; some size

unfoldable pub kowhai_get_node_count : List Node → Option ℕ
unfolding get_node_size
kowhai_get_node_count nodes = do (size, count) ← get_node_size nodes; some (count + 1)
