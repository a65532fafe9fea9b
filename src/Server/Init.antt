-- ===== src/Server/Init.antt =====
-- `kowhai_server_init` of teensy/usb_rawhid/kowhai/kowhai_protocol_server.c and what it calls.
use beaverbot.Prelude.{
  ℕ, zero, suc, ◌+◌, ◌==◌, if◌then◌else◌, Option, none, some, ◌>>=◌, List, [], ◌∷◌,
}
use beaverbot.Kowhai.{Node, kow_branch_end, is_branch}
use beaverbot.Server.{ListId, Descriptor, TreeItem, FunctionItem, Server}
pub mod Sizes

abbrev pub sizeof_node : ℕ
sizeof_node = 8

-- The `do while (c > 0)`, from the current node on, with `c` branches open: how often it adds a node's
-- size, times this size. A closing node with no branch open would make `c` negative and end the loop
-- too. `none` is a read past the last node.
abbrev pub nodes_size : List Node → (c : ℕ) → Option ℕ
nodes_size [] c = none
nodes_size (n ∷ rest) c =
    let more = λ (c' : ℕ). nodes_size rest c' >>= (λ size. some (sizeof_node + size)) in
    if n.type == kow_branch_end
    then elim c [
      | zero ↦ some sizeof_node
      | suc d ↦ elim d [ zero ↦ some sizeof_node | suc d' ↦ more (suc d') ]
    ]
    else if is_branch n.type
    then more (suc c)
    else elim c [ zero ↦ some sizeof_node | suc d ↦ more (suc d) ]

unfoldable pub descriptor_size_of : Option Descriptor → Option ℕ
descriptor_size_of none = some 0
descriptor_size_of (some d) = nodes_size d.nodes 0

unfoldable pub init_tree_descriptor_sizes : List TreeItem → Option (List TreeItem)
unfolding descriptor_size_of
init_tree_descriptor_sizes [] = some []
init_tree_descriptor_sizes (t ∷ ts) = do
  size ← descriptor_size_of t.desc
  rest ← init_tree_descriptor_sizes ts
  some (record t { descriptor_size = size } ∷ rest)

abbrev pub init_tree_id_list : List TreeItem → List ListId
init_tree_id_list [] = []
init_tree_id_list (t ∷ ts) = t.list_id ∷ init_tree_id_list ts

abbrev pub init_function_id_list : List FunctionItem → List ListId
init_function_id_list [] = []
init_function_id_list (f ∷ fs) = f.list_id ∷ init_function_id_list fs

unfoldable pub kowhai_server_init :
    (max_packet_size : ℕ) → List TreeItem → List FunctionItem → List (List ℕ) → Option Server
unfolding init_tree_descriptor_sizes
kowhai_server_init max_packet_size trees functions symbols = do
  sized ← init_tree_descriptor_sizes trees
  some (record {
    max_packet_size = max_packet_size;
    tree_list = sized;
    tree_id_list = init_tree_id_list sized;
    function_list = functions;
    function_id_list = init_function_id_list functions;
    symbol_list = symbols;
    current_write = none;
    log = [];
  })
