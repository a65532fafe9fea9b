-- ===== src/Server/Init/Sizes.antt =====
-- The descriptor sizes that `kowhai_server_init` of teensy/usb_rawhid/kowhai/kowhai_protocol_server.c
-- finds.
use beaverbot.Prelude.{
  ℕ, suc, ◌+◌, ◌*◌, ◌≡◌, Bool, true, false, Option, none, some, ◌>>=◌, >>=-some, List, [], ◌∷◌,
  length, All, arith, refl, ap, ◌∙◌, ◌⊎◌, inl, inr,
}
use beaverbot.Kowhai.{Node, kow_branch_end}
use beaverbot.Kowhai.Forest.{
  Tags, Forest, nil, leaf, branch, LeafType, int8, code, branch_code, node_of, flatten, nodes,
  length-flatten,
}
use beaverbot.Kowhai.Resolve.Root.{root}
use beaverbot.Server.{Descriptor, TreeItem, FunctionItem}
use beaverbot.Server.Init.{
  nodes_size, descriptor_size_of, init_tree_descriptor_sizes, init_tree_id_list,
  init_function_id_list, kowhai_server_init,
}

abbrev plus : ℕ → Option ℕ → Option ℕ
plus n m = m >>= λ size. some (n + size)

plus-plus : (a b : ℕ) (m : Option ℕ) → plus a (plus b m) ≡ plus (a + b) m
plus-plus a b none = refl
plus-plus a b (some n) = ap some (omega arith)

plus-zero : (m : Option ℕ) → m ≡ plus 0 m
plus-zero none = refl
plus-zero (some n) = ap some (omega arith)

plus_branch :
    (a b : ℕ) (m : Option ℕ)
    → plus 8 (plus (8 * a) (plus 8 (plus (8 * b) m))) ≡ plus (8 * suc (a + suc b)) m
plus_branch a b none = refl
plus_branch a b (some n) = ap some (omega arith)

leaf_size :
    (t : LeafType) (g : Tags) (rest : List Node) (d : ℕ)
    → nodes_size (node_of (code t) g ∷ rest) (suc d) ≡ plus 8 (nodes_size rest (suc d))
leaf_size int8 g rest d = refl
leaf_size _ g rest d = refl

branch_size :
    (v : Bool) (g : Tags) (rest : List Node) (d : ℕ)
    → nodes_size (node_of (branch_code v) g ∷ rest) d ≡ plus 8 (nodes_size rest (suc d))
branch_size true g rest d = refl
branch_size false g rest d = refl

-- Within an open branch the walk goes on behind a forest.
nodes_size-flatten :
    (f : Forest) (rest : List Node) (d : ℕ)
    → nodes_size (flatten f rest) (suc d) ≡ plus (8 * nodes f) (nodes_size rest (suc d))
nodes_size-flatten nil rest d = plus-zero (nodes_size rest (suc d))
nodes_size-flatten (leaf t g next) rest d =
    leaf_size t g (flatten next rest) d
    ∙ ap (plus 8) (nodes_size-flatten next rest d)
    ∙ plus-plus 8 (8 * nodes next) (nodes_size rest (suc d))
    ∙ ap (λ n. plus n (nodes_size rest (suc d))) (omega arith)
nodes_size-flatten (branch v o c children next) rest d =
    branch_size v o (flatten children (node_of kow_branch_end c ∷ flatten next rest)) (suc d)
    ∙ ap (plus 8) (
        nodes_size-flatten children (node_of kow_branch_end c ∷ flatten next rest) (suc d)
        ∙ ap (λ m. plus (8 * nodes children) (plus 8 m)) (nodes_size-flatten next rest d))
    ∙ plus_branch (nodes children) (nodes next) (nodes_size rest (suc d))

pub nodes_size-root :
    (o c : Tags) (children : Forest)
    → nodes_size (flatten (root o c children) []) 0
      ≡ some (8 * length (flatten (root o c children) []))
nodes_size-root o c children =
    branch_size false o (flatten children (node_of kow_branch_end c ∷ [])) 0
    ∙ ap (plus 8) (nodes_size-flatten children (node_of kow_branch_end c ∷ []) 0)
    ∙ ap some (omega (arith, length-flatten (root o c children) []))

-- No descriptor, or a whole one whose root is a structure.
abbrev pub IsWhole : TreeItem → Type 0
IsWhole t =
    (t.desc ≡ none)
    ⊎ ((o : Tags) × (c : Tags) × (children : Forest) × (address : ℕ) × (t.desc
          ≡ some (record { address = address; nodes = flatten (root o c children) [] })))

-- The size of the descriptor in bytes.
abbrev pub bytes_in : Option Descriptor → ℕ
bytes_in none = 0
bytes_in (some d) = 8 * length d.nodes

abbrev pub with_sizes : List TreeItem → List TreeItem
with_sizes [] = []
with_sizes (t ∷ ts) = record t { descriptor_size = bytes_in t.desc } ∷ with_sizes ts

descriptor_size_of-bytes_in :
    (t : TreeItem) → IsWhole t → descriptor_size_of t.desc ≡ some (bytes_in t.desc)
unfolding descriptor_size_of
descriptor_size_of-bytes_in t (inl e) = rw e refl
descriptor_size_of-bytes_in t (inr (o, c, children, address, e)) =
    rw e (nodes_size-root o c children)

init_sizes :
    (ts : List TreeItem) → All IsWhole ts → init_tree_descriptor_sizes ts ≡ some (with_sizes ts)
unfolding init_tree_descriptor_sizes
init_sizes [] h = refl
init_sizes (t ∷ ts) (w, ws) = rw (descriptor_size_of-bytes_in t w, init_sizes ts ws) refl

same_ids : (ts : List TreeItem) → init_tree_id_list (with_sizes ts) ≡ init_tree_id_list ts
same_ids [] = refl
same_ids (t ∷ ts) = ap (λ l. t.list_id ∷ l) (same_ids ts)

pub kowhai_server_init_lem :
    (max_packet_size : ℕ) (trees : List TreeItem) (functions : List FunctionItem)
    (symbols : List (List ℕ))
    → All IsWhole trees
    → kowhai_server_init max_packet_size trees functions symbols
      ≡ some (record {
        max_packet_size = max_packet_size;
        tree_list = with_sizes trees;
        tree_id_list = init_tree_id_list trees;
        function_list = functions;
        function_id_list = init_function_id_list functions;
        symbol_list = symbols;
        current_write = none;
        log = [];
      })
unfolding kowhai_server_init
kowhai_server_init_lem max_packet_size trees functions symbols w =
    >>=-some _ (init_sizes trees w)
    ∙ ap
        (λ ids. some (record {
          max_packet_size = max_packet_size;
          tree_list = with_sizes trees;
          tree_id_list = ids;
          function_list = functions;
          function_id_list = init_function_id_list functions;
          symbol_list = symbols;
          current_write = none;
          log = [];
        }))
        (same_ids trees)
