-- ===== src/Kowhai/Resolve/InTree.antt =====
-- What `kowhai_get_node` of teensy/usb_rawhid/kowhai/kowhai.c finds lies in the tree.
use beaverbot.Prelude.{
  ℕ, ◌+◌, ◌*◌, ◌-◌, ◌≤◌, ◌<◌, ◌≡◌, false, Option, none, some, List, [], ◌∷◌, drop, ℤ, pos, arith,
  refl, ◌∙◌, sym,
}
use beaverbot.Kowhai.{Node, Symbol}
use beaverbot.Kowhai.Forest.{Tags, Forest, flatten}
use beaverbot.Kowhai.Measure.{first_size, first_elem, kowhai_get_node_size-first}
use beaverbot.Kowhai.Size.{kowhai_get_node_size}
use beaverbot.Kowhai.Lookup.{Lookup, found, failed, kowhai_get_node}
use beaverbot.Kowhai.Resolve.{Hit, resolve}
use beaverbot.Kowhai.Resolve.Find.{to_lookup}
use beaverbot.Kowhai.Resolve.Root.{root, kowhai_get_node-resolve}
use beaverbot.Kowhai.Resolve.Target.{resolve-IsAt, flatten-first}
use beaverbot.Kowhai.Bounds.{last, resolve-FitsIn}
use mathlib.Core.Option.{some-injective}
use mathlib.Core.Path.{subst}

-- The byte offset of a found node and the size of one of its elements; their number is the count that
-- the node itself gives.
pub record Place (desc : List Node) (index : ℕ) (offset : ℤ) (target : ℕ) : Type 0 where
  pub at : ℕ
  pub node : Node
  pub behind : List Node
  pub elem : ℕ
  pub offset_at : offset ≡ pos at
  pub node_at : drop target desc ≡ node ∷ behind
  pub size : kowhai_get_node_size (node ∷ behind) ≡ some (pos (elem * node.count))
  pub in_array : index < node.count
  pub total : ℕ
  pub total_size : kowhai_get_node_size desc ≡ some (pos total)
  pub in_tree : at + elem * (node.count - index) ≤ total

module _ (o c : Tags) (children : Forest) (y : Symbol) (ys : List Symbol) where
  hit-Place :
      {h : Hit}
      → resolve false (root o c children) (y ∷ ys) ≡ some h
      → Place
          (flatten (root o c children) [])
          (last y ys).array_index
          (pos (0 + h.offset))
          (0 + h.index)
  hit-Place {h} r =
      let fit = resolve-FitsIn false (root o c children) y ys r in
      let (b, e) = resolve-IsAt false (root o c children) [] y ys r in
      let z : 0 + h.index ≡ h.index = omega arith in
      let (n, ns, first, count, small) = flatten-first h.target b fit.is_tree in
      record {
        at = 0 + h.offset;
        node = n;
        behind = ns;
        elem = first_elem h.target;
        offset_at = refl;
        node_at = rw (z, e) first;
        size = rw (count, sym first) (kowhai_get_node_size-first h.target b fit.is_tree);
        in_array = rw count fit.in_array;
        total = first_size (root o c children);
        total_size = kowhai_get_node_size-first (root o c children) [] tt;
        in_tree = rw count (omega (arith, fit.in_size));
      }

  -- What the code's answer promises.
  abbrev Placed : Lookup → Type 0
  Placed (failed status) = Unit
  Placed (found offset target) =
      Place (flatten (root o c children) []) (last y ys).array_index offset target

  answer-Placed :
      (r : Option Hit) → resolve false (root o c children) (y ∷ ys) ≡ r → Placed (to_lookup 0 0 r)
  answer-Placed none e = tt
  answer-Placed (some h) e = hit-Place e

  -- In a whole descriptor, whose root is a structure, a node that is found for a path has a size, the
  -- product of one element's size and the count that the node gives; the last symbol's index is below
  -- that count; and the elements from this index on, which start at the offset found, end within the
  -- descriptor's size.
  pub found-in_tree :
      {offset : ℤ} {target : ℕ}
      → kowhai_get_node (flatten (root o c children) []) (y ∷ ys) ≡ some (found offset target)
      → Place (flatten (root o c children) []) (last y ys).array_index offset target
  found-in_tree {offset} {target} e =
      subst Placed (some-injective _ _ (sym (kowhai_get_node-resolve o c children y ys) ∙ e))
        (answer-Placed (resolve false (root o c children) (y ∷ ys)) refl)
