-- ===== src/Kowhai/Resolve.antt =====
-- What a path means in a tree, apart from the node lists of
-- teensy/usb_rawhid/kowhai/kowhai.c, and that `get_node` finds it.
use beaverbot.Prelude.{
  ℕ, zero, suc, ◌+◌, ◌-◌, ◌*◌, ◌≡◌, refl, ◌∙◌, Bool, true, false, ◌&&◌, ◌==◌, ltb, if◌then◌else◌,
  Option, none, some, List, [], ◌∷◌, pos, arith,
}
use beaverbot.Kowhai.{Symbol}
use beaverbot.Kowhai.Forest.{Tags, Forest, nil, leaf, branch, width, nodes, extent, grow, LeafType}
use beaverbot.Kowhai.Measure.{first_size, first_elem}
pub mod Find
pub mod Root
pub mod Target
pub mod InTree

-- Where a path leads: the offset from the first byte of the forest, the index from its first node,
-- and the tree there, the first of `target`.
pub record Hit : Type 0 where
  pub offset : ℕ
  pub index : ℕ
  pub target : Forest

abbrev pub fits : Symbol → Tags → Bool
fits y g = y.name == g.symbol && ltb y.array_index g.count

-- Behind `skip` bytes, in a structure, and `n` nodes.
abbrev pub shift : (u : Bool) (skip n : ℕ) → Option Hit → Option Hit
shift u skip n none = none
shift u skip n (some h) =
    some (record h { offset = (if u then h.offset else skip + h.offset); index = n + h.index })

-- In the element that `y` picks of a branch's array.
abbrev pub within : (elem : ℕ) → Symbol → Hit → Hit
within elem y h = record h { offset = elem * y.array_index + h.offset; index = 1 + h.index }

-- The first tree that fits the path, in the order of the descriptor; a branch that fits the first
-- symbol and holds no match for the rest is passed over. `u` says whether the trees lie on one
-- another.
unfoldable pub resolve : Bool → Forest → List Symbol → Option Hit
resolve u nil path = none
resolve u (leaf t g next) [] = none
resolve u (leaf t g next) (y ∷ []) =
    let later = shift u (width t * g.count) 1 (resolve u next (y ∷ [])) in
    if fits y g
    then some (record { offset = width t * y.array_index; index = 0; target = leaf t g next })
    else later
resolve u (leaf t g next) (y ∷ z ∷ zs) = shift u (width t * g.count) 1 (resolve u next (y ∷ z ∷ zs))
resolve u (branch v o c children next) [] = none
resolve u (branch v o c children next) (y ∷ []) =
    let later =
      shift u (extent v 0 children * o.count) (nodes children + 2) (resolve u next (y ∷ [])) in
    if fits y o
    then some (record {
      offset = extent v 0 children * y.array_index;
      index = 0;
      target = branch v o c children next;
    })
    else later
resolve u (branch v o c children next) (y ∷ z ∷ zs) =
    let later =
      shift u (extent v 0 children * o.count) (nodes children + 2) (resolve u next (y ∷ z ∷ zs)) in
    let inner = resolve v children (z ∷ zs) in
    elim (fits y o) [
      | false ↦ later
      | true ↦ elim inner [ none ↦ later | some h ↦ some (within (extent v 0 children) y h) ]
    ]

-- `resolve` at a branch with more symbols to go.
module _ (u v : Bool) (o c : Tags) (children next : Forest) (y z : Symbol) (zs : List Symbol) where
  abbrev pub passed : Option Hit
  passed =
      shift u (extent v 0 children * o.count) (nodes children + 2) (resolve u next (y ∷ z ∷ zs))

  pub resolve-unfit :
      fits y o ≡ false → resolve u (branch v o c children next) (y ∷ z ∷ zs) ≡ passed
  unfolding resolve
  resolve-unfit e = ground arith

  pub resolve-missed :
      fits y o ≡ true
      → resolve v children (z ∷ zs) ≡ none
      → resolve u (branch v o c children next) (y ∷ z ∷ zs) ≡ passed
  unfolding resolve
  resolve-missed e n = ground arith

  pub resolve-hit :
      {h : Hit}
      → fits y o ≡ true
      → resolve v children (z ∷ zs) ≡ some h
      → resolve u (branch v o c children next) (y ∷ z ∷ zs)
        ≡ some (within (extent v 0 children) y h)
  unfolding resolve
  resolve-hit e n = ground arith

-- `resolve` at a leaf, and at a branch with one symbol to go.
pub resolve-leaf_last :
    (u : Bool) (t : LeafType) (g : Tags) (next : Forest) (y : Symbol)
    → resolve u (leaf t g next) (y ∷ []) ≡ (
        if fits y g
        then some (record { offset = width t * y.array_index; index = 0; target = leaf t g next })
        else shift u (width t * g.count) 1 (resolve u next (y ∷ [])))
unfolding resolve
resolve-leaf_last u t g next y = refl

pub resolve-leaf_inner :
    (u : Bool) (t : LeafType) (g : Tags) (next : Forest) (y z : Symbol) (zs : List Symbol)
    → resolve u (leaf t g next) (y ∷ z ∷ zs)
      ≡ shift u (width t * g.count) 1 (resolve u next (y ∷ z ∷ zs))
unfolding resolve
resolve-leaf_inner u t g next y z zs = refl

pub resolve-branch_last :
    (u v : Bool) (o c : Tags) (children next : Forest) (y : Symbol)
    → resolve u (branch v o c children next) (y ∷ []) ≡ (
        if fits y o
        then some (record {
          offset = extent v 0 children * y.array_index;
          index = 0;
          target = branch v o c children next;
        })
        else shift u (extent v 0 children * o.count) (nodes children + 2) (resolve u next (y ∷ [])))
unfolding resolve
resolve-branch_last u v o c children next y = refl
