-- ===== src/Kowhai/Resolve/Target.antt =====
-- The node that a hit's index picks, in the descriptors of teensy/usb_rawhid/kowhai/kowhai.c.
use beaverbot.Prelude.{
  ℕ, ◌+◌, ◌*◌, ◌≡◌, Bool, Option, none, some, List, [], ◌∷◌, arith, ◌∙◌, refl, inl, inr, Bool-cases,
  Option-cases, drop, drop-add, if_inv, ◌<◌, true, false,
}
use beaverbot.Kowhai.{Node, Symbol, kow_branch_end}
use beaverbot.Kowhai.Forest.{
  Tags, node_of, Forest, flatten, branch, leaf, nil, nodes, extent, width, drop-flatten, LeafType,
  code, int8, branch_code,
}
use beaverbot.Kowhai.Resolve.{
  fits, Hit, shift, resolve, within, passed, resolve-unfit, resolve-missed, resolve-hit,
  resolve-leaf_last, resolve-leaf_inner, resolve-branch_last,
}
use mathlib.Core.Option.{some-injective}
use mathlib.Core.Path.{subst}
use beaverbot.Kowhai.Measure.{IsTree, first_count}

-- From the hit's index on, the nodes are those of its target and something behind.
abbrev pub IsAt : List Node → Hit → Type 0
IsAt ns h = (behind : List Node) × (drop h.index ns ≡ flatten h.target behind)

-- Past `n` nodes.
shift-IsAt :
    (u : Bool) (size n : ℕ) (ns next : List Node) (r : Option Hit) {h : Hit}
    → drop n ns ≡ next
    → ((k : Hit) → r ≡ some k → IsAt next k)
    → shift u size n r ≡ some h
    → IsAt ns h
shift-IsAt u size n ns next none d ih e = cc
shift-IsAt u size n ns next (some k) d ih e =
    subst (IsAt ns) (some-injective _ _ e)
      (let (b, q) = ih k refl in (b, drop-add n k.index ns ∙ rw d q))

-- Past a branch's opening node.
within-IsAt :
    (elem : ℕ) (y : Symbol) (m : Node) (ns : List Node) (k : Hit)
    → IsAt ns k
    → IsAt (m ∷ ns) (within elem y k)
within-IsAt elem y m ns k (b, q) = (b, drop-add 1 k.index (m ∷ ns) ∙ q)

past_branch :
    (v : Bool) (o c : Tags) (children next : Forest) (rest : List Node)
    → drop (nodes children + 2) (flatten (branch v o c children next) rest) ≡ flatten next rest
past_branch v o c children next rest =
    let e : nodes children + 2 ≡ 1 + (nodes children + 1) = omega arith in
    rw (e, drop-add 1 (nodes children + 1), drop-add (nodes children) 1, drop-flatten children) refl

-- A branch whose members or later trees hold the hit.
inner-IsAt :
    (u v : Bool) (o c : Tags) (children next : Forest) (rest : List Node) (y z : Symbol)
    (zs : List Symbol) {h : Hit}
    → ((k : Hit) → resolve u next (y ∷ z ∷ zs) ≡ some k → IsAt (flatten next rest) k)
    → ((k : Hit)
        → resolve v children (z ∷ zs) ≡ some k
        → IsAt (flatten children (node_of kow_branch_end c ∷ flatten next rest)) k)
    → resolve u (branch v o c children next) (y ∷ z ∷ zs) ≡ some h
    → IsAt (flatten (branch v o c children next) rest) h
inner-IsAt u v o c children next rest y z zs {h} rec inner e = elim (Bool-cases (fits y o)) [
  | inr k ↦ later (resolve-unfit u v o c children next y z zs k)
  | inl k ↦ elim (Option-cases (resolve v children (z ∷ zs))) [
    | inl n ↦ later (resolve-missed u v o c children next y z zs k n)
    | inr (i, s) ↦
        subst (IsAt (flatten (branch v o c children next) rest))
          (some-injective _ _ (rw (resolve-hit u v o c children next y z zs k s) at e))
          (within-IsAt (extent v 0 children) y _ _ i (inner i s))
  ]
]
  where
    later :
        resolve u (branch v o c children next) (y ∷ z ∷ zs) ≡ passed u v o c children next y z zs
        → IsAt (flatten (branch v o c children next) rest) h
    later q =
        shift-IsAt u (extent v 0 children * o.count) (nodes children + 2) _ _ _
          (past_branch v o c children next rest) rec (rw q at e)

-- A hit's index leads to the first node of its target.
pub resolve-IsAt :
    (u : Bool) (f : Forest) (rest : List Node) (y : Symbol) (ys : List Symbol) {h : Hit}
    → resolve u f (y ∷ ys) ≡ some h
    → IsAt (flatten f rest) h
resolve-IsAt u nil rest y ys e = unfold resolve in cc
resolve-IsAt u (leaf t g next) rest y [] e =
    elim (if_inv (fits y g) (rw (resolve-leaf_last u t g next y) at e)) [
      | inl p ↦ subst (IsAt (flatten (leaf t g next) rest)) p.1 (rest, refl)
      | inr r ↦
          shift-IsAt u (width t * g.count) 1 _ _ _ refl (λ k. resolve-IsAt u next rest y []) r.1
    ]
resolve-IsAt u (leaf t g next) rest y (z ∷ zs) e =
    shift-IsAt u (width t * g.count) 1 _ _ _ refl (λ k. resolve-IsAt u next rest y (z ∷ zs))
      (rw (resolve-leaf_inner u t g next y z zs) at e)
resolve-IsAt u (branch v o c children next) rest y [] e =
    elim (if_inv (fits y o) (rw (resolve-branch_last u v o c children next y) at e)) [
      | inl p ↦ subst (IsAt (flatten (branch v o c children next) rest)) p.1 (rest, refl)
      | inr r ↦
          shift-IsAt u (extent v 0 children * o.count) (nodes children + 2) _ _ _
            (past_branch v o c children next rest) (λ k. resolve-IsAt u next rest y []) r.1
    ]
resolve-IsAt u (branch v o c children next) rest y (z ∷ zs) e =
    inner-IsAt u v o c children next rest y z zs (λ k. resolve-IsAt u next rest y (z ∷ zs))
      (λ k. resolve-IsAt v children (node_of kow_branch_end c ∷ flatten next rest) z zs) e

-- The first node of a tree.
pub flatten-first :
    (f : Forest) (rest : List Node)
    → IsTree f
    → (n : Node) × (others : List Node) × (flatten f rest ≡ n ∷ others)
      × (n.count ≡ first_count f)
      × (n.type < 256)
flatten-first nil rest h = absurd h
flatten-first (leaf t g next) rest h = (node_of (code t) g, flatten next rest, refl, refl, small t)
  where
    small : (t : LeafType) → code t < 256
    small int8 = omega arith
    small _ = omega arith
flatten-first (branch v o c children next) rest h =
    (node_of (branch_code v) o, _, refl, refl, small v)
  where
    small : (v : Bool) → branch_code v < 256
    small true = omega arith
    small false = omega arith
