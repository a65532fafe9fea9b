-- ===== src/Kowhai/Bounds.antt =====
-- The bytes that a path's offset leaves room for, in the trees of
-- teensy/usb_rawhid/kowhai/kowhai.c.
use beaverbot.Prelude.{
  ℕ, ◌+◌, ◌-◌, ◌*◌, ◌≤◌, ◌<◌, ◌≡◌, refl, Bool, true, false, Option, none, some, List, [], ◌∷◌, max,
  arith, Option-cases, if_inv, split_array, one_element, Bool-cases, inl, inr,
}
use beaverbot.Kowhai.{Symbol}
use beaverbot.Kowhai.Forest.{Tags, Forest, nil, leaf, branch, width, nodes, extent, grow}
use beaverbot.Kowhai.Measure.{first_elem, first_count, IsTree}
use beaverbot.Kowhai.Resolve.{
  Hit, fits, shift, within, resolve, resolve-unfit, resolve-missed, resolve-hit, passed,
  resolve-leaf_last, resolve-leaf_inner, resolve-branch_last,
}
use mathlib.Core.Path.{subst}
use mathlib.Core.Option.{some-injective}
use beaverbot.Kowhai.Resolve.Find.{fits-lt}

extent-false : (s : ℕ) (f : Forest) → extent false s f ≡ s + extent false 0 f
extent-false s nil = omega arith
extent-false s (leaf t g next) =
    omega
      (arith, extent-false (s + width t * g.count) next, extent-false (0 + width t * g.count) next)
extent-false s (branch v o c children next) = omega (
  arith,
  extent-false (s + extent v 0 children * o.count) next,
  extent-false (0 + extent v 0 children * o.count) next,
)

extent-true : (s : ℕ) (f : Forest) → extent true s f ≡ max s (extent true 0 f)
extent-true s nil = omega arith
extent-true s (leaf t g next) = omega (
  arith,
  extent-true (max s (width t * g.count)) next,
  extent-true (max 0 (width t * g.count)) next,
)
extent-true s (branch v o c children next) = omega (
  arith,
  extent-true (max s (extent v 0 children * o.count)) next,
  extent-true (max 0 (extent v 0 children * o.count)) next,
)

abbrev pub last : Symbol → List Symbol → Symbol
last y [] = y
last y (z ∷ zs) = last z zs

-- The element that the path's last symbol picks, and those behind it in its array, lie within `size`
-- bytes.
pub record FitsIn (size : ℕ) (y : Symbol) (h : Hit) : Type 0 where
  pub is_tree : IsTree h.target
  pub in_array : y.array_index < first_count h.target
  pub in_size : h.offset + first_elem h.target * (first_count h.target - y.array_index) ≤ size

-- A tree of `size` bytes before the hit.
shift-FitsIn :
    (u : Bool) (size n : ℕ) (next : Forest) (y : Symbol) (r : Option Hit) {h : Hit}
    → ((k : Hit) → r ≡ some k → FitsIn (extent u 0 next) y k)
    → shift u size n r ≡ some h
    → FitsIn (extent u (grow u 0 size) next) y h
shift-FitsIn u size n next y none ih e = cc
shift-FitsIn true size n next y (some k) ih e =
    ground (arith, ih k refl, extent-true (max 0 size) next)
shift-FitsIn false size n next y (some k) ih e =
    ground (arith, ih k refl, extent-false (0 + size) next)

grow-le-extent : (u : Bool) (size : ℕ) (next : Forest) → size ≤ extent u (grow u 0 size) next
grow-le-extent true size next = omega (arith, extent-true (max 0 size) next)
grow-le-extent false size next = omega (arith, extent-false (0 + size) next)

first-FitsIn :
    (u : Bool) (elem n : ℕ) (next t : Forest) (y : Symbol)
    → IsTree t
    → first_elem t ≡ elem
    → first_count t ≡ n
    → y.array_index < n
    → FitsIn
        (extent u (grow u 0 (elem * n)) next)
        y
        (record { offset = elem * y.array_index; index = 0; target = t })
first-FitsIn u elem n next t y h e c k = record {
  is_tree = h;
  in_array = omega arith;
  in_size =
      rw (e, c)
        (omega (arith, split_array elem y.array_index n k, grow-le-extent u (elem * n) next));
}

within-FitsIn :
    (u v : Bool) (n : ℕ) (children next : Forest) (y l : Symbol) (k : Hit)
    → y.array_index < n
    → FitsIn (extent v 0 children) l k
    → FitsIn
        (extent u (grow u 0 (extent v 0 children * n)) next)
        l
        (within (extent v 0 children) y k)
within-FitsIn u v n children next y l k i f = record {
  is_tree = f.is_tree;
  in_array = f.in_array;
  in_size = omega (
    arith,
    one_element (extent v 0 children) y.array_index n i,
    grow-le-extent u (extent v 0 children * n) next,
    f.in_size,
  );
}

-- A branch whose members or later trees hold the hit.
inner-FitsIn :
    (u v : Bool) (o c : Tags) (children next : Forest) (y z : Symbol) (zs : List Symbol) {h : Hit}
    → ((k : Hit) → resolve u next (y ∷ z ∷ zs) ≡ some k → FitsIn (extent u 0 next) (last z zs) k)
    → ((k : Hit)
        → resolve v children (z ∷ zs) ≡ some k
        → FitsIn (extent v 0 children) (last z zs) k)
    → resolve u (branch v o c children next) (y ∷ z ∷ zs) ≡ some h
    → FitsIn (extent u 0 (branch v o c children next)) (last z zs) h
inner-FitsIn u v o c children next y z zs {h} rec inner e = elim (Bool-cases (fits y o)) [
  | inr k ↦ later (resolve-unfit u v o c children next y z zs k)
  | inl k ↦ elim (Option-cases (resolve v children (z ∷ zs))) [
    | inl n ↦ later (resolve-missed u v o c children next y z zs k n)
    | inr (i, s) ↦
        subst (FitsIn (extent u 0 (branch v o c children next)) (last z zs))
          (some-injective _ _ (rw (resolve-hit u v o c children next y z zs k s) at e))
          (within-FitsIn u v o.count children next y (last z zs) i (fits-lt y o k) (inner i s))
  ]
]
  where
    later :
        resolve u (branch v o c children next) (y ∷ z ∷ zs) ≡ passed u v o c children next y z zs
        → FitsIn (extent u 0 (branch v o c children next)) (last z zs) h
    later q =
        shift-FitsIn u (extent v 0 children * o.count) (nodes children + 2) next (last z zs) _ rec
          (rw q at e)

-- Whatever a path leads to lies within the forest: the element that its last symbol picks and the
-- rest of that array.
pub resolve-FitsIn :
    (u : Bool) (f : Forest) (y : Symbol) (ys : List Symbol) {h : Hit}
    → resolve u f (y ∷ ys) ≡ some h
    → FitsIn (extent u 0 f) (last y ys) h
resolve-FitsIn u nil y ys e = unfold resolve in cc
resolve-FitsIn u (leaf t g next) y [] e =
    elim (if_inv (fits y g) (rw (resolve-leaf_last u t g next y) at e)) [
      | inl p ↦
          subst (FitsIn (extent u 0 (leaf t g next)) y) p.1
            (first-FitsIn u (width t) g.count next (leaf t g next) y tt refl refl (fits-lt y g p.0))
      | inr r ↦ shift-FitsIn u (width t * g.count) 1 next y _ (λ k. resolve-FitsIn u next y []) r.1
    ]
resolve-FitsIn u (leaf t g next) y (z ∷ zs) e =
    shift-FitsIn u (width t * g.count) 1 next (last z zs) _ (λ k. resolve-FitsIn u next y (z ∷ zs))
      (rw (resolve-leaf_inner u t g next y z zs) at e)
resolve-FitsIn u (branch v o c children next) y [] e =
    elim (if_inv (fits y o) (rw (resolve-branch_last u v o c children next y) at e)) [
      | inl p ↦ subst (FitsIn (extent u 0 (branch v o c children next)) y) p.1 (
          first-FitsIn u (extent v 0 children) o.count next (branch v o c children next) y tt refl
            refl (fits-lt y o p.0))
      | inr r ↦
          shift-FitsIn u (extent v 0 children * o.count) (nodes children + 2) next y _
            (λ k. resolve-FitsIn u next y []) r.1
    ]
resolve-FitsIn u (branch v o c children next) y (z ∷ zs) e =
    inner-FitsIn u v o c children next y z zs (λ k. resolve-FitsIn u next y (z ∷ zs))
      (λ k. resolve-FitsIn v children z zs) e
