-- ===== src/Kowhai/Resolve/Find.antt =====
-- `get_node` of teensy/usb_rawhid/kowhai/kowhai.c finds what a path means.
use beaverbot.Prelude.{
  ℕ, suc, ◌+◌, ◌*◌, ◌/◌, ◌<◌, ◌≡◌, Bool, true, false, Option, ◌>>=◌, List, [], ◌∷◌, ℤ, ◌+ℤ◌, drop,
  if◌then◌else◌, arith, >>=-some, ◌∙◌, ap, drop-add, pos-+ℤ, div_ℕ, pos-*ℤ, ◌-◌, refl, none, some,
  inl, inr, Bool-cases, Option-cases, zero,
}
use beaverbot.Kowhai.{Node, Symbol, pos, kow_branch_end, invalid_symbol_path}
use beaverbot.Kowhai.Size.{get_node_size, kowhai_get_node_size}
use beaverbot.Kowhai.Lookup.{Lookup, done_at, get_node, failed, found}
use beaverbot.Kowhai.Forest.{
  LeafType, int8, code, Tags, node_of, Forest, branch_code, flatten, width, branch, nil, leaf,
  nodes, drop-flatten, extent,
}
use beaverbot.Kowhai.Resolve.{
  fits, some, Hit, shift, resolve, within, passed, resolve-unfit, resolve-missed, resolve-hit,
}
use beaverbot.Kowhai.Measure.{get_node_size-first, kowhai_get_node_size-first}
use mathlib.Core.Path.{ap₂}
use native.Mathlib.Nat.{add_assoc}
use beaverbot.Kowhai.Resolve.Find.Steps.{
  next_of, skipped, step-leaf_last, step-leaf_inner, step-branch_last, step-branch_inner,
  next_of-leaf, next_of-branch, done_at-first,
}
pub mod Steps

-- The code's answer for a hit: the offset from `acc`, the index from `here`.
abbrev pub to_lookup : ℕ → ℕ → Option Hit → Lookup
to_lookup acc here none = failed invalid_symbol_path
to_lookup acc here (some h) = found (pos (acc + h.offset)) (here + h.index)

-- A later hit, past a tree of `size` bytes and `n` nodes.
to_lookup-shift :
    (u : Bool) (acc here size n : ℕ) (r : Option Hit)
    → to_lookup (skipped u acc size) (here + n) r ≡ to_lookup acc here (shift u size n r)
to_lookup-shift u acc here size n none = refl
to_lookup-shift true acc here size n (some h) =
    ap (found (pos (acc + h.offset))) (add_assoc here n h.index)
to_lookup-shift false acc here size n (some h) =
    ap₂ (λ o i. found (pos o) i) (add_assoc acc size h.offset) (add_assoc here n h.index)

plus_zero : (n : ℕ) → n ≡ n + 0
plus_zero n = omega arith

regroup : (a b c : ℕ) → a + (0 + b) + c ≡ a + (c + b)
regroup a b c = omega arith

pub fits-lt : (y : Symbol) (g : Tags) → fits y g ≡ true → y.array_index < g.count
fits-lt y g e = ground arith

-- A leaf, with what the trees after it give.
resolve_leaf :
    (fuel : ℕ) (t : LeafType) (g : Tags) (next : Forest) (rest : List Node) (here : ℕ) (y : Symbol)
    (ys : List Symbol) (u : Bool) (acc : ℕ)
    → ((h a : ℕ)
        → get_node fuel (flatten next rest) h (y ∷ ys) false u (pos a)
          ≡ some (to_lookup a h (resolve u next (y ∷ ys))))
    → get_node (suc fuel) (flatten (leaf t g next) rest) here (y ∷ ys) false u (pos acc)
      ≡ some (to_lookup acc here (resolve u (leaf t g next) (y ∷ ys)))
unfolding resolve
resolve_leaf fuel t g next rest here y [] u acc ih =
    step-leaf_last fuel t g _ here y u (pos acc) ∙ elim (Bool-cases (fits y g)) [
      | inl e ↦ rw e (
          done_at-first (width t) g.count _ _ y acc here
            (kowhai_get_node_size-first (leaf t g next) rest tt) refl (fits-lt y g e)
          ∙ ap (λ i. some (found (pos (acc + width t * y.array_index)) i)) (plus_zero here))
      | inr e ↦ rw e (
          next_of-leaf fuel t g next rest here (y ∷ []) u acc
          ∙ ih _ _
          ∙ ap some (to_lookup-shift u acc here (width t * g.count) 1 _))
    ]
resolve_leaf fuel t g next rest here y (z ∷ zs) u acc ih =
    step-leaf_inner fuel t g _ here y z zs u (pos acc)
    ∙ next_of-leaf fuel t g next rest here (y ∷ z ∷ zs) u acc
    ∙ ih _ _
    ∙ ap some (to_lookup-shift u acc here (width t * g.count) 1 _)

pub done-hit :
    (fuel : ℕ) (v : Bool) (o c : Tags) (children next : Forest) (rest : List Node) (here : ℕ)
    (y : Symbol) (acc : ℕ) (h : Hit)
    → fits y o ≡ true
    → done_at
        (node_of (branch_code v) o)
        (flatten children (node_of kow_branch_end c ∷ flatten next rest))
        y
        (pos acc +ℤ pos (0 + h.offset))
        (here + 1 + h.index)
      ≡ some (to_lookup acc here (some (within (extent v 0 children) y h)))
done-hit fuel v o c children next rest here y acc h e = rw (pos-+ℤ acc (0 + h.offset)) (
    done_at-first (extent v 0 children) o.count _ _ y (acc + (0 + h.offset)) (here + 1 + h.index)
      (kowhai_get_node_size-first (branch v o c children next) rest tt) refl (fits-lt y o e)
    ∙ ap₂ (λ a i. some (found (pos a) i))
        (regroup acc h.offset (extent v 0 children * y.array_index)) (add_assoc here 1 h.index))

-- A branch with more symbols to go.
resolve_branch_inner :
    (fuel : ℕ) (v : Bool) (o c : Tags) (children next : Forest) (rest : List Node) (here : ℕ)
    (y z : Symbol) (zs : List Symbol) (u : Bool) (acc : ℕ)
    → ((z : Symbol) (zs : List Symbol)
        → get_node fuel
            (flatten children (node_of kow_branch_end c ∷ flatten next rest))
            (here + 1)
            (z ∷ zs)
            false
            v
            (pos 0)
          ≡ some (to_lookup 0 (here + 1) (resolve v children (z ∷ zs))))
    → ((h a : ℕ)
        → get_node fuel (flatten next rest) h (y ∷ z ∷ zs) false u (pos a)
          ≡ some (to_lookup a h (resolve u next (y ∷ z ∷ zs))))
    → get_node
        (suc fuel)
        (flatten (branch v o c children next) rest)
        here
        (y ∷ z ∷ zs)
        false
        u
        (pos acc)
      ≡ some (to_lookup acc here (resolve u (branch v o c children next) (y ∷ z ∷ zs)))
resolve_branch_inner fuel v o c children next rest here y z zs u acc inner ih =
    step-branch_inner fuel v o _ here y z zs u (pos acc) ∙ elim (Bool-cases (fits y o)) [
      | inr e ↦ rw (e, resolve-unfit u v o c children next y z zs e) later
      | inl e ↦
          rw (e, inner z zs)
            (elim (Option-cases (resolve v children (z ∷ zs))) [
              | inl n ↦ rw (n, resolve-missed u v o c children next y z zs e n) later
              | inr (h, s) ↦
                  rw (s, resolve-hit u v o c children next y z zs e s)
                    (done-hit fuel v o c children next rest here y acc h e)
            ])
    ]
  where
    later :
        next_of fuel
          (node_of (branch_code v) o)
          (flatten children (node_of kow_branch_end c ∷ flatten next rest))
          here
          (y ∷ z ∷ zs)
          u
          (pos acc)
        ≡ some (to_lookup acc here (passed u v o c children next y z zs))
    later =
        next_of-branch fuel v o c children next rest here (y ∷ z ∷ zs) u acc
        ∙ ih _ _
        ∙ ap some
            (to_lookup-shift u acc here (extent v 0 children * o.count) (nodes children + 2) _)

-- A branch, with what its members and the trees after it give.
resolve_branch :
    (fuel : ℕ) (v : Bool) (o c : Tags) (children next : Forest) (rest : List Node) (here : ℕ)
    (y : Symbol) (ys : List Symbol) (u : Bool) (acc : ℕ)
    → ((z : Symbol) (zs : List Symbol)
        → get_node fuel
            (flatten children (node_of kow_branch_end c ∷ flatten next rest))
            (here + 1)
            (z ∷ zs)
            false
            v
            (pos 0)
          ≡ some (to_lookup 0 (here + 1) (resolve v children (z ∷ zs))))
    → ((h a : ℕ)
        → get_node fuel (flatten next rest) h (y ∷ ys) false u (pos a)
          ≡ some (to_lookup a h (resolve u next (y ∷ ys))))
    → get_node
        (suc fuel)
        (flatten (branch v o c children next) rest)
        here
        (y ∷ ys)
        false
        u
        (pos acc)
      ≡ some (to_lookup acc here (resolve u (branch v o c children next) (y ∷ ys)))
unfolding resolve
resolve_branch fuel v o c children next rest here y [] u acc inner ih =
    step-branch_last fuel v o _ here y u (pos acc) ∙ elim (Bool-cases (fits y o)) [
      | inl e ↦ rw e (
          done_at-first (extent v 0 children) o.count _ _ y acc here
            (kowhai_get_node_size-first (branch v o c children next) rest tt) refl (fits-lt y o e)
          ∙ ap (λ i. some (found (pos (acc + extent v 0 children * y.array_index)) i))
              (plus_zero here))
      | inr e ↦ rw e (
          next_of-branch fuel v o c children next rest here (y ∷ []) u acc
          ∙ ih _ _
          ∙ ap some
              (to_lookup-shift u acc here (extent v 0 children * o.count) (nodes children + 2) _))
    ]
resolve_branch fuel v o c children next rest here y (z ∷ zs) u acc inner ih =
    resolve_branch_inner fuel v o c children next rest here y z zs u acc inner ih

-- In a well-formed descriptor the code's answer is the meaning of the path, for members `f` of a
-- branch that end in its closing node, whatever follows.
pub get_node-resolve :
    (f : Forest) (fuel : ℕ) (u : Bool) (c : Tags) (rest : List Node) (here : ℕ) (y : Symbol)
    (ys : List Symbol) (acc : ℕ)
    → nodes f < fuel
    → get_node fuel (flatten f (node_of kow_branch_end c ∷ rest)) here (y ∷ ys) false u (pos acc)
      ≡ some (to_lookup acc here (resolve u f (y ∷ ys)))
get_node-resolve f zero u c rest here y ys acc h = absurd (omega arith)
get_node-resolve nil (suc fuel) u c rest here y ys acc h = unfold get_node resolve in refl
get_node-resolve (leaf t g next) (suc fuel) u c rest here y ys acc h =
    resolve_leaf fuel t g next _ here y ys u acc
      (λ i a. get_node-resolve next fuel u c rest i y ys a (omega arith))
get_node-resolve (branch v o c' children next) (suc fuel) u c rest here y ys acc h =
    resolve_branch fuel v o c' children next _ here y ys u acc
      (λ z zs. get_node-resolve children fuel v c' _ (here + 1) z zs 0 (omega arith))
      (λ i a. get_node-resolve next fuel u c rest i y ys a (omega arith))
