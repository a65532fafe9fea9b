-- ===== src/Kowhai/Resolve/Find/Steps.antt =====
-- The rounds of `get_node` of teensy/usb_rawhid/kowhai/kowhai.c at a leaf and at a branch.
use beaverbot.Prelude.{
  ℕ, suc, ◌+◌, ◌*◌, ◌/◌, ◌<◌, ◌≡◌, Bool, true, false, Option, ◌>>=◌, List, [], ◌∷◌, ℤ, ◌+ℤ◌, drop,
  if◌then◌else◌, arith, >>=-some, ◌∙◌, ap, drop-add, pos-+ℤ, div_ℕ, pos-*ℤ, ◌-◌, refl, some,
}
use beaverbot.Kowhai.{Node, Symbol, pos, kow_branch_end}
use beaverbot.Kowhai.Size.{get_node_size, kowhai_get_node_size}
use beaverbot.Kowhai.Lookup.{Lookup, done_at, get_node, failed, found}
use beaverbot.Kowhai.Forest.{
  LeafType, int8, code, Tags, node_of, Forest, branch_code, flatten, width, branch, leaf, nodes,
  drop-flatten, extent,
}
use beaverbot.Kowhai.Resolve.{fits, some}
use beaverbot.Kowhai.Measure.{get_node_size-first}
use mathlib.Core.Path.{ap₂}

cancel : (a c : ℕ) → 0 < c → a * c / c ≡ a
cancel a c h = grind arith

-- `next` of the code.
abbrev pub next_of : ℕ → Node → List Node → ℕ → List Symbol → Bool → ℤ → Option Lookup
next_of fuel m rest here path u offset = get_node_size (m ∷ rest) >>= λ r.
    get_node fuel (drop r.1 rest) (here + 1 + r.1) path false u
      (if u then offset else offset +ℤ r.0)

pub step-leaf_last :
    (fuel : ℕ) (t : LeafType) (g : Tags) (rest : List Node) (here : ℕ) (y : Symbol) (u : Bool)
    (a : ℤ)
    → get_node (suc fuel) (node_of (code t) g ∷ rest) here (y ∷ []) false u a ≡ elim (fits y g) [
      | true ↦ done_at (node_of (code t) g) rest y a here
      | false ↦ next_of fuel (node_of (code t) g) rest here (y ∷ []) u a
    ]
unfolding get_node
step-leaf_last fuel int8 g rest here y u a = ground arith
step-leaf_last fuel _ g rest here y u a = ground arith

pub step-leaf_inner :
    (fuel : ℕ) (t : LeafType) (g : Tags) (rest : List Node) (here : ℕ) (y z : Symbol)
    (zs : List Symbol) (u : Bool) (a : ℤ)
    → get_node (suc fuel) (node_of (code t) g ∷ rest) here (y ∷ z ∷ zs) false u a
      ≡ next_of fuel (node_of (code t) g) rest here (y ∷ z ∷ zs) u a
unfolding get_node
step-leaf_inner fuel int8 g rest here y z zs u a = ground arith
step-leaf_inner fuel _ g rest here y z zs u a = ground arith

pub step-branch_last :
    (fuel : ℕ) (v : Bool) (o : Tags) (rest : List Node) (here : ℕ) (y : Symbol) (u : Bool) (a : ℤ)
    → get_node (suc fuel) (node_of (branch_code v) o ∷ rest) here (y ∷ []) false u a
      ≡ elim (fits y o) [
        | true ↦ done_at (node_of (branch_code v) o) rest y a here
        | false ↦ next_of fuel (node_of (branch_code v) o) rest here (y ∷ []) u a
      ]
unfolding get_node
step-branch_last fuel true o rest here y u a = ground arith
step-branch_last fuel false o rest here y u a = ground arith

pub step-branch_inner :
    (fuel : ℕ) (v : Bool) (o : Tags) (rest : List Node) (here : ℕ) (y z : Symbol) (zs : List Symbol)
    (u : Bool) (a : ℤ)
    → get_node (suc fuel) (node_of (branch_code v) o ∷ rest) here (y ∷ z ∷ zs) false u a
      ≡ elim (fits y o) [
        | false ↦ next_of fuel (node_of (branch_code v) o) rest here (y ∷ z ∷ zs) u a
        | true ↦ get_node fuel rest (here + 1) (z ∷ zs) false v (pos 0) >>= elim [
          | failed s ↦ next_of fuel (node_of (branch_code v) o) rest here (y ∷ z ∷ zs) u a
          | found off target ↦ done_at (node_of (branch_code v) o) rest y (a +ℤ off) target
        ]
      ]
unfolding get_node
step-branch_inner fuel true o rest here y z zs u a = ground arith
step-branch_inner fuel false o rest here y z zs u a = ground arith

abbrev pub skipped : Bool → ℕ → ℕ → ℕ
skipped u a size = if u then a else a + size

skip-pos :
    (u : Bool) (a size : ℕ) → (if u then pos a else pos a +ℤ pos size) ≡ pos (skipped u a size)
skip-pos true a size = refl
skip-pos false a size = pos-+ℤ a size

pub next_of-leaf :
    (fuel : ℕ) (t : LeafType) (g : Tags) (next : Forest) (rest : List Node) (here : ℕ)
    (path : List Symbol) (u : Bool) (a : ℕ)
    → next_of fuel (node_of (code t) g) (flatten next rest) here path u (pos a)
      ≡ get_node fuel
          (flatten next rest)
          (here + 1)
          path
          false
          u
          (pos (skipped u a (width t * g.count)))
next_of-leaf fuel t g next rest here path u a =
    >>=-some _ (get_node_size-first (leaf t g next) rest tt)
    ∙ ap₂ (λ h o. get_node fuel (flatten next rest) h path false u o) here_one
        (skip-pos u a (width t * g.count))
  where
    here_one : here + 1 + 0 ≡ here + 1
    here_one = omega arith

pub next_of-branch :
    (fuel : ℕ) (v : Bool) (o c : Tags) (children next : Forest) (rest : List Node) (here : ℕ)
    (path : List Symbol) (u : Bool) (a : ℕ)
    → next_of fuel
        (node_of (branch_code v) o)
        (flatten children (node_of kow_branch_end c ∷ flatten next rest))
        here
        path
        u
        (pos a)
      ≡ get_node fuel
          (flatten next rest)
          (here + (nodes children + 2))
          path
          false
          u
          (pos (skipped u a (extent v 0 children * o.count)))
next_of-branch fuel v o c children next rest here path u a =
    >>=-some _ (get_node_size-first (branch v o c children next) rest tt)
    ∙ rw (behind, skip-pos u a (extent v 0 children * o.count))
        (ap
          (λ h.
            get_node fuel (flatten next rest) h path false u
              (pos (skipped u a (extent v 0 children * o.count))))
          there)
  where
    behind :
        drop
          (nodes children + 2 - 1)
          (flatten children (node_of kow_branch_end c ∷ flatten next rest))
        ≡ flatten next rest
    behind =
        let e : nodes children + 2 - 1 ≡ nodes children + 1 = omega arith in
        rw (e, drop-add (nodes children) 1, drop-flatten children)

    there : here + 1 + (nodes children + 2 - 1) ≡ here + (nodes children + 2)
    there = omega arith

-- The node that the last symbol fits, once its offset without the index is known.
pub done_at-first :
    (elem count : ℕ) (m : Node) (rest : List Node) (y : Symbol) (a target : ℕ)
    → kowhai_get_node_size (m ∷ rest) ≡ some (pos (elem * count))
    → m.count ≡ count
    → y.array_index < count
    → done_at m rest y (pos a) target ≡ some (found (pos (a + elem * y.array_index)) target)
unfolding done_at
done_at-first elem count m rest y a target e k h =
    >>=-some _ e
    ∙ ap (λ o. some (found o target))
        (rw k (rw (pos-div, pos-*ℤ elem y.array_index) (pos-+ℤ a (elem * y.array_index))))
  where
    pos-div : div_ℕ (pos (elem * count)) count ≡ pos elem
    pos-div = unfold div_ℕ in ap pos (cancel elem count (omega arith))
