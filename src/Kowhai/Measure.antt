-- ===== src/Kowhai/Measure.antt =====
-- `get_node_size` of teensy/usb_rawhid/kowhai/kowhai.c gives a well-formed descriptor's size.
use beaverbot.Prelude.{
  ℕ, suc, ◌+◌, ◌*◌, ◌<◌, ◌≡◌, refl, ◌∙◌, ap, Bool, true, false, Option, some, ◌>>=◌, >>=-some, List,
  ◌∷◌, pos, drop, arith, pos-+ℤ, pos-*ℤ, zero, ℤ, drop-add, length, ◌-◌,
}
use beaverbot.Kowhai.{Node, kow_branch_end}
use beaverbot.Kowhai.Size.{
  plain_size, accumulate, size_loop, get_node_size, kowhai_get_node_size, kowhai_get_node_count,
}
use beaverbot.Kowhai.Forest.{
  LeafType, code, width, Tags, Forest, nil, leaf, branch, node_of, branch_code, flatten, nodes,
  grow, extent, type_size-code, drop-flatten, int8, length-flatten,
}

accumulate-pos :
    (u : Bool) (s x : ℕ) → accumulate (branch_code u) (pos s) (pos x) ≡ pos (grow u s x)
accumulate-pos true s x = ground arith
accumulate-pos false s x = pos-+ℤ s x

plain_size-pos :
    (t : LeafType) (g : Tags) → plain_size (node_of (code t) g) ≡ pos (width t * g.count)
plain_size-pos t g = rw (type_size-code t) (pos-*ℤ (width t) g.count)

step-leaf :
    (fuel : ℕ) (n : Node) (t : LeafType) (g : Tags) (rest : List Node) (size : ℤ) (i : ℕ)
    → size_loop (suc fuel) n (node_of (code t) g ∷ rest) size i
      ≡ size_loop fuel n rest (accumulate n.type size (plain_size (node_of (code t) g))) (i + 1)
unfolding size_loop
step-leaf fuel n int8 g rest size i = refl
step-leaf fuel n _ g rest size i = refl

step-branch :
    (fuel : ℕ) (n : Node) (u : Bool) (o : Tags) (rest : List Node) (size : ℤ) (i : ℕ)
    → size_loop (suc fuel) n (node_of (branch_code u) o ∷ rest) size i ≡ (
        size_loop fuel (node_of (branch_code u) o) rest (pos 0) 0 >>= λ r.
        size_loop fuel n (drop r.1 rest) (accumulate n.type size r.0) (i + 1 + r.1))
unfolding size_loop
step-branch fuel n true o rest size i = refl
step-branch fuel n false o rest size i = refl

same_size : (z : ℤ) {a b : ℕ} → a ≡ b → ◌≡◌ {A = Option (ℤ × ℕ)} (some (z, a)) (some (z, b))
same_size z e = ap (λ k. some (z, k)) e

skip-flatten :
    (f : Forest) (c : Tags) (rest : List Node)
    → drop (0 + nodes f + 1) (flatten f (node_of kow_branch_end c ∷ rest)) ≡ rest
skip-flatten f c rest =
    let e : 0 + nodes f + 1 ≡ nodes f + 1 = omega arith in
    rw (e, drop-add (nodes f) 1, drop-flatten f)

-- A branch's loop over its members, its closing node and what lies behind it.
pub size_loop-extent :
    (f : Forest) (fuel : ℕ) (u : Bool) (o c : Tags) (rest : List Node) (s i : ℕ)
    → nodes f < fuel
    → size_loop fuel
        (node_of (branch_code u) o)
        (flatten f (node_of kow_branch_end c ∷ rest))
        (pos s)
        i
      ≡ some (pos (extent u s f * o.count), i + nodes f + 1)
size_loop-extent f zero u o c rest s i h = absurd (omega arith)
size_loop-extent nil (suc fuel) u o c rest s i h =
    unfold size_loop in ground (arith, pos-*ℤ s o.count)
size_loop-extent (leaf t g next) (suc fuel) u o c rest s i h =
    step-leaf fuel _ t g _ (pos s) i
    ∙ rw (plain_size-pos t g, accumulate-pos u s (width t * g.count))
        (size_loop-extent next fuel u o c rest (grow u s (width t * g.count)) (i + 1) (omega arith)
          ∙ same_size _ (omega arith))
size_loop-extent (branch v o' c' children next) (suc fuel) u o c rest s i h =
    step-branch fuel _ v o' _ (pos s) i
    ∙ >>=-some _ (
        size_loop-extent children fuel v o' c' (flatten next (node_of kow_branch_end c ∷ rest)) 0 0
          (omega arith))
    ∙ rw
        (
          skip-flatten children c' (flatten next (node_of kow_branch_end c ∷ rest)),
          accumulate-pos u s (extent v 0 children * o'.count),
        )
        (size_loop-extent next fuel u o c rest (grow u s (extent v 0 children * o'.count))
            (i + 1 + (0 + nodes children + 1)) (omega arith)
          ∙ same_size _ (omega arith))

-- The size and the nodes of the first tree of a forest.
abbrev pub first_elem : Forest → ℕ
first_elem nil = 0
first_elem (leaf t g next) = width t
first_elem (branch v o c children next) = extent v 0 children

abbrev pub first_count : Forest → ℕ
first_count nil = 0
first_count (leaf t g next) = g.count
first_count (branch v o c children next) = o.count

abbrev pub first_size : Forest → ℕ
first_size f = first_elem f * first_count f

abbrev pub first_nodes : Forest → ℕ
first_nodes nil = 0
first_nodes (leaf t g next) = 1
first_nodes (branch v o c children next) = nodes children + 2

abbrev pub IsTree : Forest → Type 0
IsTree nil = ⊥
IsTree (leaf t g next) = Unit
IsTree (branch v o c children next) = Unit

get_node_size-leaf :
    (t : LeafType) (g : Tags) (rest : List Node)
    → get_node_size (node_of (code t) g ∷ rest) ≡ some (plain_size (node_of (code t) g), 0)
unfolding get_node_size
get_node_size-leaf int8 g rest = refl
get_node_size-leaf _ g rest = refl

get_node_size-branch :
    (v : Bool) (o : Tags) (rest : List Node)
    → get_node_size (node_of (branch_code v) o ∷ rest)
      ≡ size_loop (length rest) (node_of (branch_code v) o) rest (pos 0) 0
unfolding get_node_size
get_node_size-branch true o rest = refl
get_node_size-branch false o rest = refl

-- At the first node of a tree the code finds the tree's size, and how many nodes follow the first.
pub get_node_size-first :
    (f : Forest) (rest : List Node)
    → IsTree f
    → get_node_size (flatten f rest) ≡ some (pos (first_size f), first_nodes f - 1)
get_node_size-first nil rest h = absurd h
get_node_size-first (leaf t g next) rest h =
    get_node_size-leaf t g _ ∙ rw (plain_size-pos t g) (same_size _ (omega arith))
get_node_size-first (branch v o c children next) rest h =
    get_node_size-branch v o _
    ∙ size_loop-extent children _ v o c (flatten next rest) 0 0
        (omega (arith, length-flatten children (node_of kow_branch_end c ∷ flatten next rest)))
    ∙ same_size _ (omega arith)

pub kowhai_get_node_size-first :
    (f : Forest) (rest : List Node)
    → IsTree f
    → kowhai_get_node_size (flatten f rest) ≡ some (pos (first_size f))
unfolding kowhai_get_node_size
kowhai_get_node_size-first f rest h = >>=-some _ (get_node_size-first f rest h)

-- The size and the node count of a tree in a well-formed descriptor, whatever follows it.
pub size_and_count-first :
    (f : Forest) (rest : List Node)
    → IsTree f
    → (kowhai_get_node_size (flatten f rest) ≡ some (pos (first_size f)))
      × (kowhai_get_node_count (flatten f rest) ≡ some (first_nodes f))
unfolding kowhai_get_node_count
size_and_count-first f rest h = (
  kowhai_get_node_size-first f rest h,
  >>=-some _ (get_node_size-first f rest h) ∙ ap some (positive f h),
)
  where
    positive : (f : Forest) → IsTree f → first_nodes f - 1 + 1 ≡ first_nodes f
    positive nil h = absurd h
    positive (leaf t g next) h = refl
    positive (branch v o c children next) h = omega arith
