-- ===== src/Kowhai/Forest.antt =====
-- Well-formed descriptors as trees: what the flat node lists of
-- teensy/usb_rawhid/kowhai/kowhai.h stand for, and their sizes by recursion.
use beaverbot.Prelude.{
  ℕ, suc, ◌+◌, ◌*◌, ◌≡◌, refl, Bool, true, false, List, ◌∷◌, max, if◌then◌else◌, pos, drop, arith,
  length, drop-add,
}
use beaverbot.Kowhai.{
  Node, kow_branch_start, kow_branch_end, kow_branch_u_start, kow_int8, kow_uint8, kow_int16,
  kow_uint16, kow_int32, kow_uint32, kow_float, kow_char, kowhai_get_node_type_size,
}

pub data LeafType : Type 0 where
  int8 uint8 int16 uint16 int32 uint32 float char : LeafType

abbrev pub code : LeafType → ℕ
code int8 = kow_int8
code uint8 = kow_uint8
code int16 = kow_int16
code uint16 = kow_uint16
code int32 = kow_int32
code uint32 = kow_uint32
code float = kow_float
code char = kow_char

abbrev pub width : LeafType → ℕ
width int8 = 1
width uint8 = 1
width char = 1
width int16 = 2
width uint16 = 2
width int32 = 4
width uint32 = 4
width float = 4

-- A branch's first node and its last one, but for their types.
pub record Tags : Type 0 where
  pub symbol : ℕ
  pub count : ℕ
  pub tag : ℕ

-- Trees side by side: a leaf or a branch, and those after it. A branch is a union or a structure,
-- and has an opening and a closing node.
pub data Forest : Type 0 where
  nil : Forest
  leaf : (t : LeafType) (g : Tags) (next : Forest) → Forest
  branch : (union : Bool) (opening closing : Tags) (children next : Forest) → Forest

abbrev pub node_of : ℕ → Tags → Node
node_of type g = record { type = type; symbol = g.symbol; count = g.count; tag = g.tag }

abbrev pub branch_code : Bool → ℕ
branch_code true = kow_branch_u_start
branch_code false = kow_branch_start

abbrev pub flatten : Forest → List Node → List Node
flatten nil rest = rest
flatten (leaf t g next) rest = node_of (code t) g ∷ flatten next rest
flatten (branch u o c children next) rest =
    node_of (branch_code u) o ∷ flatten children (node_of kow_branch_end c ∷ flatten next rest)

abbrev pub nodes : Forest → ℕ
nodes nil = 0
nodes (leaf t g next) = suc (nodes next)
nodes (branch u o c children next) = suc (nodes children + suc (nodes next))

-- A structure's members follow one another, a union's lie on one another.
abbrev pub grow : Bool → ℕ → ℕ → ℕ
grow u size child = if u then max size child else size + child

-- The size of one element of a branch, `size` being that of the members before.
abbrev pub extent : Bool → ℕ → Forest → ℕ
extent u size nil = size
extent u size (leaf t g next) = extent u (grow u size (width t * g.count)) next
extent u size (branch v o c children next) =
    extent u (grow u size (extent v 0 children * o.count)) next

pub type_size-code : (t : LeafType) → kowhai_get_node_type_size (code t) ≡ pos (width t)
unfolding kowhai_get_node_type_size
type_size-code int8 = refl
type_size-code _ = refl

pub drop-flatten : (f : Forest) (rest : List Node) → drop (nodes f) (flatten f rest) ≡ rest
drop-flatten nil rest = refl
drop-flatten (leaf t g next) rest = drop-flatten next rest
drop-flatten (branch u o c children next) rest =
    rw (drop-add (nodes children) (suc (nodes next)), drop-flatten children)
      (drop-flatten next rest)

pub length-flatten :
    (f : Forest) (rest : List Node) → length (flatten f rest) ≡ nodes f + length rest
length-flatten nil rest = omega arith
length-flatten (leaf t g next) rest = omega (arith, length-flatten next rest)
length-flatten (branch u o c children next) rest = omega (
  arith,
  length-flatten children (node_of kow_branch_end c ∷ flatten next rest),
  length-flatten next rest,
)
