-- ===== src/Server/Read/Reads.antt =====
-- Reads of nodes by teensy/usb_rawhid/kowhai/kowhai_protocol_server.c, as they are received.
use beaverbot.Prelude.{
  ℕ, ◌+◌, ◌-◌, ◌*◌, ◌/◌, ◌≤◌, ◌<◌, ◌≡◌, true, false, ltb, leb, some, List, [], ◌∷◌, length,
  length-take, length-drop, take, drop, drop-add, arith, refl, ap, ◌∙◌, pos, Bool-cases, inl,
  split_array, pos-*ℤ, pos--ℤ, inr, take-drop-take, div_ℕ, sym,
}
use beaverbot.Kowhai.{Symbol, Node, ok}
use beaverbot.Kowhai.Forest.{Tags, Forest, extent, flatten}
use beaverbot.Kowhai.Measure.{first_elem, first_count, first_size}
use beaverbot.Kowhai.Resolve.{Hit, resolve}
use beaverbot.Kowhai.Resolve.Root.{root}
use beaverbot.Kowhai.Bounds.{last}
use beaverbot.Kowhai.Access.{load, kowhai_read}
use beaverbot.Kowhai.Access.Hits.{whole, hit-FitsIn, read-through}
use beaverbot.Server.{TreePointers}
use beaverbot.Server.Read.{last_symbol, rest_size}
use native.Mathlib.Nat.{mul-div_cancel}
use beaverbot.Kowhai.Resolve.Target.{resolve-IsAt, flatten-first}

div_back : (e c : ℕ) → 0 < c → e * c / c ≡ e
div_back e c h = mul-div_cancel e h

-- The bytes from the picked element on.
pub rest_size-array :
    (e : ℕ) (n : Node) (y : Symbol)
    → y.array_index < n.count
    → rest_size (pos (e * n.count)) n y ≡ pos (e * (n.count - y.array_index))
unfolding rest_size div_ℕ
rest_size-array e n y h = elim (Bool-cases (ltb 1 n.count)) [
  | inl many ↦
      let s = split_array e y.array_index n.count h in
      rw
        (
          many,
          div_back e n.count (omega arith),
          pos-*ℤ e y.array_index,
          pos--ℤ (e * n.count) (e * y.array_index) (omega arith),
        )
        (ap pos (omega arith))
  | inr one ↦
      let c : n.count ≡ 1 = ground arith in
      let i : y.array_index ≡ 0 = omega arith in rw one (ap pos (rw (c, i) (omega arith)))
]

pub last_symbol-last : (y : Symbol) (ys : List Symbol) → last_symbol (y ∷ ys) ≡ some (last y ys)
last_symbol-last y [] = refl
last_symbol-last y (z ∷ ys) = last_symbol-last z ys

module _ (o c : Tags) (children : Forest) (address : ℕ) (bytes : List ℕ) (y : Symbol)
    (ys : List Symbol) {h : Hit} (found_at : resolve false (root o c children) (y ∷ ys) ≡ some h)
    (there : extent false 0 (root o c children) ≤ length bytes) where
  -- The bytes of the elements from the picked one on.
  abbrev pub picked : List ℕ
  picked =
      take (first_elem h.target * (first_count h.target - (last y ys).array_index))
        (drop h.offset bytes)

  abbrev pub pointers : TreePointers
  pointers = record {
    desc = some (record { address = address; nodes = flatten (root o c children) [] });
    bytes = some bytes;
  }

  pub length-picked :
      length picked ≡ first_elem h.target * (first_count h.target - (last y ys).array_index)
  length-picked =
      let fit = hit-FitsIn o c children y ys found_at in
      omega (
        arith,
        fit.in_size,
        length-take (first_elem h.target * (first_count h.target - (last y ys).array_index))
            (drop h.offset bytes),
        length-drop h.offset bytes,
      )

  pub read-picked :
      (offset size : ℕ)
      → offset + size ≤ length picked
      → kowhai_read (whole o c children bytes) (y ∷ ys) (pos offset) size
        ≡ some (ok, take size (drop offset picked))
  unfolding load
  read-picked offset size e =
      let fit = hit-FitsIn o c children y ys found_at in
      let l = length-picked in
      let s =
        split_array (first_elem h.target) (last y ys).array_index (first_count h.target)
          fit.in_array in
      let inside : leb (h.offset + offset + size) (length bytes) ≡ true =
        ground (arith, fit.in_size) in
      read-through o c children y ys found_at bytes offset size (omega arith)
      ∙ rw
          (
            inside,
            take-drop-take offset size
                (first_elem h.target * (first_count h.target - (last y ys).array_index))
                (drop h.offset bytes) (omega arith),
            drop-add h.offset offset bytes,
          )
          refl

  -- The node that the path leads to.
  pub node-picked :
      (n : Node) × (others : List Node) × (drop h.index (flatten (root o c children) [])
        ≡ n ∷ others)
      × (n.count ≡ first_count h.target)
      × (n.type < 256)
  node-picked =
      let fit = hit-FitsIn o c children y ys found_at in
      let (rest, e) = resolve-IsAt false (root o c children) [] y ys found_at in
      let (n, others, f, k, t) = flatten-first h.target rest fit.is_tree in (n, others, e ∙ f, k, t)

  pub rest-picked :
      (n : Node)
      → n.count ≡ first_count h.target
      → rest_size (pos (first_size h.target)) n (last y ys) ≡ pos (length picked)
  rest-picked n k =
      let fit = hit-FitsIn o c children y ys found_at in
      ap (λ v. rest_size (pos (first_elem h.target * v)) n (last y ys)) (sym k)
      ∙ rest_size-array (first_elem h.target) n (last y ys) (rw k fit.in_array)
      ∙ ap (λ v. pos (first_elem h.target * (v - (last y ys).array_index))) k
      ∙ ap pos (sym length-picked)
