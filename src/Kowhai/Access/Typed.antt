-- ===== src/Kowhai/Access/Typed.antt =====
-- The typed accesses of teensy/usb_rawhid/kowhai/kowhai.c on a whole tree.
use beaverbot.Prelude.{
  ℕ, ◌+◌, ◌^◌, ◌≤◌, ◌<◌, ◌≡◌, Bool, true, false, some, List, ◌∷◌, length, arith, ◌∙◌, ap, refl,
  >>=-some, one_left, ◌≢◌,
}
use beaverbot.Kowhai.{Symbol, ok, invalid_node_type, Tree, Status}
use beaverbot.Kowhai.Forest.{
  Tags, Forest, extent, LeafType, code, leaf, width, int8, uint8, int16, uint16, int32, uint32,
  float, char, branch, branch_code, nil,
}
use beaverbot.Kowhai.Measure.{first_elem, first_count}
use beaverbot.Kowhai.Resolve.{Hit, resolve}
use beaverbot.Kowhai.Resolve.Root.{root}
use beaverbot.Kowhai.Bounds.{last}
use beaverbot.Kowhai.Access.{
  get_value, set_value, to_bytes, kowhai_get_int8, kowhai_set_int8, is_int8, kowhai_get_char,
  kowhai_set_char, Option, is_char, kowhai_get_int16, kowhai_set_int16, is_int16, kowhai_get_int32,
  kowhai_set_int32, is_int32, kowhai_get_float, kowhai_set_float, is_float,
}
use beaverbot.Kowhai.Access.Bytes.{
  Replaced, store-Replaced, load-Replaced, length-to_bytes, from_bytes-to_bytes,
}
use beaverbot.Kowhai.Access.Hits.{whole, first_type, hit-FitsIn, get_node-hit, type-hit}

module _ (o c : Tags) (children : Forest) (bytes : List ℕ) (y : Symbol) (ys : List Symbol) {h : Hit}
    (r : resolve false (root o c children) (y ∷ ys) ≡ some h) where
  -- A value that was set, at a target whose elements have its width and an accepted type.
  set_value-get_value :
      (accepts : ℕ → Bool) (w value : ℕ)
      → accepts (first_type h.target) ≡ true
      → first_elem h.target ≡ w
      → value < 256 ^ w
      → extent false 0 (root o c children) ≤ length bytes
      → (after : List ℕ) × (set_value accepts w (whole o c children bytes) (y ∷ ys) value
          ≡ some (ok, whole o c children after))
        × Replaced h.offset (to_bytes w value) bytes after
        × (get_value accepts w (whole o c children after) (y ∷ ys) ≡ some (ok, value))
  unfolding set_value get_value
  set_value-get_value accepts w value a e v b =
      let fit = hit-FitsIn o c children y ys r in
      let l = length-to_bytes w value in
      let inside : h.offset + length (to_bytes w value) ≤ length bytes = omega (
        arith,
        l,
        fit.in_size,
        one_left (first_elem h.target) (last y ys).array_index (first_count h.target) fit.in_array,
      ) in
      let (after, s, p) = store-Replaced bytes h.offset (to_bytes w value) inside in
      let q = load-Replaced h.offset (to_bytes w value) bytes after inside p in
      (
        after,
        >>=-some _ (get_node-hit o c children y ys r)
            ∙ >>=-some _ (type-hit o c children y ys r)
            ∙ rw a (>>=-some _ s),
        p,
        >>=-some _ (get_node-hit o c children y ys r)
            ∙ >>=-some _ (type-hit o c children y ys r)
            ∙ rw a
                (>>=-some _ (rw l at q) ∙ ap (λ n. some (ok, n)) (from_bytes-to_bytes w value v)),
      )

  set_value-invalid :
      (accepts : ℕ → Bool) (w value : ℕ)
      → accepts (first_type h.target) ≡ false
      → (set_value accepts w (whole o c children bytes) (y ∷ ys) value
          ≡ some (invalid_node_type, whole o c children bytes))
        × (get_value accepts w (whole o c children bytes) (y ∷ ys) ≡ some (invalid_node_type, 0))
  unfolding set_value get_value
  set_value-invalid accepts w value a = (
    >>=-some _ (get_node-hit o c children y ys r)
        ∙ >>=-some _ (type-hit o c children y ys r)
        ∙ rw a refl,
    >>=-some _ (get_node-hit o c children y ys r)
        ∙ >>=-some _ (type-hit o c children y ys r)
        ∙ rw a refl,
  )

-- The pair of accesses for a leaf of a type, and the node types that both take.
abbrev pub getter : LeafType → Tree → List Symbol → Option (Status × ℕ)
getter int8 = kowhai_get_int8
getter uint8 = kowhai_get_int8
getter char = kowhai_get_char
getter int16 = kowhai_get_int16
getter uint16 = kowhai_get_int16
getter int32 = kowhai_get_int32
getter uint32 = kowhai_get_int32
getter float = kowhai_get_float

abbrev pub setter : LeafType → Tree → List Symbol → ℕ → Option (Status × Tree)
setter int8 = kowhai_set_int8
setter uint8 = kowhai_set_int8
setter char = kowhai_set_char
setter int16 = kowhai_set_int16
setter uint16 = kowhai_set_int16
setter int32 = kowhai_set_int32
setter uint32 = kowhai_set_int32
setter float = kowhai_set_float

abbrev pub accepted : LeafType → ℕ → Bool
accepted int8 = is_int8
accepted uint8 = is_int8
accepted char = is_char
accepted int16 = is_int16
accepted uint16 = is_int16
accepted int32 = is_int32
accepted uint32 = is_int32
accepted float = is_float

getter-get_value : (t : LeafType) → getter t ≡ get_value (accepted t) (width t)
unfolding kowhai_get_int8 kowhai_get_char kowhai_get_int16 kowhai_get_int32 kowhai_get_float
getter-get_value int8 = refl
getter-get_value _ = refl

setter-set_value : (t : LeafType) → setter t ≡ set_value (accepted t) (width t)
unfolding kowhai_set_int8 kowhai_set_char kowhai_set_int16 kowhai_set_int32 kowhai_set_float
setter-set_value int8 = refl
setter-set_value _ = refl

accepted-code : (t : LeafType) → accepted t (code t) ≡ true
accepted-code int8 = refl
accepted-code _ = refl

-- The types that share their accesses: integers of one width, signed or not.
abbrev pub family : LeafType → ℕ
family int8 = 0
family uint8 = 0
family int16 = 1
family uint16 = 1
family int32 = 2
family uint32 = 2
family float = 3
family char = 4

-- A branch, or a leaf of another family than `t`.
abbrev pub IsForeign : LeafType → Forest → Type 0
IsForeign t nil = ⊥
IsForeign t (leaf t' g next) = family t' ≢ family t
IsForeign t (branch v o c children next) = Unit

accepted-leaf : (t t' : LeafType) → family t' ≢ family t → accepted t (code t') ≡ false
accepted-leaf int8 t' h = ground arith
accepted-leaf _ t' h = ground arith

accepted-branch : (t : LeafType) (v : Bool) → accepted t (branch_code v) ≡ false
accepted-branch int8 v = ground arith
accepted-branch _ v = ground arith

accepted-IsForeign : (t : LeafType) (f : Forest) → IsForeign t f → accepted t (first_type f) ≡ false
accepted-IsForeign t nil h = absurd h
accepted-IsForeign t (leaf t' g next) h = accepted-leaf t t' h
accepted-IsForeign t (branch v o c children next) h = accepted-branch t v

module _ (o c : Tags) (children : Forest) (bytes : List ℕ) (y : Symbol) (ys : List Symbol) where
  -- In a tree whose root is a structure and whose bytes are all there, a path that leads to a leaf of
  -- type `t` lets the setter for `t` store any value of the leaf's width: exactly the value's bytes,
  -- at the path's offset, change, and the getter for `t` then reads the value.
  pub setter-getter :
      (t : LeafType) (g : Tags) (next : Forest) (offset index value : ℕ)
      → resolve false (root o c children) (y ∷ ys)
        ≡ some (record { offset = offset; index = index; target = leaf t g next })
      → value < 256 ^ width t
      → extent false 0 (root o c children) ≤ length bytes
      → (after : List ℕ) × (setter t (whole o c children bytes) (y ∷ ys) value
          ≡ some (ok, whole o c children after))
        × Replaced offset (to_bytes (width t) value) bytes after
        × (getter t (whole o c children after) (y ∷ ys) ≡ some (ok, value))
  setter-getter t g next offset index value r v b =
      rw (getter-get_value t, setter-set_value t)
        (set_value-get_value o c children bytes y ys r (accepted t) (width t) value
          (accepted-code t) refl v b)

  -- In such a tree a path that leads to a branch, or to a leaf that is neither of type `t` nor an
  -- integer of the same width, makes both accesses for `t` return KOW_STATUS_INVALID_NODE_TYPE, and the
  -- setter changes nothing; for a character also the 8-bit integers are such leaves, and the other way
  -- round.
  pub access-invalid_type :
      (t : LeafType) (value : ℕ) {h : Hit}
      → resolve false (root o c children) (y ∷ ys) ≡ some h
      → IsForeign t h.target
      → (setter t (whole o c children bytes) (y ∷ ys) value
          ≡ some (invalid_node_type, whole o c children bytes))
        × (getter t (whole o c children bytes) (y ∷ ys) ≡ some (invalid_node_type, 0))
  access-invalid_type t value {h} r foreign =
      rw (getter-get_value t, setter-set_value t)
        (set_value-invalid o c children bytes y ys r (accepted t) (width t) value
          (accepted-IsForeign t h.target foreign))
