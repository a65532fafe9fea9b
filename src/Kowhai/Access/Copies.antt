-- ===== src/Kowhai/Access/Copies.antt =====
-- What `kowhai_read` and `kowhai_write` of teensy/usb_rawhid/kowhai/kowhai.c do to a whole tree.
use beaverbot.Prelude.{
  ℕ, ◌+◌, ◌*◌, ◌-◌, ◌≤◌, ◌<◌, ◌≡◌, false, some, List, ◌∷◌, length, pos, negsuc, arith, ◌∙◌,
  >>=-some, split_array, positive_product,
}
use beaverbot.Kowhai.{Symbol, ok, node_data_too_small, invalid_offset}
use beaverbot.Kowhai.Forest.{Tags, Forest, extent}
use beaverbot.Kowhai.Measure.{first_size, first_elem, first_count}
use beaverbot.Kowhai.Resolve.{Hit, resolve}
use beaverbot.Kowhai.Resolve.Root.{root}
use beaverbot.Kowhai.Bounds.{last}
use beaverbot.Kowhai.Access.{kowhai_read, kowhai_write}
use beaverbot.Kowhai.Access.Bytes.{Replaced, store-Replaced, load-Replaced}
use beaverbot.Kowhai.Access.Hits.{
  whole, hit-FitsIn, write-through, write-too_small, write-invalid_offset, read-through,
}

module _ (o c : Tags) (children : Forest) (bytes : List ℕ) (y : Symbol) (ys : List Symbol) {h : Hit}
    (r : resolve false (root o c children) (y ∷ ys) ≡ some h) where
  -- In a tree whose root is a structure and whose bytes are all there, a write at a path that
  -- leads somewhere, which stays between the element that the path picks and the end of that
  -- element's array, is carried out: the bytes are `value` at the path's offset plus the write's,
  -- all others are unchanged, and a read of the same place gives `value`.
  pub write-read :
      (off : ℕ) (value : List ℕ)
      → extent false 0 (root o c children) ≤ length bytes
      → off + length value ≤ first_elem h.target * (first_count h.target - (last y ys).array_index)
      → (after : List ℕ) × (kowhai_write (whole o c children bytes) (y ∷ ys) (pos off) value
          ≡ some (ok, whole o c children after))
        × Replaced (h.offset + off) value bytes after
        × (kowhai_read (whole o c children after) (y ∷ ys) (pos off) (length value)
            ≡ some (ok, value))
  write-read off value b k =
      let fit = hit-FitsIn o c children y ys r in
      let inside : h.offset + off + length value ≤ length bytes = omega (arith, fit.in_size) in
      let small : length value + off ≤ first_size h.target = omega (
        arith,
        split_array (first_elem h.target) (last y ys).array_index (first_count h.target)
            fit.in_array,
      ) in
      let (after, s, p) = store-Replaced bytes (h.offset + off) value inside in
      (
        after,
        write-through o c children y ys r bytes off value small ∙ >>=-some _ s,
        p,
        read-through o c children y ys r after off (length value) small
            ∙ >>=-some _ (load-Replaced (h.offset + off) value bytes after inside p),
      )

  -- A write at a path that leads somewhere is refused with KOW_STATUS_INVALID_OFFSET if its offset is
  -- negative, and with KOW_STATUS_NODE_DATA_TOO_SMALL if it ends behind the size of the target's whole
  -- array; the tree is unchanged in both cases.
  pub write-refused :
      (n off : ℕ) (value : List ℕ)
      → first_size h.target < off + length value
      → (kowhai_write (whole o c children bytes) (y ∷ ys) (negsuc n) value
          ≡ some (invalid_offset, whole o c children bytes))
        × (kowhai_write (whole o c children bytes) (y ∷ ys) (pos off) value
            ≡ some (node_data_too_small, whole o c children bytes))
  write-refused n off value k = (
    write-invalid_offset o c children y ys r bytes n value,
    write-too_small o c children y ys r bytes off value (omega arith),
  )

  -- The size check of a write does not take the path's array index into account. Where the last index
  -- is not zero and the element not empty, a write of the whole array's size is carried out from the
  -- picked element on, if the memory is there, and so ends behind the array.
  pub write-overruns :
      (value : List ℕ)
      → h.offset + first_size h.target ≤ length bytes
      → length value ≡ first_size h.target
      → 0 < (last y ys).array_index
      → 0 < first_elem h.target
      → (after : List ℕ) × (kowhai_write (whole o c children bytes) (y ∷ ys) (pos 0) value
          ≡ some (ok, whole o c children after))
        × Replaced (h.offset + 0) value bytes after
        × (h.offset + first_elem h.target * (first_count h.target - (last y ys).array_index)
            < h.offset + 0 + length value)
  write-overruns value b l i e =
      let fit = hit-FitsIn o c children y ys r in
      let inside : h.offset + 0 + length value ≤ length bytes = omega arith in
      let small : length value + 0 ≤ first_size h.target = omega arith in
      let (after, s, p) = store-Replaced bytes (h.offset + 0) value inside in
      (
        after,
        write-through o c children y ys r bytes 0 value small ∙ >>=-some _ s,
        p,
        omega (
          arith,
          split_array (first_elem h.target) (last y ys).array_index (first_count h.target)
              fit.in_array,
          positive_product (first_elem h.target) (last y ys).array_index e i,
        ),
      )
