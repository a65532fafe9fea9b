-- ===== src/Kowhai/Access/Hits.antt =====
-- What `kowhai_read` and `kowhai_write` of teensy/usb_rawhid/kowhai/kowhai.c find for a path into a
-- whole tree.
use beaverbot.Prelude.{
  ℕ, ◌+◌, ◌≤◌, ◌<◌, ◌≡◌, false, some, ◌>>=◌, List, [], ◌∷◌, length, drop, pos, negsuc, pos-+ℤ,
  ltb_ℤ, arith, ap, refl, ◌∙◌, >>=-some, ℤ, ◌+ℤ◌,
}
use beaverbot.Kowhai.{Node, Symbol, Tree, ok, node_data_too_small, invalid_offset}
use beaverbot.Kowhai.Forest.{Tags, Forest, leaf, branch, nil, flatten, code, branch_code, extent}
use beaverbot.Kowhai.Measure.{first_size, IsTree, kowhai_get_node_size-first}
use beaverbot.Kowhai.Size.{kowhai_get_node_size}
use beaverbot.Kowhai.Lookup.{found, kowhai_get_node}
use beaverbot.Kowhai.Resolve.{Hit, resolve}
use beaverbot.Kowhai.Resolve.Root.{root, kowhai_get_node-resolve}
use beaverbot.Kowhai.Resolve.Target.{resolve-IsAt}
use beaverbot.Kowhai.Bounds.{last, FitsIn, resolve-FitsIn}
use beaverbot.Kowhai.Access.{load, store, kowhai_read, kowhai_write, type_at}

-- A tree in memory whose root is a structure.
abbrev pub whole : (o c : Tags) (children : Forest) → List ℕ → Tree
whole o c children bytes = record { desc = flatten (root o c children) []; bytes = bytes }

abbrev pub first_type : Forest → ℕ
first_type nil = 0
first_type (leaf t g next) = code t
first_type (branch v o c children next) = branch_code v

first_type-flatten :
    (f : Forest) (rest : List Node) → IsTree f → type_at (flatten f rest) ≡ some (first_type f)
first_type-flatten nil rest h = absurd h
first_type-flatten (leaf t g next) rest h = refl
first_type-flatten (branch v o c children next) rest h = refl

zero_add : (n : ℕ) → 0 + n ≡ n
zero_add n = omega arith

not_less : {a b : ℕ} → a ≤ b → ltb_ℤ (pos b) (pos a) ≡ false
not_less k = ground arith

-- A read within the size of a node that was found returns no failure, whatever the tree.
read-found :
    (tree : Tree) (path : List Symbol) {offset : ℤ} {target total : ℕ} (off size : ℕ)
    → kowhai_get_node tree.desc path ≡ some (found offset target)
    → kowhai_get_node_size (drop target tree.desc) ≡ some (pos total)
    → size + off ≤ total
    → kowhai_read tree path (pos off) size
      ≡ (load tree.bytes (offset +ℤ pos off) size >>= λ b. some (ok, b))
unfolding kowhai_read
read-found tree path off size there sized k =
    >>=-some _ there ∙ >>=-some _ sized ∙ rw (pos-+ℤ size off, not_less k) refl

module _ (o c : Tags) (children : Forest) (y : Symbol) (ys : List Symbol) {h : Hit}
    (r : resolve false (root o c children) (y ∷ ys) ≡ some h) where
  pub hit-FitsIn : FitsIn (extent false 0 (root o c children)) (last y ys) h
  hit-FitsIn = resolve-FitsIn false (root o c children) y ys r

  pub get_node-hit :
      kowhai_get_node (flatten (root o c children) []) (y ∷ ys)
      ≡ some (found (pos h.offset) h.index)
  get_node-hit =
      kowhai_get_node-resolve o c children y ys ∙ rw (r, zero_add h.offset, zero_add h.index) refl

  pub size-hit :
      kowhai_get_node_size (drop h.index (flatten (root o c children) []))
      ≡ some (pos (first_size h.target))
  size-hit =
      let (b, e) = resolve-IsAt false (root o c children) [] y ys r in
      rw e (kowhai_get_node_size-first h.target b hit-FitsIn.is_tree)

  pub type-hit :
      type_at (drop h.index (flatten (root o c children) [])) ≡ some (first_type h.target)
  type-hit =
      let (b, e) = resolve-IsAt false (root o c children) [] y ys r in
      rw e (first_type-flatten h.target b hit-FitsIn.is_tree)

  -- A write that is let through, and one that is not.
  pub write-through :
      (bytes : List ℕ) (off : ℕ) (value : List ℕ)
      → length value + off ≤ first_size h.target
      → kowhai_write (whole o c children bytes) (y ∷ ys) (pos off) value
        ≡ (store bytes (pos (h.offset + off)) value >>= λ b. some (ok, whole o c children b))
  unfolding kowhai_write
  write-through bytes off value k =
      >>=-some _ get_node-hit
      ∙ >>=-some _ size-hit
      ∙ rw (pos-+ℤ (length value) off, not_less k)
          (ap (λ p. store bytes p value >>= λ b. some (ok, whole o c children b))
            (pos-+ℤ h.offset off))

  pub write-too_small :
      (bytes : List ℕ) (off : ℕ) (value : List ℕ)
      → first_size h.target < length value + off
      → kowhai_write (whole o c children bytes) (y ∷ ys) (pos off) value
        ≡ some (node_data_too_small, whole o c children bytes)
  unfolding kowhai_write
  write-too_small bytes off value k =
      >>=-some _ get_node-hit ∙ >>=-some _ size-hit ∙ rw (pos-+ℤ (length value) off) (ground arith)

  pub write-invalid_offset :
      (bytes : List ℕ) (n : ℕ) (value : List ℕ)
      → kowhai_write (whole o c children bytes) (y ∷ ys) (negsuc n) value
        ≡ some (invalid_offset, whole o c children bytes)
  unfolding kowhai_write
  write-invalid_offset bytes n value = >>=-some _ get_node-hit

  pub read-through :
      (bytes : List ℕ) (off size : ℕ)
      → size + off ≤ first_size h.target
      → kowhai_read (whole o c children bytes) (y ∷ ys) (pos off) size
        ≡ (load bytes (pos (h.offset + off)) size >>= λ b. some (ok, b))
  read-through bytes off size k =
      read-found (whole o c children bytes) (y ∷ ys) off size get_node-hit size-hit k
      ∙ ap (λ p. load bytes p size >>= λ b. some (ok, b)) (pos-+ℤ h.offset off)
