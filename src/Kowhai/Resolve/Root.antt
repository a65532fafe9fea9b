-- ===== src/Kowhai/Resolve/Root.antt =====
-- `kowhai_get_node` of teensy/usb_rawhid/kowhai/kowhai.c on a whole descriptor.
use beaverbot.Prelude.{
  ℕ, suc, ◌≡◌, true, false, some, ◌>>=◌, List, [], ◌∷◌, pos, ◌+ℤ◌, arith, ◌∙◌, refl, inl, inr,
  Bool-cases, Option-cases, length,
}
use beaverbot.Kowhai.{Node, Symbol, kow_branch_end, invalid_symbol_path}
use beaverbot.Kowhai.Lookup.{done_at, get_node, failed, found, kowhai_get_node}
use beaverbot.Kowhai.Forest.{
  Tags, node_of, Forest, branch_code, flatten, branch, nil, extent, length-flatten,
}
use beaverbot.Kowhai.Resolve.{fits, resolve, resolve-unfit, resolve-missed, resolve-hit}
use beaverbot.Kowhai.Measure.{kowhai_get_node_size-first}
use beaverbot.Kowhai.Resolve.Find.{to_lookup, done-hit, get_node-resolve, fits-lt}
use beaverbot.Kowhai.Resolve.Find.Steps.{done_at-first}

step-root_last :
    (fuel : ℕ) (o : Tags) (rest : List Node) (y : Symbol)
    → get_node (suc fuel) (node_of (branch_code false) o ∷ rest) 0 (y ∷ []) true false (pos 0)
      ≡ elim (fits y o) [
        | true ↦ done_at (node_of (branch_code false) o) rest y (pos 0) 0
        | false ↦ some (failed invalid_symbol_path)
      ]
unfolding get_node
step-root_last fuel o rest y = ground arith

step-root_inner :
    (fuel : ℕ) (o : Tags) (rest : List Node) (y z : Symbol) (zs : List Symbol)
    → get_node (suc fuel) (node_of (branch_code false) o ∷ rest) 0 (y ∷ z ∷ zs) true false (pos 0)
      ≡ elim (fits y o) [
        | false ↦ some (failed invalid_symbol_path)
        | true ↦ get_node fuel rest 1 (z ∷ zs) false false (pos 0) >>= elim [
          | failed s ↦ some (failed invalid_symbol_path)
          | found off target ↦ done_at (node_of (branch_code false) o) rest y (pos 0 +ℤ off) target
        ]
      ]
unfolding get_node
step-root_inner fuel o rest y z zs = ground arith

at_root :
    (o : Tags) (rest : List Node) (path : List Symbol)
    → kowhai_get_node (node_of (branch_code false) o ∷ rest) path
      ≡ get_node
          (suc (length rest))
          (node_of (branch_code false) o ∷ rest)
          0
          path
          true
          false
          (pos 0)
unfolding kowhai_get_node
at_root o rest path = refl

-- The descriptor of a tree, whose root is a structure.
module _ (o c : Tags) (children : Forest) where
  abbrev pub root : Forest
  root = branch false o c children nil

  root-last :
      (y : Symbol)
      → kowhai_get_node (flatten root []) (y ∷ [])
        ≡ some (to_lookup 0 0 (resolve false root (y ∷ [])))
  unfolding resolve
  root-last y = at_root o _ (y ∷ []) ∙ step-root_last _ o _ y ∙ elim (Bool-cases (fits y o)) [
    | inl e ↦ rw e (
        done_at-first (extent false 0 children) o.count _ _ y 0 0
          (kowhai_get_node_size-first root [] tt) refl (fits-lt y o e))
    | inr e ↦ rw e refl
  ]

  root-inner :
      (y z : Symbol) (zs : List Symbol)
      → kowhai_get_node (flatten root []) (y ∷ z ∷ zs)
        ≡ some (to_lookup 0 0 (resolve false root (y ∷ z ∷ zs)))
  unfolding resolve
  root-inner y z zs =
      at_root o _ (y ∷ z ∷ zs) ∙ step-root_inner _ o _ y z zs ∙ elim (Bool-cases (fits y o)) [
        | inr e ↦ rw (e, resolve-unfit false false o c children nil y z zs e) refl
        | inl e ↦
            rw (e, inner)
              (elim (Option-cases (resolve false children (z ∷ zs))) [
                | inl n ↦ rw (n, resolve-missed false false o c children nil y z zs e n) refl
                | inr (h, s) ↦
                    rw (s, resolve-hit false false o c children nil y z zs e s)
                      (done-hit 0 false o c children nil [] 0 y 0 h e)
              ])
      ]
    where
      inner :
          get_node
            (length (flatten children (node_of kow_branch_end c ∷ [])))
            (flatten children (node_of kow_branch_end c ∷ []))
            1
            (z ∷ zs)
            false
            false
            (pos 0)
          ≡ some (to_lookup 0 1 (resolve false children (z ∷ zs)))
      inner =
          get_node-resolve children _ false c [] 1 z zs 0
            (omega (arith, length-flatten children (node_of kow_branch_end c ∷ [])))

  -- In a whole descriptor, whose root is a structure, the code finds exactly what the path means:
  -- the offset and the index of its hit, or KOW_STATUS_INVALID_SYMBOL_PATH when there is none.
  pub kowhai_get_node-resolve :
      (y : Symbol) (ys : List Symbol)
      → kowhai_get_node (flatten root []) (y ∷ ys)
        ≡ some (to_lookup 0 0 (resolve false root (y ∷ ys)))
  kowhai_get_node-resolve y [] = root-last y
  kowhai_get_node-resolve y (z ∷ zs) = root-inner y z zs
