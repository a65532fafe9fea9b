-- ===== src/Server/Trees.antt =====
-- Trees of the server of teensy/usb_rawhid/kowhai/kowhai_protocol_server.c that are in its list.
use beaverbot.Prelude.{
  ℕ, suc, ◌≡◌, ◌≢◌, true, false, ◌==◌, some, List, [], ◌∷◌, Bool-cases, inl, inr, arith, refl, ap,
  ◌∙◌, Option, none,
}
use beaverbot.Server.{
  Server, TreeItem, get_tree_index, populate_tree, check_tree_id, find_tree, has_tree,
  kow_undefined_symbol, set_bytes, overwrite,
}

has_tree-find_tree :
    (ts : List TreeItem) (id i : ℕ) {r : ℕ × TreeItem}
    → find_tree ts id i ≡ some r
    → has_tree ts id ≡ true
has_tree-find_tree [] id i e = cc
has_tree-find_tree (t ∷ ts) id i e = elim (Bool-cases (t.list_id.id == id)) [
  | inl here ↦ rw here refl
  | inr not_here ↦ rw not_here (has_tree-find_tree ts id (suc i) (rw not_here at e))
]

module _ (s : Server) (id : ℕ) {i : ℕ} {t : TreeItem}
    (known : get_tree_index s id ≡ some (i, t)) where
  pub check_tree_id-known : check_tree_id s id ≡ true
  unfolding check_tree_id
  check_tree_id-known = has_tree-find_tree s.tree_list id 0 known

  pub populate_tree-known :
      id ≢ kow_undefined_symbol → populate_tree s id ≡ record { desc = t.desc; bytes = t.bytes }
  unfolding populate_tree
  populate_tree-known n =
      let e : (id == kow_undefined_symbol) ≡ false = ground arith in rw (e, known) refl

abbrev changed : List ℕ → ℕ × TreeItem → ℕ × TreeItem
changed bytes (k, t) = (k, record t { bytes = overwrite bytes t.bytes })

abbrev found_changed : List ℕ → Option (ℕ × TreeItem) → Option (ℕ × TreeItem)
found_changed bytes none = none
found_changed bytes (some r) = some (changed bytes r)

find_tree-set_bytes :
    (ts : List TreeItem) (id i : ℕ) (bytes : List ℕ)
    → find_tree (set_bytes id bytes ts) id i ≡ found_changed bytes (find_tree ts id i)
find_tree-set_bytes [] id i bytes = refl
find_tree-set_bytes (t ∷ ts) id i bytes = elim (Bool-cases (t.list_id.id == id)) [
  | inl here ↦ rw (here, here) refl
  | inr not_here ↦ rw (not_here, not_here) (find_tree-set_bytes ts id (suc i) bytes)
]

-- What is written to a tree of the list is found there.
pub populate_tree-set_bytes :
    (s : Server) (id : ℕ) {i : ℕ} {t : TreeItem} {before : List ℕ} (bytes : List ℕ)
    → get_tree_index s id ≡ some (i, t)
    → id ≢ kow_undefined_symbol
    → t.bytes ≡ some before
    → populate_tree (record s { tree_list = set_bytes id bytes s.tree_list }) id
      ≡ record { desc = t.desc; bytes = some bytes }
populate_tree-set_bytes s id {i} {t} bytes known n b =
    populate_tree-known (record s { tree_list = set_bytes id bytes s.tree_list }) id
      {t = record t { bytes = overwrite bytes t.bytes }}
      (find_tree-set_bytes s.tree_list id 0 bytes ∙ ap (found_changed bytes) known) n
    ∙ rw b refl
