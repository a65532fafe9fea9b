-- ===== src/Server/Keeps.antt =====
-- What the calls of teensy/usb_rawhid/kowhai/kowhai_protocol_server.c keep of the server.
use beaverbot.Prelude.{
  ℕ, zero, suc, ◌+◌, ◌≤◌, ◌<◌, ◌≡◌, Bool, true, false, ◌==◌, ltb, leb, if◌then◌else◌, Option, none,
  some, ◌>>=◌, List, [], ◌∷◌, ◌++◌, length, map, Bool-cases, inl, inr, ◌⊎◌, arith, refl, ap, ◌∙◌,
  sym, ℤ, ◌≢◌,
}
use beaverbot.Kowhai.{Status, Tree, Symbol, ok}
use beaverbot.Server.{
  ListId, Descriptor, TreeItem, FunctionItem, Server, Callbacks, Effect, TreePointers, emit,
  find_tree, set_bytes, overwrite, bytes_of, populate_tree, pointers_of, get_tree_index,
  kow_undefined_symbol, Writing,
}
use mathlib.Core.List.{append_assoc, append-nil}
pub mod Sends
pub mod Writes
pub mod Calls

-- A tree but for the values of its bytes.
pub record Shape : Type 0 where
  pub list_id : ListId
  pub desc : Option Descriptor
  pub descriptor_size : ℕ
  pub size : Option ℕ

abbrev pub size_of : Option (List ℕ) → Option ℕ
size_of none = none
size_of (some bytes) = some (length bytes)

abbrev pub shape : TreeItem → Shape
shape t = record {
  list_id = t.list_id;
  desc = t.desc;
  descriptor_size = t.descriptor_size;
  size = size_of t.bytes;
}

abbrev pub shapes : List TreeItem → List Shape
shapes [] = []
shapes (t ∷ ts) = shape t ∷ shapes ts

-- The configuration and the shapes of the trees are the same, and what was done before is not undone.
pub record Keeps (s s' : Server) : Type 0 where
  pub limit : s'.max_packet_size ≡ s.max_packet_size
  pub tree_ids : s'.tree_id_list ≡ s.tree_id_list
  pub functions : s'.function_list ≡ s.function_list
  pub function_ids : s'.function_id_list ≡ s.function_id_list
  pub symbols : s'.symbol_list ≡ s.symbol_list
  pub trees : shapes s'.tree_list ≡ shapes s.tree_list
  pub more : List Effect
  pub extended : s'.log ≡ s.log ++ more

-- So do the application's callbacks.
pub record IsKeeping (calls : Callbacks) : Type 0 where
  pub pre :
      (id node : ℕ) (offset : ℤ) (ts : List TreeItem)
      → shapes (calls.node_pre_write id node offset ts) ≡ shapes ts
  pub post :
      (id node : ℕ) (offset : ℤ) (n : ℕ) (ts : List TreeItem)
      → shapes (calls.node_post_write id node offset n ts) ≡ shapes ts
  pub call : (id : ℕ) (ts : List TreeItem) → shapes (calls.function_called id ts).1 ≡ shapes ts

pub Keeps-trans : {a b c : Server} → Keeps a b → Keeps b c → Keeps a c
Keeps-trans {a} {b} {c} k l = record {
  limit = l.limit ∙ k.limit;
  tree_ids = l.tree_ids ∙ k.tree_ids;
  functions = l.functions ∙ k.functions;
  function_ids = l.function_ids ∙ k.function_ids;
  symbols = l.symbols ∙ k.symbols;
  trees = l.trees ∙ k.trees;
  more = k.more ++ l.more;
  extended = l.extended ∙ ap (λ log. log ++ l.more) k.extended ∙ append_assoc a.log k.more l.more;
}

-- Other trees of the same shapes, another current write and more effects.
pub Keeps-changed :
    (s : Server) (ts : List TreeItem) (w : Option Writing) (effects : List Effect)
    → shapes ts ≡ shapes s.tree_list
    → Keeps s (emit (record s { tree_list = ts; current_write = w }) effects)
Keeps-changed s ts w effects e = record {
  limit = refl;
  tree_ids = refl;
  functions = refl;
  function_ids = refl;
  symbols = refl;
  trees = e;
  more = effects;
  extended = refl;
}

pub Keeps-quietly :
    (s : Server) (ts : List TreeItem) (w : Option Writing)
    → shapes ts ≡ shapes s.tree_list
    → Keeps s (record s { tree_list = ts; current_write = w })
Keeps-quietly s ts w e = record {
  limit = refl;
  tree_ids = refl;
  functions = refl;
  function_ids = refl;
  symbols = refl;
  trees = e;
  more = [];
  extended = sym (append-nil s.log);
}

-- If it comes to an end.
abbrev pub Holds : Server → Option Server → Type 0
Holds s none = Unit
Holds s (some s') = Keeps s s'

pub Holds-after : {s s' : Server} (r : Option Server) → Keeps s s' → Holds s' r → Holds s r
Holds-after none k h = tt
Holds-after (some s'') k h = Keeps-trans k h

pub chain {ℓ} :
    {A : Type ℓ} (s : Server) (m : Option A) (f : A → Option Server)
    → ((a : A) → m ≡ some a → Holds s (f a))
    → Holds s (m >>= f)
chain s none f h = tt
chain s (some a) f h = h a refl

pub chain_server :
    (s : Server) (m : Option Server) (f : Server → Option Server)
    → Holds s m
    → ((s' : Server) → Holds s' (f s'))
    → Holds s (m >>= f)
chain_server s none f h k = tt
chain_server s (some s') f h k = Holds-after (f s') h (k s')

pub Holds-if :
    (s : Server) (b : Bool) (x z : Option Server)
    → Holds s x
    → Holds s z
    → Holds s (if b then x else z)
Holds-if s true x z h k = h
Holds-if s false x z h k = k

overwrite-shape :
    (t : TreeItem) (bytes : List ℕ)
    → length bytes ≡ length (bytes_of t.bytes)
    → shape (record t { bytes = overwrite bytes t.bytes }) ≡ shape t
overwrite-shape t bytes e = ap (λ n. record (shape t) { size = n }) (same t.bytes e)
  where
    same :
        (o : Option (List ℕ))
        → length bytes ≡ length (bytes_of o)
        → size_of (overwrite bytes o) ≡ size_of o
    same none e = refl
    same (some before) e = ap some e

set_bytes-shapes :
    (ts : List TreeItem) (id i : ℕ) (bytes : List ℕ)
    → ((k : ℕ) (t : TreeItem)
        → find_tree ts id i ≡ some (k, t)
        → length bytes ≡ length (bytes_of t.bytes))
    → shapes (set_bytes id bytes ts) ≡ shapes ts
set_bytes-shapes [] id i bytes h = refl
set_bytes-shapes (t ∷ ts) id i bytes h = elim (Bool-cases (t.list_id.id == id)) [
  | inl here ↦ rw here (ap (λ x. x ∷ shapes ts) (overwrite-shape t bytes (h i t (rw here refl))))
  | inr not_here ↦ rw not_here (
      ap (λ l. shape t ∷ l)
        (set_bytes-shapes ts id (suc i) bytes (λ k t' e. h k t' (rw not_here e))))
]

-- A tree's bytes are replaced by as many.
pub populated-shapes :
    (s : Server) (id : ℕ) (bytes : List ℕ)
    → id ≢ kow_undefined_symbol
    → length bytes ≡ length (bytes_of (populate_tree s id).bytes)
    → shapes (set_bytes id bytes s.tree_list) ≡ shapes s.tree_list
unfolding populate_tree
populated-shapes s id bytes n e =
    let d : (id == kow_undefined_symbol) ≡ false = ground arith in
    set_bytes-shapes s.tree_list id 0 bytes (λ k t found. (rw (d, found) at e))

pub undefined-null :
    (s : Server) → populate_tree s kow_undefined_symbol ≡ record { desc = none; bytes = none }
unfolding populate_tree
undefined-null s = refl
