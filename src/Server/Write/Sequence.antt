-- ===== src/Server/Write/Sequence.antt =====
-- A write in its sequence, in teensy/usb_rawhid/kowhai/kowhai_protocol_server.c.
use beaverbot.Prelude.{
  ℕ, ◌≡◌, true, ltb, ◌==◌, if◌then◌else◌, Option, none, some, List, [], ◌∷◌, arith, refl, pos,
  Bool-cases, inl, inr, ℤ, ap,
}
use beaverbot.Kowhai.{ok}
use beaverbot.Protocol.{cmd_write_data_end}
use beaverbot.Server.{Server, Callbacks, TreeItem, Writing, Effect, pre_write, post_write, emit}
use beaverbot.Server.Write.{begin_at, note_write, begin_write}
use mathlib.Core.List.{append-nil}

-- Callbacks that leave the trees alone.
pub record IsQuiet (calls : Callbacks) : Type 0 where
  pub before_write :
      (id node : ℕ) (offset : ℤ) (ts : List TreeItem) → calls.node_pre_write id node offset ts ≡ ts
  pub after_write :
      (id node : ℕ) (offset : ℤ) (n : ℕ) (ts : List TreeItem)
      → calls.node_post_write id node offset n ts ≡ ts

-- The sequence that a write of a node belongs to: the current one, or a new one, which is announced.
abbrev pub sequence : (node offset : ℕ) → Option Writing → Writing
sequence node offset none = record { node = node; offset = pos offset; bytes_written = 0 }
sequence node offset (some w) = w

abbrev pub begins : (id node offset : ℕ) → Option Writing → List Effect
begins id node offset none = pre_write id node (pos offset) ∷ []
begins id node offset (some w) = []

abbrev pub begun : Server → (id node offset : ℕ) → Server
begun s id node offset =
    emit (record s { current_write = some (sequence node offset s.current_write) })
      (begins id node offset s.current_write)

-- The current sequence, if there is one, is of this node.
abbrev pub Follows : (node : ℕ) → Option Writing → Type 0
Follows node none = Unit
Follows node (some w) = w.node ≡ node

pub begin_write-begun :
    (calls : Callbacks) (s : Server) (id node offset : ℕ)
    → IsQuiet calls
    → Follows node s.current_write
    → begin_write calls s id node (pos offset)
      ≡ (ok, begun s id node offset, sequence node offset s.current_write)
unfolding begin_at begin_write
begin_write-begun calls s id node offset q = by_current s.current_write refl
  where
    by_current :
        (cw : Option Writing)
        → s.current_write ≡ cw
        → Follows node cw
        → begin_at calls s id node (pos offset) cw ≡ (
          ok,
          emit
              (record s { current_write = some (sequence node offset cw) })
              (begins id node offset cw),
          sequence node offset cw,
        )
    by_current none e f = rw (q.before_write id node (pos offset) s.tree_list) refl
    by_current (some w) e f =
        let same : (node == w.node) ≡ true = ground arith in
        rw (same, append-nil s.log) (ap (λ cw. (ok, record s { current_write = cw }, w)) e)

abbrev pub most : ℕ → Writing → ℕ
most written w = if ltb w.bytes_written written then written else w.bytes_written

-- After a write.
abbrev pub remains : (command written : ℕ) → Writing → Option Writing
remains command written w =
    if command == cmd_write_data_end
    then none
    else some (record w { bytes_written = most written w })

abbrev pub ends : (command id written : ℕ) → Writing → List Effect
ends command id written w =
    if command == cmd_write_data_end
    then post_write id w.node w.offset (most written w) ∷ []
    else []

pub note_write-noted :
    (calls : Callbacks) (s : Server) (command id written : ℕ) (w : Writing)
    → IsQuiet calls
    → note_write calls s command id written w
      ≡ emit (record s { current_write = remains command written w }) (ends command id written w)
unfolding note_write
note_write-noted calls s command id written w q =
    elim (Bool-cases (command == cmd_write_data_end)) [
      | inl end ↦ rw (end, q.after_write id w.node w.offset (most written w) s.tree_list) refl
      | inr more ↦ rw (more, append-nil s.log) refl
    ]
