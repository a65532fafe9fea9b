-- ===== src/Kowhai/Access/Bytes.antt =====
-- The copies of teensy/usb_rawhid/kowhai/kowhai.c into and out of a tree's bytes.
use beaverbot.Prelude.{
  ℕ, zero, suc, ◌+◌, ◌*◌, ◌/◌, ◌^◌, ◌≤◌, ◌<◌, ◌≡◌, some, List, [], ◌∷◌, ◌++◌, length, take, drop,
  pos, arith, ap, refl, length-append, length-drop, take-append, drop-append,
}
use beaverbot.Kowhai.Access.{load, store, from_bytes, to_bytes}

-- `value` lies at `at`, and all else is as before.
pub record Replaced (at : ℕ) (value before after : List ℕ) : Type 0 where
  pub ahead : take at after ≡ take at before
  pub written : take (length value) (drop at after) ≡ value
  pub behind : drop (at + length value) after ≡ drop (at + length value) before
  pub same_length : length after ≡ length before

abbrev pub splice : ℕ → List ℕ → List ℕ → List ℕ
splice at value bytes = take at bytes ++ (value ++ drop (at + length value) bytes)

splice-Replaced :
    (at : ℕ) (value bytes : List ℕ)
    → at + length value ≤ length bytes
    → Replaced at value bytes (splice at value bytes)
splice-Replaced zero value bytes h =
    let e : 0 + length value ≡ length value = omega arith in
    record {
      ahead = refl;
      written = take-append value _;
      behind = rw e (drop-append value _);
      same_length = rw e (
          omega (
            arith,
            length-append value (drop (length value) bytes),
            length-drop (length value) bytes,
          ));
    }
splice-Replaced (suc at) value [] h = absurd (omega arith)
splice-Replaced (suc at) value (b ∷ bytes) h =
    let r = splice-Replaced at value bytes (omega arith) in
    let e : suc at + length value ≡ suc (at + length value) = omega arith in
    rw e (record {
      ahead = ap (λ l. b ∷ l) r.ahead;
      written = r.written;
      behind = rw e r.behind;
      same_length = ap suc r.same_length;
    })

pub store-Replaced :
    (bytes : List ℕ) (at : ℕ) (value : List ℕ)
    → at + length value ≤ length bytes
    → (after : List ℕ) × (store bytes (pos at) value ≡ some after) × Replaced at value bytes after
unfolding store
store-Replaced bytes at value h =
    (splice at value bytes, ground arith, splice-Replaced at value bytes h)

-- What was written is read back.
pub load-Replaced :
    (at : ℕ) (value before after : List ℕ)
    → at + length value ≤ length before
    → Replaced at value before after
    → load after (pos at) (length value) ≡ some value
unfolding load
load-Replaced at value before after h r =
    let fits : at + length value ≤ length after = omega (arith, r.same_length) in
    let w = r.written in ground arith

pub length-to_bytes : (w v : ℕ) → length (to_bytes w v) ≡ w
unfolding to_bytes
length-to_bytes zero v = refl
length-to_bytes (suc w) v = ap suc (length-to_bytes w (v / 256))

pub from_bytes-to_bytes : (w v : ℕ) → v < 256 ^ w → from_bytes (to_bytes w v) ≡ v
unfolding from_bytes to_bytes
from_bytes-to_bytes zero v h = omega arith
from_bytes-to_bytes (suc w) v h =
    let e : 256 ^ suc w ≡ 256 * 256 ^ w = omega arith in
    let ih = from_bytes-to_bytes w (v / 256) (omega (arith, e)) in rw ih (omega arith)
