-- ===== src/Server/Chunks/Strings.antt =====
-- Lists of strings of teensy/usb_rawhid/kowhai/kowhai_protocol_server.c.
use beaverbot.Prelude.{
  ℕ, zero, suc, ◌+◌, ◌-◌, ◌≤◌, ◌<◌, ◌≡◌, true, false, ltb, if◌then◌else◌, some, List, [], ◌∷◌, ◌++◌,
  length, length-append, length-drop, take, drop, drop-past, drop-within, take-within, take-past,
  take-long, arith, refl, ◌∙◌, Bool-cases, inl, inr, drop-nil, take-nil,
}
use beaverbot.Server.Chunks.{
  copy_strings, copy_string_list_to_buffer, get_string_list_size, distance,
}

abbrev pub terminated : List ℕ → List ℕ
terminated s = s ++ 0 ∷ []

-- The strings, one after the other, each with its zero byte.
abbrev pub string_bytes : List (List ℕ) → List ℕ
string_bytes [] = []
string_bytes (s ∷ ss) = terminated s ++ string_bytes ss

pub get_string_list_size-length :
    (ss : List (List ℕ)) → get_string_list_size ss ≡ length (string_bytes ss)
unfolding get_string_list_size
get_string_list_size-length [] = refl
get_string_list_size-length (s ∷ ss) = omega (
  arith,
  length-append (terminated s) (string_bytes ss),
  length-append s (0 ∷ []),
  get_string_list_size-length ss,
)

length-terminated : (s : List ℕ) → length (terminated s) ≡ length s + 1
length-terminated s = length-append s (0 ∷ [])

abbrev Copied : List (List ℕ) → (marker offset n : ℕ) → Type 0
Copied ss marker offset n =
    copy_strings ss marker offset n ≡ some (take n (drop (offset - marker) (string_bytes ss)))

-- A string before the offset.
skip_string :
    (s : List ℕ) (ss : List (List ℕ)) (marker offset n : ℕ)
    → marker + (length s + 1) < offset
    → Copied ss (marker + (length s + 1)) offset n
    → Copied (s ∷ ss) marker offset n
unfolding copy_strings
skip_string s ss marker offset zero h ih =
    let t : ltb (marker + (length s + 1)) offset ≡ true = ground arith in rw (t, copy_strings) refl
skip_string s ss marker offset (suc n) h ih =
    let t : ltb (marker + (length s + 1)) offset ≡ true = ground arith in
    let l = length-terminated s in
    let e : offset - marker - length (terminated s) ≡ offset - (marker + (length s + 1)) =
      omega arith in
    rw
      (
        t,
        copy_strings,
        drop-past (offset - marker) (terminated s) (string_bytes ss) (omega arith),
        e,
      )
      ih

-- The buffer is full within a string.
last_string :
    (s : List ℕ) (ss : List (List ℕ)) (marker offset n : ℕ)
    → marker ≤ offset
    → offset + n ≤ marker + (length s + 1)
    → Copied (s ∷ ss) marker offset n
unfolding copy_strings
last_string s ss marker offset n m h =
    let l = length-terminated s in
    let o = offset - marker in
    let d = length-drop o (terminated s) in
    let t : ltb (marker + (length s + 1)) offset ≡ false = ground arith in
    let u : ltb (length s + 1) (distance marker offset) ≡ false = ground arith in
    let c : (if ltb n (length s + 1 - distance marker offset)
          then n
          else length s + 1 - distance marker offset)
        ≡ n =
      ground arith in
    let z : n - n ≡ 0 = omega arith in
    let a : distance marker offset ≡ o = ground arith in
    let c' : (if ltb n (length s + 1 - o) then n else length s + 1 - o) ≡ n = ground arith in
    rw
      (
        t,
        copy_strings,
        u,
        c,
        z,
        a,
        c',
        drop-within o (terminated s) (string_bytes ss) (omega arith),
        take-within n (drop o (terminated s)) (string_bytes ss) (omega arith),
      )
      refl

-- A string is copied to its end.
whole_string :
    (s : List ℕ) (ss : List (List ℕ)) (marker offset n : ℕ)
    → marker ≤ offset
    → offset ≤ marker + (length s + 1)
    → marker + (length s + 1) < offset + n
    → ((m : ℕ) → Copied ss (marker + (length s + 1)) (marker + (length s + 1)) m)
    → Copied (s ∷ ss) marker offset n
unfolding copy_strings
whole_string s ss marker offset n m h k ih =
    let l = length-terminated s in
    let o = offset - marker in
    let d = length-drop o (terminated s) in
    let there = marker + (length s + 1) in
    let left = length s + 1 - o in
    let t : ltb there offset ≡ false = ground arith in
    let u : ltb (length s + 1) (distance marker offset) ≡ false = ground arith in
    let c : (if ltb n (length s + 1 - distance marker offset)
          then n
          else length s + 1 - distance marker offset)
        ≡ left =
      ground arith in
    let z : n - left ≡ suc (n - left - 1) = omega arith in
    let a : distance marker offset ≡ o = ground arith in
    let c' : (if ltb n left then n else left) ≡ left = ground arith in
    let e : offset + left ≡ there = omega arith in
    let f : there - there ≡ 0 = omega arith in
    let g : suc (n - left - 1) ≡ n - length (drop o (terminated s)) = omega arith in
    rw
      (
        t,
        copy_strings,
        u,
        c,
        z,
        a,
        c',
        e,
        ih (suc (n - left - 1)),
        f,
        drop-within o (terminated s) (string_bytes ss) (omega arith),
        take-past n (drop o (terminated s)) (string_bytes ss) (omega arith),
        take-long left (drop o (terminated s)) (omega arith),
        g,
      )
      refl

copy_strings-Copied :
    (ss : List (List ℕ)) (marker offset n : ℕ) → marker ≤ offset → Copied ss marker offset n
unfolding copy_strings
copy_strings-Copied [] marker offset n h =
    rw (drop-nil {A = ℕ} (offset - marker), take-nil {A = ℕ} n) refl
copy_strings-Copied (s ∷ ss) marker offset n h =
    elim (Bool-cases (ltb (marker + (length s + 1)) offset)) [
      | inl before ↦
          skip_string s ss marker offset n (ground arith)
            (copy_strings-Copied ss (marker + (length s + 1)) offset n (ground arith))
      | inr after ↦ elim (Bool-cases (ltb (marker + (length s + 1)) (offset + n))) [
        | inl more ↦ whole_string s ss marker offset n h (ground arith) (ground arith) (λ m.
            copy_strings-Copied ss (marker + (length s + 1)) (marker + (length s + 1)) m
              (omega arith))
        | inr full ↦ last_string s ss marker offset n h (ground arith)
      ]
    ]

-- From an offset on, as many bytes as the buffer takes are copied of the strings with their zero bytes,
-- one after the other, or all that there are.
pub copy_string_list_to_buffer_lem :
    (ss : List (List ℕ)) (offset n : ℕ)
    → copy_string_list_to_buffer ss offset n ≡ some (take n (drop offset (string_bytes ss)))
unfolding copy_string_list_to_buffer
copy_string_list_to_buffer_lem ss offset n =
    let e : offset - 0 ≡ offset = omega arith in
    copy_strings-Copied ss 0 offset n (omega arith) ∙ rw e refl
