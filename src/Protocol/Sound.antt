-- ===== src/Protocol/Sound.antt =====
-- The contents that a packet of teensy/usb_rawhid/kowhai/kowhai_protocol.h can carry, and their bytes.
use beaverbot.Prelude.{
  ℕ, ◌*◌, ◌/◌, ◌%◌, ◌≤◌, ◌<◌, ◌≡◌, List, [], ◌∷◌, ◌++◌, length, All, arith, refl, ap,
}
use beaverbot.Kowhai.{Symbol}
use beaverbot.Kowhai.Access.{from_bytes, to_bytes}
use beaverbot.Protocol.{
  IdList, DataSpec, DescriptorSpec, FunctionDetails, FunctionCall, Event, StringList, Spec,
  Protocol, Layout, layout_of, cleared, version, id_list, data_spec, descriptor, function_details,
  function_call, event, string_list, no_payload, version_payload, id_list_payload, read_payload,
  data_payload, descriptor_payload, details_payload, call_payload, event_payload,
  string_list_payload,
}
use beaverbot.Protocol.Parse.{no_memory, read_symbols}
use beaverbot.Protocol.Create.{
  header_bytes, id_list_bytes, memory_bytes, descriptor_bytes, details_bytes, call_bytes,
  event_bytes, string_list_bytes, symbols_bytes,
}

-- A value of type `uint16_t`.
abbrev pub IsWord : ℕ → Type 0
IsWord v = v < 65536

abbrev pub IsSymbol : Symbol → Type 0
IsSymbol y = IsWord y.name × IsWord y.array_index

-- A path whose length its count byte holds.
pub record IsPath (d : DataSpec) : Type 0 where
  pub short : d.count < 256
  pub counted : length d.symbols ≡ d.count
  pub words : All IsSymbol d.symbols

-- The payloads of each layout: each number fits its field, the path and the buffer have the lengths
-- that the structure gives, and what the layout does not carry is zero or null. The total size of
-- strings is below 65536 times one more than the size of those in this packet.
pub data Sound : Layout → Spec → List ℕ → Type 0 where
  sound_none : Sound no_payload cleared []
  sound_version : (v : ℕ) → v < 4294967296 → Sound version_payload (version v) []
  sound_id_list :
      (l : IdList) (buffer : List ℕ)
      → IsWord l.list_count
      → IsWord l.offset
      → IsWord l.size
      → length buffer ≡ l.size
      → Sound id_list_payload (id_list l) buffer
  sound_read :
      (d : DataSpec) → IsPath d → d.memory ≡ no_memory → Sound read_payload (data_spec d) []
  sound_data :
      (d : DataSpec) (buffer : List ℕ)
      → IsPath d
      → IsWord d.memory.type
      → IsWord d.memory.offset
      → IsWord d.memory.size
      → length buffer ≡ d.memory.size
      → Sound data_payload (data_spec d) buffer
  sound_descriptor :
      (d : DescriptorSpec) (buffer : List ℕ)
      → IsWord d.node_count
      → IsWord d.offset
      → IsWord d.size
      → length buffer ≡ d.size
      → Sound descriptor_payload (descriptor d) buffer
  sound_details :
      (d : FunctionDetails)
      → IsWord d.tree_in_id
      → IsWord d.tree_out_id
      → Sound details_payload (function_details d) []
  sound_call :
      (f : FunctionCall) (buffer : List ℕ)
      → IsWord f.offset
      → IsWord f.size
      → length buffer ≡ f.size
      → Sound call_payload (function_call f) buffer
  sound_event :
      (e : Event) (buffer : List ℕ)
      → IsWord e.offset
      → IsWord e.size
      → length buffer ≡ e.size
      → Sound event_payload (event e) buffer
  sound_string_list :
      (l : StringList) (buffer : List ℕ)
      → IsWord l.list_count
      → l.list_total_size < 4294967296
      → IsWord l.offset
      → IsWord l.size
      → length buffer ≡ l.size
      → l.list_total_size / 65536 ≤ l.size
      → Sound string_list_payload (string_list l) buffer

-- The bytes behind the header.
abbrev pub body : Layout → Spec → List ℕ → List ℕ
body version_payload (version v) buffer = to_bytes 4 v
body id_list_payload (id_list l) buffer = id_list_bytes l ++ buffer
body read_payload (data_spec d) buffer = to_bytes 1 d.count ++ symbols_bytes d.symbols
body data_payload (data_spec d) buffer =
    to_bytes 1 d.count ++ (symbols_bytes d.symbols ++ (memory_bytes d.memory ++ buffer))
body descriptor_payload (descriptor d) buffer = descriptor_bytes d ++ buffer
body details_payload (function_details d) buffer = details_bytes d
body call_payload (function_call f) buffer = call_bytes f ++ buffer
body event_payload (event e) buffer = event_bytes e ++ buffer
body string_list_payload (string_list l) buffer = string_list_bytes l ++ buffer
body layout spec buffer = []

abbrev pub packet_of : Protocol → List ℕ
packet_of p =
    header_bytes p.header ++ body (layout_of p.header.command) p.payload.spec p.payload.buffer

pub byte_value : (v : ℕ) → v < 256 → from_bytes (v % 256 ∷ []) ≡ v
unfolding from_bytes
byte_value v h = omega arith

pub word_value : (v : ℕ) → IsWord v → from_bytes (v % 256 ∷ v / 256 % 256 ∷ []) ≡ v
unfolding from_bytes
word_value v h = omega arith

pub long_value :
    (v : ℕ)
    → v < 4294967296
    → from_bytes (v % 256 ∷ v / 256 % 256 ∷ v / 256 / 256 % 256 ∷ v / 256 / 256 / 256 % 256 ∷ [])
      ≡ v
unfolding from_bytes
long_value v h = omega arith

-- The upper half of such a number.
pub upper_value :
    (v : ℕ)
    → v < 4294967296
    → from_bytes (v / 256 / 256 % 256 ∷ v / 256 / 256 / 256 % 256 ∷ []) ≡ v / 65536
unfolding from_bytes
upper_value v h = omega arith

pub length-symbols_bytes : (ys : List Symbol) → length (symbols_bytes ys) ≡ 4 * length ys
unfolding to_bytes
length-symbols_bytes [] = refl
length-symbols_bytes (y ∷ ys) = omega (arith, length-symbols_bytes ys)

-- Symbols are read back.
pub read_symbols-symbols_bytes :
    (ys : List Symbol) (rest : List ℕ)
    → All IsSymbol ys
    → read_symbols (length ys) (symbols_bytes ys ++ rest) ≡ ys
unfolding to_bytes read_symbols
read_symbols-symbols_bytes [] rest h = refl
read_symbols-symbols_bytes (y ∷ ys) rest ((n, i), h) =
    rw (word_value y.name n, word_value y.array_index i)
      (ap (λ l. y ∷ l) (read_symbols-symbols_bytes ys rest h))
