-- ===== src/Server/Chunks/Received.antt =====
-- Answers in several packets of teensy/usb_rawhid/kowhai/kowhai_protocol_server.c, as a receiver puts
-- them together.
use beaverbot.Prelude.{
  ℕ, zero, suc, ◌+◌, ◌-◌, ◌≤◌, ◌<◌, ◌≡◌, Bool, true, false, ◌&&◌, ltb, ◌==◌, u16, if◌then◌else◌,
  Option, none, some, ◌>>=◌, List, [], ◌∷◌, ◌++◌, length, length-drop, drop-add, take, drop, All,
  arith, refl, ap, Bool-cases, inl, inr, append-take-drop, take-long, length-take, ◌∙◌, >>=-eq-some,
}
use beaverbot.Kowhai.{ok, Status}
use beaverbot.Protocol.{
  Protocol, Spec, id_list, data_spec, descriptor, function_call, event, string_list,
}
use beaverbot.Protocol.Parse.{kowhai_protocol_parse}
use beaverbot.Protocol.Checked.{buffer_size}
use beaverbot.Server.{create_packet}
use beaverbot.Server.Chunks.{send_chunks}

-- A part of an answer: its header, where it belongs and its bytes.
pub record Piece : Type 0 where
  pub command : ℕ
  pub id : ℕ
  pub offset : ℕ
  pub bytes : List ℕ

abbrev pub offset_of : Spec → ℕ
offset_of (id_list l) = l.offset
offset_of (data_spec d) = d.memory.offset
offset_of (descriptor d) = d.offset
offset_of (function_call c) = c.offset
offset_of (event e) = e.offset
offset_of (string_list l) = l.offset
offset_of spec = 0

abbrev pub piece_of : Protocol → Piece
piece_of p = record {
  command = p.header.command;
  id = p.header.id;
  offset = offset_of p.payload.spec;
  bytes = take (buffer_size p.payload.spec) p.payload.buffer;
}

abbrev pub read_parsed : Status × Protocol → Option Piece
read_parsed (ok, p) = some (piece_of p)
read_parsed (failure, p) = none

-- A received packet.
unfoldable pub piece : List ℕ → Option Piece
piece packet = read_parsed (kowhai_protocol_parse packet)

-- The bytes of an answer. Each packet must have the id and carry on where the one before it ended, and
-- just the last must have the command `ack_end`.
unfoldable pub receive : (id ack ack_end : ℕ) → List (List ℕ) → (at : ℕ) → Option (List ℕ)
receive id ack ack_end [] at = none
receive id ack ack_end (packet ∷ []) at = do
  p ← piece packet
  if p.command == ack_end && (p.id == id && p.offset == at) then some p.bytes else none
receive id ack ack_end (packet ∷ next ∷ packets) at = do
  p ← piece packet
  rest ← receive id ack ack_end (next ∷ packets) (at + length p.bytes)
  if p.command == ack && (p.id == id && p.offset == at) then some (p.bytes ++ rest) else none

abbrev pub Fits : ℕ → List ℕ → Type 0
Fits n packet = length packet ≤ n

module _ (max_packet_size room : ℕ) (protocol : Bool → (offset size : ℕ) → Option Protocol)
    (id ack ack_end : ℕ) (all : List ℕ) where
  abbrev packet_for : Bool → (offset size : ℕ) → Option (List ℕ)
  packet_for last offset size = protocol last offset size >>= create_packet max_packet_size

  -- The packet of each part of `all` is made, fits and can be read.
  pub record IsReadable (last : Bool) (offset size : ℕ) : Type 0 where
    pub packet : List ℕ
    pub made : packet_for last offset size ≡ some packet
    pub fits : length packet ≤ max_packet_size
    pub read :
        piece packet
        ≡ some (record {
          command = if last then ack_end else ack;
          id = id;
          offset = offset;
          bytes = take size (drop offset all);
        })

  abbrev pub Serves : Type 0
  Serves =
      (last : Bool) (offset size : ℕ)
      → size ≤ room
      → offset + size ≤ length all
      → IsReadable last offset size

  receive-cons :
      (packet : List ℕ) (packets : List (List ℕ)) (p : Piece) (at : ℕ) {rest : List ℕ}
      → piece packet ≡ some p
      → p.command ≡ ack
      → p.id ≡ id
      → p.offset ≡ at
      → receive id ack ack_end packets (at + length p.bytes) ≡ some rest
      → receive id ack ack_end (packet ∷ packets) at ≡ some (p.bytes ++ rest)
  unfolding receive
  receive-cons packet [] p at e c i o h = cc
  receive-cons packet (next ∷ packets) p at {rest} e c i o h = rw e (rw h (ground arith))

  -- The packets that are sent from an offset on.
  pub record IsReceived (fuel offset size : ℕ) : Type 0 where
    pub packets : List (List ℕ)
    pub sent : send_chunks max_packet_size room protocol fuel offset size ≡ some packets
    pub received : receive id ack ack_end packets offset ≡ some (drop offset all)
    pub fit : All (Fits max_packet_size) packets

  module _ (serves : Serves) (small : length all < 65536) where
    more_chunks :
        (fuel offset size : ℕ) {p : Protocol} {packet : List ℕ} {packets : List (List ℕ)}
        → room < size
        → offset + size ≡ length all
        → protocol false offset room ≡ some p
        → create_packet max_packet_size p ≡ some packet
        → send_chunks max_packet_size room protocol fuel (offset + room) (size - room)
          ≡ some packets
        → send_chunks max_packet_size room protocol (suc fuel) offset size ≡ some (packet ∷ packets)
    unfolding send_chunks
    more_chunks fuel offset size h e made created next =
        let short : u16 room ≡ room = omega arith in
        let at : u16 (offset + room) ≡ offset + room = omega arith in
        let more : ltb room size ≡ true = ground arith in
        rw (more, send_chunks, short, at, made, created, next) refl

    one_chunk :
        (fuel offset size : ℕ) {p : Protocol} {packet : List ℕ}
        → size ≤ room
        → offset + size ≡ length all
        → protocol true offset size ≡ some p
        → create_packet max_packet_size p ≡ some packet
        → send_chunks max_packet_size room protocol (suc fuel) offset size ≡ some (packet ∷ [])
    unfolding send_chunks
    one_chunk fuel offset size h e made created =
        let short : u16 size ≡ size = omega arith in
        let no_more : ltb room size ≡ false = ground arith in
        rw (no_more, send_chunks, short, made, created) refl

    last_chunk :
        (fuel offset size : ℕ)
        → size ≤ room
        → offset + size ≡ length all
        → IsReceived (suc fuel) offset size
    unfolding receive
    last_chunk fuel offset size h e =
        let r = serves true offset size h (omega arith) in
        let (p, made, created) = >>=-eq-some (protocol true offset size) _ r.made in
        let rest : take size (drop offset all) ≡ drop offset all =
          take-long size (drop offset all) (omega (arith, length-drop offset all)) in
        record {
          packets = r.packet ∷ [];
          sent = one_chunk fuel offset size h e made created;
          received = rw r.read (ground arith);
          fit = (r.fits, tt);
        }

    chunk :
        (fuel offset size : ℕ)
        → room < size
        → offset + size ≡ length all
        → IsReceived fuel (offset + room) (size - room)
        → IsReceived (suc fuel) offset size
    chunk fuel offset size h e r =
        let s = serves false offset room (omega arith) (omega arith) in
        let (p, made, created) = >>=-eq-some (protocol false offset room) _ s.made in
        let l : length (take room (drop offset all)) ≡ room =
          omega (arith, length-take room (drop offset all), length-drop offset all) in
        let whole : take room (drop offset all) ++ drop (offset + room) all ≡ drop offset all =
          rw (drop-add offset room all) (append-take-drop room (drop offset all)) in
        record {
          packets = s.packet ∷ r.packets;
          sent = more_chunks fuel offset size h e made created r.sent;
          received =
              receive-cons s.packet r.packets _ offset s.read refl refl refl (rw l r.received)
              ∙ ap some whole;
          fit = (s.fits, r.fit);
        }

    -- With room, fewer bytes than the fuel and less than 65536 in all, if each part that is asked for has a
    -- packet that fits and can be read, the loop ends, with packets that fit and from which the receiver
    -- gets the bytes from the offset on.
    pub send_chunks-IsReceived :
        (fuel offset size : ℕ)
        → 0 < room
        → size < fuel
        → offset + size ≡ length all
        → IsReceived fuel offset size
    send_chunks-IsReceived zero offset size z h e = absurd (omega arith)
    send_chunks-IsReceived (suc fuel) offset size z h e = elim (Bool-cases (ltb room size)) [
      | inl more ↦ chunk fuel offset size (ground arith) e (
          send_chunks-IsReceived fuel (offset + room) (size - room) z (ground arith) (ground arith))
      | inr done ↦ last_chunk fuel offset size (ground arith) e
    ]
