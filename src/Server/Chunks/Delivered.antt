-- ===== src/Server/Chunks/Delivered.antt =====
-- Answers of teensy/usb_rawhid/kowhai/kowhai_protocol_server.c that are delivered: sent in packets from
-- which the receiver gets the bytes.
use beaverbot.Prelude.{
  ℕ, suc, ◌+◌, ◌≤◌, ◌<◌, ◌≡◌, Bool, if◌then◌else◌, Option, some, >>=-some, List, length,
  length-take, take, drop, map, All, arith, refl, ap, ◌∙◌, ◌>>=◌,
}
use beaverbot.Kowhai.{ok, Status}
use beaverbot.Protocol.{Protocol, layout_of}
use beaverbot.Protocol.Parse.{kowhai_protocol_parse}
use beaverbot.Protocol.Checked.{buffer_size}
use beaverbot.Protocol.Sound.{Sound, IsWord, packet_of}
use beaverbot.Protocol.Overhead.{kowhai_protocol_get_overhead, overhead-packet_of}
use beaverbot.Protocol.RoundTrip.{create-parse}
use beaverbot.Protocol.Longer.{create-take, take-take}
use beaverbot.Server.{Server, sent, emit, create_packet, max_payload}
use beaverbot.Server.Chunks.{send_all}
use beaverbot.Server.Chunks.Received.{
  piece, piece_of, receive, Fits, Serves, IsReadable, send_chunks-IsReceived, offset_of,
  read_parsed,
}
use beaverbot.Protocol.Room.{create-IsWithin}

-- Sent and nothing else is done; every packet fits; and the packets bring these bytes.
pub record IsDelivered (s : Server) (id ack ack_end : ℕ) (all : List ℕ) (result : Option Server)
    : Type 0 where
  pub packets : List (List ℕ)
  pub done : result ≡ some (emit s (map sent packets))
  pub received : receive id ack ack_end packets 0 ≡ some all
  pub fit : All (Fits s.max_packet_size) packets

-- The same of a call that returns KOW_STATUS_OK.
pub record IsAnswered (s : Server) (id ack ack_end : ℕ) (all : List ℕ)
    (result : Option (Status × Server)) : Type 0 where
  pub packets : List (List ℕ)
  pub done : result ≡ some (ok, emit s (map sent packets))
  pub received : receive id ack ack_end packets 0 ≡ some all
  pub fit : All (Fits s.max_packet_size) packets

pub delivered-IsAnswered :
    (s : Server) (id ack ack_end : ℕ) (all : List ℕ) (r : Option Server)
    → IsDelivered s id ack ack_end all r
    → IsAnswered s id ack ack_end all (r >>= λ s'. some (ok, s'))
delivered-IsAnswered s id ack ack_end all r d = record {
  packets = d.packets;
  done = >>=-some _ d.done;
  received = d.received;
  fit = d.fit;
}

abbrev cut : Protocol → Protocol
cut p = record p {
  payload = record p.payload { buffer = take (buffer_size p.payload.spec) p.payload.buffer };
}

-- One packet, with a pointer into a longer buffer.
pub record IsSent (max_packet_size : ℕ) (p : Protocol) : Type 0 where
  pub packet : List ℕ
  pub created : create_packet max_packet_size p ≡ some packet
  pub fits : length packet ≤ max_packet_size
  pub read : piece packet ≡ some (piece_of p)

piece-parsed :
    (packet : List ℕ) (p : Protocol)
    → kowhai_protocol_parse packet ≡ (ok, p)
    → piece packet ≡ some (piece_of p)
unfolding piece
piece-parsed packet p e = ap read_parsed e

piece-cut : (p : Protocol) → piece_of (cut p) ≡ piece_of p
piece-cut p =
    ap
      (λ b. record {
        command = p.header.command;
        id = p.header.id;
        offset = offset_of p.payload.spec;
        bytes = b;
      })
      (take-take (buffer_size p.payload.spec) p.payload.buffer)

pub sound-IsSent :
    (pointer max_packet_size : ℕ) (p : Protocol) {n : ℕ}
    → p.header.command < 256
    → IsWord p.header.id
    → Sound
        (layout_of p.header.command)
        p.payload.spec
        (take (buffer_size p.payload.spec) p.payload.buffer)
    → buffer_size p.payload.spec ≤ length p.payload.buffer
    → kowhai_protocol_get_overhead pointer (cut p) ≡ (ok, n)
    → n + buffer_size p.payload.spec ≤ max_packet_size
    → IsSent max_packet_size p
unfolding create_packet
sound-IsSent pointer max_packet_size p {n} c i s l o h =
    let b = buffer_size p.payload.spec in
    let e : length (take b p.payload.buffer) ≡ b = omega (arith, length-take b p.payload.buffer) in
    let fits : length (packet_of (cut p)) ≤ max_packet_size =
      omega (arith, overhead-packet_of pointer (cut p) s o) in
    let (packet, created, parsed) = create-parse max_packet_size (cut p) c i s fits in
    record {
      packet = packet;
      created = rw (create-take max_packet_size p l, created) (ground arith);
      fits = (create-IsWithin max_packet_size (cut p) created).room;
      read = piece-parsed packet (cut p) parsed ∙ ap some (piece-cut p);
    }

-- What serves one packet of an answer.
pub sent-IsReadable :
    (max_packet_size room : ℕ) (protocol : Bool → (offset size : ℕ) → Option Protocol)
    (id ack ack_end : ℕ) (all : List ℕ) (last : Bool) (offset size : ℕ) (p : Protocol)
    → protocol last offset size ≡ some p
    → piece_of p ≡ record {
      command = if last then ack_end else ack;
      id = id;
      offset = offset;
      bytes = take size (drop offset all);
    }
    → IsSent max_packet_size p
    → IsReadable max_packet_size room protocol id ack ack_end all last offset size
sent-IsReadable max_packet_size room protocol id ack ack_end all last offset size p e r s = record {
  packet = s.packet;
  made = >>=-some _ e ∙ s.created;
  fits = s.fits;
  read = s.read ∙ ap some r;
}

-- An answer whose packets can be read is delivered, if there is room.
pub send_all-IsDelivered :
    (pointer : ℕ) (s : Server) (p : Protocol)
    (protocol : Bool → (offset size : ℕ) → Option Protocol) (id ack ack_end : ℕ) (all : List ℕ)
    {room : ℕ}
    → max_payload pointer s p ≡ some room
    → 0 < room
    → length all < 65536
    → Serves s.max_packet_size room protocol id ack ack_end all
    → IsDelivered s id ack ack_end all (send_all pointer s p protocol (length all))
unfolding send_all
send_all-IsDelivered pointer s p protocol id ack ack_end all {room} e z small serves =
    let r =
      send_chunks-IsReceived s.max_packet_size room protocol id ack ack_end all serves small
        (suc (length all)) 0 (length all) z (omega arith) (omega arith) in
    record { packets = r.packets; done = rw (e, r.sent) refl; received = r.received; fit = r.fit }
