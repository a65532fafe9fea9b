-- ===== src/Protocol/Short/Rounds.antt =====
-- Rounds of `kowhai_protocol_create` in teensy/usb_rawhid/kowhai/kowhai_protocol.c that do not fit.
use beaverbot.Prelude.{
  ℕ, ◌+◌, ◌*◌, ◌≤◌, ◌<◌, ◌≡◌, Option, some, ◌>>=◌, >>=-some, List, ◌++◌, length, length-append,
  arith, refl, ◌∙◌, Bool-cases, inl, inr, leb,
}
use beaverbot.Kowhai.{Status, ok, packet_buffer_too_small}
use beaverbot.Kowhai.Access.{to_bytes}
use beaverbot.Kowhai.Access.Bytes.{length-to_bytes}
use beaverbot.Protocol.{DataSpec}
use beaverbot.Protocol.Create.{Created, put, copy, put_sized, put_symbols, symbols_bytes}
use beaverbot.Protocol.Written.{made, put-made}

module _ (packet_size : ℕ) where
  -- The call ends with KOW_STATUS_PACKET_BUFFER_TOO_SMALL.
  abbrev pub Stops : Option Created → Type 0
  Stops m = (c : Created) × (m ≡ some c) × (c.status ≡ packet_buffer_too_small)

  pub put-stopped :
      (n : ℕ) (source : List ℕ) (c : Created)
      → c.status ≡ packet_buffer_too_small
      → put packet_size n source c ≡ some c
  unfolding put
  put-stopped n source c e = by_status c.status e
    where
      by_status :
          (t : Status)
          → t ≡ packet_buffer_too_small
          → elim t [ ok ↦ copy packet_size n source c | failure ↦ some c ] ≡ some c
      by_status ok e = cc
      by_status _ e = refl

  pub chain-stopped :
      (m : Option Created) (f : Created → Option Created)
      → Stops m
      → ((c : Created) → c.status ≡ packet_buffer_too_small → f c ≡ some c)
      → Stops (m >>= f)
  chain-stopped m f (c, e, s) k = (c, >>=-some f e ∙ k c s, s)

  pub put-short :
      (n : ℕ) (source packet : List ℕ)
      → packet_size < length packet + n
      → Stops (put packet_size n source (made packet))
  unfolding put
  put-short n source packet h = (
    record {
      status = packet_buffer_too_small;
      bytes_required = length packet + n;
      packet = packet;
    },
    ground arith,
    refl,
  )

  -- Two rounds, the first of `n` bytes, that together do not fit.
  two-short :
      (n k : ℕ) (first second packet : List ℕ)
      → length first ≡ n
      → packet_size < length packet + (n + k)
      → Stops (put packet_size n first (made packet) >>= put packet_size k second)
  two-short n k first second packet e h = elim (Bool-cases (leb (length packet + n) packet_size)) [
    | inl a ↦
        let fits : length packet + n ≤ packet_size = ground arith in
        let l = length-append packet first in
        let (c, q, s) = put-short k second (packet ++ first) (omega arith) in
        (c, >>=-some _ (put-made packet_size n first packet e fits) ∙ q, s)
    | inr a ↦
        let long : packet_size < length packet + n = ground arith in
        chain-stopped (put packet_size n first (made packet)) (put packet_size k second)
          (put-short n first packet long) (put-stopped k second)
  ]

  pub sized-short :
      (structure buffer packet : List ℕ) (size : ℕ)
      → length buffer ≡ size
      → packet_size < length packet + length (structure ++ buffer)
      → Stops (put_sized packet_size structure size buffer (made packet))
  sized-short structure buffer packet size e h =
      two-short (length structure) size structure buffer packet refl
        (omega (arith, length-append structure buffer))

  pub symbols-short :
      (d : DataSpec) (packet : List ℕ)
      → packet_size < length packet + (1 + 4 * d.count)
      → Stops (put_symbols packet_size d (made packet))
  unfolding put_symbols
  symbols-short d packet h =
      two-short 1 (4 * d.count) (to_bytes 1 d.count) (symbols_bytes d.symbols) packet
        (length-to_bytes 1 d.count) h

  pub sized-stopped :
      (structure : List ℕ) (size : ℕ) (buffer : List ℕ) (c : Created)
      → c.status ≡ packet_buffer_too_small
      → put_sized packet_size structure size buffer c ≡ some c
  sized-stopped structure size buffer c e =
      >>=-some _ (put-stopped (length structure) structure c e) ∙ put-stopped size buffer c e

  pub symbols-stopped :
      (d : DataSpec) (c : Created)
      → c.status ≡ packet_buffer_too_small
      → put_symbols packet_size d c ≡ some c
  unfolding put_symbols
  symbols-stopped d c e =
      >>=-some _ (put-stopped 1 (to_bytes 1 d.count) c e)
      ∙ put-stopped (4 * d.count) (symbols_bytes d.symbols) c e
