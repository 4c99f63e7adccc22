-- ===== src/DbPack/Pack.antt =====
-- db_pack_pack, and the way of a message from db_pack_pack to the callback of db_pack_unpack.
use bk_solution_doorbell.Base.{
  ℕ, ◌+◌, ◌*◌, ◌/◌, ◌%◌, ◌≤◌, ◌<◌, ◌≡◌, refl, ap, ◌∙◌, inl, true, false, List, [], ◌∷◌, ◌++◌, ◌==◌,
  Option, none, some, ltb, length, take, drop, arith, All, take_all, take-append-drop,
}
use mathlib.Core.List.{append-nil}
use bk_solution_doorbell.DbPack.{
  Chan, Head, put_head, head_of, magic_code, flags_crc, head_size, payload_of, deliver, Event, recv,
  pack, room,
}
use bk_solution_doorbell.DbPack.Drain.{total, IsIncomplete, IsPacket}
use bk_solution_doorbell.DbPack.Drain.Stream.{join, IsFitting, events_of, feed, feed_packets}

-- A 16-bit number is read back.
word_back : (n : ℕ) → n < 65536 → n % 256 + 256 * (n / 256 % 256) ≡ n
word_back n h = omega arith

len_back : (n : ℕ) → n < 65536 → n % 65536 % 256 + 256 * (n % 65536 / 256 % 256) ≡ n
len_back n h = let e : n % 65536 ≡ n = omega arith in rw e (word_back n h)

-- Bytes cut into pieces of some sizes, and one with the rest.
unfoldable pub cut : (sizes : List ℕ) → List ℕ → List (List ℕ)
cut [] b = b ∷ []
cut (n ∷ ns) b = take n b ∷ cut ns (drop n b)

join-cut : (sizes b : List ℕ) → join (cut sizes b) ≡ b
unfolding join cut
join-cut [] b = append-nil b
join-cut (n ∷ ns) b = ap (◌++◌ (take n b)) (join-cut ns (drop n b)) ∙ take-append-drop n b

-- What the receiver should see: the messages, and no warning.
unfoldable pub received : List (ℕ × List ℕ) → List Event
received [] = []
received (m ∷ ms) = recv m.1 ∷ received ms

module _ (crc8 : List ℕ → ℕ → ℕ) where
  -- The messages packed one after the other, each with the time at which it is.
  unfoldable pub send_all : Chan → List (ℕ × List ℕ) → Option (List (List ℕ))
  send_all chan [] = some []
  send_all chan (m ∷ ms) = elim (pack crc8 m.0 chan m.1) [
    | none ↦ none
    | some r ↦ elim (send_all r.1 ms) [ none ↦ none | some packets ↦ some (r.0 ∷ packets) ]
  ]

  -- The messages on their way: packed, their bytes cut into pieces, and the pieces unpacked.
  unfoldable pub relay :
      (sizes : List ℕ) → (tx rx : Chan) → List (ℕ × List ℕ) → Option (Chan × List Event)
  relay sizes tx rx ms = elim (send_all tx ms) [
    | none ↦ none
    | some packets ↦ feed crc8 rx (cut sizes (join packets))
  ]

module _ (crc8 : List ℕ → ℕ → ℕ) (crc8-byte : (bytes : List ℕ) → crc8 bytes 255 < 256) where
  -- The header that `pack` writes.
  abbrev head_for : (now sequence : ℕ) → List ℕ → Head
  head_for now sequence bytes = record {
    magic = magic_code;
    flags = flags_crc;
    timestamp = now % 4294967296;
    sequence = sequence;
    length = length bytes % 65536;
    crc = crc8 bytes 255;
  }

  read_back :
      (now sequence : ℕ) (bytes : List ℕ)
      → length bytes < 65536
      → let h = head_of (put_head (head_for now sequence bytes) ++ bytes) in
        (h.magic ≡ magic_code)
        × (h.flags ≡ 1)
        × (h.length ≡ length bytes)
        × (h.crc ≡ crc8 bytes 255)
  unfolding head_of put_head
  read_back now sequence bytes h =
      (refl, refl, len_back (length bytes) h, omega (arith, crc8-byte bytes))

  -- The packet that `pack` builds for a message that it accepts.
  packet_for : (now : ℕ) → Chan → List ℕ → List ℕ
  packet_for now chan bytes = put_head (head_for now ((chan.sequence + 1) % 65536) bytes) ++ bytes

  pack-IsPacket :
      (now sequence : ℕ) (bytes : List ℕ)
      → length bytes < 65536
      → let packet = put_head (head_for now sequence bytes) ++ bytes in
        IsPacket packet
        × (total packet ≡ head_size + length bytes)
        × (deliver crc8 (head_of packet) (payload_of crc8 packet) ≡ recv bytes ∷ [])
  unfolding deliver put_head
  pack-IsPacket now sequence bytes h =
      let packet = put_head (head_for now sequence bytes) ++ bytes in
      let (m, f, n, c) = read_back now sequence bytes h in
      let payload : payload_of crc8 packet ≡ bytes = take_all bytes (head_of packet).length n in
      (
        record { good = m; whole = omega (arith, n) },
        omega (arith, n),
        rw (f, payload, c)
            (let t : (crc8 bytes 255 == crc8 bytes 255) ≡ true = ground arith in rw t refl),
      )

  pack_accepts :
      (now : ℕ) (chan : Chan) (bytes : List ℕ)
      → length bytes ≤ chan.tsize
      → pack crc8 now chan bytes
        ≡ some (packet_for now chan bytes, record chan { sequence = (chan.sequence + 1) % 65536 })
  unfolding pack packet_for
  pack_accepts now chan bytes h =
      let t : ltb chan.tsize (length bytes) ≡ false = ground arith in rw t refl

  record Sent (capacity : ℕ) (chan : Chan) (ms : List (ℕ × List ℕ)) : Type 0 where
    packets : List (List ℕ)
    sent : send_all crc8 chan ms ≡ some packets
    good : All (IsFitting capacity) packets
    events : events_of crc8 packets ≡ received ms

  all-Sent :
      (capacity : ℕ) (chan : Chan) (ms : List (ℕ × List ℕ))
      → chan.tsize < 65536
      → All (λ m. (length m.1 ≤ chan.tsize) × (head_size + length m.1 ≤ capacity)) ms
      → Sent capacity chan ms
  unfolding send_all received events_of packet_for
  all-Sent capacity chan [] t hs = record { packets = []; sent = refl; good = tt; events = refl }
  all-Sent capacity chan (m ∷ ms) t ((h, c), hs) =
      let n = (chan.sequence + 1) % 65536 in
      let r = all-Sent capacity (record chan { sequence = n }) ms t hs in
      let (k, size, d) = pack-IsPacket m.0 n m.1 (omega arith) in
      record {
        packets = packet_for m.0 chan m.1 ∷ r.packets;
        sent = rw (send_all, pack_accepts m.0 chan m.1 h, r.sent) refl;
        good = (record { packet = k; fit = omega (arith, size) }, r.good);
        events = rw (d, r.events) refl;
      }

  -- Messages that the sender's `tsize` (16 bits) and the receiver's cache allow are all packed, and
  -- however the bytes of their packets are cut into pieces, the calls of `unpack` on the pieces deliver
  -- exactly the messages, in order, without a checksum warning, and leave an empty cache. The cache is
  -- empty before, and the checksum is a function into a byte.
  pub sent_arrive :
      (sizes : List ℕ) (tx rx : Chan) (ms : List (ℕ × List ℕ))
      → tx.tsize < 65536
      → head_size ≤ room rx
      → All (λ m. (length m.1 ≤ tx.tsize) × (head_size + length m.1 ≤ room rx)) ms
      → rx.cache ≡ []
      → relay crc8 sizes tx rx ms ≡ some (record rx { cache = [] }, received ms)
  unfolding relay
  sent_arrive sizes tx rx ms t c hs e =
      let s = all-Sent (room rx) tx ms t hs in
      let pieces = cut sizes (join s.packets) in
      let whole : rx.cache ++ join pieces ≡ join s.packets =
        rw e (join-cut sizes (join s.packets)) in
      let i : IsIncomplete rx.cache = inl (rw e (omega arith)) in
      rw (relay, s.sent, feed_packets crc8 rx pieces s.packets c i s.good whole, s.events) refl
