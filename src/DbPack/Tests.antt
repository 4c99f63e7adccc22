-- ===== src/DbPack/Tests.antt =====
-- A short stream, and the theorems at it.
use bk_solution_doorbell.Base.{ℕ, ◌+◌, ◌%◌, ◌<◌, ◌≡◌, refl, inl, some, List, [], ◌∷◌, arith}
use bk_solution_doorbell.DbPack.{
  Chan, Event, recv, crc_mismatch, Outcome, done, head_size, head_of, unpack, deliver, fresh_chan,
}
use bk_solution_doorbell.DbPack.Drain.{drain, fits, IsIncomplete}
use bk_solution_doorbell.DbPack.Drain.Loop.{unpack_drains}
use bk_solution_doorbell.DbPack.Drain.Stream.{IsFitting, join, events_of, feed, feed_packets}
use bk_solution_doorbell.DbPack.Pack.{relay, sent_arrive}

-- A checksum for the tests.
abbrev sum_crc : List ℕ → ℕ → ℕ
sum_crc [] init = init
sum_crc (b ∷ bs) init = (b + sum_crc bs init) % 256

sum_crc-byte : (bytes : List ℕ) → sum_crc bytes 255 < 256
sum_crc-byte [] = omega arith
sum_crc-byte (b ∷ bs) = omega arith

abbrev sender : Chan
sender = fresh_chan 32 32

abbrev receiver : Chan
receiver = fresh_chan 32 32

sent_arrive_example :
    relay sum_crc (5 ∷ 20 ∷ []) sender receiver ((1000, 1 ∷ 2 ∷ 3 ∷ []) ∷ (1001, 4 ∷ []) ∷ [])
    ≡ some (receiver, recv (1 ∷ 2 ∷ 3 ∷ []) ∷ recv (4 ∷ []) ∷ [])
unfolding bk_solution_doorbell.DbPack.Pack.received
sent_arrive_example =
    sent_arrive sum_crc sum_crc-byte (5 ∷ 20 ∷ []) sender receiver
      ((1000, 1 ∷ 2 ∷ 3 ∷ []) ∷ (1001, 4 ∷ []) ∷ []) (omega arith) (omega arith)
      ((omega arith, omega arith), ((omega arith, omega arith), tt)) refl

-- A packet with two bytes and a wrong checksum.
abbrev packet : List ℕ
packet = 213 ∷ 240 ∷ 1 ∷ 0 ∷ 0 ∷ 0 ∷ 0 ∷ 0 ∷ 1 ∷ 0 ∷ 2 ∷ 0 ∷ 9 ∷ 0 ∷ 0 ∷ 0 ∷ 10 ∷ 20 ∷ []

packet-IsFitting : IsFitting 48 packet
unfolding head_of
packet-IsFitting = record { packet = record { good = refl; whole = refl }; fit = omega arith }

feed_packets_example :
    feed sum_crc receiver (
      (213 ∷ 240 ∷ 1 ∷ [])
      ∷ []
      ∷ (0 ∷ 0 ∷ 0 ∷ 0 ∷ 0 ∷ 1 ∷ 0 ∷ 2 ∷ 0 ∷ 9 ∷ 0 ∷ 0 ∷ 0 ∷ 10 ∷ 20 ∷ [])
      ∷ [])
    ≡ some (receiver, crc_mismatch ∷ recv (10 ∷ 20 ∷ []) ∷ [])
unfolding join events_of head_of deliver
feed_packets_example =
    feed_packets sum_crc receiver
      ((213 ∷ 240 ∷ 1 ∷ [])
        ∷ []
        ∷ (0 ∷ 0 ∷ 0 ∷ 0 ∷ 0 ∷ 1 ∷ 0 ∷ 2 ∷ 0 ∷ 9 ∷ 0 ∷ 0 ∷ 0 ∷ 10 ∷ 20 ∷ [])
        ∷ [])
      (packet ∷ []) (omega arith) (inl (omega arith)) (packet-IsFitting, tt) refl

-- The first three bytes of the packet are in the cache.
abbrev part_read : Chan
part_read = record {
  capacity = 48;
  csize = 48;
  cache = 213 ∷ 240 ∷ 1 ∷ [];
  sequence = 0;
  tsize = 32;
}

unpack_drains_example :
    ((left : ℕ) × (unpack sum_crc part_read
          (0 ∷ 0 ∷ 0 ∷ 0 ∷ 0 ∷ 1 ∷ 0 ∷ 2 ∷ 0 ∷ 9 ∷ 0 ∷ 0 ∷ 0 ∷ 10 ∷ 20 ∷ 77 ∷ [])
        ≡ some (done (77 ∷ []) left (crc_mismatch ∷ recv (10 ∷ 20 ∷ []) ∷ []))))
    × IsIncomplete (77 ∷ [])
unfolding drain fits head_of deliver
unpack_drains_example =
    unpack_drains sum_crc part_read 0
      (0 ∷ 0 ∷ 0 ∷ 0 ∷ 1 ∷ 0 ∷ 2 ∷ 0 ∷ 9 ∷ 0 ∷ 0 ∷ 0 ∷ 10 ∷ 20 ∷ 77 ∷ []) (omega arith)
      (inl (omega arith)) refl
