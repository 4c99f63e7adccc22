-- ===== src/DbPack/Drain/Stream.antt =====
-- A stream of packets that reaches db_pack_unpack in pieces, however it is cut.
use bk_solution_doorbell.Base.{
  ℕ, zero, suc, ◌≤◌, ◌<◌, ◌≡◌, refl, sym, ap, ◌∙◌, inl, inr, true, false, List, [], ◌∷◌, ◌++◌, ◌==◌,
  Option, none, some, ltb, leb, length, take, drop, arith, length-append, length-drop, Bool-cases,
  ltb→lt,
}
use mathlib.Core.List.{append_assoc, append-nil}
use bk_solution_doorbell.DbPack.{
  Chan, Head, head_of, magic_code, head_size, payload_of, deliver, Event, Outcome, done, fill_to,
  unpack_loop, unpack, room,
}
use bk_solution_doorbell.DbPack.Drain.{
  total, drain, fits, IsIncomplete, IsPacket, head_of-append, drop_packet, drain-packet,
  drain-IsIncomplete,
}
use bk_solution_doorbell.Base.{
  All, drop-append_le, drop_all, take-append-drop, take-append_le, take_all,
}
use bk_solution_doorbell.DbPack.Drain.Loop.{unpack_drains}

-- The bytes of a list of packets, or of pieces of the stream.
unfoldable pub join : List (List ℕ) → List ℕ
join [] = []
join (b ∷ bs) = b ++ join bs

-- A packet that the cache has room for.
pub record IsFitting (capacity : ℕ) (b : List ℕ) : Type 0 where
  pub packet : IsPacket b
  pub fit : total b ≤ capacity

module _ (crc8 : List ℕ → ℕ → ℕ) where
  -- The events of a list of packets, in their order.
  unfoldable pub events_of : List (List ℕ) → List Event
  events_of [] = []
  events_of (b ∷ bs) = deliver crc8 (head_of b) (payload_of crc8 b) ++ events_of bs

  -- The pieces of a stream passed to `unpack` one after the other: the channel afterwards and the
  -- events, or `none` when a copy left the cache. An empty piece is refused and changes nothing.
  unfoldable pub feed : Chan → List (List ℕ) → Option (Chan × List Event)
  feed chan [] = some (chan, [])
  feed chan (c ∷ cs) = elim (unpack crc8 chan c) [
    | none ↦ feed chan cs
    | some out ↦ elim out [
      | done cache left es ↦ elim (feed (record chan { cache = cache }) cs) [
        | none ↦ none
        | some r ↦ some (r.0, es ++ r.1)
      ]
      | bk_solution_doorbell.DbPack.overflow ↦ none
      | bk_solution_doorbell.DbPack.out_of_fuel ↦ none
    ]
  ]

split_append {ℓ} :
    {A : Type ℓ} (xs ys us vs : List A)
    → xs ++ ys ≡ us ++ vs
    → length us ≤ length xs
    → (xs ≡ us ++ drop (length us) xs) × (drop (length us) xs ++ ys ≡ vs)
split_append xs ys us vs e h =
    let n = length us in
    let size = length-append us vs in
    let head : take n xs ≡ us =
      sym (take-append_le n xs ys h)
      ∙ ap (take n) e
      ∙ take-append_le n us vs (omega arith)
      ∙ take_all us n refl in
    (
      sym (take-append-drop n xs) ∙ ap (λ w. w ++ drop n xs) head,
      sym (drop-append_le n xs ys h)
          ∙ ap (drop n) e
          ∙ drop-append_le n us vs (omega arith)
          ∙ ap (λ w. w ++ vs) (drop_all us n refl),
    )

-- A part of a packet waits for more.
part-IsIncomplete :
    (b rest packet more : List ℕ)
    → IsPacket packet
    → b ++ rest ≡ packet ++ more
    → length b < length packet
    → IsIncomplete b
part-IsIncomplete b rest packet more k e h = elim (Bool-cases (ltb (length b) head_size)) [
  | inl short ↦ inl (ltb→lt (length b) head_size short)
  | inr long ↦
      let same : head_of b ≡ head_of packet =
        sym (head_of-append b rest (ground (arith, long)))
        ∙ ap head_of e
        ∙ head_of-append packet more (omega (arith, k.whole)) in
      inr (rw same k.good, rw same (omega (arith, k.whole)))
]

module _ (crc8 : List ℕ → ℕ → ℕ) where
  -- What a prefix of a list of packets drains to.
  record Prefix (capacity g : ℕ) (b rest : List ℕ) (packets : List (List ℕ)) : Type 0 where
    todo : List (List ℕ)
    good : All (IsFitting capacity) todo
    bytes : (drain crc8 g b).0 ++ rest ≡ join todo
    events : events_of crc8 packets ≡ (drain crc8 g b).1 ++ events_of crc8 todo
    fit : fits crc8 capacity g b ≡ true

  fits-IsIncomplete :
      (capacity g : ℕ) (b rest packet more : List ℕ)
      → IsFitting capacity packet
      → b ++ rest ≡ packet ++ more
      → length b < length packet
      → fits crc8 capacity (suc g) b ≡ true
  unfolding fits
  fits-IsIncomplete capacity g b rest packet more k e h =
      elim (Bool-cases (ltb (length b) head_size)) [
        | inl short ↦ rw short refl
        | inr long ↦
            let same : head_of b ≡ head_of packet =
              sym (head_of-append b rest (ground (arith, long)))
              ∙ ap head_of e
              ∙ head_of-append packet more (omega (arith, k.packet.whole)) in
            let m : ((head_of b).magic == magic_code) ≡ true =
              rw same (ground (arith, k.packet.good)) in
            let le : leb (total b) capacity ≡ true = rw same (ground (arith, k.fit)) in
            let lt : ltb (length b) (total b) ≡ true = rw same (ground (arith, k.packet.whole)) in
            rw (long, m, le, lt) refl
      ]

  fits-packet :
      (capacity g : ℕ) (packet b : List ℕ)
      → IsFitting capacity packet
      → fits crc8 capacity g b ≡ true
      → fits crc8 capacity (suc g) (packet ++ b) ≡ true
  unfolding fits
  fits-packet capacity g packet b k f =
      let w = k.packet.whole in
      let hh = head_of-append packet b (omega (arith, w)) in
      let n = length-append packet b in
      let t₁ : ltb (length (packet ++ b)) head_size ≡ false = ground (arith, n, w) in
      let t₂ : ((head_of (packet ++ b)).magic == magic_code) ≡ true =
        rw hh (ground (arith, k.packet.good)) in
      let t₃ : leb (total (packet ++ b)) capacity ≡ true = rw hh (ground (arith, k.fit)) in
      let t₄ : ltb (length (packet ++ b)) (total (packet ++ b)) ≡ false =
        rw hh (ground (arith, n, w)) in
      let rest : drop (total (packet ++ b)) (packet ++ b) ≡ b =
        rw hh (drop_packet packet b k.packet) in
      rw (t₁, t₂, t₃, t₄, rest) f

  drain_prefix :
      (capacity g : ℕ) (b rest : List ℕ) (packets : List (List ℕ))
      → length b < g
      → All (IsFitting capacity) packets
      → b ++ rest ≡ join packets
      → Prefix capacity g b rest packets
  unfolding join events_of fits
  drain_prefix capacity zero b rest packets l ks e = absurd (omega arith)
  drain_prefix capacity (suc g) [] rest [] l ks e =
      let d = drain-IsIncomplete crc8 g [] (inl (omega arith)) in
      record { todo = []; good = tt; bytes = rw d e; events = rw d refl; fit = refl }
  drain_prefix capacity (suc g) (x ∷ xs) rest [] l ks e = absurd (omega (arith, ap length e))
  drain_prefix capacity (suc g) b rest (p ∷ ps) l (k, ks) e =
      elim (Bool-cases (ltb (length b) (length p))) [
        | inl short ↦
            let lt = ltb→lt (length b) (length p) short in
            let d =
              drain-IsIncomplete crc8 g b (part-IsIncomplete b rest p (join ps) k.packet e lt) in
            record {
              todo = p ∷ ps;
              good = (k, ks);
              bytes = rw d e;
              events = rw d refl;
              fit = fits-IsIncomplete capacity g b rest p (join ps) k e lt;
            }
        | inr long ↦
            let (whole, tail) = split_append b rest p (join ps) e (ground (arith, long)) in
            let b' = drop (length p) b in
            let size = length-drop (length p) b in
            let w = k.packet.whole in
            let r = drain_prefix capacity g b' rest ps (ground (arith, size, w, long)) ks tail in
            let d = ap (drain crc8 (suc g)) whole ∙ drain-packet crc8 g p b' k.packet in
            record {
              todo = r.todo;
              good = r.good;
              bytes = rw d r.bytes;
              events =
                  rw (d, r.events)
                    (sym (append_assoc (deliver crc8 (head_of p) (payload_of crc8 p)) _ _));
              fit = ap (fits crc8 capacity (suc g)) whole ∙ fits-packet capacity g p b' k r.fit;
            }
      ]

-- No whole packet waits for more.
packet_whole : (packet more : List ℕ) → IsPacket packet → IsIncomplete (packet ++ more) → 1 ≤ zero
packet_whole packet more k (inl short) = omega (arith, length-append packet more, k.whole)
packet_whole packet more k (inr (m, short)) =
    let same = head_of-append packet more (omega (arith, k.whole)) in
    omega (arith, length-append packet more, k.whole, ap (λ h. h.length) same)

module _ (crc8 : List ℕ → ℕ → ℕ) where
  unpack_nil : (chan : Chan) → unpack crc8 chan [] ≡ none
  unfolding unpack
  unpack_nil chan = refl

  -- However a stream of packets is cut into pieces, also within a header, the calls on the pieces
  -- deliver each packet once, in the order of the stream, and leave an empty cache. The cache has room
  -- for each of the packets, and at the start it holds a first part of the stream that waits for more.
  pub feed_packets :
      (chan : Chan) (pieces packets : List (List ℕ))
      → head_size ≤ room chan
      → IsIncomplete chan.cache
      → All (IsFitting (room chan)) packets
      → chan.cache ++ join pieces ≡ join packets
      → feed crc8 chan pieces ≡ some (record chan { cache = [] }, events_of crc8 packets)
  unfolding feed join events_of
  feed_packets chan [] [] c i ks e =
      ap (λ w. some (record chan { cache = w }, [])) (sym (append-nil chan.cache) ∙ e)
  feed_packets chan [] (p ∷ ps) c i (k, ks) e =
      absurd (
        omega
          (arith, packet_whole p (join ps) k.packet (rw (sym (append-nil chan.cache) ∙ e) at i)))
  feed_packets chan ([] ∷ cs) packets c i ks e =
      rw (feed, unpack_nil chan) (feed_packets chan cs packets c i ks e)
  feed_packets chan ((b ∷ bs) ∷ cs) packets c i ks e =
      let all = chan.cache ++ b ∷ bs in
      let pre =
        drain_prefix crc8 (room chan) (suc (length all)) all (join cs) packets (omega arith) ks
          (append_assoc chan.cache (b ∷ bs) (join cs) ∙ e) in
      let ((left, u), inc) = unpack_drains crc8 chan b bs c i pre.fit in
      let rest =
        feed_packets (record chan { cache = (drain crc8 (suc (length all)) all).0 }) cs pre.todo c
          inc pre.good pre.bytes in
      rw (feed, u, rest, pre.events) refl
