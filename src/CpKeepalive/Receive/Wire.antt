-- ===== src/CpKeepalive/Receive/Wire.antt =====
-- Wake-up requests on the wire, from the server's packets to the host.
use bk_solution_doorbell.Base.{
  ℕ, ◌+◌, ◌≤◌, ◌<◌, ◌≡◌, refl, ap, ◌∙◌, true, Option, none, some, List, [], ◌∷◌, ◌++◌, arith,
  length, All, map,
}
use bk_solution_doorbell.DbPack.{
  Chan, Event, Outcome, done, overflow, out_of_fuel, unpack, head_size, room,
}
use bk_solution_doorbell.DbPack.Drain.Stream.{feed, join}
use bk_solution_doorbell.DbPack.Pack.{cut, send_all, relay, sent_arrive}
use bk_solution_doorbell.DbPack.Pack
use bk_solution_doorbell.CpKeepalive.{Env, Action}
use bk_solution_doorbell.CpKeepalive.Receive.{
  RawData, received, callbacks, take_in, rx_handler, after_unpack, and_then, with_actions,
}
use bk_solution_doorbell.CpKeepalive.Receive.Requests.{
  wake_ups, wake_ups-append, is_request, one_if, requests, Runs, callbacks-Count,
}

module _ (crc8 : List ℕ → ℕ → ℕ) (now : ℕ) where
  -- What the receiving thread does with pieces of the stream, against the events of the stream.
  abbrev Heard : Option (Chan × List Event) → Option (Env × List Action) → Type 0
  Heard none x = Unit
  Heard (some r) none = ⊥
  Heard (some r) (some x) = wake_ups x.1 ≡ requests r.1

  requests-append : (xs ys : List Event) → requests (xs ++ ys) ≡ requests xs + requests ys
  requests-append [] ys = omega arith
  requests-append (x ∷ xs) ys = ground (arith, requests-append xs ys)

  abbrev with_events : List Event → Option (Chan × List Event) → Option (Chan × List Event)
  with_events fs none = none
  with_events fs (some r) = some (r.0, fs ++ r.1)

  with_actions_nil : (x : Option (Env × List Action)) → with_actions [] x ≡ x
  with_actions_nil none = refl
  with_actions_nil (some r) = refl

  with-Heard :
      (fs : List Event) (acts : List Action) (q : Option (Chan × List Event))
      (x : Option (Env × List Action))
      → wake_ups acts ≡ requests fs
      → Heard q x
      → Heard (with_events fs q) (with_actions acts x)
  with-Heard fs acts none x h k = tt
  with-Heard fs acts (some r) none h k = k
  with-Heard fs acts (some r) (some x) h k =
      omega (arith, wake_ups-append acts x.1, requests-append fs r.1)

  rx-received :
      (b : List ℕ) (rs : List RawData) (chan : Chan) (e : Env)
      → Runs chan e
      → rx_handler crc8 now (received b ∷ rs) e
        ≡ and_then crc8 (take_in crc8 now b e) (rx_handler crc8 now rs)
  unfolding rx_handler
  rx-received b rs chan e h = rw (h.0, h.1.1) refl

  unpack-sequence :
      (chan : Chan) (n : ℕ) (b : List ℕ)
      → unpack crc8 (record chan { sequence = n }) b ≡ unpack crc8 chan b
  unfolding unpack
  unpack-sequence chan n [] = refl
  unpack-sequence chan n (b ∷ bs) = refl

  take_in-none :
      (b : List ℕ) (chan : Chan) (e : Env)
      → Runs chan e
      → unpack crc8 chan b ≡ none
      → take_in crc8 now b e ≡ some (e, [])
  unfolding take_in
  take_in-none b chan e h u = simp (take_in, h.2.1, unpack-sequence chan h.2.0 b, u) refl

  take_in-some :
      (b : List ℕ) (chan : Chan) (out : Outcome) (e : Env) (h : Runs chan e)
      → unpack crc8 chan b ≡ some out
      → take_in crc8 now b e ≡ after_unpack crc8 now (record chan { sequence = h.2.0 }) out e
  unfolding take_in
  take_in-some b chan out e h u = simp (take_in, h.2.1, unpack-sequence chan h.2.0 b, u) refl

  feed-none :
      (b : List ℕ) (bs : List (List ℕ)) (chan : Chan)
      → unpack crc8 chan b ≡ none
      → feed crc8 chan (b ∷ bs) ≡ feed crc8 chan bs
  unfolding feed
  feed-none b bs chan u = rw (feed, u) refl

  feed-overflow :
      (b : List ℕ) (bs : List (List ℕ)) (chan : Chan)
      → unpack crc8 chan b ≡ some overflow
      → feed crc8 chan (b ∷ bs) ≡ none
  unfolding feed
  feed-overflow b bs chan u = rw (feed, u) refl

  feed-out_of_fuel :
      (b : List ℕ) (bs : List (List ℕ)) (chan : Chan)
      → unpack crc8 chan b ≡ some out_of_fuel
      → feed crc8 chan (b ∷ bs) ≡ none
  unfolding feed
  feed-out_of_fuel b bs chan u = rw (feed, u) refl

  feed-done :
      (b : List ℕ) (bs : List (List ℕ)) (chan : Chan) (cache : List ℕ) (left : ℕ) (fs : List Event)
      → unpack crc8 chan b ≡ some (done cache left fs)
      → feed crc8 chan (b ∷ bs) ≡ with_events fs (feed crc8 (record chan { cache = cache }) bs)
  unfolding feed
  feed-done b bs chan cache left fs u =
      let q = feed crc8 (record chan { cache = cache }) bs in simp (feed, u) (shape q)
    where
      shape :
          (q : Option (Chan × List Event))
          → (elim q [ none ↦ none | some r ↦ some (r.0, fs ++ r.1) ]) ≡ with_events fs q
      shape none = refl
      shape (some r) = refl

  -- The pieces that are still to come are heard, whatever came before.
  abbrev RestHeard : List (List ℕ) → Type 0
  RestHeard bs =
      (chan : Chan) (e : Env)
      → Runs chan e
      → Heard (feed crc8 chan bs) (rx_handler crc8 now (map received bs) e)

  piece-Heard :
      (b : List ℕ) (bs : List (List ℕ)) (chan : Chan) (e : Env) (out : Option Outcome)
      → Runs chan e
      → unpack crc8 chan b ≡ out
      → RestHeard bs
      → Heard (feed crc8 chan (b ∷ bs)) (rx_handler crc8 now (map received (b ∷ bs)) e)
  piece-Heard b bs chan e none h u ih =
      rw
        (feed-none b bs chan u, rx-received b (map received bs) chan e h, take_in-none b chan e h u)
        (rw (with_actions_nil (rx_handler crc8 now (map received bs) e)) (ih chan e h))
  piece-Heard b bs chan e (some (done cache left fs)) h u ih =
      let e1 = record e { pack = some (record chan { sequence = h.2.0; cache = cache }) } in
      let (count, runs) =
        callbacks-Count crc8 now fs (record chan { cache = cache }) e1 (h.0, h.1, (h.2.0, refl)) in
      let (e2, acts) = callbacks crc8 now fs e1 in
      let chan' = record chan { cache = cache } in
      let rest = rx_handler crc8 now (map received bs) e2 in
      rw
        (
          feed-done b bs chan cache left fs u,
          rx-received b (map received bs) chan e h,
          take_in-some b chan (done cache left fs) e h u,
        )
        (with-Heard fs acts (feed crc8 chan' bs) rest count (ih chan' e2 runs))
  piece-Heard b bs chan e (some overflow) h u ih = rw (feed-overflow b bs chan u) tt
  piece-Heard b bs chan e (some out_of_fuel) h u ih = rw (feed-out_of_fuel b bs chan u) tt

  rx-Heard : (bs : List (List ℕ)) → RestHeard bs
  unfolding feed rx_handler
  rx-Heard [] chan e h = refl
  rx-Heard (b ∷ bs) chan e h = piece-Heard b bs chan e (unpack crc8 chan b) h refl (rx-Heard bs)

-- How many of the messages ask for a wake-up; each stands with the time at which it is packed.
abbrev pub wake_messages : List (ℕ × List ℕ) → ℕ
wake_messages [] = 0
wake_messages (m ∷ ms) = one_if (is_request m.1) + wake_messages ms

requests-received : (ms : List (ℕ × List ℕ)) → requests (Pack.received ms) ≡ wake_messages ms
unfolding Pack.received
requests-received [] = refl
requests-received (m ∷ ms) = ap (λ n. one_if (is_request m.1) + n) (requests-received ms)

-- The thread took everything in, and woke the host up for its remote device that often.
abbrev pub Wakes : ℕ → Option (Env × List Action) → Type 0
Wakes n none = ⊥
Wakes n (some r) = wake_ups r.1 ≡ n

module _ (crc8 : List ℕ → ℕ → ℕ) (crc8-byte : (bytes : List ℕ) → crc8 bytes 255 < 256) where
  -- The server packs messages that its send limit (16 bits) and the cache of the coprocessor have
  -- room for, and their bytes arrive in order, cut into any pieces. Then the receiving thread,
  -- which runs with a socket and an empty cache, takes them all in and wakes the host up for its
  -- remote device exactly once for each wake-up request among them, and for no other message. The
  -- checksum is a function into a byte.
  pub rx_handler-Wakes :
      (now : ℕ) (sizes : List ℕ) (tx rx : Chan) (ms : List (ℕ × List ℕ)) (packets : List (List ℕ))
      (sock : ℕ) (e : Env)
      → tx.tsize < 65536
      → head_size ≤ room rx
      → All (λ m. (length m.1 ≤ tx.tsize) × (head_size + length m.1 ≤ room rx)) ms
      → rx.cache ≡ []
      → send_all crc8 tx ms ≡ some packets
      → e.ongoing ≡ true
      → e.sock ≡ some sock
      → e.pack ≡ some rx
      → Wakes (wake_messages ms) (rx_handler crc8 now (map received (cut sizes (join packets))) e)
  unfolding relay
  rx_handler-Wakes now sizes tx rx ms packets sock e t c hs k s on o p =
      let arrive = sent_arrive crc8 crc8-byte sizes tx rx ms t c hs k in
      let f : feed crc8 rx (cut sizes (join packets))
          ≡ some (record rx { cache = [] }, Pack.received ms) =
        (rw (relay, s) at arrive) in
      let heard =
        rx-Heard crc8 now (cut sizes (join packets)) rx e (on, (sock, o), (rx.sequence, p)) in
      counted (rx_handler crc8 now (map received (cut sizes (join packets))) e) (rw f at heard)
    where
      counted :
          (x : Option (Env × List Action))
          → Heard crc8 now (some (record rx { cache = [] }, Pack.received ms)) x
          → Wakes (wake_messages ms) x
      counted none h = h
      counted (some r) h = h ∙ requests-received ms
