-- ===== src/FrameQueue/Buffers/Balance.antt =====
-- Each function on one queue balances: what its nodes held before, and what it obtained, is what they
-- hold afterwards and what was given back.
use bk_solution_doorbell.Base.{
  ℕ, ◌+◌, ◌≡◌, refl, ap, ◌≢◌, inl, inr, Bool, not, Option, none, some, List, [], ◌∷◌, map, arith,
  Option-cases, Bool-cases, ◌==◌,
}
use bk_solution_doorbell.FrameQueue.Node.{
  Format, Pool, Node, frame_is, wants, reset, consumer_idx, Cursor, find, sweep,
}
use bk_solution_doorbell.FrameQueue.Queue.{Queue, Freed, cleared}
use bk_solution_doorbell.FrameQueue.Producer.{
  FrameHeader, claim, claim_ready, obtain, fill, malloc, complete, cancel, holds, Claim,
}
use bk_solution_doorbell.FrameQueue.Consumer.{
  orphan, register_consumer, register_at, forget, unregister_consumer, unregister_at, search_ready,
  get_frame, get_loop, release_frame, release_found, dropped,
}
use bk_solution_doorbell.FrameQueue.Admin.{destroy_all, deinit, clear, strip, unheld}
use bk_solution_doorbell.FrameQueue.Scan.{
  total-append, total-put_back, total-unlinked, total-found, total-sweep,
}
use bk_solution_doorbell.FrameQueue.Buffers.{
  stake, stake-none, returns, returns-append, returns-free_frame, returns-destroy_all, holders,
  in_queue,
}

-- 1 if `malloc` takes buffer `b` of pool `p` from the allocator.
unfoldable pub obtained : Pool → ℕ → Format → Option ℕ → Queue → ℕ
obtained p b format buffer q = elim (claim format q) [
  | none ↦ 0
  | some k ↦ elim k.cursor.node.frame [ none ↦ stake p b format buffer | some _ ↦ 0 ]
]

module _ (p : Pool) (b : ℕ) (format : Format) where
  abbrev w : Node → ℕ
  w n = stake p b format n.frame

  abbrev Balances {ℓ} : {R : Type ℓ} → ℕ → Queue → R × Queue × Freed → Type 0
  Balances extra q (r, q', freed) =
      in_queue p b format q' + returns p b freed ≡ in_queue p b format q + extra

  pub complete-Balances :
      (frame : Option ℕ) (header : FrameHeader) (t₁ t₂ : ℕ) (q : Queue)
      → Balances 0 q (complete frame header t₁ t₂ q)
  unfolding complete
  complete-Balances none header t₁ t₂ q = omega arith
  complete-Balances (some frame) header t₁ t₂ q =
      elim (Option-cases (find (holds frame) q.free_list)) [
        | inl e ↦ rw (e, complete) (omega arith)
        | inr (c, e) ↦
            rw (e, complete)
              (omega (
                arith,
                total-found w (holds frame) q.free_list c e,
                total-unlinked w c,
                total-append w,
              ))
      ]

  pub cancel-Balances : (frame : Option ℕ) (q : Queue) → Balances 0 q (cancel format frame q)
  unfolding cancel
  cancel-Balances none q = omega arith
  cancel-Balances (some frame) q = elim (Option-cases (find (holds frame) q.free_list)) [
    | inl e ↦ rw (e, cancel) (omega arith)
    | inr (c, e) ↦
        rw (e, cancel)
          (omega (
            arith,
            total-found w (holds frame) q.free_list c e,
            total-put_back w c,
            stake-none p b format,
            returns-free_frame p b format c.node.frame,
          ))
  ]

  release_found_balances :
      (i : ℕ) (q : Queue) (test : Node → Bool) (c : Cursor)
      → find test q.ready_list ≡ some c
      → let (q', freed) = release_found format i q c in
        in_queue p b format q' + returns p b freed ≡ in_queue p b format q
  unfolding release_found
  release_found_balances i q test c e = ground (
    arith,
    total-found w test q.ready_list c e,
    total-put_back w c (dropped c.node),
    total-unlinked w c,
    total-append w q.free_list (reset (record (dropped c.node) { frame = none }) ∷ []),
    stake-none p b format,
    returns-free_frame p b format c.node.frame,
  )

  pub release-Balances :
      (consumer_id : ℕ) (frame : Option ℕ) (q : Queue)
      → Balances 0 q (release_frame format consumer_id frame q)
  unfolding release_frame
  release-Balances consumer_id none q = omega arith
  release-Balances consumer_id (some frame) q = elim (Option-cases (consumer_idx consumer_id)) [
    | inl d ↦ rw (d, release_frame) (omega arith)
    | inr (i, d) ↦ elim (Option-cases (find (frame_is frame) q.ready_list)) [
      | inl e ↦ rw (d, e, release_frame) (omega arith)
      | inr (c, e) ↦
          rw (d, e, release_frame) (omega (arith, release_found_balances i q (frame_is frame) c e))
    ]
  ]

  search_balances :
      (i consumer_id : ℕ) (q : Queue)
      → in_queue p b format (search_ready i consumer_id q).1 ≡ in_queue p b format q
  unfolding search_ready
  search_balances i consumer_id q = elim (Option-cases (find (wants consumer_id) q.ready_list)) [
    | inl e ↦ rw (e, search_ready) refl
    | inr (c, e) ↦
        rw (e, search_ready)
          (omega (arith, total-found w (wants consumer_id) q.ready_list c e, total-put_back w c))
  ]

  pub get-Balances :
      (consumer_id : ℕ) (timeout : Option ℕ) (elapsed : ℕ) (q : Queue)
      → Balances 0 q (get_frame consumer_id timeout elapsed [] q)
  unfolding get_frame get_loop
  get-Balances consumer_id timeout elapsed q = elim (Option-cases (consumer_idx consumer_id)) [
    | inl d ↦ rw (d, get_frame) (omega arith)
    | inr (i, d) ↦ rw (d, get_frame) (ground (arith, search_balances i consumer_id q))
  ]

  pub register-Balances :
      (consumer_id : ℕ) (q : Queue) → Balances 0 q (register_consumer consumer_id q)
  unfolding register_consumer register_at reset
  register-Balances consumer_id q = elim (Option-cases (consumer_idx consumer_id)) [
    | inl d ↦ rw (d, register_consumer) (omega arith)
    | inr (i, d) ↦
        rw (d, register_consumer)
          (omega (arith, total-sweep w orphan (λ n. refl) (λ n. refl) q.ready_list q.free_list))
  ]

  forget_keeps : (consumer_id : ℕ) (n : Node) → (forget consumer_id n).0.frame ≡ n.frame
  unfolding forget
  forget_keeps consumer_id n = ground arith

  pub unregister-Balances :
      (consumer_id : ℕ) (q : Queue) → Balances 0 q (unregister_consumer consumer_id q)
  unfolding unregister_consumer unregister_at reset
  unregister-Balances consumer_id q = elim (Option-cases (consumer_idx consumer_id)) [
    | inl d ↦ rw (d, unregister_consumer) (omega arith)
    | inr (i, d) ↦
        rw (d, unregister_consumer)
          (omega (
            arith,
            total-sweep w (forget consumer_id)
                (λ n. ap (stake p b format) (forget_keeps consumer_id n)) (λ n. refl) q.ready_list
                q.free_list,
          ))
  ]

  strip_holds_none : (ns : List Node) → holders p b format (map strip ns) ≡ 0
  unfolding strip
  strip_holds_none [] = refl
  strip_holds_none (n ∷ ns) = omega (arith, stake-none p b format, strip_holds_none ns)

  pub clear_balances :
      (q : Queue)
      → q.format ≡ format
      → in_queue p b format (clear q).0 + returns p b (clear q).1 ≡ in_queue p b format q
  unfolding clear reset
  clear_balances q f = elim (Bool-cases (q.count == 0)) [
    | inl e ↦ rw (e, clear) (omega arith)
    | inr e ↦
        let free = (sweep unheld q.ready_list q.free_list).1 in
        rw (e, clear, f)
          (omega (
            arith,
            total-sweep w unheld (λ n. refl) (λ n. refl) q.ready_list q.free_list,
            strip_holds_none free,
            returns-destroy_all p b format free,
          ))
  ]

  pub deinit_balances :
      (q : Queue)
      → q.count ≢ 0
      → let (r, q', freed) = deinit format q in
        (in_queue p b format q' ≡ 0) × (returns p b freed ≡ in_queue p b format q)
  unfolding deinit cleared
  deinit_balances q h = ground (
    arith,
    returns-append p b (destroy_all format q.free_list) (destroy_all format q.ready_list),
    returns-destroy_all p b format q.free_list,
    returns-destroy_all p b format q.ready_list,
  )

  claim_ready_balances :
      (q : Queue) (k : Claim)
      → claim_ready format q ≡ some k
      → holders p b format k.cursor.before
          + stake p b format k.cursor.node.frame
          + holders p b format k.cursor.after
          + holders p b format k.ready
        ≡ in_queue p b format q
  unfolding claim_ready
  claim_ready_balances q k h = elim (Option-cases (find (λ n. n.ref_count == 0) q.ready_list)) [
    | inl e ↦ absurd (claim_ready_none e)
    | inr (c, e) ↦
        ground (arith, total-found w (λ n. n.ref_count == 0) q.ready_list c e, total-unlinked w c)
  ]
    where
      claim_ready_none : find (λ n. n.ref_count == 0) q.ready_list ≡ none → ⊥
      claim_ready_none e = ground arith

  claim_balances :
      (q : Queue) (k : Claim)
      → claim format q ≡ some k
      → holders p b format k.cursor.before
          + stake p b format k.cursor.node.frame
          + holders p b format k.cursor.after
          + holders p b format k.ready
        ≡ in_queue p b format q
  unfolding claim
  claim_balances q k h = elim (Option-cases (find (λ n. not n.in_use) q.free_list)) [
    | inl e ↦ claim_ready_balances q k (rw (e, claim) at h)
    | inr (c, e) ↦ ground (arith, total-found w (λ n. not n.in_use) q.free_list c e)
  ]

  -- What the reserved node holds after the call is what it held before and what was obtained.
  stake-obtain :
      (buffer : Option ℕ) (n : Node)
      → stake p b format (obtain format buffer n)
        ≡ stake p b format n.frame + elim n.frame [ none ↦ stake p b format buffer | some _ ↦ 0 ]
  unfolding obtain stake
  stake-obtain buffer n = ground arith

  fill_balances :
      (q : Queue) (now : ℕ) (k : Claim) (buffer : Option ℕ)
      → (buffer ≡ none → stake p b format k.cursor.node.frame ≡ 0)
      → in_queue p b format (fill q now k buffer).1
        ≡ holders p b format k.cursor.before
          + stake p b format buffer
          + holders p b format k.cursor.after
          + holders p b format k.ready
  unfolding fill
  fill_balances q now k none h =
      omega (arith, total-put_back w k.cursor, stake-none p b format, h refl)
  fill_balances q now k (some frame) h = omega (arith, total-put_back w k.cursor)

  obtain-none :
      (buffer : Option ℕ) (n : Node) → obtain format buffer n ≡ none → stake p b format n.frame ≡ 0
  unfolding obtain
  obtain-none buffer n h = ground (arith, stake-none p b format)

  pub malloc-Balances :
      (buffer : Option ℕ) (now : ℕ) (q : Queue)
      → Balances (obtained p b format buffer q) q (malloc format buffer now q)
  unfolding malloc obtained
  malloc-Balances buffer now q = elim (Option-cases (claim format q)) [
    | inl e ↦ rw (e, malloc, obtained) (omega arith)
    | inr (k, e) ↦
        let n = k.cursor.node in
        rw (e, malloc, obtained)
          (omega (
            arith,
            claim_balances q k e,
            stake-obtain buffer n,
            fill_balances q now k (obtain format buffer n) (obtain-none buffer n),
          ))
  ]
