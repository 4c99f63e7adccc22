-- ===== src/FrameQueue/Supply.antt =====
-- What the producer gets from a queue, and what it may do with it.
use bk_solution_doorbell.Base.{
  ℕ, ◌≡◌, refl, sym, ap, ◌∙◌, ◌⊎◌, inl, inr, Bool, true, false, not, Option, none, some, List, [],
  ◌∷◌, ◌++◌, arith, Bool-cases, Option-cases, ◌==◌, All, of_some_eq,
}
use bk_solution_doorbell.FrameQueue.Node.{Format, Node, bk_ok, frame_is, Cursor, find, unlinked}
use bk_solution_doorbell.FrameQueue.Queue.{Queue}
use bk_solution_doorbell.FrameQueue.Producer.{
  FrameHeader, Claim, claim, claim_ready, may_drop, obtain, fill, malloc, complete, cancel, holds,
  free_frame, blank_header,
}
use bk_solution_doorbell.FrameQueue.Scan.{Splits, find-Splits, find-none}

-- `ready` is `q.ready_list` without its oldest unreferenced node, of a format that may lose frames, while
-- the producer has every node of the free list.
pub record IsDrop (format : Format) (q : Queue) (ready : List Node) : Type 0 where
  pub dropped : Cursor
  pub found : Splits (λ n. n.ref_count == 0) q.ready_list dropped
  pub rest : ready ≡ unlinked dropped
  pub allowed : may_drop format ≡ true
  pub forced : All (λ n. n.in_use ≡ true) q.free_list

all_in_use : (ns : List Node) → All (λ n. not n.in_use ≡ false) ns → All (λ n. n.in_use ≡ true) ns
all_in_use [] h = tt
all_in_use (n ∷ ns) h = (ground (arith, h.0), all_in_use ns h.1)

claim_ready-drops :
    (format : Format) (q : Queue) (k : Claim)
    → claim_ready format q ≡ some k
    → All (λ n. n.in_use ≡ true) q.free_list
    → IsDrop format q k.ready
unfolding claim_ready
claim_ready-drops format q k h f = elim (Bool-cases (may_drop format)) [
  | inr m ↦ cc (rw (m, claim_ready) at h)
  | inl m ↦ elim (Option-cases (find (λ n. n.ref_count == 0) q.ready_list)) [
    | inl d ↦ cc (rw (m, d, claim_ready) at h)
    | inr (c, d) ↦ record {
      dropped = c;
      found = find-Splits (λ n. n.ref_count == 0) q.ready_list c d;
      rest = sym (ap (λ (j : Claim). j.ready) (of_some_eq (rw (m, d, claim_ready) at h)));
      allowed = m;
      forced = f;
    }
  ]
]

claim-drops :
    (format : Format) (q : Queue) (k : Claim)
    → claim format q ≡ some k
    → (k.ready ≡ q.ready_list) ⊎ IsDrop format q k.ready
unfolding claim
claim-drops format q k h = elim (Option-cases (find (λ n. not n.in_use) q.free_list)) [
  | inl e ↦ inr (
      claim_ready-drops format q k (rw (e, claim) at h)
        (all_in_use q.free_list (find-none (λ n. not n.in_use) q.free_list e)))
  | inr (c, e) ↦ inl (sym (ap (λ (j : Claim). j.ready) (of_some_eq (rw (e, claim) at h))))
]

fill-ready :
    (q : Queue) (now : ℕ) (k : Claim) (f : Option ℕ) → (fill q now k f).1.ready_list ≡ k.ready
unfolding fill
fill-ready q now k none = refl
fill-ready q now k (some f) = refl

-- `malloc` leaves the ready list as it is, or takes one frame out of it: the oldest that no consumer
-- holds, and only of a format that may lose frames, and only when every free node is in use.
pub malloc_drops :
    (format : Format) (buffer : Option ℕ) (now : ℕ) (q : Queue)
    → let ready = (malloc format buffer now q).1.ready_list in
      (ready ≡ q.ready_list) ⊎ IsDrop format q ready
unfolding malloc
malloc_drops format buffer now q = elim (Option-cases (claim format q)) [
  | inl e ↦ rw (e, malloc) (inl refl)
  | inr (k, e) ↦
      rw (e, malloc, fill-ready q now k (obtain format buffer k.cursor.node))
        (claim-drops format q k e)
]

-- The producer holds `frame` in a node of the queue.
abbrev pub IsHeld : ℕ → Queue → Type 0
IsHeld frame q = (c : Cursor) × (find (holds frame) q.free_list ≡ some c)

find_in :
    (test : Node → Bool) (before after : List Node) (n : Node)
    → test n ≡ true
    → (c : Cursor) × (find test (before ++ (n ∷ after)) ≡ some c)
find_in test before after n h = elim (Option-cases (find test (before ++ (n ∷ after)))) [
  | inr found ↦ found
  | inl e ↦ absurd (cc (sym h ∙ miss before (find-none test (before ++ (n ∷ after)) e)))
]
  where
    miss : (xs : List Node) → All (λ m. test m ≡ false) (xs ++ (n ∷ after)) → test n ≡ false
    miss [] a = a.0
    miss (x ∷ xs) a = miss xs a.1

-- What the reservation says of its node.
claim-in_use :
    (format : Format) (q : Queue) (k : Claim)
    → claim format q ≡ some k
    → k.cursor.node.in_use ≡ true
unfolding claim claim_ready
claim-in_use format q k h = elim (Option-cases (find (λ n. not n.in_use) q.free_list)) [
  | inr (c, e) ↦ ground (arith, e)
  | inl e ↦ elim (Option-cases (find (λ n. n.ref_count == 0) q.ready_list)) [
    | inl d ↦ ground (arith, d, e)
    | inr (c, d) ↦ ground (arith, d, e)
  ]
]

frame_is_self : (frame : ℕ) (n : Node) → n.frame ≡ some frame → frame_is frame n ≡ true
frame_is_self frame n h = ground (arith, h)

complete_held :
    (frame : ℕ) (header : FrameHeader) (t₁ t₂ : ℕ) (q : Queue)
    → IsHeld frame q
    → (complete (some frame) header t₁ t₂ q).0 ≡ bk_ok
unfolding complete
complete_held frame header t₁ t₂ q (c, e) = rw (e, complete)

holds_frame : (frame : ℕ) (n : Node) → holds frame n ≡ true → n.frame ≡ some frame
holds_frame frame n h = ground arith

cancel_held :
    (format : Format) (frame : ℕ) (q : Queue)
    → IsHeld frame q
    → let (status, q', freed) = cancel format (some frame) q in
      (status ≡ bk_ok) × (q'.ready_list ≡ q.ready_list) × (freed ≡ free_frame format (some frame))
unfolding cancel
cancel_held format frame q (c, e) =
    rw (e, cancel)
      (
        refl,
        refl,
        ap (free_frame format)
            (holds_frame frame c.node (find-Splits (holds frame) q.free_list c e).hit),
      )

-- A frame that `malloc` returns has a blank header and is held by the producer.
malloc_holds :
    (format : Format) (buffer : Option ℕ) (now : ℕ) (q : Queue) (frame : ℕ) (header : FrameHeader)
    → (malloc format buffer now q).0 ≡ some (frame, header)
    → (header ≡ blank_header) × IsHeld frame (malloc format buffer now q).1
unfolding malloc fill
malloc_holds format buffer now q frame header h = elim (Option-cases (claim format q)) [
  | inl e ↦ absurd (cc (rw (e, malloc) at h))
  | inr (k, e) ↦ elim (Option-cases (obtain format buffer k.cursor.node)) [
    | inl o ↦ absurd (cc (rw (e, o, malloc) at h))
    | inr (f, o) ↦
        let same = of_some_eq (rw (e, o, malloc) at h) in
        let n = record k.cursor.node {
          frame = some f;
          ref_count = 0;
          accessed_mask = 0;
          timestamp = now;
        } in
        let reserved = claim-in_use format q k e in
        let here : f ≡ frame = ap (λ (r : ℕ × FrameHeader). r.0) same in
        (
          sym (ap (λ (r : ℕ × FrameHeader). r.1) same),
          rw (e, o, malloc)
              (find_in (holds frame) k.cursor.before k.cursor.after n
                (rw (reserved, frame_is_self frame n (ap some here)))),
        )
  ]
]

-- Whatever frame `malloc` returns, with a blank header, the producer may complete, or cancel: either call
-- succeeds on the queue that `malloc` left, and cancelling gives that buffer back and keeps the ready
-- list.
pub malloc_then :
    (format : Format) (buffer : Option ℕ) (now : ℕ) (q : Queue) (frame : ℕ)
    (header filled : FrameHeader) (t₁ t₂ : ℕ)
    → (malloc format buffer now q).0 ≡ some (frame, header)
    → let q' = (malloc format buffer now q).1 in
      let (status, q″, freed) = cancel format (some frame) q' in
      (header ≡ blank_header)
      × ((complete (some frame) filled t₁ t₂ q').0 ≡ bk_ok)
      × (status ≡ bk_ok)
      × (q″.ready_list ≡ q'.ready_list)
      × (freed ≡ free_frame format (some frame))
malloc_then format buffer now q frame header filled t₁ t₂ h =
    let (blank, held) = malloc_holds format buffer now q frame header h in
    let q' = (malloc format buffer now q).1 in
    let (a, b, c) = cancel_held format frame q' held in
    (blank, complete_held frame filled t₁ t₂ q' held, a, b, c)
