-- ===== src/FrameQueue/Scan.antt =====
-- What the walks find and move.
use bk_solution_doorbell.Base.{
  ℕ, ◌+◌, ◌≡◌, refl, ap, inl, inr, Bool, true, false, Option, none, some, List, [], ◌∷◌, ◌++◌,
  arith, ◌∙◌, Bool-cases, All, All-append, All-append_parts,
}
use bk_solution_doorbell.FrameQueue.Node.{
  Node, Cursor, find, put_back, unlinked, reset, sweep, push_before,
}

-- How `find` splits a list: the first node that passes, with no such node before it.
pub record Splits (test : Node → Bool) (ns : List Node) (c : Cursor) : Type 0 where
  pub whole : ns ≡ c.before ++ (c.node ∷ c.after)
  pub hit : test c.node ≡ true
  pub first : All (λ n. test n ≡ false) c.before

abbrev pub Finds : (Node → Bool) → List Node → Option Cursor → Type 0
Finds test ns none = All (λ n. test n ≡ false) ns
Finds test ns (some c) = Splits test ns c

Finds-push :
    (test : Node → Bool) (n : Node) (ns : List Node) (o : Option Cursor)
    → test n ≡ false
    → Finds test ns o
    → Finds test (n ∷ ns) (push_before n o)
Finds-push test n ns none e h = (e, h)
Finds-push test n ns (some c) e h = record {
  whole = ap (λ xs. n ∷ xs) h.whole;
  hit = h.hit;
  first = (e, h.first);
}

pub find-Finds : (test : Node → Bool) (ns : List Node) → Finds test ns (find test ns)
unfolding find
find-Finds test [] = tt
find-Finds test (n ∷ ns) = elim (Bool-cases (test n)) [
  | inl e ↦ rw e (record { whole = refl; hit = e; first = tt })
  | inr e ↦ rw e (Finds-push test n ns (find test ns) e (find-Finds test ns))
]

pub find-Splits :
    (test : Node → Bool) (ns : List Node) (c : Cursor) → find test ns ≡ some c → Splits test ns c
find-Splits test ns c e = rw e at (find-Finds test ns)

pub find-none :
    (test : Node → Bool) (ns : List Node) → find test ns ≡ none → All (λ n. test n ≡ false) ns
find-none test ns e = rw e at (find-Finds test ns)

-- A list splits in one way around the first node that passes.
pub find-append :
    (test : Node → Bool) (before after : List Node) (n : Node)
    → All (λ m. test m ≡ false) before
    → test n ≡ true
    → find test (before ++ (n ∷ after)) ≡ some (record { before = before; node = n; after = after })
unfolding find
find-append test [] after n h e = rw e
find-append test (m ∷ before) after n h e = rw (h.0, find-append test before after n h.1 e)

-- The sum of a weight over the nodes of a list.
abbrev pub total : (Node → ℕ) → List Node → ℕ
total w [] = 0
total w (n ∷ ns) = w n + total w ns

module _ (w : Node → ℕ) where
  pub total-append : (xs ys : List Node) → total w (xs ++ ys) ≡ total w xs + total w ys
  total-append [] ys = omega arith
  total-append (x ∷ xs) ys = omega (arith, total-append xs ys)

  pub total-put_back :
      (c : Cursor) (n : Node) → total w (put_back c n) ≡ total w c.before + w n + total w c.after
  total-put_back c n = omega (arith, total-append c.before (n ∷ c.after))

  pub total-unlinked : (c : Cursor) → total w (unlinked c) ≡ total w c.before + total w c.after
  total-unlinked c = total-append c.before c.after

  pub total-found :
      (test : Node → Bool) (ns : List Node) (c : Cursor)
      → find test ns ≡ some c
      → total w ns ≡ total w c.before + w c.node + total w c.after
  total-found test ns c e = ap (total w) (find-Splits test ns c e).whole ∙ total-put_back c c.node

  -- A sweep whose visits leave the weights alone leaves the sum alone.
  pub total-sweep :
      (visit : Node → Node × Bool)
      → ((n : Node) → w (visit n).0 ≡ w n)
      → ((n : Node) → w (reset n) ≡ w n)
      → (ns free : List Node)
      → let (ready, free') = sweep visit ns free in
        total w ready + total w free' ≡ total w ns + total w free
  unfolding sweep
  total-sweep visit keep again [] free = refl
  total-sweep visit keep again (n ∷ ns) free = elim (Bool-cases (visit n).1) [
    | inl e ↦ rw e (
        omega (
          arith,
          total-sweep visit keep again ns (free ++ (reset (visit n).0 ∷ [])),
          total-append free (reset (visit n).0 ∷ []),
          keep n,
          again (visit n).0,
        ))
    | inr e ↦ rw e (omega (arith, total-sweep visit keep again ns free, keep n))
  ]

module _ {ℓ} (P : Node → Type ℓ) where
  pub All-found :
      (test : Node → Bool) (ns : List Node) (c : Cursor)
      → find test ns ≡ some c
      → All P ns
      → All P c.before × P c.node × All P c.after
  All-found test ns c e h =
      let whole = (find-Splits test ns c e).whole in
      let parts = All-append_parts P c.before (c.node ∷ c.after) (rw whole at h) in
      (parts.0, parts.1.0, parts.1.1)

  pub All-put_back :
      (c : Cursor) (n : Node) → All P c.before → P n → All P c.after → All P (put_back c n)
  All-put_back c n hb hn ha = All-append P c.before (n ∷ c.after) hb (hn, ha)

  pub All-unlinked : (c : Cursor) → All P c.before → All P c.after → All P (unlinked c)
  All-unlinked c hb ha = All-append P c.before c.after hb ha

  pub All-add_tail : (ns : List Node) (n : Node) → All P ns → P n → All P (ns ++ (n ∷ []))
  All-add_tail ns n h hn = All-append P ns (n ∷ []) h (hn, tt)

-- What a sweep keeps, and what it moves, satisfies what the visits say of it.
pub All-sweep {ℓ κ λ'} :
    (P : Node → Type ℓ) (Q : Node → Type κ) (R : Node → Type λ') (visit : Node → Node × Bool)
    → ((n : Node) → P n → (visit n).1 ≡ false → Q (visit n).0)
    → ((n : Node) → P n → R (reset (visit n).0))
    → (ns free : List Node) → All P ns
    → All R free
    → let (ready, free') = sweep visit ns free in All Q ready × All R free'
unfolding sweep
All-sweep P Q R visit keep move [] free h k = (tt, k)
All-sweep P Q R visit keep move (n ∷ ns) free h k = elim (Bool-cases (visit n).1) [
  | inl e ↦ rw e (
      All-sweep P Q R visit keep move ns (free ++ (reset (visit n).0 ∷ [])) h.1
        (All-add_tail R free (reset (visit n).0) k (move n h.0)))
  | inr e ↦ let r = All-sweep P Q R visit keep move ns free h.1 k in rw e ((keep n h.0 e, r.0), r.1)
]
