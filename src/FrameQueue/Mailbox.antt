-- ===== src/FrameQueue/Mailbox.antt =====
-- What a consumer sees of a queue: the frames that wait for it, oldest first.
pub mod Letters
pub mod Delivery
use bk_solution_doorbell.Base.{
  ℕ, ◌≡◌, refl, sym, ap, ◌∙◌, inl, inr, Bool, true, false, Option, some, List, [], ◌∷◌, ◌++◌, arith,
  Bool-cases, if◌then◌else◌,
}
use mathlib.Core.List.{append_assoc}
use bk_solution_doorbell.FrameQueue.Node.{
  Node, wants, reset, Cursor, find, put_back, unlinked, sweep,
}
use bk_solution_doorbell.FrameQueue.Scan.{find-Splits}

module _ (d : ℕ) where
  -- The letter that a node is to consumer `d`.
  abbrev pub letter : Node → List (Option ℕ)
  letter n = if wants d n then n.frame ∷ [] else []

  abbrev pub pending : List Node → List (Option ℕ)
  pending [] = []
  pending (n ∷ ns) = letter n ++ pending ns

  pub pending-append : (xs ys : List Node) → pending (xs ++ ys) ≡ pending xs ++ pending ys
  pending-append [] ys = refl
  pending-append (x ∷ xs) ys =
      ap (◌++◌ (letter x)) (pending-append xs ys)
      ∙ sym (append_assoc (letter x) (pending xs) (pending ys))

  pub pending-put_back :
      (c : Cursor) (n : Node)
      → pending (put_back c n) ≡ pending c.before ++ (letter n ++ pending c.after)
  pending-put_back c n = pending-append c.before (n ∷ c.after)

  pub pending-unlinked : (c : Cursor) → pending (unlinked c) ≡ pending c.before ++ pending c.after
  pending-unlinked c = pending-append c.before c.after

  pub pending-found :
      (test : Node → Bool) (ns : List Node) (c : Cursor)
      → find test ns ≡ some c
      → pending ns ≡ pending c.before ++ (letter c.node ++ pending c.after)
  pending-found test ns c e = ap pending (find-Splits test ns c e).whole ∙ pending-put_back c c.node

  -- A walk that changes no letter, and moves only nodes that are no letter, leaves the mailbox alone.
  pub pending-sweep :
      (visit : Node → Node × Bool)
      → ((n : Node) → (visit n).1 ≡ false → letter (visit n).0 ≡ letter n)
      → ((n : Node) → (visit n).1 ≡ true → letter n ≡ [])
      → (ns free : List Node) → pending (sweep visit ns free).0 ≡ pending ns
  unfolding sweep
  pending-sweep visit keep move [] free = refl
  pending-sweep visit keep move (n ∷ ns) free = elim (Bool-cases (visit n).1) [
    | inl e ↦ rw (e, move n e) (pending-sweep visit keep move ns (free ++ (reset (visit n).0 ∷ [])))
    | inr e ↦ rw (e, keep n e, pending-sweep visit keep move ns free) refl
  ]
