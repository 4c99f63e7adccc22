-- ===== src/FrameQueue/Mailbox/Letters.antt =====
-- When a node is a letter for a consumer, before and after what the functions do to it.
use bk_solution_doorbell.Base.{
  ℕ, ◌<◌, ◌^◌, ◌≡◌, refl, true, false, List, [], ◌∷◌, arith, All, bit_and, bit_and-zero,
  bit_and-bit_or_self, bit_or-disjoint, bit_and-bit_not_self, bit_not-disjoint, bit_and-below,
}
use bk_solution_doorbell.FrameQueue.Node.{Node, wants, all_accessed}
use bk_solution_doorbell.FrameQueue.Consumer.{taken, without}
use bk_solution_doorbell.FrameQueue.Mailbox.{pending}

-- A node that all its consumers have seen is nobody's letter.
pub wants-all_accessed : (d : ℕ) (n : Node) → all_accessed n ≡ true → wants d n ≡ false
unfolding wants
wants-all_accessed d n h = ground (arith, bit_and-below n.accessed_mask n.consumer_mask d)

pub wants-taken_self : (d : ℕ) (n : Node) → wants d n ≡ true → wants d (taken d n) ≡ false
unfolding wants
wants-taken_self d n h =
    ground (arith, bit_and-bit_or_self n.accessed_mask d, bit_and-zero n.consumer_mask)

pub wants-taken_other : (e d : ℕ) (n : Node) → bit_and e d ≡ 0 → wants d (taken e n) ≡ wants d n
unfolding wants
wants-taken_other e d n h = ground (arith, bit_or-disjoint n.accessed_mask e d h)

pub wants-without :
    (e d : ℕ) (n : Node)
    → e < 2 ^ 32
    → d < 2 ^ 32
    → bit_and e d ≡ 0
    → wants d (without e n) ≡ wants d n
unfolding wants
wants-without e d n he hd h = ground (arith, bit_not-disjoint n.consumer_mask e d he hd h)

pub wants-without_self : (d : ℕ) (n : Node) → d < 2 ^ 32 → wants d (without d n) ≡ false
unfolding wants
wants-without_self d n h = ground (arith, bit_and-bit_not_self n.consumer_mask d h)

pub no_letters : (d : ℕ) (ns : List Node) → All (λ n. wants d n ≡ false) ns → pending d ns ≡ []
no_letters d [] h = refl
no_letters d (n ∷ ns) h = rw h.0 (no_letters d ns h.1)
