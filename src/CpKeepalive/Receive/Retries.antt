-- ===== src/CpKeepalive/Receive/Retries.antt =====
-- When the receiving thread gives up.
use bk_solution_doorbell.Base.{ℕ, zero, suc, ◌+◌, ◌≤◌, ◌≡◌, refl, arith}
use bk_solution_doorbell.CpKeepalive.Receive.{
  Recv, got, closed, would_block, failed, RawData, max_retries, raw_of, recv_raw_loop,
  recv_raw_data,
}

-- A call gives up only if it was asked to try again.
raw-again :
    (x : Recv) (retry : RawData)
    → raw_of x retry ≡ max_retries
    → (x ≡ would_block) × (retry ≡ max_retries)
raw-again (got b) retry h = absurd (cc h)
raw-again closed retry h = absurd (cc h)
raw-again would_block retry h = (refl, h)
raw-again failed retry h = absurd (cc h)

loop-again :
    (left i k : ℕ) (world : ℕ → Recv)
    → recv_raw_loop left i world ≡ max_retries
    → k ≤ left
    → world (i + k) ≡ would_block
unfolding recv_raw_loop
loop-again zero i zero world h l =
    let same : i ≡ i + 0 = omega arith in rw (← same) (raw-again (world i) max_retries h).0
loop-again (suc left) i zero world h l =
    let same : i ≡ i + 0 = omega arith in
    rw (← same) (raw-again (world i) (recv_raw_loop left (i + 1) world) h).0
loop-again zero i (suc k) world h l = absurd (omega arith)
loop-again (suc left) i (suc k) world h l =
    let (now, later) = raw-again (world i) (recv_raw_loop left (i + 1) world) h in
    let same : i + 1 + k ≡ i + suc k = omega arith in
    rw (← same) (loop-again left (i + 1) k world later (omega arith))

-- The connection is given up after its retries only if the first call and all of the twenty retries behind it were
-- asked to try again.
pub recv_raw_data-retries :
    (k : ℕ) (world : ℕ → Recv) → recv_raw_data world ≡ max_retries → k ≤ 20 → world k ≡ would_block
unfolding recv_raw_data
recv_raw_data-retries k world h l =
    let same : 0 + k ≡ k = omega arith in rw (← same) (loop-again 20 0 k world h l)
