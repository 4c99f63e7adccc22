-- ===== src/Devices/Commands/Steps.antt =====
-- Properties of the bits and the devices that every command keeps.
use bk_solution_doorbell.Base.{
  ℕ, ◌≡◌, Bool, true, false, not, ◌||◌, List, [], ◌∷◌, All, ltb, if◌then◌else◌,
}
use bk_solution_doorbell.Command.{Opcode, opcode_of}
use bk_solution_doorbell.Command.Handler.{get32}
use bk_solution_doorbell.Command.Votes
use bk_solution_doorbell.Command.Votes.{all_off, bitmap, switched, after, arrival-bitmap}
use bk_solution_doorbell.Devices.{Ret, is_ok}
use bk_solution_doorbell.Devices.Commands.{
  Board, State, Request, IsCode, device_calls, answered, serve, serve_all,
}

-- The opcode of a request.
abbrev pub opcode : Request → Opcode
opcode r = opcode_of (get32 (r.arrival.cmd) 0)

module _ (code : Ret → ℕ) (codes : IsCode code) (P : Votes.Devices → Board → Type 0)
    (Q : Request → Type 0)
    (step : (r : Request) (d : Votes.Devices) (b : Board)
      → Q r
      → P d b
      → let (ret, b') = device_calls (opcode r) r.arrival.cmd r b in
        P (if is_ok ret then switched (opcode r) d else d) b') where
  unless_short :
      (short good : Bool) (d d' : Votes.Devices) (b b' : Board)
      → P d b
      → P (if good then d' else d) b'
      → P (if short || not good then d else d') (if short then b else b')
  unless_short true good d d' b b' h k = h
  unless_short false true d d' b b' h k = k
  unless_short false false d d' b b' h k = k

  -- One command, for the bits that its answer sets and the devices that it switches.
  serve-keeps :
      (r : Request) (d : Votes.Devices) (s : State)
      → Q r
      → P d s.board
      → P (after (answered code r s.board) d) (serve code r s).board
  unfolding serve
  serve-keeps r d s h k =
      let (ret, b) = device_calls (opcode r) r.arrival.cmd r s.board in
      simp (codes ret) (
        unless_short (ltb r.arrival.length 10) (is_ok ret) d (switched (opcode r) d) s.board b k
          (step r d s.board h k))

  -- The bitmap is that of some bits for which the property holds.
  abbrev pub HasBits : State → Type 0
  HasBits s = (d : Votes.Devices) × ((s.cmd.mm_status ≡ bitmap d) × P d s.board)

  pub serve-HasBits : (r : Request) (s : State) → Q r → HasBits s → HasBits (serve code r s)
  unfolding serve
  serve-HasBits r s h (d, (e, k)) =
      let a = answered code r s.board in
      (after a d, (arrival-bitmap a s.cmd d e, serve-keeps r d s h k))

  pub serve_all-HasBits :
      (rs : List Request) (s : State) → All Q rs → HasBits s → HasBits (serve_all code rs s)
  unfolding serve_all
  serve_all-HasBits [] s h k = k
  serve_all-HasBits (r ∷ rs) s h k =
      serve_all-HasBits rs (serve code r s) h.1 (serve-HasBits r s h.0 k)
