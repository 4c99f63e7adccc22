-- ===== src/DbPack.antt =====
-- projects/doorbell_lp/cp/db_pack/db_pack.{h,c}: the framing of keepalive messages on a TCP stream.
-- A byte is a number below 256. The checksum `hnd_crc8` and the clock belong to the SDK and are arguments.
-- The cache is the first `ccount` bytes of `cbuf`; `capacity` is what was allocated for it. The code
-- copies without comparing with `csize`: a copy past the buffer, or past what the 16-bit `ccount` can
-- count, is the outcome `overflow`.
pub mod Drain
pub mod Pack
mod Tests
use bk_solution_doorbell.Base.{
  ℕ, zero, suc, ◌+◌, ◌-◌, ◌*◌, ◌/◌, ◌%◌, ◌^◌, Bool, true, false, Option, none, some, List, [], ◌∷◌,
  ◌++◌, ◌==◌, ltb, leb, if◌then◌else◌, length, take, drop, get_or,
}
use bk_solution_doorbell.Message.{put16, put32}

-- DB_PACK_HEAD_MAGIC_CODE, DB_PACK_HEAD_FLAGS_CRC, DB_PACK_HEAD_SIZE_TOTAL.
abbrev pub magic_code : ℕ
magic_code = 61653

abbrev pub flags_crc : ℕ
flags_crc = 1

abbrev pub head_size : ℕ
head_size = 16

-- `db_pack_head_t` without its payload; the reserved bytes are written as zero and never read.
pub record Head : Type 0 where
  pub magic : ℕ
  pub flags : ℕ
  pub timestamp : ℕ
  pub sequence : ℕ
  pub length : ℕ
  pub crc : ℕ

-- `db_pack_chan_t`.
pub record Chan : Type 0 where
  pub capacity : ℕ
  pub csize : ℕ
  pub cache : List ℕ
  pub sequence : ℕ
  pub tsize : ℕ

pub data Status : Type 0 where
  bk_ok bk_err_no_mem : Status

-- The three results of `os_malloc`: for the channel, the cache and the transmit buffer.
pub record Allocs : Type 0 where
  pub chan : Bool
  pub cbuf : Bool
  pub tbuf : Bool

-- Blocks that the module holds and has freed, by name.
pub data Block : Type 0 where
  chan_block cbuf_block tbuf_block : Block

abbrev pub fresh_chan : (max_rx_size max_tx_size : ℕ) → Chan
fresh_chan max_rx_size max_tx_size = record {
  capacity = max_rx_size + head_size;
  csize = (max_rx_size + head_size) % 65536;
  cache = [];
  sequence = 0;
  tsize = max_tx_size;
}

-- db_pack_init: the status, `s_db_pack_chan` afterwards, and the blocks freed.
unfoldable pub init :
    (max_rx_size max_tx_size : ℕ) → Allocs → Option Chan → Status × Option Chan × List Block
init rx tx a (some chan) = (bk_ok, some chan, [])
init rx tx a none =
    if a.chan
    then if a.cbuf
      then if a.tbuf
        then (bk_ok, some (fresh_chan rx tx), [])
        else (bk_err_no_mem, none, cbuf_block ∷ chan_block ∷ [])
      else (bk_err_no_mem, none, chan_block ∷ [])
    else (bk_err_no_mem, none, [])

-- db_pack_deinit.
unfoldable pub deinit : Option Chan → Status × Option Chan × List Block
deinit none = (bk_ok, none, [])
deinit (some chan) = (bk_ok, none, cbuf_block ∷ tbuf_block ∷ chan_block ∷ [])

abbrev pub byte_at : List ℕ → ℕ → ℕ
byte_at bytes i = get_or bytes i 0

abbrev pub get16 : List ℕ → ℕ → ℕ
get16 bytes i = byte_at bytes i + 256 * byte_at bytes (i + 1)

unfoldable pub put_head : Head → List ℕ
put_head h =
    put16 h.magic
    ++ (put16 h.flags
        ++ (put32 h.timestamp
            ++ (put16 h.sequence ++ (put16 h.length ++ ((h.crc % 256) ∷ 0 ∷ 0 ∷ 0 ∷ [])))))

-- The reads `ptr->…` of a header at the start of some bytes.
unfoldable pub head_of : List ℕ → Head
head_of bytes = record {
  magic = get16 bytes 0;
  flags = get16 bytes 2;
  timestamp = get16 bytes 4 + 65536 * get16 bytes 6;
  sequence = get16 bytes 8;
  length = get16 bytes 10;
  crc = byte_at bytes 12;
}

-- What `db_pack_unpack` does to the outside: the log line on a wrong checksum, and the callback.
pub data Event : Type 0 where
  crc_mismatch : Event
  recv : List ℕ → Event

pub data Outcome : Type 0 where
  done : (cache : List ℕ) (left : ℕ) → List Event → Outcome
  overflow : Outcome
  out_of_fuel : Outcome

abbrev pub after_events : List Event → Outcome → Outcome
after_events es (done cache left fs) = done cache left (es ++ fs)
after_events es overflow = overflow
after_events es out_of_fuel = out_of_fuel

-- One of the two copies into the cache up to `target` bytes: the loop ends with all of the input
-- cached, or goes on.
pub data Fill : Type 0 where
  ends : Outcome → Fill
  goes : (cache p : List ℕ) → Fill

-- `os_memcpy(cbuf + ccount, p, …)` of all the input, and the end of the call.
abbrev pub store_rest : (capacity : ℕ) → List ℕ → List ℕ → (left : ℕ) → Outcome
store_rest capacity cache p left =
    if leb (length cache + length p) capacity then done (cache ++ p) left [] else overflow

unfoldable pub fill_to : (target capacity : ℕ) → List ℕ → List ℕ → Fill
fill_to target capacity cache p =
    if ltb (length cache) target
    then (let cp_len = target - length cache in
        if ltb (length p) cp_len
        then ends (store_rest capacity cache p 0)
        else if leb target capacity
        then goes (cache ++ take cp_len p) (drop cp_len p)
        else ends overflow)
    else goes cache p

-- The bytes that fit into the cache and into its count.
abbrev pub room : Chan → ℕ
room chan = if leb chan.capacity 65535 then chan.capacity else 65535

module _ (crc8 : List ℕ → ℕ → ℕ) where
  -- The check of the checksum, which only warns, and the callback.
  unfoldable pub deliver : Head → List ℕ → List Event
  deliver h payload =
      if h.flags % 2 == 1
      then (if crc8 payload 255 == h.crc
          then recv payload ∷ []
          else crc_mismatch ∷ recv payload ∷ [])
      else recv payload ∷ []

  abbrev pub payload_of : List ℕ → List ℕ
  payload_of bytes = take (head_of bytes).length (drop head_size bytes)

  -- `while (left != 0)`, with `left` the length of the input `p`.
  unfoldable pub unpack_loop : (fuel capacity : ℕ) → (cache p : List ℕ) → Outcome
  unfolding head_of fill_to deliver
  unpack_loop zero capacity cache p = out_of_fuel
  unpack_loop (suc fuel) capacity cache [] = done cache 0 []
  unpack_loop (suc fuel) capacity [] (b ∷ bs) =
      let p = b ∷ bs in
      let h = head_of p in
      let total = head_size + h.length in
      let next = unpack_loop fuel capacity [] (drop total p) in
      if ltb (length p) head_size
      then store_rest capacity [] p (length p)
      else if h.magic == magic_code
      then (if ltb (length p) total
          then store_rest capacity [] p (length p)
          else after_events (deliver h (payload_of p)) next)
      else done [] (length p) []
  unpack_loop (suc fuel) capacity (c ∷ cs) (b ∷ bs) =
      elim (fill_to head_size capacity (c ∷ cs) (b ∷ bs)) [
        | ends out ↦ out
        | goes cache p ↦
            let h = head_of cache in
            let filled = fill_to (head_size + h.length) capacity cache p in
            if h.magic == magic_code
            then (elim filled [
              | ends out ↦ out
              | goes packet q ↦
                  after_events (deliver h (payload_of packet)) (unpack_loop fuel capacity [] q)
            ])
            else done [] (length p) []
      ]

  -- db_pack_unpack with a channel and a callback: `none` is the result -1. The fuel is one more than
  -- the rounds that the loop can take.
  unfoldable pub unpack : Chan → (data' : List ℕ) → Option Outcome
  unfolding unpack_loop
  unpack chan [] = none
  unpack chan (b ∷ bs) = some (unpack_loop (length (b ∷ bs) + 2) (room chan) chan.cache (b ∷ bs))

  -- db_pack_pack: the packet, and the channel with the next sequence number; `none` is the result -1.
  unfoldable pub pack : (now : ℕ) → Chan → (data' : List ℕ) → Option (List ℕ × Chan)
  unfolding put_head
  pack now chan bytes =
      let sequence = (chan.sequence + 1) % 65536 in
      let h : Head = record {
        magic = magic_code;
        flags = flags_crc;
        timestamp = now % 4294967296;
        sequence = sequence;
        length = length bytes % 65536;
        crc = crc8 bytes 255;
      } in
      if ltb chan.tsize (length bytes)
      then none
      else some (put_head h ++ bytes, record chan { sequence = sequence })
