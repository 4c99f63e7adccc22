-- ===== src/Network/Channels.antt =====
-- The mask of connected channels against the events, in a build with the client service.
use bk_solution_doorbell.Base.{
  ℕ, ◌<◌, ◌^◌, ◌≡◌, ◌≢◌, refl, ap, ◌∙◌, inl, inr, Bool, true, false, not, List, [], ◌∷◌, arith,
  ◌==◌, if◌then◌else◌, Bool-cases, bit_and, bit_not, zero-bit_and, bit_or-lt, bit_and-lt, power-le,
  power-apart, power-positive, bit_and-bit_or_self, bit_or-disjoint, bit_and-bit_not_self,
  bit_not-disjoint,
}
use bk_solution_doorbell.Network.{
  Channel, ctrl, video, audio, other, NtwkType, Code, start, connected, disconnected, stop,
  unhandled, TransEvent, is_ctrl, reset_for, handle_start_event, handle_connected_event,
  handle_disconnected_event, handle_stop_event, set_chan_connected, clear_chan_connected,
  msg_evt_handle,
}

abbrev pub same : Channel → Channel → Bool
same ctrl ctrl = true
same video video = true
same audio audio = true
same other other = true
same _ _ = false

same-≡ : (c d : Channel) → same c d ≡ true → c ≡ d
same-≡ ctrl ctrl h = refl
same-≡ ctrl video h = absurd (cc h)
same-≡ ctrl audio h = absurd (cc h)
same-≡ ctrl other h = absurd (cc h)
same-≡ video ctrl h = absurd (cc h)
same-≡ video video h = refl
same-≡ video audio h = absurd (cc h)
same-≡ video other h = absurd (cc h)
same-≡ audio ctrl h = absurd (cc h)
same-≡ audio video h = absurd (cc h)
same-≡ audio audio h = refl
same-≡ audio other h = absurd (cc h)
same-≡ other ctrl h = absurd (cc h)
same-≡ other video h = absurd (cc h)
same-≡ other audio h = absurd (cc h)
same-≡ other other h = refl

-- What the SDK's enum gives: the channels have different values, below 8.
pub record IsNumbering (number : Channel → ℕ) : Type 0 where
  pub distinct : (c d : Channel) → same c d ≡ false → number d ≢ number c
  pub few : (c : Channel) → number c < 8

-- Whether a channel is up after an event: it is connected, or it was up before and the event neither
-- disconnects it nor starts or stops the control channel.
abbrev pub up_after : Channel → TransEvent → Bool → Bool
up_after c e before = elim e.code [
  | start ↦ if is_ctrl e.chan_type then false else before
  | connected ↦ if same c e.chan_type then true else before
  | disconnected ↦ if same c e.chan_type then false else before
  | stop ↦ if is_ctrl e.chan_type then false else before
  | unhandled ↦ before
]

-- Whether it is up after some events, the latest first.
unfoldable pub up : Channel → List TransEvent → Bool
up c [] = false
up c (e ∷ es) = up_after c e (up c es)

module _ (number : Channel → ℕ) where
  abbrev pub is_connected : Channel → ℕ → Bool
  is_connected c mask = not (bit_and mask (2 ^ number c) == 0)

  -- The mask after some events, the latest first.
  unfoldable pub mask_after : NtwkType → List TransEvent → ℕ
  mask_after t [] = 0
  mask_after t (e ∷ es) = (msg_evt_handle true number t e (mask_after t es)).1

  module _ (numbering : IsNumbering number) where
    below : (c : Channel) → 2 ^ number c < 256
    below c = omega (arith, power-le (number c) 7 (omega (arith, numbering.few c)))

    apart : (c d : Channel) → same c d ≡ false → bit_and (2 ^ number d) (2 ^ number c) ≡ 0
    apart c d h = power-apart (number d) (number c) (numbering.distinct c d h)

    set-other :
        (c d : Channel) (mask : ℕ)
        → mask < 256
        → same c d ≡ false
        → is_connected c (set_chan_connected true number d mask) ≡ is_connected c mask
    set-other c d mask h k = ground (
      arith,
      bit_or-lt 8 mask (2 ^ number d) h (below d),
      bit_or-disjoint mask (2 ^ number d) (2 ^ number c) (apart c d k),
    )

    set_self :
        (c : Channel) (mask : ℕ)
        → mask < 256
        → is_connected c (set_chan_connected true number c mask) ≡ true
    set_self c mask h = ground (
      arith,
      bit_or-lt 8 mask (2 ^ number c) h (below c),
      bit_and-bit_or_self mask (2 ^ number c),
      power-positive (number c),
    )

    clear-other :
        (c d : Channel) (mask : ℕ)
        → mask < 256
        → same c d ≡ false
        → is_connected c (clear_chan_connected true number d mask) ≡ is_connected c mask
    clear-other c d mask h k = ground (
      arith,
      bit_and-lt 8 mask (bit_not (2 ^ number d)) h,
      bit_not-disjoint mask (2 ^ number d) (2 ^ number c) (omega (arith, below d))
          (omega (arith, below c)) (apart c d k),
    )

    clear_self :
        (c : Channel) (mask : ℕ)
        → mask < 256
        → is_connected c (clear_chan_connected true number c mask) ≡ false
    clear_self c mask h = ground (
      arith,
      bit_and-lt 8 mask (bit_not (2 ^ number c)) h,
      bit_and-bit_not_self mask (2 ^ number c) (omega (arith, below c)),
    )

    abbrev Follows : Channel → TransEvent → (mask mask' : ℕ) → Type 0
    Follows c e mask mask' =
        (mask' < 256) × (is_connected c mask' ≡ up_after c e (is_connected c mask))

    connected-Follows :
        (c d : Channel) (e : Bool) (mask : ℕ)
        → mask < 256
        → Follows c
            (record { code = connected; chan_type = d; not_conn = e })
            mask
            (set_chan_connected true number d mask)
    connected-Follows c d e mask h = elim (Bool-cases (same c d)) [
      | inl k ↦ (omega arith, rw (k, ← same-≡ c d k) (set_self c mask h))
      | inr k ↦ (omega arith, rw k (set-other c d mask h k))
    ]

    disconnected-Follows :
        (c d : Channel) (e : Bool) (mask : ℕ)
        → mask < 256
        → Follows c
            (record { code = disconnected; chan_type = d; not_conn = e })
            mask
            (clear_chan_connected true number d mask)
    disconnected-Follows c d e mask h = elim (Bool-cases (same c d)) [
      | inl k ↦ (omega arith, rw (k, ← same-≡ c d k) (clear_self c mask h))
      | inr k ↦ (omega arith, rw k (clear-other c d mask h k))
    ]

    reset_follows :
        (c d : Channel) (mask : ℕ)
        → mask < 256
        → (reset_for true number d mask < 256)
          × (is_connected c (reset_for true number d mask)
              ≡ (if is_ctrl d then false else is_connected c mask))
    reset_follows c d mask h = elim (Bool-cases (is_ctrl d)) [
      | inl k ↦ rw (k, zero-bit_and (2 ^ number c)) (omega arith, refl)
      | inr k ↦ rw k (h, refl)
    ]

    step-Follows :
        (t : NtwkType) (c : Channel) (code : Code) (d : Channel) (n : Bool) (mask : ℕ)
        → mask < 256
        → same c other ≡ false
        → let e : TransEvent = record { code = code; chan_type = d; not_conn = n } in
          Follows c e mask (msg_evt_handle true number t e mask).1
    unfolding msg_evt_handle handle_start_event handle_connected_event handle_disconnected_event
        handle_stop_event
    step-Follows t c start d n mask h k = reset_follows c d mask h
    step-Follows t c connected ctrl n mask h k = connected-Follows c ctrl n mask h
    step-Follows t c connected video n mask h k = connected-Follows c video n mask h
    step-Follows t c connected audio n mask h k = connected-Follows c audio n mask h
    step-Follows t c connected other n mask h k = rw k (h, refl)
    step-Follows t c disconnected d n mask h k = disconnected-Follows c d n mask h
    step-Follows t c stop d n mask h k = reset_follows c d mask h
    step-Follows t c unhandled d n mask h k = (h, refl)

    -- The mask of a build with the client service fits into its 8 bits and has the bit of the control, the
    -- video or the audio channel exactly if the channel is up after the events that were handled: it was
    -- connected, and since then it was not disconnected and the control channel was neither started nor
    -- stopped. The channels have different numbers below 8.
    pub mask_follows :
        (t : NtwkType) (c : Channel) (es : List TransEvent)
        → same c other ≡ false
        → (mask_after t es < 256) × (is_connected c (mask_after t es) ≡ up c es)
    unfolding mask_after up
    mask_follows t c [] k = rw (zero-bit_and (2 ^ number c)) (omega arith, refl)
    mask_follows t c (e ∷ es) k =
        let (small, before) = mask_follows t c es k in
        let (small', after) =
          step-Follows t c e.code e.chan_type e.not_conn (mask_after t es) small k in
        (small', after ∙ ap (up_after c e) before)
