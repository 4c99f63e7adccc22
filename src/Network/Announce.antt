-- ===== src/Network/Announce.antt =====
-- When the handler tells the doorbell that the remote device is connected, in a build with the client
-- service.
use bk_solution_doorbell.Base.{
  ℕ, ◌^◌, ◌≡◌, refl, sym, inl, inr, Bool, true, false, ◌&&◌, none, some, List, ◌∷◌, arith,
  if◌then◌else◌, bit_and, bit_or, bit_and-power, bit_and-bit_or, bit_and-bit_or_parts,
  power-positive,
}
use bk_solution_doorbell.Message.{remote_device_connected}
use bk_solution_doorbell.Network.{
  Channel, ctrl, video, audio, other, NtwkType, connected, TransEvent, is_known,
  check_all_channels_connected, all_chan_mask, msg_evt_handle, handle_connected_event,
}
use bk_solution_doorbell.Network.Channels.{
  same, IsNumbering, up, is_connected, mask_after, mask_follows,
}

same_truth : (a b : Bool) → (a ≡ true → b ≡ true) → (b ≡ true → a ≡ true) → a ≡ b
same_truth true b f g = sym (f refl)
same_truth false true f g = g refl
same_truth false false f g = refl

three_true : (a b c : Bool) → (a && b && c) ≡ true → (a ≡ true) × (b ≡ true) × (c ≡ true)
three_true true true true h = (refl, refl, refl)
three_true true true false h = absurd (cc h)
three_true true false c h = absurd (cc h)
three_true false b c h = absurd (cc h)

module _ (number : Channel → ℕ) where
  connected_covers :
      (c : Channel) (mask : ℕ)
      → is_connected number c mask ≡ true
      → bit_and mask (2 ^ number c) ≡ 2 ^ number c
  connected_covers c mask h = elim (bit_and-power (number c) mask) [
    | inl e ↦ absurd (cc (rw e at h))
    | inr e ↦ e
  ]

  covers_connected :
      (c : Channel) (mask : ℕ)
      → bit_and mask (2 ^ number c) ≡ 2 ^ number c
      → is_connected number c mask ≡ true
  covers_connected c mask e = ground (arith, e, power-positive (number c))

  all_covered :
      (mask : ℕ)
      → check_all_channels_connected true number mask ≡ true
      → (is_connected number ctrl mask ≡ true)
        × (is_connected number video mask ≡ true)
        × (is_connected number audio mask ≡ true)
  all_covered mask h =
      let whole : bit_and mask (all_chan_mask true number) ≡ all_chan_mask true number =
        ground (arith, h) in
      let (pair, c) =
        bit_and-bit_or_parts mask (bit_or (2 ^ number ctrl) (2 ^ number video)) (2 ^ number audio)
          whole in
      let (a, b) = bit_and-bit_or_parts mask (2 ^ number ctrl) (2 ^ number video) pair in
      (covers_connected ctrl mask a, covers_connected video mask b, covers_connected audio mask c)

  all_connected :
      (mask : ℕ)
      → is_connected number ctrl mask ≡ true
      → is_connected number video mask ≡ true
      → is_connected number audio mask ≡ true
      → check_all_channels_connected true number mask ≡ true
  all_connected mask a b c =
      let pair =
        bit_and-bit_or mask (2 ^ number ctrl) (2 ^ number video) (connected_covers ctrl mask a)
          (connected_covers video mask b) in
      let whole =
        bit_and-bit_or mask (bit_or (2 ^ number ctrl) (2 ^ number video)) (2 ^ number audio) pair
          (connected_covers audio mask c) in
      ground (arith, whole)

  check_three :
      (mask : ℕ)
      → check_all_channels_connected true number mask ≡ (
          is_connected number ctrl mask
          && is_connected number video mask
          && is_connected number audio mask)
  check_three mask =
      same_truth _ _ (λ h. let (a, b, c) = all_covered mask h in rw (a, b, c) refl)
        (λ h. let (a, b, c) = three_true _ _ _ h in all_connected mask a b c)

  announced :
      IsNumbering number
      → (t : NtwkType) (es : List TransEvent) → is_known t ≡ true
      → (if check_all_channels_connected true number (mask_after number t es)
          then if is_known t then some remote_device_connected else none
          else none)
        ≡ (if up ctrl es && up video es && up audio es then some remote_device_connected else none)
  announced numbering t es known =
      rw
        (
          check_three (mask_after number t es),
          (mask_follows number numbering t ctrl es refl).1,
          (mask_follows number numbering t video es refl).1,
          (mask_follows number numbering t audio es refl).1,
          known,
        )
        refl

  -- In a build with the client service and one of the three services, when a channel is connected, the
  -- message that the remote device is connected is sent exactly if the control, the video and the audio
  -- channel are all up after this event; otherwise no message is. The channels have different numbers
  -- below 8.
  pub connected_announces :
      IsNumbering number
      → (t : NtwkType) (c : Channel) (n : Bool) (es : List TransEvent) → is_known t ≡ true
      → same c other ≡ false
      → let e : TransEvent = record { code = connected; chan_type = c; not_conn = n } in
        (msg_evt_handle true number t e (mask_after number t es)).0 ≡ (
          if up ctrl (e ∷ es) && up video (e ∷ es) && up audio (e ∷ es)
          then some remote_device_connected
          else none)
  unfolding msg_evt_handle handle_connected_event mask_after
  connected_announces numbering t ctrl n es known real =
      announced numbering t (record { code = connected; chan_type = ctrl; not_conn = n } ∷ es) known
  connected_announces numbering t video n es known real =
      announced numbering t (record { code = connected; chan_type = video; not_conn = n } ∷ es)
        known
  connected_announces numbering t audio n es known real =
      announced numbering t (record { code = connected; chan_type = audio; not_conn = n } ∷ es)
        known
  connected_announces numbering t other n es known real = absurd (cc real)
