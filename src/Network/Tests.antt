-- ===== src/Network/Tests.antt =====
-- Three channels that come up and go down.
use bk_solution_doorbell.Base.{ℕ, ◌<◌, ◌≡◌, ◌≢◌, refl, true, false, some, List, [], ◌∷◌, arith}
use bk_solution_doorbell.Message.{remote_device_connected}
use bk_solution_doorbell.Network.{
  Channel, ctrl, video, audio, other, tcp, start, connected, TransEvent, msg_evt_handle,
}
use bk_solution_doorbell.Network.Channels.{same, IsNumbering, mask_after, up}
use bk_solution_doorbell.Network.Announce.{connected_announces}

abbrev number : Channel → ℕ
number ctrl = 0
number video = 1
number audio = 2
number other = 3

number-IsNumbering : IsNumbering number
number-IsNumbering = record { distinct = differ; few = small }
  where
    small : (c : Channel) → number c < 8
    small ctrl = omega arith
    small video = omega arith
    small audio = omega arith
    small other = omega arith

    differ : (c d : Channel) → same c d ≡ false → number d ≢ number c
    differ ctrl ctrl h = absurd (cc h)
    differ ctrl video h = λ e. omega (arith, e)
    differ ctrl audio h = λ e. omega (arith, e)
    differ ctrl other h = λ e. omega (arith, e)
    differ video ctrl h = λ e. omega (arith, e)
    differ video video h = absurd (cc h)
    differ video audio h = λ e. omega (arith, e)
    differ video other h = λ e. omega (arith, e)
    differ audio ctrl h = λ e. omega (arith, e)
    differ audio video h = λ e. omega (arith, e)
    differ audio audio h = absurd (cc h)
    differ audio other h = λ e. omega (arith, e)
    differ other ctrl h = λ e. omega (arith, e)
    differ other video h = λ e. omega (arith, e)
    differ other audio h = λ e. omega (arith, e)
    differ other other h = absurd (cc h)

-- The control and the audio channel are up.
abbrev history : List TransEvent
history =
    record { code = connected; chan_type = audio; not_conn = false }
    ∷ record { code = connected; chan_type = ctrl; not_conn = false }
    ∷ record { code = start; chan_type = ctrl; not_conn = false }
    ∷ []

connected_announces_example :
    (msg_evt_handle true number tcp
      (record { code = connected; chan_type = video; not_conn = false })
      (mask_after number tcp history)).0
    ≡ some remote_device_connected
unfolding up
connected_announces_example =
    connected_announces number number-IsNumbering tcp video false history refl refl
