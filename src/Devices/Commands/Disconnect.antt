-- ===== src/Devices/Commands/Disconnect.antt =====
-- The loss of the remote side with the audio on: what the message loop does to the devices and to their bits.
use bk_solution_doorbell.Base.{
  ℕ, ◌≡◌, ◌≢◌, refl, ap, ◌∙◌, Bool, true, false, List, [], ◌∷◌, All, arith, if◌then◌else◌,
}
use bk_solution_doorbell.Command.{
  Opcode, set_camera_turn_on, set_camera_turn_off, set_audio_turn_on, set_audio_turn_off,
  set_lcd_turn_on, set_lcd_turn_off,
}
use bk_solution_doorbell.Command.Votes
use bk_solution_doorbell.Command.Votes.{all_off, bitmap, switched, after, arrival-bitmap}
use bk_solution_doorbell.Audio.{audio_turn_on, audio_turn_off, take_down}
use bk_solution_doorbell.Devices.{Ret, is_ok}
use bk_solution_doorbell.Devices.System.{transfer_off, apply}
use bk_solution_doorbell.Devices.Commands.{Board, State, Request, IsCode, device_calls, serve_all}
use bk_solution_doorbell.Core.{Options, Effect, message_handle, video_turn_off}
use bk_solution_doorbell.Message.{
  Service, service_none, lan_udp, lan_tcp, p2p_cs2, remote_device_disconnected,
}
use bk_solution_doorbell.Devices.Commands.Steps.{opcode, serve_all-HasBits}
use bk_solution_doorbell.Core.{audio_turn_off as turn_audio_off, if_lan, sdp_start}
use bk_solution_doorbell.Devices.{Calls}
use bk_solution_doorbell.Audio

-- What one effect of doorbell_message_handle does to the devices: the loop calls two of their functions.
abbrev pub perform : Calls → Audio.Calls → Effect → Board → Board
perform c ac video_turn_off b = record b { devices = (apply transfer_off c b.devices).1 }
perform c ac turn_audio_off b = record b { audio = (audio_turn_off ac b.audio).1 }
perform c ac _ b = b

abbrev pub perform_all : Calls → Audio.Calls → List Effect → Board → Board
perform_all c ac [] b = b
perform_all c ac (e ∷ es) b = perform_all c ac es (perform c ac e b)

-- The state after DBEVT_REMOTE_DEVICE_DISCONNECTED.
abbrev pub disconnected : Options → (param : ℕ) → Service → Calls → Audio.Calls → State → State
disconnected o param running c ac s =
    let (_, _, es) = message_handle o remote_device_disconnected param running in
    record s { board = perform_all c ac es s.board }

-- The audio is off with its bit set.
abbrev pub AudioLost : Votes.Devices → Board → Type 0
AudioLost d b = (d.audio ≡ true) × (b.audio.audio_enable ≡ false)

abbrev pub NoAudioOn : Request → Type 0
NoAudioOn r = opcode r ≢ set_audio_turn_on

off-audio :
    (cmd : ℕ → ℕ) (r : Request) (b : Board)
    → b.audio.audio_enable ≡ false
    → let (ret, b') = device_calls set_audio_turn_off cmd r b in
      (is_ok ret ≡ false) × (b'.audio.audio_enable ≡ false)
unfolding device_calls audio_turn_off
off-audio cmd r b h = ground arith

kept_audio :
    (good : Bool) (d : Votes.Devices) (op : Opcode)
    → op ≢ set_audio_turn_on
    → op ≢ set_audio_turn_off
    → (if good then switched op d else d).audio ≡ d.audio
kept_audio good d op h l = ground arith

device_calls-AudioLost :
    (op : Opcode) (cmd : ℕ → ℕ) (r : Request) (d : Votes.Devices) (b : Board)
    → op ≢ set_audio_turn_on
    → AudioLost d b
    → let (ret, b') = device_calls op cmd r b in
      AudioLost (if is_ok ret then switched op d else d) b'
unfolding device_calls
device_calls-AudioLost set_audio_turn_on cmd r d b h k = absurd (h refl)
device_calls-AudioLost set_audio_turn_off cmd r d b h k =
    let e = off-audio cmd r b k.1 in simp e.0 (k.0, e.1)
device_calls-AudioLost set_camera_turn_on cmd r d b h k =
    let (ret, _) = device_calls set_camera_turn_on cmd r b in
    (kept_audio (is_ok ret) d set_camera_turn_on (cc) (cc) ∙ k.0, k.1)
device_calls-AudioLost set_camera_turn_off cmd r d b h k =
    let (ret, _) = device_calls set_camera_turn_off cmd r b in
    (kept_audio (is_ok ret) d set_camera_turn_off (cc) (cc) ∙ k.0, k.1)
device_calls-AudioLost set_lcd_turn_on cmd r d b h k =
    let (ret, _) = device_calls set_lcd_turn_on cmd r b in
    (kept_audio (is_ok ret) d set_lcd_turn_on (cc) (cc) ∙ k.0, k.1)
device_calls-AudioLost set_lcd_turn_off cmd r d b h k =
    let (ret, _) = device_calls set_lcd_turn_off cmd r b in
    (kept_audio (is_ok ret) d set_lcd_turn_off (cc) (cc) ∙ k.0, k.1)
device_calls-AudioLost _ cmd r d b h k = k

turn_off-disables :
    (ac : Audio.Calls) (a : Audio.Info) → (audio_turn_off ac a).1.audio_enable ≡ false
unfolding audio_turn_off take_down
turn_off-disables ac a = ground arith

client_sdp :
    (client : Bool) (x : Service) (c : Calls) (ac : Audio.Calls) (b : Board)
    → perform_all c ac (if client then [] else sdp_start x ∷ []) b ≡ b
client_sdp true x c ac b = refl
client_sdp false x c ac b = refl

lan_sdp :
    (o : Options) (running x : Service) (c : Calls) (ac : Audio.Calls) (b : Board)
    → perform_all c ac (if_lan o running (sdp_start x)) b ≡ b
lan_sdp o lan_udp x c ac b = client_sdp o.client x c ac b
lan_sdp o lan_tcp x c ac b = client_sdp o.client x c ac b
lan_sdp o service_none x c ac b = refl
lan_sdp o p2p_cs2 x c ac b = refl

disconnected-off :
    (o : Options) (param : ℕ) (running : Service) (c : Calls) (ac : Audio.Calls) (s : State)
    → (disconnected o param running c ac s).board.audio.audio_enable ≡ false
unfolding message_handle
disconnected-off o param running c ac s =
    let b = perform c ac turn_audio_off (perform c ac video_turn_off s.board) in
    ap (λ (x : Board). x.audio.audio_enable) (lan_sdp o running running c ac b)
    ∙ turn_off-disables ac s.board.audio

-- When the remote side is lost while the audio's bit is set, the message loop turns the audio off but leaves its bit
-- set, until a command turns the audio on: every other command, turn-off commands too, leaves it so.
pub audio_bit_lasts :
    (code : Ret → ℕ) (o : Options) (param : ℕ) (running : Service) (c : Calls) (ac : Audio.Calls)
    (rs : List Request) (s : State) (d : Votes.Devices)
    → IsCode code
    → s.cmd.mm_status ≡ bitmap d
    → d.audio ≡ true
    → All NoAudioOn rs
    → let s' = serve_all code rs (disconnected o param running c ac s) in
      (d' : Votes.Devices) × ((s'.cmd.mm_status ≡ bitmap d') × AudioLost d' s'.board)
audio_bit_lasts code o param running c ac rs s d codes e l h =
    serve_all-HasBits code codes AudioLost NoAudioOn
      (λ q d' b. device_calls-AudioLost (opcode q) q.arrival.cmd q d' b) rs
      (disconnected o param running c ac s) h (d, (e, (l, disconnected-off o param running c ac s)))
