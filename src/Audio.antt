-- ===== src/Audio.antt =====
-- components/smart_lock/src/doorbell_audio_device.c: the voice pipelines. `Config` has the configuration that
-- they get. What calls of the SDK and of the network transfer return is an argument.
pub mod Config
pub mod Format
pub mod Pipelines
mod Tests
use bk_solution_doorbell.Base.{
  ℕ, Bool, true, false, not, ◌&&◌, Option, none, some, List, [], ◌∷◌, ◌++◌, if◌then◌else◌,
}
use bk_solution_doorbell.Command.{AudioParameters}
use bk_solution_doorbell.Audio.Config.{VoiceCfg, voice_cfg}

-- `db_audio_device_info_t`; of a handle, whether it is set.
pub record Info : Type 0 where
  pub audio_enable : Bool
  pub voice_handle : Bool
  pub voice_read_handle : Bool
  pub voice_write_handle : Bool

abbrev pub zeroed : Info
zeroed = record {
  audio_enable = false;
  voice_handle = false;
  voice_read_handle = false;
  voice_write_handle = false;
}

-- The calls that leave the file, with what they returned.
pub data Action : Type 0 where
  voice_init : VoiceCfg → Bool → Action
  read_init write_init voice_start read_start write_start : Bool → Action
  read_stop write_stop voice_stop read_deinit write_deinit voice_deinit : Action
  chan_start chan_stop : Action

-- `service` is what ntwk_trans_get_service_name returns: whether it is "cs2_service".
pub record Calls : Type 0 where
  pub voice_init : Bool
  pub read_init : Bool
  pub write_init : Bool
  pub voice_start : Bool
  pub read_start : Bool
  pub write_start : Bool
  pub service : Option Bool

abbrev pub when : Bool → Action → List Action
when b a = if b then a ∷ [] else []

-- How both functions take the pipelines down.
unfoldable pub take_down : Info → Info × List Action
take_down i = (
  record i { voice_handle = false; voice_read_handle = false; voice_write_handle = false },
  when i.voice_read_handle read_stop
      ++ (when i.voice_write_handle write_stop
          ++ (when i.voice_handle voice_stop
              ++ (when i.voice_read_handle read_deinit
                  ++ (when i.voice_write_handle write_deinit
                      ++ when i.voice_handle voice_deinit)))),
)

-- The end of doorbell_audio_turn_off, for a service.
abbrev pub stop_service : (cs2 : Bool) → Info → Bool × Info × List Action
stop_service cs2 i = let (i', acts) = take_down i in (true, i', when cs2 chan_stop ++ acts)

-- doorbell_audio_turn_off, for a structure that exists; `true` is BK_OK.
unfoldable pub audio_turn_off : Calls → Info → Bool × Info × List Action
unfolding take_down
audio_turn_off c i =
    let i' = record i { audio_enable = false } in
    if not i.audio_enable
    then (false, i, [])
    else elim c.service [ none ↦ (false, i', []) | some cs2 ↦ stop_service cs2 i' ]

-- The calls that start the pipelines, up to one that fails: whether all succeed.
unfoldable pub start_all : Calls → Bool × List Action
start_all c =
    if not c.voice_start
    then (false, voice_start false ∷ [])
    else if not c.read_start
    then (false, voice_start true ∷ read_start false ∷ [])
    else (c.write_start, voice_start true ∷ read_start true ∷ write_start c.write_start ∷ [])

-- The pipelines that doorbell_audio_turn_on makes, up to a call that fails.
unfoldable pub make_all : VoiceCfg → Calls → Info → Bool × Info × List Action
unfolding start_all
make_all cfg c i =
    let i1 = record i { voice_handle = true } in
    let i2 = record i1 { voice_read_handle = true } in
    let i3 = record i2 { voice_write_handle = true } in
    let (ok, acts) = start_all c in
    if not c.voice_init
    then (false, record i { voice_handle = false }, voice_init cfg false ∷ [])
    else if not c.read_init
    then (
      false,
      record i1 { voice_read_handle = false },
      voice_init cfg true ∷ read_init false ∷ [],
    )
    else if not c.write_init
    then (
      false,
      record i2 { voice_write_handle = false },
      voice_init cfg true ∷ read_init true ∷ write_init false ∷ [],
    )
    else (ok, i3, voice_init cfg true ∷ read_init true ∷ write_init true ∷ acts)

-- doorbell_audio_turn_on once the pipelines run.
abbrev pub enable : Calls → Info → Bool × Info × List Action
enable c i =
    let i' = record i { audio_enable = true } in
    elim c.service [ none ↦ (false, i', []) | some cs2 ↦ (true, i', when cs2 chan_start) ]

-- doorbell_audio_turn_on after its test, for a configuration or none.
unfoldable pub turn_on_with : Option VoiceCfg → Calls → Info → Bool × Info × List Action
unfolding make_all take_down
turn_on_with none c i = let (i', acts) = take_down i in (false, i', acts)
turn_on_with (some cfg) c i =
    let (ok, i1, acts1) = make_all cfg c i in
    let (down, acts2) = take_down i1 in
    let (ret, i2, acts3) = enable c i1 in
    if ok then (ret, i2, acts1 ++ acts3) else (false, down, acts1 ++ acts2)

-- doorbell_audio_turn_on, for a structure that exists.
unfoldable pub audio_turn_on : AudioParameters → Calls → Info → Bool × Info × List Action
unfolding voice_cfg turn_on_with
audio_turn_on p c i =
    let r = turn_on_with (voice_cfg p) c i in if i.audio_enable then (false, i, []) else r

-- doorbell_audio_data_callback: whether the data goes to the speaker.
unfoldable pub audio_data_callback : Info → (bytes : List ℕ) → Option (List ℕ)
audio_data_callback i bytes = if i.audio_enable then some bytes else none

-- doorbell_audio_device_init.
unfoldable pub audio_device_init : (alloc : Bool) → Option Info → Bool × Option Info
audio_device_init alloc (some i) = (true, some zeroed)
audio_device_init alloc none = if alloc then (true, some zeroed) else (false, none)

unfoldable pub audio_device_deinit : Option Info → Option Info
audio_device_deinit _ = none
