-- ===== src/Audio/Config.antt =====
-- components/smart_lock/src/doorbell_audio_device.c: the voice configuration for the parameters of a command.
use bk_solution_doorbell.Base.{ℕ, ◌*◌, ◌/◌, Bool, Option, none, some, ◌==◌, if◌then◌else◌}
use bk_solution_doorbell.Command.{AudioParameters}

-- `codec_format_t`: the values that the switch tells apart.
pub data Codec : Type 0 where
  g711a g711u pcm : Codec

-- CODEC_FORMAT_G711A, CODEC_FORMAT_PCM and CODEC_FORMAT_G711U; another number is not supported.
unfoldable pub codec_of : ℕ → Option Codec
codec_of n =
    if n == 1 then some g711a else if n == 2 then some pcm else if n == 3 then some g711u else none

-- DB_SAMPLE_RARE_8K and DB_SAMPLE_RARE_16K; any other rate is taken for 8000.
unfoldable pub sample_rate : ℕ → ℕ
sample_rate n = if n == 16000 then 16000 else 8000

-- One frame size (20 ms).
abbrev pub frame_size : (rate : ℕ) → ℕ
frame_size rate = rate * 2 * 20 / 1000

-- G711_ENC_MODE_A_LOW and G711_ENC_MODE_U_LOW, and G711_DEC_MODE_A_LOW and G711_DEC_MODE_U_LOW.
pub data Mode : Type 0 where
  a_low u_low : Mode

-- The fields of `voice_cfg_t` that the file sets itself. `enc_mode`, `enc_buf` and `enc_block` are set for G.711
-- only, as are `dec_mode`, `dec_block` and `dec_buf`.
pub record VoiceCfg : Type 0 where
  pub uac : Bool
  pub mic_rate : ℕ
  pub mic_frame_size : ℕ
  pub mic_block_size : ℕ
  pub spk_rate : ℕ
  pub spk_frame_size : ℕ
  pub aec_fs : Option ℕ
  pub enc_type : Codec
  pub enc_mode : Option Mode
  pub enc_buf : Option ℕ
  pub enc_block : Option ℕ
  pub read_pool_size : ℕ
  pub dec_type : Codec
  pub dec_mode : Option Mode
  pub dec_block : Option ℕ
  pub dec_buf : Option ℕ
  pub write_pool_size : ℕ

-- The case for PCM.
abbrev pub pcm_cfg : (uac : Bool) (aec_fs : Option ℕ) (mic spk : ℕ) → VoiceCfg
pcm_cfg uac aec_fs mic spk = record {
  uac = uac;
  mic_rate = mic;
  mic_frame_size = frame_size mic;
  mic_block_size = frame_size mic;
  spk_rate = spk;
  spk_frame_size = frame_size spk;
  aec_fs = aec_fs;
  enc_type = pcm;
  enc_mode = none;
  enc_buf = none;
  enc_block = none;
  read_pool_size = frame_size mic;
  dec_type = pcm;
  dec_mode = none;
  dec_block = none;
  dec_buf = none;
  write_pool_size = frame_size spk;
}

-- The case for the two forms of G.711.
abbrev pub g711_cfg : Codec → Mode → (uac : Bool) (aec_fs : Option ℕ) (mic spk : ℕ) → VoiceCfg
g711_cfg codec mode uac aec_fs mic spk = record (pcm_cfg uac aec_fs mic spk) {
  enc_type = codec;
  enc_mode = some mode;
  enc_buf = some (frame_size mic);
  enc_block = some (frame_size mic / 2);
  read_pool_size = frame_size mic / 2;
  dec_type = codec;
  dec_mode = some mode;
  dec_block = some (frame_size spk);
  dec_buf = some (frame_size spk / 2);
  write_pool_size = frame_size spk / 2;
}

-- The switch over the codec.
abbrev pub cfg_for : Option Codec → (uac : Bool) (aec_fs : Option ℕ) (mic spk : ℕ) → Option VoiceCfg
cfg_for none uac aec_fs mic spk = none
cfg_for (some pcm) uac aec_fs mic spk = some (pcm_cfg uac aec_fs mic spk)
cfg_for (some g711a) uac aec_fs mic spk = some (g711_cfg g711a a_low uac aec_fs mic spk)
cfg_for (some g711u) uac aec_fs mic spk = some (g711_cfg g711u u_low uac aec_fs mic spk)

-- The configuration that doorbell_audio_turn_on makes; `none` is a format that it refuses.
unfoldable pub voice_cfg : AudioParameters → Option VoiceCfg
unfolding codec_of sample_rate
voice_cfg p =
    let mic = sample_rate p.rmt_recorder_sample_rate in
    let spk = sample_rate p.rmt_player_sample_rate in
    let aec = if p.aec == 1 then some mic else none in
    cfg_for (codec_of p.rmt_recoder_fmt) (p.uac == 1) aec mic spk
