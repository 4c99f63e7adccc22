-- ===== src/Audio/Format.antt =====
-- What the voice configuration takes from the parameters of a command.
use bk_solution_doorbell.Base.{
  ℕ, ◌*◌, ◌/◌, ◌≡◌, ◌≢◌, refl, ◌⊎◌, inl, inr, Bool, Option, none, some, ◌==◌, arith,
}
use bk_solution_doorbell.Command.{AudioParameters}
use bk_solution_doorbell.Audio.Config.{
  Codec, g711a, g711u, pcm, Mode, a_low, u_low, codec_of, sample_rate, frame_size, VoiceCfg,
  cfg_for, voice_cfg,
}

-- What a format's number stands for, and the law of its encoder and its decoder.
pub data Names : (fmt : ℕ) → Codec → Option Mode → Type 0 where
  a_law : Names 1 g711a (some a_low)
  linear : Names 2 pcm none
  u_law : Names 3 g711u (some u_low)

-- Bytes per sample of 16 bits, after coding.
abbrev pub bytes_per_sample : Codec → ℕ
bytes_per_sample pcm = 2
bytes_per_sample g711a = 1
bytes_per_sample g711u = 1

-- The pools of a configuration hold 20 milliseconds in its codecs, at the rates of its devices.
abbrev pub Holds20ms : VoiceCfg → Type 0
Holds20ms v =
    (50 * v.read_pool_size ≡ v.mic_rate * bytes_per_sample v.enc_type)
    × (50 * v.write_pool_size ≡ v.spk_rate * bytes_per_sample v.dec_type)

-- The rate that a device gets for the one that was asked for.
abbrev pub IsRateFor : (wanted rate : ℕ) → Type 0
IsRateFor wanted rate = ((wanted ≡ 16000) × (rate ≡ 16000)) ⊎ ((wanted ≢ 16000) × (rate ≡ 8000))

-- What is stated of a configuration, and of a refusal.
abbrev pub Suits : AudioParameters → Option VoiceCfg → Type 0
Suits p none = (p.rmt_recoder_fmt ≢ 1) × (p.rmt_recoder_fmt ≢ 2) × (p.rmt_recoder_fmt ≢ 3)
Suits p (some v) =
    Names p.rmt_recoder_fmt v.enc_type v.enc_mode
    × Names p.rmt_recoder_fmt v.dec_type v.dec_mode
    × Holds20ms v
    × IsRateFor p.rmt_recorder_sample_rate v.mic_rate
    × IsRateFor p.rmt_player_sample_rate v.spk_rate

sample_rate-IsRateFor : (n : ℕ) → IsRateFor n (sample_rate n)
unfolding sample_rate
sample_rate-IsRateFor n = ground arith

frame_bytes : (w n : ℕ) → IsRateFor w n → 50 * frame_size n ≡ n * 2
frame_bytes w n (inl (_, h)) = rw h refl
frame_bytes w n (inr (_, h)) = rw h refl

half_bytes : (w n : ℕ) → IsRateFor w n → 50 * (frame_size n / 2) ≡ n * 1
half_bytes w n (inl (_, h)) = rw h refl
half_bytes w n (inr (_, h)) = rw h refl

-- The codec that a number stands for, by that number.
abbrev IsCodecOf : ℕ → Option Codec → Type 0
IsCodecOf n none = (n ≢ 1) × (n ≢ 2) × (n ≢ 3)
IsCodecOf n (some g711a) = n ≡ 1
IsCodecOf n (some pcm) = n ≡ 2
IsCodecOf n (some g711u) = n ≡ 3

codec_of-IsCodecOf : (n : ℕ) → IsCodecOf n (codec_of n)
unfolding codec_of
codec_of-IsCodecOf n = ground arith

cfg_for-Suits :
    (o : Option Codec) (p : AudioParameters) (uac : Bool) (aec : Option ℕ) (mic spk : ℕ)
    → IsCodecOf p.rmt_recoder_fmt o
    → IsRateFor p.rmt_recorder_sample_rate mic
    → IsRateFor p.rmt_player_sample_rate spk
    → Suits p (cfg_for o uac aec mic spk)
cfg_for-Suits none p uac aec mic spk e h k = e
cfg_for-Suits (some pcm) p uac aec mic spk e h k =
    (rw e linear, rw e linear, (frame_bytes _ mic h, frame_bytes _ spk k), h, k)
cfg_for-Suits (some g711a) p uac aec mic spk e h k =
    (rw e a_law, rw e a_law, (half_bytes _ mic h, half_bytes _ spk k), h, k)
cfg_for-Suits (some g711u) p uac aec mic spk e h k =
    (rw e u_law, rw e u_law, (half_bytes _ mic h, half_bytes _ spk k), h, k)

-- For any parameters of a command, no configuration is made exactly if the number of the recorder's format is none
-- of 1, 2 and 3. Otherwise the encoder and the decoder are both those of G.711 with the A-law for 1, of PCM for 2 and of
-- G.711 with the µ-law for 3, each of the two rates is 16000 if that was asked for and 8000 if not, and the pools for
-- reading and writing hold 20 ms of coded samples at those rates.
pub voice_cfg-Suits : (p : AudioParameters) → Suits p (voice_cfg p)
unfolding voice_cfg
voice_cfg-Suits p =
    cfg_for-Suits (codec_of p.rmt_recoder_fmt) p (p.uac == 1) _ _ _
      (codec_of-IsCodecOf p.rmt_recoder_fmt) (sample_rate-IsRateFor p.rmt_recorder_sample_rate)
      (sample_rate-IsRateFor p.rmt_player_sample_rate)

-- The player's format has no influence.
pub player_format_ignored :
    (p : AudioParameters) (fmt : ℕ) → voice_cfg (record p { rmt_player_fmt = fmt }) ≡ voice_cfg p
unfolding voice_cfg
player_format_ignored p fmt = refl
