-- ===== src/Camera/Choice.antt =====
-- Which mode of a USB camera the check of the port chooses.
use bk_solution_doorbell.Base.{
  ℕ, zero, suc, ◌+◌, ◌%◌, ◌<◌, ◌≡◌, ◌≢◌, refl, ap, ◌⊎◌, inl, inr, Bool, true, false, ◌||◌, some,
  ◌==◌, arith, if◌then◌else◌, Bool-cases,
}
use bk_solution_doorbell.Camera.Modes.{
  ImageFormat, Frame, Brief, Config, image_yuv, image_mjpeg, image_h264, image_h265, other_image,
  fps_loop, same_size, frame_loop, check_mjpeg_config, check_yuv_config, check_h264_config,
  check_h265_config, check_config, checkout_port_info,
}

-- Whether one of the first rates is the wanted one.
abbrev pub lists : (fps : ℕ → ℕ) → ℕ → (want : ℕ) → Bool
lists fps zero want = false
lists fps (suc n) want = lists fps n want || (fps n == want)

lists-next :
    (fps : ℕ → ℕ) (n want : ℕ) → lists fps (n + 1) want ≡ lists fps n want || (fps n == want)
lists-next fps n want = let e : n + 1 ≡ suc n = omega arith in rw e refl

fps_loop-lists :
    (want : ℕ) (f : Frame) (left i j : ℕ) (flag : Bool)
    → i + left ≡ j
    → flag ≡ lists f.fps i want
    → fps_loop true want f left i flag ≡ lists f.fps j want
fps_loop-lists want f zero i j flag h e = let k : i ≡ j = omega arith in rw (← k) e
fps_loop-lists want f (suc left) i j flag h e =
    fps_loop-lists want f left (i + 1) j (flag || (f.fps i == want)) (omega arith)
      (rw (e, lists-next f.fps i want) refl)

fps_loop-idle : (want : ℕ) (f : Frame) (left i : ℕ) → fps_loop false want f left i false ≡ false
fps_loop-idle want f zero i = refl
fps_loop-idle want f (suc left) i = fps_loop-idle want f left (i + 1)

-- The wanted rate if the entry lists it, else the entry's first rate.
abbrev pub rate : Frame → (want : ℕ) → ℕ
rate f want = if lists f.fps f.fps_num want then want else f.fps 0

-- Of `n` entries either the first one of the wanted size is chosen, with its rate, or none has that size and
-- the configuration is refused as it was.
abbrev pub Chooses : (frames : ℕ → Frame) (n : ℕ) → Config → Bool × Config → Type 0
Chooses frames n c r =
    ((i : ℕ) × ((i < n)
        × (same_size c (frames i) ≡ true)
        × ((j : ℕ) → j < i → same_size c (frames j) ≡ false)
        × (r ≡ (true, record c { fps = rate (frames i) c.fps }))))
    ⊎ (((j : ℕ) → j < n → same_size c (frames j) ≡ false) × (r ≡ (false, c)))

kept_or_first :
    (b : Bool) (x : ℕ) (c : Config)
    → (if b then c else record c { fps = x }) ≡ record c { fps = if b then c.fps else x }
kept_or_first true x c = refl
kept_or_first false x c = refl

chosen-rate :
    (f : Frame) (c : Config)
    → (if fps_loop true c.fps f f.fps_num 0 false then c else record c { fps = f.fps 0 })
      ≡ record c { fps = rate f c.fps }
chosen-rate f c =
    rw (fps_loop-lists c.fps f f.fps_num 0 f.fps_num false (omega arith) refl)
      (kept_or_first (lists f.fps f.fps_num c.fps) (f.fps 0) c)

-- The entries before `index` do not have the wanted size.
abbrev Passed : (ℕ → Frame) → Config → (index : ℕ) → Type 0
Passed frames c index = (j : ℕ) → j < index → same_size c (frames j) ≡ false

Passed-next :
    (frames : ℕ → Frame) (c : Config) (index : ℕ)
    → same_size c (frames index) ≡ false
    → Passed frames c index
    → Passed frames c (index + 1)
Passed-next frames c index e h j l = elim (Bool-cases (j == index)) [
  | inl k ↦ let k' : j ≡ index = ground arith in rw k' e
  | inr k ↦ h j (ground arith)
]

frame_loop-Chooses :
    (frames : ℕ → Frame) (c : Config) (left index n : ℕ)
    → index + left ≡ n
    → Passed frames c index
    → Chooses frames n c (frame_loop frames c left index false)
frame_loop-Chooses frames c zero index n e h =
    let k : index ≡ n = omega arith in inr (rw (← k) h, refl)
frame_loop-Chooses frames c (suc left) index n e h =
    elim (Bool-cases (same_size c (frames index))) [
      | inl k ↦
          inl
            (index, (omega arith, k, h, rw k (ap (λ x. (true, x)) (chosen-rate (frames index) c))))
      | inr k ↦
          rw (k, fps_loop-idle c.fps (frames index) (frames index).fps_num 0)
            (frame_loop-Chooses frames c left (index + 1) n (omega arith)
              (Passed-next frames c index k h))
    ]

-- How many entries of a format the code looks at.
abbrev pub looked_at : Brief → ImageFormat → ℕ
looked_at d image_h265 = 0
looked_at d f = d.frame_num f % 256

none_below : (frames : ℕ → Frame) (c : Config) → Passed frames c 0
none_below frames c j l = absurd (omega arith)

checks :
    (d : Brief) (c : Config) (f : ImageFormat)
    → f ≢ other_image
    → Chooses (d.frame f) (looked_at d f) c (check_config f d c)
unfolding check_config check_mjpeg_config check_yuv_config check_h264_config check_h265_config
checks d c image_yuv h =
    frame_loop-Chooses (d.frame image_yuv) c (d.frame_num image_yuv % 256) 0 _ (omega arith)
      (none_below (d.frame image_yuv) c)
checks d c image_mjpeg h =
    frame_loop-Chooses (d.frame image_mjpeg) c (d.frame_num image_mjpeg % 256) 0 _ (omega arith)
      (none_below (d.frame image_mjpeg) c)
checks d c image_h264 h =
    frame_loop-Chooses (d.frame image_h264) c (d.frame_num image_h264 % 256) 0 _ (omega arith)
      (none_below (d.frame image_h264) c)
checks d c image_h265 h =
    frame_loop-Chooses (d.frame image_h265) c 0 0 _ (omega arith)
      (none_below (d.frame image_h265) c)
checks d c other_image h = absurd (h refl)

-- For YUV, MJPEG and H.264, of the entries that the camera lists for the format (their number with 8
-- bits), the check of the port takes the first one of the wanted width and height, whatever its
-- rates: the wanted rate stays if the entry lists it, else the rate is the entry's first one. If no entry has the
-- size, the check fails and the configuration stays. For H.265 it fails whatever is listed.
pub checkout_port_info-Chooses :
    (d : Brief) (c : Config)
    → c.img_format ≢ other_image
    → Chooses (d.frame c.img_format) (looked_at d c.img_format) c (checkout_port_info (some d) c)
unfolding checkout_port_info
checkout_port_info-Chooses d c h = checks d c c.img_format h
