-- ===== src/Devices/Tests.antt =====
-- Cameras, a display and a transfer, and commands for them.
use bk_solution_doorbell.Base.{
  Bool, ℕ, ◌+◌, ◌%◌, ◌≡◌, arith, refl, true, false, none, some, List, [], ◌∷◌, get_or,
}
use bk_solution_doorbell.FrameQueue.Node.{mjpeg, h264}
use bk_solution_doorbell.Camera.Modes.{Frame, ImageFormat, image_mjpeg}
use bk_solution_doorbell.YuvDisplay.{Yuv, rotate_none}
use bk_solution_doorbell.Audio
use bk_solution_doorbell.Core.{Options}
use bk_solution_doorbell.Message.{lan_udp}
use bk_solution_doorbell.Command.{CameraParameters, DisplayParameters}
use bk_solution_doorbell.Command.Votes
use bk_solution_doorbell.Command.Votes.{bitmap}
use bk_solution_doorbell.Devices.{
  Calls, CameraType, dvp_camera, uvc_camera, other_camera, lcd_rgb, Ret, ok, bk_fail, Info,
  register_consumer, consumer_transmission,
}
use bk_solution_doorbell.Devices.Transfer.{DebugFields, Counters}
use bk_solution_doorbell.Devices.System
use bk_solution_doorbell.Devices.System.{
  start, Op, camera_on, camera_off, transfer_on, transfer_off, display_on, display_off, apply, Call,
  run,
}
use bk_solution_doorbell.FrameQueue.Node.{Node}
use bk_solution_doorbell.FrameQueue.Queue.{Queue, cleared}
use bk_solution_doorbell.FrameQueue.Producer.{blank_header}
use bk_solution_doorbell.Devices.Handles.{displays_made, displays_deleted, pipelines_made, one_if}
use bk_solution_doorbell.Devices.Ledger.{run-keeps_handles}
use bk_solution_doorbell.Devices.Backlog.{Event, completes, turns}
use bk_solution_doorbell.Devices.Stuck.{failed_start_lasts}
use bk_solution_doorbell.Devices.Switch.{switch_dangles, IsShowing}
use bk_solution_doorbell.Devices.Commands
use bk_solution_doorbell.Devices.Commands.{Board, Request, boot, serve_all, IsCode}
use bk_solution_doorbell.Devices.Commands.Bits.{IsTrue, serve_all-Agrees}
use bk_solution_doorbell.Devices.Commands.Lasting.{LcdLost, lcd_bit_lasts}
use bk_solution_doorbell.Devices.Commands.Disconnect.{disconnected, AudioLost, audio_bit_lasts}

abbrev mode : ImageFormat → ℕ → Frame
mode f i = record { width = 640; height = 480; fps_num = 1; fps = λ _. 30 }

-- Everything succeeds.
abbrev fine : Calls
fine = record {
  bluetooth = false;
  gpio = true;
  config = record { width = 864; height = 480; fps = 30; img_format = image_mjpeg };
  queue_init = true;
  camera = record {
    semaphore = true;
    connected = true;
    wait = true;
    port_info = true;
    device = record { frame = mode; frame_num = λ _. 1 };
    ctlr_new = true;
    camera_open = true;
    camera_close = true;
    camera_delete = true;
  };
  yuv_display = record {
    malloc = true;
    rott_init = true;
    semaphore = true;
    queue = true;
    register = true;
    thread = true;
    push_stop = true;
  };
  remaining = [];
  pipeline_new = true;
  open_h264e = true;
  close_h264e = true;
  open_rotate = true;
  close_rotate = true;
  lcd = some lcd_rgb;
  display_new = true;
  display_open = true;
  trans_malloc = true;
  trans_semaphore = true;
  trans_thread = true;
}

abbrev usb : CameraParameters
usb = record { id = 65014; width = 640; height = 480; format = 1; protocol = 0; rotate = 0 }

abbrev screen : DisplayParameters
screen = record { id = 3; rotate_angle = 90; pixel_format = 0 }

abbrev call : Op → Call
call op = record { op = op; calls = fine }

abbrev some_calls : List Call
some_calls =
    call (camera_on usb)
    ∷ call (display_on screen)
    ∷ call transfer_on
    ∷ call display_off
    ∷ call (display_on screen)
    ∷ []

abbrev booted : System.State
booted = start other_camera mjpeg

one_display : displays_made (run some_calls booted).1 ≡ 2
unfolding run
one_display = refl

run-keeps_handles_example :
    let (s, acts) = run some_calls booted in
    (s.info.display_ctlr_handle ≡ s.info.lcd_device)
    × (displays_made acts ≡ displays_deleted acts + one_if s.info.display_ctlr_handle)
    × (pipelines_made acts ≡ one_if s.info.video_pipeline_handle)
run-keeps_handles_example = run-keeps_handles other_camera mjpeg some_calls

abbrev counters : Counters
counters = record {
  begin_trs = false;
  end_trs = true;
  meantimes = 0;
  fps_wifi = 4;
  wifi_kbps = 0;
  log_enable = 0;
}

-- The thread is registered; the producer holds frame 9, and frame 8 waits.
abbrev waiting_node : (frame mask : ℕ) (in_use : Bool) → Node
waiting_node frame mask in_use = record {
  addr = frame;
  frame = some frame;
  ref_count = 0;
  consumer_mask = mask;
  accessed_mask = 0;
  timestamp = 0;
  create_time = 0;
  in_use = in_use;
}

abbrev queue : Queue
queue = record (cleared mjpeg) {
  free_list = waiting_node 9 0 true ∷ [];
  ready_list = waiting_node 8 1 false ∷ [];
  active_consumers = 1;
  consumers = record { consumer_id = 1; get_count = 0; release_count = 0; enabled = true } ∷ [];
}

abbrev fields : DebugFields
fields = record { meantimes = λ n. n % 256; fps_wifi = λ n. n % 256; wifi_kbps = λ n. n % 256 }

abbrev events : List Event
events = completes 9 blank_header 1 2 ∷ turns 0 100 5 6 ∷ completes 7 blank_header 3 4 ∷ []

abbrev open_info : CameraType → Info
open_info t = record {
  lcd_id = 3;
  lcd_device = true;
  video_pipeline_handle = true;
  display_ctlr_handle = true;
  cam_type = t;
  transfer_format = h264;
  handle = true;
}

abbrev camera_open : System.State
camera_open = record { info = open_info uvc_camera; trans = none; yuv = none }

abbrev no_thread : Calls
no_thread = record fine { trans_thread = false }

failed_start_lasts_example :
    let (ret, s1, _) = apply transfer_on no_thread camera_open in
    let s2 = (run (call display_off ∷ call transfer_on ∷ []) s1).0 in
    let (ret_on, _, acts) = apply transfer_on fine s2 in
    let (ret_off, _, _) = apply transfer_off fine s2 in
    (ret ≡ bk_fail)
    × (ret_on ≡ ok)
    × (acts ≡ register_consumer s2.info.transfer_format consumer_transmission ∷ [])
    × (ret_off ≡ bk_fail)
unfolding apply run
failed_start_lasts_example =
    failed_start_lasts no_thread camera_open (call display_off ∷ call transfer_on ∷ []) fine refl
      refl refl refl refl

abbrev shown : Yuv
shown = record { task_running = true; rotate_angle = rotate_none; display_handle = true }

abbrev dvp_shown : System.State
dvp_shown = record { info = open_info dvp_camera; trans = none; yuv = some shown }

switch_dangles_example :
    let (_, s', acts) =
      apply display_off fine (apply (camera_on usb) fine (apply camera_off fine dvp_shown).1).1 in
    (displays_deleted acts ≡ 1)
    × (s'.info.display_ctlr_handle ≡ false)
    × (s'.yuv ≡ some shown)
    × IsShowing shown
unfolding apply
switch_dangles_example =
    switch_dangles usb fine fine fine shown dvp_shown refl (refl, refl, (cc), refl, (refl, refl))
      refl refl

-- A command with an opcode, whose device calls succeed.
abbrev bytes_of : (opcode : ℕ) → ℕ → ℕ
bytes_of opcode i = get_or (opcode ∷ []) i 0

abbrev audio_fine : Audio.Calls
audio_fine = record {
  voice_init = true;
  read_init = true;
  write_init = true;
  voice_start = true;
  read_start = true;
  write_start = true;
  service = some false;
}

abbrev request : (opcode : ℕ) → Calls → Request
request opcode c = record {
  arrival = record {
    cmd = bytes_of opcode;
    length = 30;
    results = record {
      ret = 0;
      alloc = true;
      init = true;
      start = true;
      stop = true;
      deinit = true;
    };
  };
  calls = c;
  audio_calls = audio_fine;
}

abbrev code : Ret → ℕ
code ok = 0
code bk_fail = 255
code _ = 1

code-IsCode : IsCode code
code-IsCode r = ground arith

serve_all-Agrees_example : IsTrue (
    serve_all code
      (request 10 fine ∷ request 13 fine ∷ request 7 fine ∷ [])
      (boot other_camera mjpeg))
serve_all-Agrees_example =
    serve_all-Agrees code other_camera mjpeg
      (request 10 fine ∷ request 13 fine ∷ request 7 fine ∷ []) code-IsCode
      ((cc), ((cc), ((cc), tt)))

abbrev lcd_on : Votes.Devices
lcd_on = record { camera = false; audio = false; lcd = true }

abbrev audio_on : Votes.Devices
audio_on = record { camera = false; audio = true; lcd = false }

abbrev with_bits : ℕ → Commands.State
with_bits n = record {
  cmd = record { info = none; mm_status = n };
  board = record { devices = camera_open; audio = Audio.zeroed };
}

abbrev no_close : Calls
no_close = record fine { close_rotate = false }

lcd_bit_lasts_example :
    let s' =
      serve_all code (request 14 no_close ∷ request 14 fine ∷ request 7 fine ∷ []) (with_bits 4) in
    (d' : Votes.Devices) × ((s'.cmd.mm_status ≡ bitmap d') × LcdLost d' s'.board)
lcd_bit_lasts_example =
    lcd_bit_lasts code (request 14 no_close) (request 14 fine ∷ request 7 fine ∷ []) (with_bits 4)
      lcd_on code-IsCode refl refl refl refl (cc) (refl, refl, refl) ((cc), ((cc), tt))

abbrev options : Options
options = record { client = true; cs2 = false; bluetooth = true; bluetooth_host = true }

audio_bit_lasts_example :
    let s' =
      serve_all code
        (request 11 fine ∷ [])
        (disconnected options 0 lan_udp fine audio_fine (with_bits 2)) in
    (d' : Votes.Devices) × ((s'.cmd.mm_status ≡ bitmap d') × AudioLost d' s'.board)
audio_bit_lasts_example =
    audio_bit_lasts code options 0 lan_udp fine audio_fine (request 11 fine ∷ []) (with_bits 2)
      audio_on code-IsCode refl refl ((cc), tt)
