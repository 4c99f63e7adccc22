-- ===== src/Lib.antt =====
-- A model of the doorbell firmware's own data paths, with proofs. The firmware
-- (components/smart_lock and the projects that use it) takes images from a camera, hands them to a
-- decoder, a display and the network as frames of a queue, and keeps a connection to a server
-- alive.
--
-- FrameQueue: components/smart_lock/src/frame/frame_que_v2.c, the queue between one producer and up
-- to eight consumers of a format. `FrameQueue.Node` has `frame_node_t`, the masks and the walks
-- along a list; `FrameQueue.Queue` has `frame_queue_v2_t`; `Producer` has malloc, complete and
-- cancel, `Consumer` register, unregister, get and release, `Admin` init, deinit, clear and the
-- statistics, each as a function on one queue that also gives the buffers it hands to the two free
-- functions of the SDK. `State` has the array of the three queues, the public functions
-- frame_queue_v2_... with their checks, and `Call` and `step`, the calls that the tasks make. A
-- critical section is one function; the two of a `malloc` or of a `release_frame` are taken
-- together. A list is a list of nodes from head to tail, a pointer is a number, and NULL is `none`.
-- `get_frame` takes the time gone by when it is first read and the waits that it goes through as a
-- list: for each what the semaphore's function returns, what other tasks do to the queue meanwhile,
-- and the time gone by at the next reading; when the list is used up and the timeout has not passed,
-- it is `waiting`, blocked on the semaphore. Numbers that count on 32 bits wrap. `Mailbox` gives each consumer's
-- view of a queue, `Buffers` counts where the frame buffers are, `Invariant`, `Nodes` and `Shape`
-- are about what calls keep, `Supply` is about malloc, and `Setup` about init.
--
-- FrameList: the doubly-linked list of the same file, over a heap of links. `FrameList.Refine`
-- compares its operations with the list operations that FrameQueue uses.
--
-- DbPack: projects/doorbell_lp/cp/db_pack, the framing of messages on a TCP stream. `DbPack` has
-- pack and unpack; `DbPack.Drain` says what a stream of bytes means however it arrives,
-- `Drain.Unpack` and `Drain.Loop` are about the loop of db_pack_unpack, `Drain.Stream` and
-- `DbPack.Pack` about a whole stream. The loop runs on fuel, two more than the bytes of the input:
-- each round but the first takes a header's length of them.
--
-- Network: components/smart_lock/src/doorbell_network_transfer.c, the handlers of the events of the
-- SDK's network service: which message of the doorbell an event becomes, and `chan_connected_mask`.
-- The build option for the client service and the numbers of the channels are arguments.
-- `Network.Channels` follows the mask through any events, `Network.Announce` says when the remote
-- device counts as connected, and `Network.Transfer` has the start and the end of the service.
--
-- Message: components/smart_lock/include/doorbell_comm.h, the messages and services that the parts
-- share.
--
-- Command: components/smart_lock/src/doorbell_cmd.c. `cmd_recive_callback` takes the bytes from the
-- start of a command on as a function, since the code reads its payload without regard to the
-- length that arrived; `dispatch` is its switch (both in `Command.Handler`, the timer and the
-- parameters in the parent), and the device calls are recorded with their parameters and given by
-- what they return. `Command.Reply` is about the answers, `Votes` about the bitmap of services,
-- `SdkTimers` has the timers that the recorded calls leave in the SDK, `Timer` and `Leak` are about
-- the keep-alive timer.
--
-- Core: components/smart_lock/src/doorbell_core.c. `message_handle` is one message of the loop,
-- with the build options as an argument, `message_loop` a sequence of them, `core_init` and
-- `loop_exit` the start and the end. `Core.Services` counts the starts of the network service,
-- `Core.Lifecycle` is about start and end.
--
-- ApKeepalive: projects/doorbell_lp/ap/keepalive/db_keepalive.c, when the multimedia side leaves
-- the connection to the coprocessor. Each function is a step on the static variables that also
-- gives the calls that leave the file; `Calls` has the wake-ups and, as `Call` and `run`, the calls
-- into the file. `Interval` is about its times, `Takeover` about its requests to the coprocessor.
-- `atoi` is an argument.
--
-- CpKeepalive: projects/doorbell_lp/cp/keepalive/db_keepalive.c, the coprocessor's side, with the
-- two cases of projects/doorbell_lp/cp/db_ipc_msg/db_ipc_msg.c that start and stop it. The parent
-- has the environment, init, start, stop and deinit; `Connection` the tries to connect, which count
-- down from the limits of the code; `Receive` the receiving thread, whose bytes go through DbPack;
-- `Transmit` the sending thread, which takes its waits as a list; `Ipc` the messages between which
-- the sending thread starts and ends. `Receive.Requests` and `Receive.Wire` follow commands from the server's packets,
-- `Receive.Retries` is about the retries, `Connection.Sockets` the sockets, and `Ipc.Balance` and
-- `Ipc.Whole` what is allocated.
--
-- Handover: Core, ApKeepalive and Command together: the messages that the keepalive posts are
-- handled by the loop, which calls back into the keepalive, whose command goes to the command
-- handler. `Handover.Sleep` and `Handover.Wake` are the two ways through them.
--
-- Camera: components/smart_lock/src/camera/uvc.c and dvp.c. `Camera.Modes` is the check of a
-- resolution and a rate against the modes that a USB camera lists, with `fps_loop` and `frame_loop`
-- its two loops; the parent turns cameras on and off and records the calls of the SDK with what
-- they return. `Choice` is about the mode, `Rig` about what the calls leave behind.
--
-- YuvDisplay: components/smart_lock/src/yuv_display/yuv_display.c. The parent opens and closes the
-- display, `Task` is its thread: `task_main` takes the rounds of its loop as a list, each with the
-- message that was popped and what the calls return. `Resources` and `Task.Frames` are about what is
-- held and about the frames.
--
-- Audio: components/smart_lock/src/doorbell_audio_device.c. `Config` has the voice configuration,
-- the parent `audio_turn_on` and `audio_turn_off`; `Format` and `Pipelines` are about them.
--
-- Devices: components/smart_lock/src/doorbell_devices.c, camera/doorbell_camera.c and
-- decoder/mjpeg_decoder.c, over Camera and YuvDisplay. `Info`, `TransCfg` and YuvDisplay's `Yuv` are
-- the three static structures; `Decoder`, `Cameras`, `Display` and `Transfer` have the functions
-- under their names without `doorbell_`, `System` any sequence of calls of them. `Handles`,
-- with its children for the decoder, the camera and the display, and `Ledger` are about the handles,
-- `Backlog` and `Sending` put the transfer's thread at the frame queue, `Stuck` and `Switch` are about
-- states that go wrong. What the SDK's counters keep of a number is an argument.
-- `Devices.Commands` puts Command, Devices and Audio together: `serve` is one command whose results
-- are those of the device functions; `Bits`, `Lasting` and `Disconnect`, on top of `Steps`
-- and `Effects`, are about the service bitmap.
--
-- Provision: how an SSID and a password reach the station. CONFIG_BLUETOOTH_HOST_ONLY is an argument.
-- Without it the Bluetooth host is on the coprocessor: `cp_operation_handle` and `cp_message_handle`
-- are in projects/doorbell/cp/doorbell_service/doorbell_core.c, `send_cust_event` is in
-- customer_msg/customer_msg.c beside it, `rx_station` in components/smart_lock/src/bk_smart_config.c
-- and `station_fields` in doorbell_boarding.c there; this side reads a memory, a function, since the
-- code does not compare with the length that arrived. With it, as the configurations of all projects
-- have it, the host is on the multimedia side: `boarding_station_start` in doorbell_boarding.c saves
-- what the SDK's service has stored and posts a message, whose case in doorbell_core.c is in
-- `configured`. `wifi_sta_connect` in doorbell_network.c serves both. `Station` is about the way.
--
-- The checksum, the clock, the allocators and the semaphores are the SDK's; they are arguments. A
-- read of the clock or an allocation is given as its result. Logging is left out, but for the
-- checksum warning.
--
-- Not modelled: the reports of the supported devices, the other opcodes of the provisioning, the
-- settings in the flash, the start of the coprocessor's core, the doorviewer's variant of the camera,
-- and the glue to the SDK's drivers; these mostly order calls of the SDK. The two threads of the
-- coprocessor's keepalive run one at a time: another thread that ends the keepalive while one waits
-- is part of what the wait is given.
pub mod ApKeepalive
pub mod Audio
pub mod Base
pub mod Camera
pub mod Command
pub mod Core
pub mod CpKeepalive
pub mod DbPack
pub mod Devices
pub mod FrameList
pub mod FrameQueue
pub mod Handover
pub mod Message
pub mod Network
pub mod Provision
pub mod YuvDisplay
