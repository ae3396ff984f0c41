-- ===== src/Lib.antt =====
-- Verification of the C programs of sys-snippets, a collection of small Linux programs.
--
-- Each component stands in a module named for the program. A definition follows the code line by
-- line, with the source's names; what a system call answers is an argument of the definition
-- (a record of answers for each round of a main loop, or a list of them), so a theorem holds
-- whatever the kernel does, unless it names a hypothesis. Printed messages are left out.
--
-- - Common: the libraries' names, Boolean tests, native lists, how often a number is in a list.
-- - Echo: tcp/c/echo. Echo.Line is `handle_echo` of s_poll.c, s_select.c and s_fork.c; Echo.Host
--   holds the open descriptors and the sent bytes; Echo.Poll and Echo.Select are the main loops of
--   s_poll.c and s_select.c, a round at a time (`Answers`, `round`). A call that still blocks, and
--   undefined behaviour, are results of their own.
-- - Sem: sem/exec_fd.c. Parent and child are step functions over the shared semaphores and file
--   offset; `Reach` has all interleavings, `run` follows one schedule.
-- - Wii: wiid-tests. Wii.Device is a uinput device with the events that it took; Wii.Input and
--   Wii.Accel are wii_input.c and wii_acc.c, Wii.Setup the inits of both. Wii.Main is `main` of wiid.c
--   with its connections, Wii.Leds its LED loop and Wii.Callback its message callback, which hands
--   messages to the first two.
-- - Drm: drm-tests. Drm.Text is what snprintf and sscanf do with the formats of the protocol,
--   Drm.Proto is drm_proto.h, Drm.Server the handling of one message in drm_server.c (`handle`),
--   Drm.Client the messages of drm_client_plane.c and drm_client_crtc.c, Drm.Client.Talk their loop and
--   Drm.Client.Mains their set-up and clean-up; Drm.Client.Sessions has client and server together.
--   Drm.Loop is the poll loop of the server, which hands each message to `handle` (Sound, Isolation), and
--   Drm.Loop.Setup its `main` around that. Ten digits are enough for a 32-bit word.
-- - Kms: drm_utils.c of drm-tests, the choice of a display. Kms.Search has its loops, Kms.Autoconf and
--   Kms.Named its functions; libdrm is a parameter (`Card`) and its objects are counted (`Held`).
-- - Multicast: multicast/c/mcast4.c. Multicast.Options is `main` up to its loops. Multicast.Server and
--   Multicast.Client are the two loops, with what the calls answer in each round;
--   Multicast.Client.Laws has the server read what the client sent. Multicast.Six is the program
--   multicast/c/mcast6.c, which has the same options and loops; Multicast.Six.Sessions has two runs of it.
-- - Minicom: the loop of pty/minicom_tty.c between a pseudo terminal and a serial port. Tunnel: that of
--   tun-tap/tunnel.c between a tun device and a UDP socket.
-- - Bitmap: `draw_test_image` of drm-tests/bitmap_utils.c, the buffer being a list of pixels.
-- - Gst: gst/gst-simple. Gst.Handshake has the turns of the streaming thread (gles2.c) and of the
--   OpenGL thread (gles2util.c) on the shared frame buffer, its first texture included; Gst.Handshake.Whole refines a place for one
--   frame.
--   Gst.Drmsink is gst/gst-drm/drmsink.c: the copy of a frame (Copy), its two buffers (Pair, Frames), its
--   start (Start), its properties (Properties) and its life (Life).
--   Gst.Planesink is gst/gst-drm/drmplanesink.c, which copies frames alike:
--   its frames (Frames), its life (Life) and its properties (Properties).
-- - Dumb: the four programs drm_dumb_bo*.c of drm-tests. A `Ledger` says what a program holds and
--   which picture it set and did not set back; each `main` is its calls with the labels of its error paths.
-- - Gl: the four programs drm_gl_test*.c of drm-tests. Gl.Setup is what they share, Gl.Single, Gl.Double,
--   Gl.Surface and Gl.Flips are the programs 1a, 1b, 2 and 3; Gl.Flip is the render loop of the last, with
--   its page flips (Owned, Shown, Early).
-- - Timers: timers/c/timerfd.c, the loop over two timers and an eventfd.
-- - Fork: the forking servers tcp/c/echo/s_fork.c and tcp/c/time/s_time_fork.c. The parent, its children
--   and SIGCHLD take steps in any order (Laws); a child of the first is `handle_echo` (Sessions).
--
-- Only the printing of a number has a bound, its ten digits, and the render loop of drm_gl_test3.c, its
-- ten rounds. A main loop is a recursion on the list of
-- the rounds that are given, and its results say whether it waits for more. A native number stands for
-- an `int` or an `unsigned int`; where the code relies on its width, the wrap-around is written out or
-- a hypothesis bounds it.
--
-- Not modelled: the programs that only call graphics libraries (drm_info.c of drm-tests,
-- gles2-tests, the set-up of the rest of gst), rows of system calls without state (fbdev,
-- usb, riscv, asm, netlink_ipc), the C++, Go and Rust programs, and so far the other programs of tcp,
-- udp, netdevice, pty, inetd and daemon.
pub mod Common
pub mod Echo
pub mod Sem
pub mod Wii
pub mod Drm
pub mod Kms
pub mod Minicom
pub mod Tunnel
pub mod Timers
pub mod Fork
pub mod Multicast
pub mod Bitmap
pub mod Gst
pub mod Gl
pub mod Dumb
