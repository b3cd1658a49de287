-- ===== src/Lib.antt =====
-- A verification library for SerenaDE, which runs the Serenity desktop on other systems: a launcher
-- starts WindowServer, its services and an app, feeds them scripted input and compares a screenshot
-- with a golden one; an X11 backend shows WindowServer's framebuffer in an X window and turns X
-- events into Serenity's input.
--
-- The parts and their files:
--   PngCompare         src/Launcher/PngCompare.h: compare_pngs and pngs_match_within. The loop body is
--                      compare_pixel; Loop, Counting, Deltas and BoundingBox are about the fields of its
--                      result. Background has non_background_fraction (histogram, dominant,
--                      count_nonbg).
--   GoldenTest         the two clients of the comparison: compare_golden of src/Launcher/main.cpp and
--                      main of tests/screenshot_test.cpp, with load_png_bitmap, which both call.
--   X11Input           src/WindowServerX11/X11InputBackend.h and X11InputMap.cpp: on_raw on the state
--                      Mapper (the static variables s_buttons, s_last_x and so on), and raw_key_for of
--                      X11Context.cpp. What reaches ScreenInput is a list of Delivered values.
--   Window             src/WindowServerX11/X11Context.cpp (convert_rect, blit, put_rect, flush,
--                      pump_events), which hands input to X11Input. Creation has open_display and
--                      create_window; Wake the pump thread, its pipe and its notifier; Backend
--                      X11ScreenBackend.cpp, which calls them.
--   Launcher.Options   parse_args of src/Launcher/main.cpp.
--   Launcher.Groups    main: services of one binary become one process.
--   Launcher.Takeover  spawn_with_takeover in the child: the descriptors of a group and the value of
--                      SOCKET_TAKEOVER.
--   Launcher.Spawn     main: the listeners of each group, handed to its child.
--   Launcher.OpenFiles main and broker_wait: the descriptors that the launcher opens and closes, and
--                      what each child gets of them by Takeover.
--   Launcher.Sockets   make_ancestor_directories, create_listening_socket and setup_input_root as
--                      system calls.
--   Launcher.Setup     main up to its first child: sockets, environment, sysfs data, configuration and
--                      FIFOs as effects; Ready has the sockets that listen behind them.
--   Launcher.Config    write_window_server_config; Lookup has a reader of such files.
--   Launcher.Script    write_mouse_packet to key_press, and replay_script, as lists of effects. Writes
--                      has the writes that fail, Printing scripts that are printed from commands.
--   Launcher.Json      json_escape; Value has JSON values, their rendering, and the pieces that fprintf
--                      writes.
--   Launcher.Proc      read_small_file, parse_proc_stat and read_status_field; System is what they ask
--                      of the operating system. Line and Fields are about the kernel's stat line.
--   Launcher.Processes write_processes_json, which asks Proc for every process and thread.
--   Launcher.Sysfs     write_sysfs_data, which writes the process list and the other files.
--   Launcher.Session   the children: main as the list of its steps, broker_wait, cleanup, on_signal.
--                      Groups gives it the groups, Verdict the exit status. Running has the children
--                      that a trace leaves, Slots where their pids are kept.
--   Launcher.Broker    broker_wait against a clock, whose turns are those of Session.
--   Launcher.Waiting   wait_for_socket, wait_for_file, reap and kill_and_reap against a clock.
--   Launcher.Verdict   the end of main: the screenshots it asks for, and its exit status.
--   Launcher.Logs      dump_failure_logs.
--   CoreDump           src/TestApps/coredump_fixture.cpp: find_symbol and the core file of main.
--   TestApps           src/TestApps: clip_copy, clip_paste, config_client_test, launch_terminal and
--                      resize_test_window.
--   CString, Prelude   the C library's string functions that the code uses, integers, lists, loops.
--
-- Choices. An `int` is an integer (Prelude.Int), wrapped to 32 bits where a product, or a number that
-- is read, can leave the range. The name that parse_proc_stat gives is an offset in its array, and
-- what is read there later a parameter (System.stale_name). Pixels, sizes and bytes are natural
-- numbers. A double quotient is kept as its two whole numbers. An exit with a message is `none` or a
-- status, and printing is left out. Code that is not in the repository is a parameter: LibGfx and LibCore (Gfx), Serenity's key codes and flag
-- bits (KeyApi, ScriptApi), the structs of LibELF (ElfLayout), atof (Float), the comparisons of
-- doubles (Doubles), and Xlib, whose events are data and whose requests are a list.
--
-- Bounds. Loops are structural, but for replay_lines, whose fuel is the length of the file, since
-- each turn takes at least one byte, dump_lines, for the same reason, the reads of the self-pipe, with
-- one turn for each byte in it, and the loops of Launcher.Waiting and Launcher.Broker, which take any
-- fuel and end where the clock passes their deadline. print_decimal writes up to twenty digits, more
-- than any descriptor has. poll counts down the ten polls of the source itself.
--
-- Not modelled: what a child does behind execv, the paths of the log files, the SystemServer shim,
-- debuggee_fixture, the abstract input backend and the synthetic one, whose behaviour is that of a
-- queue of Serenity's, and the patches to Serenity. They are calls of the operating system and of
-- Serenity for the greater part.
pub mod Prelude
pub mod PngCompare
pub mod CString
pub mod GoldenTest
pub mod X11Input
pub mod Window
pub mod Launcher
pub mod CoreDump
pub mod TestApps
