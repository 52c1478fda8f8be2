-- ===== src/Lib.antt =====
-- nxdb is a debugger for the Switch in two programs: a sysmodule, which draws its interface with
-- ImGui without a screen and sends it over TCP, and a client (the viewer), which shows it and sends
-- the input back. Both speak packets of a header, a 32-bit size and a 32-bit type, and a body
-- (common.h).
--
-- The parts modelled, and the files:
--   Common        Boolean tests, lists over the native numbers, bytes: 32-bit words in memory, memmove,
--                 C strings. Nothing of the program itself.
--   Wire          common.h: PacketType; the bytes that `sendPacketImpl` writes (`encode`).
--   Server        sysmodule/include/Server.h, sysmodule/source/net/Server.cpp: `nxdb::Client`, one
--                 connected viewer. `handle_packet`, `read_header`, `handle_whole` with `consume`, and
--                 `receive` are the parts of `handlePacket` and `handleEvent`, in the order of the code;
--                 `handle_event` is the whole. The user interface that the packets change is `World`.
--   Server/Loop   `Server::run`: `accept`, the pass over the clients (`sweep`, which erases from the
--                 vector while it walks it, as the code does), and one `round` of both.
--   Server/Listen `Server::start`, with the sockets that are open.
--   Components    sysmodule/source/nxdb/Component.h and Component.cpp: the list of windows and
--                 `handleDeadComponents`. A shared pointer's release is the `freed` list.
--   MemoryMap     sysmodule/source/nxdb/MemoryMapMgr.h and MemoryMapMgr.cpp: `mapBlocks`, `findBlock`,
--                 `get`, `unmap` and the destructor. The answers of the kernel and of libnx are the
--                 record `Kernel`.
--   Processes     sysmodule/source/nxdb/Process.h and Process.cpp: `getProcessList`.
--   Viewer/Keys   client/Source/pe/NetworkInput.cpp: the table from GLFW's keys to ImGui's.
--   Viewer/Input  client/Source/pe/NetworkInput.cpp: the callbacks and `updateNetworkInput`, as the
--                 packets that they send.
--   Viewer/Link   client/Source/pe/Client.cpp: `sendPacketImpl` of the viewer, with its pieces, on a
--                 socket that is a parameter.
--   Viewer/Run    client/Source/pe/Client.cpp: `start`, `handlePacket` and `run`; a `round` is one of
--                 `run`, with what the socket, the window and the clock answer in it (`Env`), and
--                 `render` and `show` are those of client/Source/pe/Render.cpp as far as the client sees.
--   Draw          common.h and ImGui's draw data: `Vertex`, `Command`, `DrawList` and their packed forms.
--   Draw/Pack     sysmodule/source/nxdb/DrawDataPack.cpp: `packImDrawData` with the hashes it keeps.
--   Draw/Unpack   client/Source/pe/DrawData.cpp: `unpackDrawData` with the lists it keeps.
--   Session       sysmodule/source/nxdb/windows/DebuggingSession.h, DebuggingSession.cpp and
--                 DebuggingSessionGui.cpp: `findModules`, and the names that the module list shows.
--   Session/Events  sysmodule/source/nxdb/windows/DebuggingSession.cpp: `findName`, `tryContinueImpl`,
--                 the handling of debug events, and a round of the debug thread.
--   Session/Ending  the destructor of DebuggingSession.cpp beside its debug thread: a step relation, in
--                 which the calls of both come in any order.
--   Session/Opening  the constructor of DebuggingSession.cpp: how it ends, its aborts included. The windows
--                 take this as an answer.
--   Windows       sysmodule/source/nxdb/windows/MainWindow.h, MainWindow.cpp and
--                 DebuggingSessionGui.cpp, the windows that a session registers, and `showImGui` of
--                 sysmodule/source/nxdb/ImGuiLoop.cpp: what each window does in a frame.
--   Frame         sysmodule/source/nxdb/ImGuiLoop.cpp: the rest of `render`, with `calcDrawDataHash`, a
--                 round of `runImguiLoop`, and the packet of `sendFontTexture` of Server.cpp.
--   Frame/Clipboard  sysmodule/source/nxdb/ImGuiLoop.cpp: the clipboard functions that ImGui is given.
--   Frame/Noticed frames after each other with the hash of hash.h: Draw/Memory has ImGui's buffers in
--                 memory, as `hashImDrawList` reads them.
--   Hash          sysmodule/include/hash.h and client/Include/pe/Hash.h: `hashMurmur`. Hash/Murmur3 has
--                 MurmurHash3 in its own words, to compare it with.
--   Frame/Rate    sysmodule/source/nxdb/ImGuiLoop.cpp: how `render` measures the time between frames.
--
-- How they meet: the viewer's input (Viewer/Input) makes packets, `sendPacketImpl` writes them
-- (Viewer/Link), the socket cuts the bytes as it likes, and the server's `handle_event` puts the
-- packets together again and does what they ask (Server/Delivery); Viewer/Link/Session joins the two
-- ends. Viewer/Input/Meaning is about what the events mean on the server, and Viewer/Input/Update
-- about whether the packets are such as Server/Delivery asks for (`IsServable`). In the other
-- direction the draw data goes: Draw/Frames joins the packing of frame after frame with the
-- unpacking of them, Viewer/Run is the connection on which it comes in, in pieces, and
-- Viewer/Run/Film joins these; Frame says when a frame is packed and who gets it, and Hash what the
-- changes are noticed by. Windows puts the sessions and the main window, which asks Processes, on
-- the list of Components; Frame runs a frame of the windows and sends what ImGui draws for them.
--
-- State is passed explicitly. A result `none`, or `undefined`, is undefined behaviour of the C++
-- code: an object that was deleted, a text without a terminator, a null pointer read, a position
-- behind a vector's end. Addresses wrap at 2 ^ 64 and are written `word`; floats are bit patterns,
-- and comparing them is a parameter, as are, where they do not matter, the hash of the clipboard
-- and of the buffers of a draw list, the operations on the floats of the draw data, the padding of
-- the structs, the numbers of ImGui's keys, and every answer of a socket, clock or kernel.
--
-- Loops: the pass over the clients counts down the positions that the code's iterator has left at
-- the start. `handle_dead_components` has the length of the list as fuel, which each round of the
-- loop uses up by one at most. `map_blocks` and `unmap` take their fuel as an argument; more of it
-- than regions is enough. The loop of the viewer's `sendPacketImpl` has the size as fuel, and a
-- round of it takes a byte at least; the server's is its result, the bytes written (`encode`). A
-- round of `Server::run` is one step, and what several events do is said over lists of them; `run`
-- of the viewer has one answer of its environment for each round; what the callbacks send while the
-- events are polled, in the update of the input and in `render`, is part of the answer. The unpacking reads as many
-- commands, vertices and indices as the packed list says. `find_modules` takes its fuel as an
-- argument, and more of it than regions behind the first is enough; a round of the debug thread
-- needs more than there are events.
--
-- Not modelled: the `memset` of the viewer's buffer in front of its loop; logging, with the quotient for the frame rate that would be logged; the set-up of
-- ImGui in `runImguiLoop`. What ImGui draws for the windows is a parameter. The service
-- wrappers are a copy of another project's code, and Util.cpp, both main.cpp, the log server and the
-- rest of Render.cpp are calls of OpenGL, GLFW, libnx and sockets.
pub mod Common
pub mod Wire
pub mod Server
pub mod Components
pub mod MemoryMap
pub mod Viewer
pub mod Processes
pub mod Draw
pub mod Session
pub mod Frame
pub mod Windows
pub mod Hash
