-- ===== src/Lib.antt =====
-- A verification library for the native code of the container: app/src/main/cpp of the repository.
-- The host application (core/) starts guest processes from a root filesystem in its own data
-- directory. In each guest the preloaded library libfake (fake/) interposes libc: it moves every
-- absolute path into the sandbox, pretends a root identity, and accepts mounts that it does not
-- make. Host and guest exchange packets over a socket (common/include/ac_ipc_protocol.h) and frames
-- through shared memory (common/include/frame_protocol.h). Paths in the comments of all files are
-- below app/src/main/cpp.
--
-- Base                 lists, C strings as lists of bytes without the NUL, tests on ℕ, long and uid_t
-- Guest.State          fake/fake_state.cpp: set_state, init_from_env over `State`
-- Guest.Resolver       fake/path_resolver.cpp: init, resolve_path over the alias table
-- Guest.Redirect       fake/path_redirect.cpp: map_path, unmap_path, set_excluded_prefixes
-- Guest.Libc           the libc below the hooks, a parameter: a world and a transition for a call
-- Guest.RealLibc       fake/real_libc.cpp: the accessors and next_sym as steps of any threads
-- Guest.Translate      class Translated and maybe_map of fake/syscall_hooks_write.cpp
-- Guest.WriteHooks     fake/syscall_hooks_write.cpp, one function for each hook
-- Guest.Identity       fake/uid_spoof.cpp, one function for each query and mutation
-- Guest.Mounts         fake/mount_emu.cpp, one function for each hook
-- Guest.Vfs            fake/vfs_emu.cpp: classify; Content has the emulated files, Emulate the calls
-- Guest.ReadHooks      fake/syscall_hooks_read.cpp, one function for each hook; Confined has a call of
--                      one as data
-- Guest.Seccomp        fake/seccomp_filter.cpp: the BPF program and its installation
-- Guest.Init           fake/fake.cpp: ac_fake_init over all parts of libfake
-- Ipc.Wire             the packet header of core/ipc.cpp and fake/ipc_client.cpp
-- Ipc.Stream           the two loops that read from a socket; recv(2) is a list of inputs
-- Ipc.Send             WriteAll and IpcServer::Send; send(2) is a list of answers
-- Ipc.Loop             IpcServer::ClientLoop for one client
-- Ipc.Clients          the table of clients of IpcServer
-- Ipc.Server           IpcServer::Start, Stop, AcceptLoop and DropClient with their descriptors
-- Ipc.Threads          AcceptLoop, the two halves of DropClient and Stop as steps on the descriptors
-- Ipc.Broadcast        Broadcast, client_count, and the calls of core/container_core.cpp on the server
-- Ipc.Event            the touch and key records of core/input_consumer.cpp, fake/input_injector.cpp
-- Ipc.Consumer         setHostSurfaceSize and dispatchTouchEventBatch of core/input_consumer.cpp
-- Ipc.Input            the calls of core/input_consumer.cpp on the server, and those of
--                      core/native_bridge.cpp on them
-- Ipc.Reconnect        the outer loop of ClientThread
-- Ipc.Guest            Dispatch and the frame loop of fake/ipc_client.cpp
-- Ipc.Client           ConnectHost and ipc_client_init_from_env, and the spools of the injector
-- Frame.Layout         FrameChannelHost::Create and the slot addresses of core/frame_channel.cpp
-- Frame.Host           Create with its failures, ~FrameChannelHost, SetHostChannel, and the calls of
--                      core/container_core.cpp on the channel beside the pump that reads it
-- Frame.Seqlock        frame_publish and ReadLatest as steps of two sides over shared memory
-- Frame.Producer       frame_producer_init_from_env and the queries of fake/frame_producer.cpp
-- Host.Interp          core/interp_patcher.cpp: ReadInterp and PatchInterp over the bytes of a file
-- Host.Launcher        core/launcher.cpp: the child's environment; Start and Stop; Activation carries
--                      the environment into libfake of the child
-- Host.Pump            the log readers of core/launcher.cpp and core/guest_launcher.cpp
-- Host.Guest           core/guest_launcher.cpp: startContainer, monitorLoop, stopContainer; Lifecycle
--                      has the runs, Transparent the state of libfake in the guest, Feeder the
--                      stores of the software frame pump
-- Host.Renderer        the window, size, guest frame and pump thread of core/display_renderer.cpp; Egl
--                      has initEGL, terminateEGL and setupGL, Letterbox the viewport
-- Host.Render          renderLoop as steps of its thread between the calls of the others; Balance,
--                      Replace, Steady and Texture have what the runs keep
-- Host.Bridge          core/native_bridge.cpp: the calls on the launcher and what the listener is told;
--                      Listener has the reference to it
-- Host.Core            the calls of core/container_core.cpp on the interpreter patcher
-- Tests                runs on concrete inputs
--
-- The redirection reads the state, the exclusion table and the resolver; the record `Engine` of
-- Guest.Redirect holds the three, and every hook takes it. The hooks change nothing of it: they
-- call libc, whose state is the world of the parameter. A static slot of next_sym caches what
-- dlsym finds for a fixed name (Guest.RealLibc has its threads), so a call of a hook is modelled by
-- its symbol and arguments; the slot of fopen serves two names, and is a state of the model.
--
-- The launchers, the constructor and the server take what the system answers as arguments: records
-- of results (Host.Launcher.Start.Answers, Ipc.Server.Answers), or transitions of a world
-- (Ipc.Client.Os, Guest.Seccomp.Prctl). getenv over an environment block is the parameter Environ.
-- Calls of one launcher follow one another; of the races between a parent and its child only the
-- order of execve and the read of the error pipe is a value of the model. Where threads meet, the
-- model has a step for each block under a lock and each access to what is shared, and a run is any
-- sequence of steps: Guest.RealLibc, Ipc.Threads, Frame.Seqlock, Frame.Host, Host.Render,
-- Host.Bridge and its Listener.
--
-- Machine integers: uid_t and gid_t are taken modulo 2 ^ 32, size_t and the sequence numbers modulo
-- 2 ^ 64, and packet fields modulo the width of the field. Where the wait of Stop would overflow an
-- int, the model says no more.
-- Fuel: exclude_loop has one round for each byte of the list and one more, and each round takes at
-- least one byte; drain has one for each byte of its buffer. client_loop and frame_loop run as long
-- as the peer keeps sending; their results hold for each fuel above the number of packets in the
-- stream. The poll loop of Stop tests its condition at most grace / 50 + 2 times. All other loops
-- are structural.
--
-- Not modelled: the conversion of JNI arrays and the Kotlin application, which are glue to Android;
-- the GL calls of a frame but for the viewport, the texture and the uniforms. EGL, GL, the Java VM
-- and the arithmetic of float and double are parameters. Memory of the frame region is
-- sequentially consistent, one byte of a copy a step. Logging has no effect
-- but for the lines that Host.Pump has as its result.
pub mod Base
pub mod Guest
pub mod Ipc
pub mod Frame
pub mod Host
mod Tests
