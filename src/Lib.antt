-- ===== src/Lib.antt =====
-- cgproxy: a daemon that puts processes into the cgroups whose traffic is or is not proxied, its
-- command line clients, and the kernel programs that tell it of new processes.
--
-- The parts and their files:
--
-- - Constants: src/common.cmake.h, the paths, message types and status codes that all parts share.
-- - Text, Valid, Proc, Pidof: src/common.cpp. Text has the joins of texts (`join2str`) and cgroup
--   membership (`belongToCgroup`, in Text/Cgroup/Tree on the tree of cgroups), Valid the checks of
--   cgroups, pids and ports, Proc the readers of files and of commands (`getCgroup`, `bash_which`,
--   `bash_readlink`, `getRealExistPath`), Pidof the `fscanf` loop of `bash_pidof`.
-- - Attach: src/cgroup_attach.cpp, `validate`, `attach` and `write2procs`; Attach/Frame and
--   Attach/Kept are what an attach leaves alone.
-- - Config, Config/Load, Config/Env, Config/Save: src/config.h and src/config.cpp, the class
--   `Config`, its validation and loading, `toEnv` and `saveToFile`; Config/Env/Lists is how
--   cgroup-tproxy.sh reads the lists back, Config/Env/Kept what the environment holds,
--   Config/Save/Laws the way through a file.
-- - Daemon/Place: `handle_pid` and `processRunningProgram` of src/cgproxyd.hpp, the latter in
--   Daemon/Place/Scan for all processes at once. Daemon/Messages: `handle_msg` and `applyConfig`,
--   with the messages of a configuration in Reload, the environment of the scripts in Variables,
--   the rules that they make in Rules, and what any message keeps in Kept. Daemon/Life: arguments,
--   lock file, `start`, `stop` and `main`. Daemon/Exclusion: several daemons on one lock file, with
--   `lock` and `unlock` call by call. Daemon/Interleave: the assignments of a load by the socket
--   thread mixed with the steps of `handle_pid` in the execsnoop thread; Alone is each thread
--   without the other, Safety, Preserved and Window are what holds of all mixtures.
-- - Socket/Wire, Socket/Client, Socket/Server: the bytes of an `int`, src/socket_client.cpp and
--   src/socket_server.cpp. Service puts `handle_msg` under the server's loop, Service/Conversation
--   a client at the other end of the connection (`Ends` is what each end has written, `Carries`
--   that it arrives), Service/Reload the client of TestClient there, Service/Variables the
--   environment of the scripts, Service/Rules the rules of the machine, and Service/Placement the
--   callback of the execsnoop thread behind the kernel programs.
-- - Command: src/cgproxy.hpp, src/main.cpp and tools/cgattach.cpp. TestClient:
--   test/socket_client_test.cpp.
-- - Script: cgroup-tproxy.sh. Script/Env has its variables, Script the commands of iptables and ip
--   that start and stop run, Script/Main the arguments, the checks and the filters before them.
--   Script/Tables says what the commands do to the rules, Script/Marks how netfilter walks through
--   a chain; Effects, Started, Restore and Stopped run the commands on the rules, and Laws and
--   Rounds are what comes of it.
-- - Snoop/Kernel: execsnoop-kernel/execsnoop_kern.c and execsnoop-libbpf/execsnoop.bpf.c.
--   Snoop/Loop: the two copies of execsnoop_share.cpp. Snoop/Tools: execsnoop.c, execsnoop_user.c
--   and execsnoop_user_1.c. Snoop/Bcc: execsnoop-bcc/execsnoop.cpp. Snoop/Skeleton: the functions
--   of execsnoop-libbpf/execsnoop.skel.h and of the two execsnoop_kern_skel.h.
-- - Bytecode: the objects that the skeletons embed. Objects has their bytes, Elf finds the
--   sections, relocations and symbols, Code decodes the instructions, Programs and Listings have
--   the decoded programs, Machine runs them, Contents is what `create_skeleton` fills in, and
--   Refine compares the runs with Snoop/Kernel.
-- - Base, Effect: numbers, texts and lists, and the effects. Tests: concrete surroundings, with the
--   theorems at concrete data.
--
-- How they interact: applyConfig puts the configuration into the environment (Config/Env), from
-- which the script takes its variables (Script/Env). A client sends a message over the socket
-- (Command, Socket/Client), the daemon's socket thread reads it (Socket/Server) and calls
-- `handle_msg` (Daemon/Messages), which loads a configuration (Config/Load) or moves a process
-- (Attach). The execsnoop thread (Snoop/Loop) gets an event for each `execve` from the kernel
-- programs (Snoop/Kernel) and calls `handle_pid` (Daemon/Place), which moves the process by the
-- configuration.
--
-- State and effects: a function that calls the system takes the state of it and returns an
-- `Outcome`, a value, an exception, an exit or no end, with the new state (Effect). The system
-- calls, the socket calls, the JSON library (nlohmann/json) and the BPF hash map are no part of the
-- program: they are the records `Os`, `Net`, `Json`, `Records`, `Files`, `Kernel`, `Shell`,
-- `Scripts` and `Netfilter` of operations on an unknown state, and theorems name the documented
-- laws that they rely on (`MovesWritten`, `AtIsPlain`, `ListsItems`, `StringsAreArrays`, `IsTyped`,
-- `KeepsTexts`, `TextIsOneItem`, `SkipsSpace`, `KeepsFiles`, `PrintsPids`, `IsQuiet`,
-- `Environment`, `Ends`, `Obeys`, `KeepsTables`, `IsKept`, `Overwrites`, `IsFileSystem`, the two
-- records `IsLawful`). A signal that ends the process is the exit status that a shell reports for
-- it; what C++ leaves undefined is taken to end it like SIGSEGV. What other processes do between
-- two calls is in the states that the calls return.
--
-- Numbers: an `int` is a signed number; where its bits matter, on the wire, in a `pid_t` and in the
-- result of a system call that is kept in an `int`, it goes through 32 bits. Texts are lists of
-- bytes. `pos n` is n and `negsuc n` is -(n + 1).
--
-- Fuel: the loop over `fgets` has as much fuel as there are bytes, since each round reads at least
-- one; the `fscanf` loop has one round more than there are bytes, and a round that reads nothing is
-- the last one or begins a loop without end. The loop of the server and the poll of the execsnoop
-- thread, which do not end, are over a list of rounds, which may be of any length.
--
-- Threads: the socket thread and the execsnoop thread share the configuration, and no lock is
-- taken. A step is one assignment to a field or one read of a field or of the system, so that a
-- torn read of a list is left out; every order of the steps is a reachable one. A load is twenty
-- steps and a call of `handle_pid` at most nine.
--
-- Script: the rules of a family are a record of its chains, its policies and its routes. A command
-- that is refused changes nothing, and the script goes on behind it, as it checks no command of
-- iptables. Lists that are expanded without quotes are taken to hold no spaces. A file that is
-- sourced is one operation on the variables.
--
-- Bytecode: the machine covers the instructions and the calls that the programs use and has no
-- result on anything else; as no jump goes back, a run needs no fuel. The stack is a list of
-- writes, of which one can be read only with the bytes of the write, and an address in a record of
-- the map is a pid and an offset. The offsets in a task that the loader of the libbpf variant puts
-- in for the running kernel are those that stand in the object.
--
-- Not modelled: the help text and the messages of cgroup-tproxy.sh, and flags of it other than
-- `true` as commands; the debug information in the embedded objects; build and package files; log
-- output and `print_summary`; torn reads and writes of one field by the two threads.
pub mod Base
pub mod Constants
pub mod Text
pub mod Valid
pub mod Effect
pub mod System
pub mod Proc
pub mod Pidof
pub mod Attach
pub mod Json
pub mod Config
pub mod Daemon
pub mod Socket
pub mod TestClient
pub mod Script
pub mod Service
pub mod Command
pub mod Snoop
pub mod Bytecode
mod Tests
