-- ===== src/Service.antt =====
-- The daemon's socket thread: the server of src/socket_server.cpp with `handle_msg` of
-- src/cgproxyd.hpp as its callback.
pub mod Conversation
pub mod Reload
pub mod Variables
pub mod Rules
pub mod Placement
use cgproxy.Base.{Bool, true, false, List, Bytes, ◌≡◌, arith}
use cgproxy.Base.Int.{ℤ}
use cgproxy.Constants.{socket_path}
use cgproxy.Effect.{M, Returns, Outcome, returned}
use cgproxy.System.{Os}
use cgproxy.Json.{Json, AtIsPlain, ListsItems}
use cgproxy.Config.Load.{Host}
use cgproxy.Config.Load.Validity.{IsValid, StringsAreArrays}
use cgproxy.Daemon.Messages.{Install, handle_msg}
use cgproxy.Daemon.Messages.Laws.{handle_msg-Returns, handle_msg-IsValid}
use cgproxy.Socket.{Net}
use cgproxy.Socket.Server.{Server, Stale, rounds, start_server, open_socket}
use cgproxy.Socket.Server.Laws.{rounds-keeps, rounds-EndsBySignal, EndsBySignal}

module _ (os : Os) (json : Json) (env : Install) (net : Net) where
  -- The callback of the thread, once the instance is assigned.
  abbrev pub callback : Bytes → M (Host os.State) ℤ
  callback = handle_msg os json env

  -- Over any number of connections the daemon is ended by a signal only, not by an exception of the
  -- callback, and the configuration stays valid if it was, under the laws AtIsPlain, ListsItems and
  -- StringsAreArrays of the JSON library.
  serve-IsValid :
      AtIsPlain json
      → ListsItems json
      → StringsAreArrays json
      → (stales : List Stale) (v : Server net.State (Host os.State)) → IsValid v.daemon.config
      → EndsBySignal net callback (rounds net callback stales v)
        × IsValid (rounds net callback stales v).1.daemon.config
  serve-IsValid ends lists arrays stales v valid = (
    rounds-EndsBySignal net callback (handle_msg-Returns os json env ends) stales v,
    rounds-keeps net callback (λ h. IsValid h.config)
        (λ t h p. handle_msg-IsValid os json env lists arrays t h p) stales v valid,
  )

  -- `startSocketListeningThread`: whether the daemon logs that the thread has started, and how the thread
  -- goes on. The future is ready when the promise is fulfilled, and also when the thread ends before and
  -- destroys it; `in_time` is whether one of the two happens within THREAD_TIMEOUT seconds.
  start_socket_listening_thread :
      Bool
      → List Stale
      → net.State
      → Host os.State
      → Bool × (Outcome (Unit {0}) × Server net.State (Host os.State))
  start_socket_listening_thread in_time stales n h =
      (in_time, (start_server net callback stales n h).1)

  -- Where the old socket file cannot be removed, the thread ends at once with the sockets closed and has
  -- served nobody, and the daemon logs that it has started.
  start_socket_listening_thread_blocked :
      (stales : List Stale) (n : net.State) (h : Host os.State)
      → net.path_exists socket_path (net.socket n).1 ≡ true
      → (net.unlink socket_path (net.socket n).1).0 ≡ false
      → ((start_socket_listening_thread true stales n h).0 ≡ true)
        × ((start_socket_listening_thread true stales n h).1.0 ≡ returned tt)
        × ((start_socket_listening_thread true stales n h).1.1.daemon ≡ h)
  unfolding start_socket_listening_thread start_server open_socket
  start_socket_listening_thread_blocked stales n h there blocked = ground arith
