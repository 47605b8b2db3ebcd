-- ===== src/Server.antt =====
-- stdsc/stdsc_server.cpp with stdsc_thread.hpp and stdsc_thread.cpp: the loop of a connection's
-- thread, and the resources of the connections that the server thread holds.
pub mod Answers
pub mod Resources
pub mod Descriptors
pub mod Steps
pub mod Threads
pub mod Functions
pub mod Frame
pub mod Ending
pub mod Lifecycle
use stdsc.Base.{
  ℕ, ◌++◌, Bool, true, false, Option, none, some, List, [], ◌∷◌, if◌then◌else◌, String,
}
use stdsc.Exec.{
  Exception, socket, callback, Result, ok, throws, running, fault, Exec, ◌>>=◌, ◌>>◌, pure, throw,
}
use stdsc.System.{System}
use stdsc.Packet.{Packet, new_packet, make_packet}
use stdsc.Packet.ControlCode
use stdsc.Socket.{Socket, time_infinite, shutdown_socket, close_socket, send_packet, recv_packet}
use stdsc.Socket.Setup.{make_listen_socket, accept_connection}
use stdsc.Callback.{Session, eval}
use stdsc.Client.Retry.{is_socket}

-- ThreadException: the exception that a thread leaves for the one that joins it
abbrev pub ThreadException : Type 0
ThreadException = Option Exception

unfoldable pub set_current_exception : Exception → ThreadException → ThreadException
set_current_exception e te = some e

unfoldable pub rethrow_if_has_exception : {S : Type 0} → ThreadException → Exec S (Unit {0})
rethrow_if_has_exception none = pure tt
rethrow_if_has_exception (some e) = throw e

-- What th_->join() comes to: it returns when the thread has ended, with what the thread left, or waits
-- for ever for a thread that goes on.
pub data ThreadEnd : Type 0 where
  leaves : ThreadException → ThreadEnd
  goes_on : ThreadEnd

-- `catch (const CallbackException& e)`
abbrev pub catch_callback :
    {S : Type 0} → Exec S (Unit {0}) → Result (Unit {0}) × S → Result (Unit {0}) × S
catch_callback handler (throws (callback message), s) = handler s
catch_callback handler (r, s) = (r, s)

module _ {W Object : Type 0} (sys : System W) (s : Socket) where
  abbrev pub on_world : {A : Type 0} → Exec W A → Exec (Session W Object) A
  on_world m ses = ((m ses.world).0, record ses { world = (m ses.world).1 })

  -- the inner `try`
  unfoldable pub answer : Packet → Exec (Session W Object) (Unit {0})
  answer packet ses =
      catch_callback (on_world (send_packet sys s (make_packet ControlCode.reject)))
        ((do eval sys s packet; on_world (send_packet sys s (make_packet ControlCode.accept))) ses)

  -- one round of the loop of ServerThread::Impl::exec, up to its outer `catch`
  unfoldable pub serve_packet : Exec (Session W Object) (Unit {0})
  serve_packet = do
    packet ← on_world (recv_packet sys s (new_packet 0) time_infinite)
    answer packet

  -- ServerThread::Impl::exec. The list holds the values of `force_finish` at the tests of the loop,
  -- which another thread may write; a list that ends before the loop does leaves it running.
  unfoldable pub exec :
      List Bool
      → Session W Object
      → ThreadException
      → Result (Unit {0}) × Session W Object × ThreadException
  exec [] ses te = (running, ses, te)
  exec (force_finish ∷ rest) ses te =
      let (r, ses') = serve_packet ses in
      elim force_finish [
        | true ↦ (ok tt, ses, te)
        | false ↦ elim r [
          | ok _ ↦ exec rest ses' te
          | throws e ↦ (ok tt, ses', set_current_exception e te)
          | running ↦ (running, ses', te)
          | fault ↦ (fault, ses', te)
        ]
      ]

-- ResourceContainer: the socket of a connection, and whether it was released
pub record Resource : Type 0 where
  pub sock : Socket
  pub is_released : Bool

unfoldable pub new_resource : Socket → Resource
new_resource s = record { sock = s; is_released = false }

module _ {W : Type 0} (sys : System W) where
  unfoldable pub release : Resource → Exec W Resource
  release r = if r.is_released then pure r else do
    shutdown_socket sys r.sock
    closed ← close_socket sys r.sock
    pure (record { sock = closed; is_released = true })

  -- ResourceContainer::wait. `joined` is what joining the thread of this connection comes to.
  abbrev after_join : Resource → Result (Unit {0}) × W → Result Resource × W
  after_join r (throws e, w) = release r w
  after_join r (ok _, w) = (ok r, w)
  after_join r (running, w) = (running, w)
  after_join r (fault, w) = (fault, w)

  unfoldable pub wait : ThreadEnd → Resource → Exec W Resource
  unfolding rethrow_if_has_exception
  wait goes_on r w = (running, w)
  wait (leaves left) r w = after_join r (rethrow_if_has_exception left w)

  -- the loop over the resources at the end of Server::Impl::exec
  unfoldable pub release_all : (Socket → ThreadEnd) → List Resource → Exec W (List Resource)
  release_all joined [] = pure []
  release_all joined (r ∷ rest) = do
    waited ← wait (joined r.sock) r
    released ← release waited
    others ← release_all joined rest
    pure (released ∷ others)

  -- The accept loop, with the values of `force_finish` at its tests. A connection that fails by a
  -- socket exception is passed over.
  unfoldable pub accept_loop : List Bool → Socket → List Resource → Exec W (List Resource)
  accept_loop [] listen_socket resources w = (running, w)
  accept_loop (force_finish ∷ rest) listen_socket resources w =
      let (r, w') = accept_connection sys listen_socket time_infinite w in
      elim force_finish [
        | true ↦ (ok resources, w)
        | false ↦ elim r [
          | ok s ↦ accept_loop rest listen_socket (resources ++ new_resource s ∷ []) w'
          | throws e ↦ elim (is_socket e) [
            | true ↦ accept_loop rest listen_socket resources w'
            | false ↦ (throws e, w')
          ]
          | running ↦ (running, w')
          | fault ↦ (fault, w')
        ]
      ]

  -- Server::Impl::exec
  unfoldable pub exec_server :
      String → ℕ → ℕ → List Bool → (Socket → ThreadEnd) → Exec W (List Resource)
  exec_server port optname backlog flags joined = do
    listen_socket ← make_listen_socket sys port optname backlog
    resources ← accept_loop flags listen_socket []
    released ← release_all joined resources
    close_socket sys listen_socket
    pure released
