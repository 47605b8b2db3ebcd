-- ===== src/Server/Lifecycle.antt =====
-- stdsc/stdsc_server.cpp with stdsc_thread.hpp: starting, stopping and waiting for the thread of a
-- server. The thread itself is std::thread's; what it leaves when it ends is an argument of the join.
use stdsc.Base.{◌≡◌, refl, Bool, true, false, none, some, if◌then◌else◌}
use stdsc.Exec.{Result, ok, throws, fault, Exec, ◌>>◌, pure}
use stdsc.Server.{ThreadException, rethrow_if_has_exception}

-- param_.force_finish, te_ and whether th_ is joinable
pub record Handle : Type 0 where
  pub force_finish : Bool
  pub te : ThreadException
  pub joinable : Bool

unfoldable pub new_handle : Handle
new_handle = record { force_finish = false; te = none; joinable = false }

-- Thread::start. A thread that is moved over one that is joinable ends the program.
abbrev pub start_thread : Exec Handle (Unit {0})
start_thread h = if h.joinable then (fault, h) else (ok tt, record h { joinable = true })

-- Thread::join, where the thread's ThreadException holds `left` when it ends
abbrev pub join_thread : ThreadException → Exec Handle (Unit {0})
join_thread left h =
    if h.joinable then (ok tt, record h { te = left; joinable = false }) else (ok tt, h)

-- Server::wait and ServerThread::join
unfoldable pub wait_for : ThreadException → Exec Handle (Unit {0})
unfolding rethrow_if_has_exception
wait_for left = do join_thread left; λ h. rethrow_if_has_exception h.te h

-- Server::start
unfoldable pub start_server : Bool → ThreadException → Exec Handle (Unit {0})
unfolding wait_for
start_server async left = do
  λ h. start_thread (record h { force_finish = false })
  if async then pure tt else wait_for left

-- Server::stop and ServerThread::stop
unfoldable pub stop_server : Exec Handle (Unit {0})
stop_server h = (ok tt, record h { force_finish = true })

abbrev rethrown : ThreadException → Result (Unit {0})
rethrown none = ok tt
rethrown (some e) = throws e

-- A server that is started, stopped and waited for has `force_finish` set, its thread joined, and throws
-- what the thread left; waiting for it again throws the same, whatever is said to be left.
pub wait_for-stopped :
    (left other : ThreadException)
    → let h = record new_handle { force_finish = true; te = left } in
      ((do start_server true none; stop_server; wait_for left) new_handle ≡ (rethrown left, h))
      × (wait_for other h ≡ (rethrown left, h))
unfolding new_handle start_server stop_server wait_for rethrow_if_has_exception
wait_for-stopped none other = (refl, refl)
wait_for-stopped (some e) other = (refl, refl)

-- Starting a new server with `async` false is starting it and then waiting.
pub start_server-wait :
    (left : ThreadException)
    → start_server false left new_handle ≡ (do start_server true none; wait_for left) new_handle
unfolding start_server wait_for new_handle
start_server-wait left = refl
