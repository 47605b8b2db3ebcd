-- ===== src/AddServer/Threads/Table.antt =====
-- What the proofs about several connections need of the functions that a server has registered; the
-- servers of the two examples both have them.
use stdsc.Base.{ℕ, ◌≡◌, some, List, []}
use stdsc.Base.Assoc.{lookup}
use stdsc.Exec.Preserving.{Preserves}
use stdsc.System.{System}
use stdsc.Socket.{Socket}
use stdsc.Socket.Frame.{Untouched}
use stdsc.Callback.{View, CallbackFunction, base, nat_eq}
use stdsc.Callback.Registered.{AllDo}
use stdsc.Server.Frame.{OnView}
use stdsc.AddServer.State.{Object}
use stdsc.AddServer.Callbacks.{
  code_value_a, code_value_b, code_request_compute, callbacks, receive_value_a, receive_value_b,
  compute,
}
use stdsc.AddServer.Protocol.Serving.{known_a, known_b, known_compute}
use stdsc.AddServer.Threads.Evaluation.{AllRaise, callbacks-AllRaise}
use stdsc.AddServer.Threads.Frame.{callbacks-Preserves}

-- Every function raises one event at most, and leaves alone what the calls on its socket leave alone;
-- the first three messages have the callbacks of the examples.
pub record Table {W : Type 0} (sys : System W) (table : List (ℕ × CallbackFunction (View W Object)))
    : Type 1 where
  pub raises : AllRaise table
  pub keeps :
      (s : Socket) (P : W → Type 0)
      → Untouched sys s P
      → AllDo (Preserves (OnView {Object = Object} P)) s table
  pub has_a :
      lookup code_value_a table
      ≡ some (record base { data_function = λ code buffer. receive_value_a buffer })
  pub has_b :
      lookup code_value_b table
      ≡ some (record base { data_function = λ code buffer. receive_value_b buffer })
  pub has_compute :
      lookup code_request_compute table ≡ some (record base { request_function = λ code. compute })

pub callbacks-Table : {W : Type 0} (sys : System W) → Table sys (callbacks sys []).funcmap
callbacks-Table sys = record {
  raises = callbacks-AllRaise sys [];
  keeps = λ s P frame. callbacks-Preserves sys s P frame [];
  has_a = known_a sys;
  has_b = known_b sys;
  has_compute = known_compute sys;
}
