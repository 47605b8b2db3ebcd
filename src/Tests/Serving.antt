-- ===== src/Tests/Serving.antt =====
-- Runs of the server: its packets, the common data and the resources.
use stdsc.Base.{
  ℕ, ◌≡◌, refl, [], ◌∷◌, ◌++◌, arith, length, false, none, some, List, if◌then◌else◌, ap, ◌∙◌,
}
use stdsc.Base.Assoc.{lookup, emplace}
use stdsc.Exec.{Exception, callback, ok, throws}
use stdsc.System.{nonneg}
use stdsc.Packet.{Bytes, Packet, to_bytes, new_packet, make_packet, set_data_size}
use stdsc.Packet.ControlCode
use stdsc.Packet.Wire.{make_packet-IsPacket, control_code-make_packet}
use stdsc.Socket.{Socket}
use stdsc.State.{StateContext}
use stdsc.Callback.{
  View, Container, Session, CallbackFunction, base, nat_eq, cint_eq, new_container, each_pointer,
  register_connection, open_view, close_view, when_registered, eval,
}
use stdsc.Callback
use stdsc.Callback.CommonData.{each_pointer-close_view, eval_other}
use stdsc.Callback.Dispatch.{viewed, eval_request}
use stdsc.Server.{leaves, ThreadException, Resource, release_all, serve_packet}
use stdsc.Server.Answers.{rejected, serve_packet_lem}
use stdsc.Server.Resources.{AllReleased, CountsClosed, release_all_lem}
use stdsc.AddServer.State.{Object, state_init}
use stdsc.AddServer.Callbacks.{callbacks, compute}
use stdsc.AddServer.Rounds.{compute_early}
use stdsc.Tests.{Wire, wire, loopback, sock, Here, loopback_lem}

abbrev TestContainer : Type 0
TestContainer = Container (View Wire Object)

abbrev session : Bytes → TestContainer → Session Wire Object
session bytes c = record {
  world = wire bytes;
  context = record { state = 0 };
  objects = state_init false false ∷ [];
  container = c;
}

-- a client that asks for the sum before it has sent the values
abbrev question : Packet
question = make_packet 0x0201

abbrev memory : Bytes
memory = 1 ∷ 2 ∷ 3 ∷ []

abbrev early_session : Session Wire Object
early_session = session (to_bytes question ++ []) (callbacks loopback memory)

abbrev warning : Exception
warning = callback "Warn: must be connected state to receive valueB."

abbrev Untouched : StateContext → List Object → TestContainer → Type 0
Untouched sc objects c = objects ≡ state_init false false ∷ []

registered_compute :
    lookup question.control_code (callbacks loopback memory).funcmap
    ≡ some (record base { request_function = λ code. compute })
unfolding callbacks lookup emplace
registered_compute = rw (control_code-make_packet 0x0201) refl

refused :
    (w : Wire)
    → Here w [] []
    → (ses' : Session Wire Object) × (eval loopback sock question
          (record early_session { world = w })
        ≡ (throws warning, ses'))
      × Here ses'.world [] []
      × Untouched ses'.context ses'.objects ses'.container
refused w c =
    let ses = record early_session { world = w } in
    let v = viewed loopback sock ses in
    (
      (close_view sock (register_connection sock ses.container) (throws warning, v)).1,
      eval_request loopback sock question ses (rw (control_code-make_packet 0x0201) refl)
          ∙ ap
              (λ f.
                close_view sock (register_connection sock ses.container)
                  (when_registered f (λ f. f.request_function question.control_code) v))
              registered_compute
          ∙ ap (close_view sock (register_connection sock ses.container))
              (compute_early v refl refl),
      c,
      refl,
    )

serve_packet_lem_example :
    (ses' : Session Wire Object) × (serve_packet loopback sock early_session ≡ (ok tt, ses'))
    × Here ses'.world [] ([] ++ to_bytes (make_packet ControlCode.reject))
    × Untouched ses'.context ses'.objects ses'.container
serve_packet_lem_example =
    serve_packet_lem loopback sock loopback_lem (omega arith) question early_session [] [] [] []
      Untouched (make_packet-IsPacket 0x0201 (omega arith))
      (rejected "Warn: must be connected state to receive valueB.") refused (refl, refl)

-- two connections with common data
abbrev two_connections : TestContainer
two_connections = record new_container {
  cdata_on_each = 0 ∷ 0 ∷ [];
  cdatamap = (nonneg 5, 1 ∷ 1 ∷ []) ∷ (nonneg 7, 2 ∷ 2 ∷ []) ∷ [];
}

eval_other_example :
    lookup
      (nonneg 5)
      (eval loopback sock question (session [] two_connections)).1.container.cdatamap
    ≡ lookup (nonneg 5) two_connections.cdatamap
eval_other_example =
    eval_other loopback sock question (session [] two_connections) (nonneg 5)
      (λ e. ground (arith, e))

abbrev written : View Wire Object
written = record (open_view sock (session [] two_connections)) { on_each = some (3 ∷ 3 ∷ []) }

pointed : each_pointer sock (register_connection sock two_connections) ≡ some (2 ∷ 2 ∷ [])
unfolding register_connection lookup emplace
pointed = refl

each_pointer-close_view_example :
    each_pointer sock (
      register_connection sock
        (close_view sock (register_connection sock two_connections) (ok tt, written)).1.container)
    ≡ some (3 ∷ 3 ∷ [])
each_pointer-close_view_example =
    each_pointer-close_view sock two_connections (ok tt) written (2 ∷ 2 ∷ []) (3 ∷ 3 ∷ []) pointed
      refl

abbrev payload : Bytes
payload = 10 ∷ 0 ∷ 0 ∷ 0 ∷ []

abbrev announced : ℕ → Packet
announced code = set_data_size (new_packet code) 4

abbrev receiving : Session Wire Object
receiving = session (payload ++ []) (callbacks loopback memory)

pub counts : CountsClosed loopback (λ w. w.closed)
counts = record { closed-close = λ n w. refl; closed-shutdown = λ s w. refl }

abbrev two_resources : List Resource
two_resources =
    record { sock = nonneg 5; is_released = false }
    ∷ record { sock = nonneg 7; is_released = false }
    ∷ []

-- the thread of the second connection has failed
abbrev left_by : Socket → ThreadException
left_by s = if Callback.beq_cint s (nonneg 7) then some warning else none

release_all_lem_example :
    (rs' : List Resource) × (w' : Wire) × (release_all loopback
        (λ s. leaves (left_by s))
        two_resources
        (wire [])
      ≡ (ok rs', w'))
    × (length rs' ≡ 2)
    × AllReleased rs'
    × (w'.closed ≡ 2)
release_all_lem_example =
    release_all_lem loopback counts left_by two_resources (wire [])
      ((5, refl, refl), ((7, refl, refl), tt))
