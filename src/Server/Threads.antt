-- ===== src/Server/Threads.antt =====
-- The threads of a server over what they share: the container, the state objects and the system. A
-- thread takes its steps one at a time, and the steps of the threads follow one another in any order.
-- Thread i serves the connection with the descriptor `sockets i`; before it starts it waits.
use stdsc.Base.{ℕ, Bool, List, ◌==◌, if◌then◌else◌}
use stdsc.System.{System}
use stdsc.Socket.{Socket}
use stdsc.State.{StateContext}
use stdsc.Callback.{View, Container, Session}
use stdsc.Server.Steps.{Pc, waiting, advance}

pub record Threads (W Object : Type 0) : Type 0 where
  pub world : W
  pub objects : List Object
  pub container : Container (View W Object)
  pub contexts : ℕ → StateContext
  pub pcs : ℕ → Pc

abbrev pub update : {A : Type 0} → (ℕ → A) → ℕ → A → ℕ → A
update f i a j = if j == i then a else f j

module _ {W Object : Type 0} where
  abbrev pub session_of : Threads W Object → ℕ → Session W Object
  session_of t i = record {
    world = t.world;
    context = t.contexts i;
    objects = t.objects;
    container = t.container;
  }

  abbrev pub put : Threads W Object → ℕ → Pc × Session W Object → Threads W Object
  put t i (pc, ses) = record {
    world = ses.world;
    objects = ses.objects;
    container = ses.container;
    contexts = update t.contexts i ses.context;
    pcs = update t.pcs i pc;
  }

  -- Every ResourceContainer copies the context of the server, and with it the pointer.
  abbrev pub start : W → StateContext → List Object → Container (View W Object) → Threads W Object
  start w sc objects c = record {
    world = w;
    objects = objects;
    container = c;
    contexts = λ i. sc;
    pcs = λ i. waiting;
  }

module _ {W Object : Type 0} (sys : System W) (sockets : ℕ → Socket) where
  -- `outside` is whatever the peers and the system do between two steps.
  pub data Step (t : Threads W Object) : Threads W Object → Type 0 where
    inside :
        (i : ℕ) (force_finish : Bool)
        → Step t (put t i (advance sys (sockets i) force_finish (t.pcs i, session_of t i)))
    outside : (w : W) → Step t (record t { world = w })

  pub data Reach (from : Threads W Object) : Threads W Object → Type 0 where
    started : Reach from from
    later : {t u : Threads W Object} → Reach from t → Step t u → Reach from u
