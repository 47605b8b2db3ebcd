-- ===== src/AddServer/Threads/Start.antt =====
-- Where every connection of the example server stands before its first packet.
use stdsc.Base.{ℕ, ◌≡◌, refl, ◌∙◌, false, some, List, [], ◌∷◌, arith, length}
use stdsc.Base.Assoc.{lookup}
use stdsc.System.{System}
use stdsc.Packet.{Bytes}
use stdsc.Socket.{Socket}
use stdsc.Callback.{View, CallbackFunction, Container, cint_eq, each_pointer, register_connection}
use stdsc.Callback.CommonData.{each_pointer-register_connection}
use stdsc.Server.Steps.{waiting}
use stdsc.AddServer.State.{Object, state_init}
use stdsc.AddServer.Threads.Evaluation.{AllRaise}
use stdsc.AddServer.Threads.Others.{pointed}
use stdsc.AddServer.Threads.Separation.{serving_with, serving_with-Separated}
use stdsc.AddServer.Threads.Standing.{Stands, started, fresh}

first_pointer :
    {W : Type 0} (s : Socket) (c : Container (View W Object)) (param : Bytes)
    → c.cdata_on_each ≡ param
    → c.cdatamap ≡ []
    → length param ≡ 12
    → each_pointer s (register_connection s c) ≡ some param
unfolding lookup
first_pointer s c [] e f n = absurd (omega (arith, n))
first_pointer s c (x ∷ xs) e f n =
    each_pointer-register_connection s c ∙ (λ i. pointed (e i) (lookup s (f i)))

module _ {W : Type 0} (sys : System W) (sockets : ℕ → Socket) (i : ℕ)
    (conn : W → Bytes → Bytes → Type 0) (a b : ℕ)
    (table : List (ℕ × CallbackFunction (View W Object))) where
  pub serving-Stands :
      (c : Container (View W Object)) (param : Bytes) (w : W) {inc out : Bytes}
      → AllRaise c.funcmap
      → c.funcmap ≡ table
      → c.cdata_on_each ≡ param
      → c.cdatamap ≡ []
      → length param ≡ 12
      → conn w inc out
      → Stands sys sockets i conn a b table started waiting inc out (serving_with c w)
  serving-Stands c param w raises same each new n wire = record {
    separated = serving_with-Separated c w raises;
    at_pc = refl;
    wire = wire;
    object = state_init false false;
    bytes = param;
    allowed = fresh false false;
    stored = n;
    at = record {
      found = refl;
      functions = same;
      pointer = first_pointer (sockets i) c param each new n;
    };
  }
