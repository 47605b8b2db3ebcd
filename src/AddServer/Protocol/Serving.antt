-- ===== src/AddServer/Protocol/Serving.antt =====
-- The rounds of the server's thread, one for each kind of message of the example client.
use stdsc.Base.{ℕ, ◌^◌, ◌≤◌, ◌<◌, ◌≡◌, refl, ap, ◌∙◌, some, List, [], ◌++◌, length, get_elem?}
use stdsc.Base.Assoc.{lookup, emplace}
use stdsc.Exec.{Result, ok, Exec}
use stdsc.System.{System}
use stdsc.Packet.{Bytes, packet_size, new_packet, set_data_size, make_packet}
use stdsc.Packet.Wire.{control_code-new_packet, control_code-make_packet, data_size-set_data_size}
use stdsc.Socket.{Socket}
use stdsc.Socket.Connection.{IsConnection}
use stdsc.State.{StateContext}
use stdsc.Callback.{
  View, Container, Session, CallbackFunction, base, nat_eq, register_connection, each_pointer,
  close_view, when_registered, eval,
}
use stdsc.Callback.CommonData.{each_pointer-close_view}
use stdsc.Callback.Dispatch.{InRange, viewed, eval_data, eval_request, eval_download}
use stdsc.AddServer.State.{Object}
use stdsc.AddServer.Sharing.{follow, set-follow}
use stdsc.AddServer.Callbacks.{
  callbacks, receive_value_a, receive_value_b, compute, download_result, code_value_a, code_value_b,
  code_request_compute, code_download_result,
}
use stdsc.AddServer.Rounds.{moved}

module _ {W : Type 0} (sys : System W) (s : Socket)
    (table : List (ℕ × CallbackFunction (View W Object))) where
  -- A session of a server with these functions, its state o and the connection's data.
  pub record At (o : Object) (bytes : Bytes) (sc : StateContext) (objects : List Object)
      (c : Container (View W Object)) : Type 0 where
    pub found : get_elem? objects sc.state ≡ some o
    pub functions : c.funcmap ≡ table
    pub pointer : each_pointer s (register_connection s c) ≡ some bytes

  -- A callback that raises an event and writes the connection's data leads to the state that
  -- follows.
  pub settle :
      (event : ℕ) (o : Object) (bytes bytes' : Bytes) (ses : Session W Object) (w : W)
      (r : Result (Unit {0}))
      → At o bytes ses.context ses.objects ses.container
      → let v = moved event bytes' (record (viewed sys s ses) { world = w }) in
        let ses' = (close_view s (register_connection s ses.container) (r, v)).1 in
        At (follow o event) bytes' ses'.context ses'.objects ses'.container
  unfolding register_connection
  settle event o bytes bytes' ses w r h = record {
    found = set-follow event ses.context ses.objects h.found;
    functions = h.functions;
    pointer =
        each_pointer-close_view s ses.container r
          (moved event bytes' (record (viewed sys s ses) { world = w })) bytes bytes' h.pointer
          refl;
  }

pub run_registered :
    {W : Type 0} (g : CallbackFunction (View W Object) → ℕ → Exec (View W Object) (Unit {0}))
    (k code : ℕ) (fs gs : List (ℕ × CallbackFunction (View W Object)))
    (f : CallbackFunction (View W Object))
    → k ≡ code
    → fs ≡ gs
    → lookup code gs ≡ some f
    → when_registered (lookup k fs) (λ f. g f k) ≡ g f code
run_registered g k code fs gs f e same known = rw (e, same, known) refl

module _ {W : Type 0} (sys : System W) where
  pub known_a :
      lookup code_value_a (callbacks sys []).funcmap
      ≡ some (record base { data_function = λ code buffer. receive_value_a buffer })
  unfolding callbacks lookup emplace
  known_a = refl

  pub known_b :
      lookup code_value_b (callbacks sys []).funcmap
      ≡ some (record base { data_function = λ code buffer. receive_value_b buffer })
  unfolding callbacks lookup emplace
  known_b = refl

  pub known_compute :
      lookup code_request_compute (callbacks sys []).funcmap
      ≡ some (record base { request_function = λ code. compute })
  unfolding callbacks lookup emplace
  known_compute = refl

  pub known_result :
      lookup code_download_result (callbacks sys []).funcmap
      ≡ some (record base { download_function = λ code s. download_result sys s })
  unfolding callbacks lookup emplace
  known_result = refl

module _ {W : Type 0} (sys : System W) (s : Socket) {conn : W → Bytes → Bytes → Type 0}
    (law : IsConnection sys s conn) (rounds : packet_size ≤ sys.write_rounds)
    (table : List (ℕ × CallbackFunction (View W Object))) where
  -- what a round of the loop comes to
  abbrev pub Serves : Object → Bytes → Bytes → Bytes → Result (Unit {0}) × Session W Object → Type 0
  Serves o bytes i out r =
      (ses' : Session W Object) × (r ≡ (ok tt, ses'))
      × conn ses'.world i out
      × At sys s table o bytes ses'.context ses'.objects ses'.container

  -- The evaluation of a packet whose data come next.
  pub data_eval :
      (code event : ℕ) (o : Object) (bytes bytes' payload i out : Bytes) (ses : Session W Object)
      (f : CallbackFunction (View W Object))
      → InRange code 4
      → length payload < 2 ^ 64
      → lookup code table ≡ some f
      → ((v : View W Object)
          → get_elem? v.objects v.context.state ≡ some o
          → v.on_each ≡ some bytes
          → f.data_function code payload v ≡ (ok tt, moved event bytes' v))
      → At sys s table o bytes ses.context ses.objects ses.container
      → conn ses.world (payload ++ i) out
      → Serves
          (follow o event)
          bytes'
          i
          out
          (eval sys s (set_data_size (new_packet code) (length payload)) ses)
  data_eval code event o bytes bytes' payload i out ses f range small known runs h c =
      let p = set_data_size (new_packet code) (length payload) in
      let named = control_code-new_packet code (length payload) in
      let (w, run, c') =
        eval_data sys s law p payload i out ses (rw named range)
          (data_size-set_data_size (new_packet code) (length payload) small) c in
      let v = record (viewed sys s ses) { world = w } in
      let close = close_view s (register_connection s ses.container) in
      (
        (close (ok tt, moved event bytes' v)).1,
        run
            ∙ ap (λ m. close (m v))
                (run_registered (λ f k. f.data_function k payload) p.control_code code _ _ f named
                  h.functions known)
            ∙ ap close (runs v h.found h.pointer),
        c',
        settle sys s table event o bytes bytes' ses w (ok tt) h,
      )

  -- The evaluation of a request.
  pub request_eval :
      (code event : ℕ) (o : Object) (bytes bytes' i out : Bytes) (ses : Session W Object)
      (f : CallbackFunction (View W Object))
      → InRange code 2
      → lookup code table ≡ some f
      → ((v : View W Object)
          → get_elem? v.objects v.context.state ≡ some o
          → v.on_each ≡ some bytes
          → f.request_function code v ≡ (ok tt, moved event bytes' v))
      → At sys s table o bytes ses.context ses.objects ses.container
      → conn ses.world i out
      → Serves (follow o event) bytes' i out (eval sys s (make_packet code) ses)
  request_eval code event o bytes bytes' i out ses f range known runs h c =
      let v = viewed sys s ses in
      let close = close_view s (register_connection s ses.container) in
      (
        (close (ok tt, moved event bytes' v)).1,
        eval_request sys s (make_packet code) ses (rw (control_code-make_packet code) range)
            ∙ ap (λ m. close (m v))
                (run_registered (λ f k. f.request_function k) (make_packet code).control_code code _
                  _ f (control_code-make_packet code) h.functions known)
            ∙ ap close (runs v h.found h.pointer),
        c,
        settle sys s table event o bytes bytes' ses ses.world (ok tt) h,
      )

  -- The evaluation of a download, whose callback sends an answer.
  pub download_eval :
      (code event : ℕ) (o : Object) (bytes i out answer : Bytes) (ses : Session W Object)
      (f : CallbackFunction (View W Object))
      → InRange code 8
      → lookup code table ≡ some f
      → ((v : View W Object)
          → get_elem? v.objects v.context.state ≡ some o
          → v.on_each ≡ some bytes
          → conn v.world i out
          → (w : W) × (f.download_function code s v
              ≡ (ok tt, moved event bytes (record v { world = w })))
            × conn w i (out ++ answer))
      → At sys s table o bytes ses.context ses.objects ses.container
      → conn ses.world i out
      → Serves (follow o event) bytes i (out ++ answer) (eval sys s (make_packet code) ses)
  download_eval code event o bytes i out answer ses f range known runs h c =
      let v = viewed sys s ses in
      let close = close_view s (register_connection s ses.container) in
      let (w, run, c') = runs v h.found h.pointer c in
      (
        (close (ok tt, moved event bytes (record v { world = w }))).1,
        eval_download sys s (make_packet code) ses (rw (control_code-make_packet code) range)
            ∙ ap (λ m. close (m v))
                (run_registered (λ f k. f.download_function k s) (make_packet code).control_code
                  code _ _ f (control_code-make_packet code) h.functions known)
            ∙ ap close run,
        c',
        settle sys s table event o bytes bytes ses w (ok tt) h,
      )
