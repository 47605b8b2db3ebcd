-- ===== src/AddServer/Threads/Frame.antt =====
-- What a step of one thread of the example server leaves another connection: its streams, its common
-- data and its state, up to the flags of the first state object, which may only be set.
use stdsc.Base.{if◌then◌else◌, ◌==◌, ℕ, ◌+◌, ◌%◌, ◌^◌, String, Option, none, some, arith, inl}
use stdsc.Base.Assoc.{emplace}
use stdsc.Exec.{callback, ok, Exec}
use stdsc.Exec.Preserving.{Preserves, >>=-Preserves, same-Preserves, check-Preserves}
use stdsc.System.{System}
use stdsc.Packet.{Bytes, make_data_packet}
use stdsc.Packet.Codec.{encode}
use stdsc.Packet.Groups.{make_data_packet-ok}
use stdsc.Socket.{Socket}
use stdsc.Socket.Frame.{Untouched, send_packet-Preserves, send_buffer-Preserves}
use stdsc.Callback.{View}
use stdsc.Callback.Registered.{AllDo, data_class-Does, request_class-Does, download_class-Does}
use stdsc.Server.Frame.{OnView}
use stdsc.AddServer.State.{
  Object, received_value_a, received_value_b, received_compute_request, received_result_request,
}
use stdsc.AddServer.Callbacks.{
  value_a, value_b, sum, load, store, each_bytes, or_fault, require_state, notify, load_member,
  store_member, receive_value_a, receive_value_b, compute, download_result, compare_result,
  send_result, code_data_result, callbacks, on_system,
}

module _ {W : Type 0} (P : W → Type 0) where
  abbrev Q : View W Object → Type 0
  Q = OnView P

  or_fault-Preserves : {A : Type 0} (x : Option A) → Preserves Q (or_fault x)
  or_fault-Preserves none = record { after = λ v q. q }
  or_fault-Preserves (some a) = record { after = λ v q. q }

  require_state-Preserves : (id : ℕ) (message : String) → Preserves Q (require_state id message)
  require_state-Preserves id message = record {
    after = λ v q. (check-Preserves Q _ (callback message)).after v q;
  }

  notify-Preserves : (event : ℕ) → Preserves Q (notify event)
  notify-Preserves event = record { after = λ v q. q }

  load_member-Preserves : (offset : ℕ) → Preserves Q (load_member offset)
  load_member-Preserves offset = record { after = λ v q. (or_fault-Preserves _).after v q }

  store_member-Preserves : (offset x : ℕ) → Preserves Q (store_member offset x)
  store_member-Preserves offset x = record {
    after = λ v q.
        (>>=-Preserves Q (or_fault-Preserves (store (each_bytes v.on_each) offset x))
            (λ bytes. record { after = λ v q. q })).after
          v q;
  }

  pub receive_value_a-Preserves : (buffer : Bytes) → Preserves Q (receive_value_a buffer)
  unfolding receive_value_a
  receive_value_a-Preserves buffer = >>=-Preserves Q (require_state-Preserves 1 _) (λ _.
      >>=-Preserves Q (or_fault-Preserves (load buffer 0)) (λ a.
        >>=-Preserves Q (store_member-Preserves value_a a)
          (λ _. notify-Preserves received_value_a)))

  pub receive_value_b-Preserves : (buffer : Bytes) → Preserves Q (receive_value_b buffer)
  unfolding receive_value_b
  receive_value_b-Preserves buffer = >>=-Preserves Q (require_state-Preserves 1 _) (λ _.
      >>=-Preserves Q (or_fault-Preserves (load buffer 0)) (λ b.
        >>=-Preserves Q (store_member-Preserves value_b b)
          (λ _. notify-Preserves received_value_b)))

  pub compute-Preserves : Preserves Q compute
  unfolding compute
  compute-Preserves = >>=-Preserves Q (require_state-Preserves 2 _) (λ _.
      >>=-Preserves Q (load_member-Preserves value_a) (λ a.
        >>=-Preserves Q (load_member-Preserves value_b) (λ b.
          >>=-Preserves Q (store_member-Preserves sum ((a + b) % 2 ^ 32))
            (λ _. notify-Preserves received_compute_request))))

  make_data_packet-Preserves : Preserves Q (make_data_packet code_data_result 4)
  make_data_packet-Preserves = record {
    after = λ v q. rw (make_data_packet-ok v code_data_result 4 (inl (omega arith))) q;
  }

  on_system-Preserves :
      {A : Type 0} (sys : System W) {m : Exec W A} → Preserves P m → Preserves Q (on_system sys m)
  on_system-Preserves sys h = record { after = λ v q. h.after v.world q }

module _ {W : Type 0} (sys : System W) (s : Socket) (P : W → Type 0)
    (frame : Untouched sys s P) where
  send_result-Preserves : (x : ℕ) → Preserves (Q P) (send_result sys s x)
  send_result-Preserves x = >>=-Preserves (Q P) (make_data_packet-Preserves P) (λ packet.
      >>=-Preserves (Q P) (on_system-Preserves P sys (send_packet-Preserves sys s P frame packet))
        (λ _.
          >>=-Preserves (Q P)
            (on_system-Preserves P sys (send_buffer-Preserves sys s P frame (encode 4 x)))
            (λ _. notify-Preserves P received_result_request)))

  download_result-Preserves : Preserves (Q P) (download_result sys s)
  unfolding download_result
  download_result-Preserves =
      >>=-Preserves (Q P) (require_state-Preserves P 3 _)
        (λ _. >>=-Preserves (Q P) (load_member-Preserves P sum) send_result-Preserves)

  pub compare_result-Preserves : (buffer : Bytes) → Preserves (Q P) (compare_result sys buffer s)
  unfolding compare_result
  compare_result-Preserves buffer = >>=-Preserves (Q P) (require_state-Preserves P 3 _) (λ _.
      >>=-Preserves (Q P) (or_fault-Preserves P (load buffer 0)) (λ expected.
        >>=-Preserves (Q P) (load_member-Preserves P sum)
          (λ x. send_result-Preserves (if x == expected then 1 else 0))))

  pub callbacks-Preserves :
      (param : Bytes) → AllDo (Preserves (Q P)) s (callbacks sys param).funcmap
  unfolding callbacks emplace
  callbacks-Preserves param =
      let nothing = same-Preserves (Q P) (ok tt) in
      (
        data_class-Does _ nothing s _ (λ code. receive_value_a-Preserves P),
        (
          data_class-Does _ nothing s _ (λ code. receive_value_b-Preserves P),
          (
            request_class-Does _ nothing s _ (λ code. compute-Preserves P),
            (download_class-Does _ nothing s _ (λ code. download_result-Preserves), tt),
          ),
        ),
      )
