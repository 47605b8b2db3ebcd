-- ===== src/MultiClient/Run.antt =====
-- The whole run of the client: every thread against a thread of the server over a pipe of its own.
use stdsc.Base.{
  ℕ, ◌+◌, ◌%◌, ◌^◌, ◌<◌, ◌≡◌, ap, ◌∙◌, String, true, false, List, [], ◌∷◌, arith, length, ==_refl,
}
use stdsc.Exec.{Result, ok}
use stdsc.Packet.{Bytes}
use stdsc.AddServer.State.{state_init}
use stdsc.AddServer.Together.{server_end, Both, client_end}
use stdsc.AddServer.Together.Exchanges.{Idle}
use stdsc.MultiClient.{Param, new_param, exec_client, launched, join_all, run_clients}
use stdsc.MultiClient.Comparing.{compared}
use stdsc.MultiClient.ServerSide.{table}
use stdsc.MultiClient.Together.{exec_client-together}

-- Each thread has two 32-bit numbers, an empty pipe and a thread of the server in the first state.
pub data AllReady : List ((ℕ × ℕ) × Both) → Type 0 where
  none_more : AllReady []
  one_more :
      {a b : ℕ} {ses : Both} {rest : List ((ℕ × ℕ) × Both)} (bytes : Bytes)
      → a < 2 ^ 32
      → b < 2 ^ 32
      → length bytes ≡ 12
      → Idle (table server_end) (state_init false false) bytes ses
      → AllReady rest
      → AllReady (((a, b), ses) ∷ rest)

compared_same : (x : ℕ) → compared x x ≡ 1
compared_same x = ground (arith, ==_refl x)

module _ (sleep_for : ℕ → Both → Both) (still : (n : ℕ) (w : Both) → sleep_for n w ≡ w)
    (host port : String) where
  abbrev client : Param → Both → Result ℕ × Both
  client = exec_client client_end sleep_for host port

  thread_one :
      (a b : ℕ) (ses : Both) (bytes : Bytes)
      → a < 2 ^ 32
      → b < 2 ^ 32
      → length bytes ≡ 12
      → Idle (table server_end) (state_init false false) bytes ses
      → (client (new_param a b) ses).0 ≡ ok 1
  thread_one a b ses bytes ha hb n h =
      let (w, bytes', e, idle) =
        exec_client-together sleep_for still host port (new_param a b) bytes ses ha hb (omega arith)
          n h in
      ap (λ (r : Result ℕ × Both). r.0) e ∙ ap ok (compared_same ((a + b) % 2 ^ 32))

  join_all-length :
      (draws : List ((ℕ × ℕ) × Both)) (so_far : ℕ)
      → AllReady draws
      → so_far + length draws < 2 ^ 32
      → join_all client (launched client draws) so_far ≡ ok (so_far + length draws)
  unfolding join_all
  join_all-length [] so_far none_more h = ap ok (omega arith)
  join_all-length (((a, b), ses) ∷ rest) so_far (one_more bytes ha hb n idle more) h =
      let one = thread_one a b ses bytes ha hb n idle in
      let small : (so_far + 1) % 2 ^ 32 ≡ so_far + 1 = omega (arith, h) in
      rw (one, join_all)
        (rw (small, join_all)
          (join_all-length rest (so_far + 1) more (omega (arith, h)) ∙ ap ok (omega arith)))

  -- Let every thread of the multi_client client and a thread of the server of its own hold the two
  -- ends of a pipe that moves a byte at a time, where a connection is made at once, sleeping changes
  -- nothing, and the server's thread takes a round of its loop whenever the client waits and nothing
  -- is there to receive. For fewer than 2 ^ 32 threads with any 32-bit numbers, each with an empty
  -- pipe and a server's thread in the first state whose common data takes 12 bytes (AllReady), the
  -- run of the client comes to an end, no thread throws, and it prints that all results are true.
  pub run_clients-true :
      (draws : List ((ℕ × ℕ) × Both))
      → AllReady draws
      → length draws < 2 ^ 32
      → run_clients client draws ≡ ok true
  unfolding run_clients
  run_clients-true draws ready h =
      rw (join_all-length draws 0 ready (omega (arith, h)), run_clients) (ap ok (ground arith))
