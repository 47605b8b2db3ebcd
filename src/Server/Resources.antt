-- ===== src/Server/Resources.antt =====
-- The resources of the connections, when the server thread ends.
use stdsc.Base.{ℕ, ◌+◌, ◌≡◌, refl, ◌∙◌, true, false, none, some, List, [], ◌∷◌, arith, length}
use stdsc.Exec.{ok, ◌>>=◌, >>=_assoc}
use stdsc.System.{minus_one, nonneg, System}
use stdsc.Socket.{Socket, shutdown_socket, close_socket}
use stdsc.Server.{Resource, ThreadException, leaves, release, wait, release_all}

-- `closed` counts the calls of `close`, which `shutdown` does not make.
pub record CountsClosed {W : Type 0} (sys : System W) (closed : W → ℕ) : Type 0 where
  pub closed-close : (n : ℕ) (w : W) → closed (sys.close (nonneg n) w).1 ≡ closed w + 1
  pub closed-shutdown : (s : Socket) (w : W) → closed (sys.shutdown s w).1 ≡ closed w

-- a connection that `accept` made and nobody released
abbrev pub IsOpen : Resource → Type 0
IsOpen r = (n : ℕ) × (r.sock ≡ nonneg n) × (r.is_released ≡ false)

abbrev pub AllOpen : List Resource → Type 0
AllOpen [] = Unit {0}
AllOpen (r ∷ rs) = IsOpen r × AllOpen rs

abbrev pub AllReleased : List Resource → Type 0
AllReleased [] = Unit {0}
AllReleased (r ∷ rs) = (r.sock ≡ minus_one) × (r.is_released ≡ true) × AllReleased rs

abbrev pub released : Resource
released = record { sock = minus_one; is_released = true }

module _ {W : Type 0} (sys : System W) {closed : W → ℕ} (counts : CountsClosed sys closed) where
  pub release_open :
      (r : Resource) (w : W)
      → IsOpen r
      → (w' : W) × (release sys r w ≡ (ok released, w')) × (closed w' ≡ closed w + 1)
  unfolding release shutdown_socket close_socket
  release_open r w (n, e, f) = (
    (sys.close (nonneg n) (sys.shutdown (nonneg n) w).1).1,
    rw (f, e) refl,
    counts.closed-close n _ ∙ (omega (arith, counts.closed-shutdown (nonneg n) w)),
  )

  release-released : (w : W) → release sys released w ≡ (ok released, w)
  unfolding release
  release-released w = refl

  -- Waiting for a thread that failed releases its connection; releasing it again does nothing.
  wait-release :
      (joined : ThreadException) (r : Resource) (w : W)
      → IsOpen r
      → (w' : W) × ((do waited ← wait sys (leaves joined) r; release sys waited) w
          ≡ (ok released, w'))
        × (closed w' ≡ closed w + 1)
  unfolding wait
  wait-release none r w h = release_open r w h
  wait-release (some e) r w h =
      let (w', once, n) = release_open r w h in (w', rw once (release-released w'), n)

  -- Where `close` adds one to a count of closed descriptors and `shutdown` leaves it: when the
  -- server ends with connections that are all open, each of them is released and its descriptor set
  -- to -1, and exactly as many descriptors are closed as there are connections, whether their
  -- threads left exceptions or not.
  pub release_all_lem :
      (joined : Socket → ThreadException) (rs : List Resource) (w : W)
      → AllOpen rs
      → (rs' : List Resource) × (w' : W) × (release_all sys (λ s. leaves (joined s)) rs w
          ≡ (ok rs', w'))
        × (length rs' ≡ length rs)
        × AllReleased rs'
        × (closed w' ≡ closed w + length rs)
  unfolding release_all
  release_all_lem joined [] w h = ([], w, refl, refl, tt, omega arith)
  release_all_lem joined (r ∷ rs) w h =
      let (w₁, one, n) = wait-release (joined r.sock) r w h.0 in
      let (rs', w₂, rest, same, all, m) = release_all_lem joined rs w₁ h.1 in
      (
        released ∷ rs',
        w₂,
        >>=_assoc (release sys) _ (wait sys (leaves (joined r.sock)) r) w ∙ rw one (rw rest refl),
        omega arith,
        (refl, refl, all),
        omega arith,
      )
