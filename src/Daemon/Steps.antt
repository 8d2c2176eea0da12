-- ===== src/Daemon/Steps.antt =====
-- The threads of AngrServer, interleaved in any order.
use angr_ghidra_core.Prelude.{ℕ, suc, ◌≤◌, List, [], ◌∷◌, ◌≡◌}
use angr_ghidra_core.Daemon.{
  Phase, started, serving, looking, waiting, testing, accepting, left, AngrServer, new_server,
  watch_round, begin_session, end_session, test_stop, accept_connection,
}

-- One handler that was started begins to serve.
pub data Begins : List Phase → List Phase → Type 0 where
  here : {ps : List Phase} → Begins (started ∷ ps) (serving ∷ ps)
  there : {p : Phase} {ps qs : List Phase} → Begins ps qs → Begins (p ∷ ps) (p ∷ qs)

-- One handler that serves ends.
pub data Ends : List Phase → List Phase → Type 0 where
  here : {ps : List Phase} → Ends (serving ∷ ps) ps
  there : {p : Phase} {ps qs : List Phase} → Ends ps qs → Ends (p ∷ ps) (p ∷ qs)

-- How many handlers serve.
abbrev pub serving_count : List Phase → ℕ
serving_count [] = 0
serving_count (started ∷ ps) = serving_count ps
serving_count (serving ∷ ps) = suc (serving_count ps)

-- A step of one thread, or of the clock. `accept` may time out or fail at any time.
pub data ServerStep (idle_timeout : ℕ) (s : AngrServer) : AngrServer → Type 0 where
  tick : ServerStep idle_timeout s (record s { now = suc s.now })
  look : s.watch ≡ looking → ServerStep idle_timeout s (watch_round idle_timeout s)
  wake :
      {until : ℕ}
      → s.watch ≡ waiting until
      → until ≤ s.now
      → ServerStep idle_timeout s (record s { watch = looking })
  begins : {ps : List Phase} → Begins s.sessions ps → ServerStep idle_timeout s (begin_session ps s)
  finishes : {ps : List Phase} → Ends s.sessions ps → ServerStep idle_timeout s (end_session ps s)
  test : s.acceptor ≡ testing → ServerStep idle_timeout s (test_stop s)
  accept : s.acceptor ≡ accepting → ServerStep idle_timeout s (accept_connection s)
  timed_out : s.acceptor ≡ accepting → ServerStep idle_timeout s (record s { acceptor = testing })
  failed : s.acceptor ≡ accepting → ServerStep idle_timeout s (record s { acceptor = left })

-- From one state to another by any number of steps.
pub data Steps (idle_timeout : ℕ) (s : AngrServer) : AngrServer → Type 0 where
  stay : Steps idle_timeout s s
  later :
      {t u : AngrServer}
      → Steps idle_timeout s t
      → ServerStep idle_timeout t u
      → Steps idle_timeout s u

-- The states of a server that was made at the time `made`.
abbrev pub Reached : ℕ → ℕ → AngrServer → Type 0
Reached idle_timeout made s = Steps idle_timeout (new_server made) s
