-- ===== src/Daemon/Tests.antt =====
-- A server through a connection and its shutdown.
use angr_ghidra_core.Prelude.{suc, ◌+◌, ◌≤◌, true, [], ◌∷◌, ◌≡◌, refl, arith}
use angr_ghidra_core.Daemon.{
  serving, AngrServer, new_server, watch_round, closed, left, begin_session, end_session, test_stop,
  accept_connection,
}
use angr_ghidra_core.Daemon.Steps.{
  Begins, Ends, tick, look, begins, finishes, test, accept, Steps, stay, later, Reached,
}
use angr_ghidra_core.Daemon.Consistent.{IsConsistent, Reached-IsConsistent}
use angr_ghidra_core.Daemon.Idle.{Steps-stop, Reached-stops}

abbrev ticked : AngrServer → AngrServer
ticked s = record s { now = suc s.now }

abbrev serving_one : AngrServer
serving_one = begin_session (serving ∷ []) (accept_connection (test_stop (new_server 100)))

abbrev served : AngrServer
served = ticked (end_session [] (ticked serving_one))

abbrev stopped : AngrServer
stopped = watch_round 1 served

serving_one-Reached : Reached 1 100 serving_one
serving_one-Reached = later (later (later stay (test refl)) (accept refl)) (begins Begins.here)

served-Steps : Steps 1 serving_one served
served-Steps = later (later (later stay tick) (finishes Ends.here)) tick

served-Reached : Reached 1 100 served
served-Reached = later (later (later serving_one-Reached tick) (finishes Ends.here)) tick

stopped_result : stopped.stop ≡ true
unfolding watch_round
stopped_result = refl

Reached-IsConsistent_example : IsConsistent 1 serving_one
Reached-IsConsistent_example = Reached-IsConsistent 1 100 serving_one serving_one-Reached

Steps-stop_example : serving_one.now + 1 ≤ stopped.now
Steps-stop_example =
    Steps-stop 1 100 serving_one stopped serving_one-Reached refl (omega arith)
      (later served-Steps (look refl)) stopped_result

Reached-stops_example :
    Steps 1 served (record served { now = 102; stop = true; watch = closed; acceptor = left })
Reached-stops_example = Reached-stops 1 100 served served-Reached refl refl

-- A connection that is accepted when the timeout is over, and whose handler has not counted itself
-- yet, is served by a server that stops.
abbrev late : AngrServer
late = ticked (accept_connection (test_stop (new_server 100)))

late-Reached : Reached 1 100 (begin_session (serving ∷ []) (watch_round 1 late))
unfolding watch_round
late-Reached =
    later (later (later (later (later stay (test refl)) (accept refl)) tick) (look refl))
      (begins Begins.here)

late_stopped : (begin_session (serving ∷ []) (watch_round 1 late)).stop ≡ true
unfolding watch_round
late_stopped = refl
