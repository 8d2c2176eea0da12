-- ===== src/Daemon.antt =====
-- angr_ghidra_core/core/server_daemon.py: AngrServer, as the steps of its threads: the loop that
-- accepts connections, the watch that stops an idle server, and a handler for each connection. What
-- a thread does while it holds the condition variable is one step. The clock counts milliseconds.
mod Steps
mod Consistent
mod Idle
mod Tests
use angr_ghidra_core.Prelude.{
  ℕ, zero, suc, ◌+◌, ◌-◌, Bool, true, false, List, [], ◌∷◌, leb, ◌==◌, if◌then◌else◌,
}

-- A connection's handler: its thread is started, or it has counted itself and serves. A handler that
-- has ended is gone.
pub data Phase : Type 0 where
  started : Phase
  serving : Phase

-- The thread of `_idle_watch`: at the top of its loop, in `wait` up to a time, or past the loop, the
-- socket closed.
pub data Watch : Type 0 where
  looking : Watch
  waiting : ℕ → Watch
  closed : Watch

-- `serve_forever`: at the test of its loop, in `accept`, or returned.
pub data Acceptor : Type 0 where
  testing : Acceptor
  accepting : Acceptor
  left : Acceptor

pub record AngrServer : Type 0 where
  pub active : ℕ
  pub last_active : ℕ
  pub stop : Bool
  pub now : ℕ
  pub sessions : List Phase
  pub watch : Watch
  pub acceptor : Acceptor

-- `AngrServer.__init__`, and `serve_forever` when its watch is started.
abbrev pub new_server : ℕ → AngrServer
new_server now = record {
  active = 0;
  last_active = now;
  stop = false;
  now = now;
  sessions = [];
  watch = looking;
  acceptor = testing;
}

abbrev pub second : ℕ
second = 1000

-- A round of the loop of `_idle_watch`. What remains is 0 or less when the server has been idle for
-- the timeout.
unfoldable pub watch_round : ℕ → AngrServer → AngrServer
watch_round idle_timeout s =
    let idle_for = s.now - s.last_active in
    if s.stop
    then record s { watch = closed }
    else if s.active == 0
    then (if leb idle_timeout idle_for
        then record s { stop = true; watch = closed }
        else record s { watch = waiting (s.now + (idle_timeout - idle_for)) })
    else record s { watch = waiting (s.now + second) }

-- `notify_all`
abbrev pub notified : Watch → Watch
notified looking = looking
notified (waiting until) = looking
notified closed = closed

-- The start of `_handle`, with the handlers as it leaves them.
abbrev pub begin_session : List Phase → AngrServer → AngrServer
begin_session sessions s = record s { sessions = sessions; active = suc s.active }

-- The end of `_handle`, however the session ended.
abbrev pub end_session : List Phase → AngrServer → AngrServer
end_session sessions s = record s {
  sessions = sessions;
  active = s.active - 1;
  last_active = s.now;
  watch = notified s.watch;
}

-- The test of the loop of `serve_forever`.
abbrev pub test_stop : AngrServer → AngrServer
test_stop s = record s { acceptor = if s.stop then left else accepting }

-- A connection is accepted and its handler's thread started.
abbrev pub accept_connection : AngrServer → AngrServer
accept_connection s = record s { acceptor = testing; sessions = started ∷ s.sessions }
