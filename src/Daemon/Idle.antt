-- ===== src/Daemon/Idle.antt =====
-- When an AngrServer stops: not before it has been idle for the timeout, and then at once.
use angr_ghidra_core.Prelude.{
  ℕ, zero, suc, ◌+◌, ◌-◌, max, ◌≤◌, ◌<◌, true, false, ◌==◌, leb, if◌then◌else◌, ◌≡◌, refl, ◌∙◌, ◌⊎◌,
  inl, inr, arith, Bool-cases,
}
use mathlib.Core.Path.{subst}
use angr_ghidra_core.Daemon.{
  Watch, looking, waiting, closed, Acceptor, testing, accepting, left, AngrServer, watch_round,
}
use angr_ghidra_core.Daemon.Steps.{
  serving_count, ServerStep, tick, look, wake, begins, finishes, test, accept, timed_out, failed,
  Steps, stay, later, Reached,
}
use angr_ghidra_core.Daemon.Consistent.{
  IsWatched, IsConsistent, ServerStep-IsConsistent, Reached-IsConsistent,
}

-- A server that goes on and that somebody has used since, or that stopped late enough.
abbrev IsProtected : ℕ → ℕ → AngrServer → Type 0
IsProtected idle_timeout since s =
    ((s.stop ≡ false) × (since ≤ s.now) × ((0 < s.active) ⊎ (since ≤ s.last_active)))
    ⊎ ((s.stop ≡ true) × (since + idle_timeout ≤ s.now))

looked-IsProtected :
    (idle_timeout since : ℕ) (s : AngrServer)
    → s.last_active ≤ s.now
    → s.stop ≡ false
    → since ≤ s.now
    → (0 < s.active) ⊎ (since ≤ s.last_active)
    → IsProtected idle_timeout since (watch_round idle_timeout s)
unfolding watch_round
looked-IsProtected idle_timeout since s past going before used = elim (Bool-cases (s.active == 0)) [
  | inl idle ↦ elim (Bool-cases (leb idle_timeout (s.now - s.last_active))) [
    | inl over ↦ rw (going, idle, over) (inr (refl, ground arith))
    | inr early ↦ rw (going, idle, early) (inl (refl, before, used))
  ]
  | inr busy ↦ rw (going, busy) (inl (refl, before, used))
]

ServerStep-IsProtected :
    {idle_timeout since : ℕ} {s t : AngrServer}
    → ServerStep idle_timeout s t
    → IsConsistent idle_timeout s
    → IsProtected idle_timeout since s
    → IsProtected idle_timeout since t
ServerStep-IsProtected tick h (inl (going, before, used)) = inl (going, omega arith, used)
ServerStep-IsProtected tick h (inr (stopped, late)) = inr (stopped, omega arith)
ServerStep-IsProtected {idle_timeout} {since} {s} (look e) h (inl (going, before, used)) =
    looked-IsProtected idle_timeout since s h.past going before used
ServerStep-IsProtected {idle_timeout} {s} (look e) h (inr (stopped, late)) =
    absurd (cc (stopped, subst (IsWatched idle_timeout s.active s.last_active s.stop) e h.watched))
ServerStep-IsProtected (wake e passed) h p = p
ServerStep-IsProtected (begins b) h (inl (going, before, used)) =
    inl (going, before, inl (omega arith))
ServerStep-IsProtected (begins b) h (inr late) = inr late
ServerStep-IsProtected (finishes e) h (inl (going, before, used)) = inl (going, before, inr before)
ServerStep-IsProtected (finishes e) h (inr late) = inr late
ServerStep-IsProtected (test e) h p = p
ServerStep-IsProtected (accept e) h p = p
ServerStep-IsProtected (timed_out e) h p = p
ServerStep-IsProtected (failed e) h p = p

Steps-IsProtected :
    {idle_timeout since : ℕ} {s t : AngrServer}
    → Steps idle_timeout s t
    → IsConsistent idle_timeout s
    → IsProtected idle_timeout since s
    → IsConsistent idle_timeout t × IsProtected idle_timeout since t
Steps-IsProtected stay h p = (h, p)
Steps-IsProtected (later r step) h p =
    let (h', p') = Steps-IsProtected r h p in
    (ServerStep-IsConsistent step h', ServerStep-IsProtected step h' p')

-- A server that has not stopped and serves somebody at some moment stops no earlier than the idle
-- timeout after that moment, whatever its threads do and in whatever order.
pub Steps-stop :
    (idle_timeout made : ℕ) (s t : AngrServer)
    → Reached idle_timeout made s
    → s.stop ≡ false
    → 0 < serving_count s.sessions
    → Steps idle_timeout s t
    → t.stop ≡ true
    → s.now + idle_timeout ≤ t.now
Steps-stop idle_timeout made s t r going some_serving steps stopped =
    elim (Steps-IsProtected {since = s.now} steps h
      (inl (going, omega arith, inl (omega (arith, some_serving, h.counted))))).1 [
        | inl p ↦ absurd (cc (stopped, p.0))
        | inr p ↦ p.1
      ]
  where
    h : IsConsistent idle_timeout s
    h = Reached-IsConsistent idle_timeout made s r

composed :
    {idle_timeout : ℕ} {s t u : AngrServer}
    → Steps idle_timeout s t
    → Steps idle_timeout t u
    → Steps idle_timeout s u
composed r stay = r
composed r (later r' step) = later (composed r r') step

ticks : (idle_timeout n : ℕ) (s : AngrServer) → Steps idle_timeout s (record s { now = n + s.now })
ticks idle_timeout zero s =
    subst (λ now. Steps idle_timeout s (record s { now = now })) (omega arith) stay
ticks idle_timeout (suc n) s =
    subst (λ now. Steps idle_timeout s (record s { now = now })) (omega arith)
      (later (ticks idle_timeout n s) tick)

-- A server that is idle for the timeout has a watch that can look.
awake :
    (idle_timeout : ℕ) (s : AngrServer) (w : Watch)
    → s.watch ≡ w
    → IsWatched idle_timeout s.active s.last_active s.stop w
    → s.stop ≡ false
    → s.active ≡ 0
    → s.last_active + idle_timeout ≤ s.now
    → Steps idle_timeout s (record s { watch = looking })
awake idle_timeout s looking e h going idle over =
    subst (λ w. Steps idle_timeout s (record s { watch = w })) e stay
awake idle_timeout s (waiting until) e (going, inl busy) _ idle over = absurd (omega arith)
awake idle_timeout s (waiting until) e (going, inr exact) _ idle over =
    later stay (wake e (omega arith))
awake idle_timeout s closed e h going idle over = absurd (cc (h, going))

watch_round-over :
    (idle_timeout : ℕ) (s : AngrServer)
    → s.stop ≡ false
    → s.active ≡ 0
    → s.last_active + idle_timeout ≤ s.now
    → watch_round idle_timeout s ≡ record s { stop = true; watch = closed }
unfolding watch_round
watch_round-over idle_timeout s going idle over =
    elim (Bool-cases (leb idle_timeout (s.now - s.last_active))) [
      | inl long ↦ rw (going, idle, long)
      | inr short ↦ absurd (ground arith)
    ]

leave :
    (idle_timeout : ℕ) (s : AngrServer) (a : Acceptor)
    → s.acceptor ≡ a
    → s.stop ≡ true
    → Steps idle_timeout s (record s { acceptor = left })
leave idle_timeout s testing e stopped =
    subst (λ b. Steps idle_timeout s (record s { acceptor = if b then left else accepting }))
      stopped (later stay (test e))
leave idle_timeout s accepting e stopped =
    subst (λ b. Steps idle_timeout s (record s { acceptor = if b then left else accepting }))
      stopped (later (later stay (timed_out e)) (test refl))
leave idle_timeout s left e stopped =
    subst (λ a. Steps idle_timeout s (record s { acceptor = a })) e stay

-- A server in any state that its threads can reach, which serves nobody and has not stopped, can stop
-- and have `serve_forever` return by steps of the clock, the watch and the acceptor alone, and needs
-- no more time than is left of the idle timeout.
pub Reached-stops :
    (idle_timeout made : ℕ) (s : AngrServer)
    → Reached idle_timeout made s
    → s.stop ≡ false
    → serving_count s.sessions ≡ 0
    → Steps idle_timeout s (record s {
      now = max s.now (s.last_active + idle_timeout);
      stop = true;
      watch = closed;
      acceptor = left;
    })
Reached-stops idle_timeout made s r going none_serving =
    composed
      (subst (λ now. Steps idle_timeout s (record s { now = now })) (ground arith)
        (ticks idle_timeout (s.last_active + idle_timeout - s.now) s))
      (composed (awake idle_timeout at_end s.watch refl h.watched going idle (ground arith)) (
        composed
          (subst (Steps idle_timeout looks)
            (watch_round-over idle_timeout looks going idle (ground arith))
            (later stay (look refl)))
          (leave idle_timeout (record looks { stop = true; watch = closed }) s.acceptor refl refl)))
  where
    h : IsConsistent idle_timeout s
    h = Reached-IsConsistent idle_timeout made s r

    at_end : AngrServer
    at_end = record s { now = max s.now (s.last_active + idle_timeout) }

    looks : AngrServer
    looks = record at_end { watch = looking }

    idle : s.active ≡ 0
    idle = h.counted ∙ none_serving
