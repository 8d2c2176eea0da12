-- ===== src/Daemon/Consistent.antt =====
-- What holds of AngrServer between the steps of its threads.
use angr_ghidra_core.Prelude.{
  ℕ, suc, ◌+◌, ◌-◌, ◌≤◌, ◌<◌, Bool, true, false, List, ◌==◌, leb, ◌≡◌, refl, ◌∙◌, ap, ◌⊎◌, inl, inr,
  arith, Bool-cases,
}
use mathlib.Core.Path.{subst}
use angr_ghidra_core.Daemon.{
  Phase, started, serving, Watch, looking, waiting, closed, AngrServer, watch_round, notified,
}
use angr_ghidra_core.Daemon.Steps.{
  Begins, Ends, serving_count, ServerStep, tick, look, wake, begins, finishes, test, accept,
  timed_out, failed, stay, later, Reached,
}

-- The watch runs until the server stops. If it waits while nobody is served, it waits for the end of
-- the timeout and no longer.
abbrev pub IsWatched : ℕ → ℕ → ℕ → Bool → Watch → Type 0
IsWatched idle_timeout active last_active stop looking = stop ≡ false
IsWatched idle_timeout active last_active stop (waiting until) =
    (stop ≡ false) × ((0 < active) ⊎ (until ≡ last_active + idle_timeout))
IsWatched idle_timeout active last_active stop closed = stop ≡ true

pub record IsConsistent (idle_timeout : ℕ) (s : AngrServer) : Type 0 where
  pub counted : s.active ≡ serving_count s.sessions
  pub past : s.last_active ≤ s.now
  pub watched : IsWatched idle_timeout s.active s.last_active s.stop s.watch

Begins-serving_count :
    {ps qs : List Phase} → Begins ps qs → suc (serving_count ps) ≡ serving_count qs
Begins-serving_count Begins.here = refl
Begins-serving_count (Begins.there {p = started} b) = Begins-serving_count b
Begins-serving_count (Begins.there {p = serving} b) = ap suc (Begins-serving_count b)

Ends-serving_count : {ps qs : List Phase} → Ends ps qs → serving_count ps ≡ suc (serving_count qs)
Ends-serving_count Ends.here = refl
Ends-serving_count (Ends.there {p = started} e) = Ends-serving_count e
Ends-serving_count (Ends.there {p = serving} e) = ap suc (Ends-serving_count e)

begun-IsWatched :
    (idle_timeout active last_active : ℕ) (stop : Bool) (w : Watch)
    → IsWatched idle_timeout active last_active stop w
    → IsWatched idle_timeout (suc active) last_active stop w
begun-IsWatched idle_timeout active last_active stop looking h = h
begun-IsWatched idle_timeout active last_active stop (waiting until) h = (h.0, inl (omega arith))
begun-IsWatched idle_timeout active last_active stop closed h = h

notified-IsWatched :
    (idle_timeout active active' last_active now : ℕ) (stop : Bool) (w : Watch)
    → IsWatched idle_timeout active last_active stop w
    → IsWatched idle_timeout active' now stop (notified w)
notified-IsWatched idle_timeout active active' last_active now stop looking h = h
notified-IsWatched idle_timeout active active' last_active now stop (waiting until) h = h.0
notified-IsWatched idle_timeout active active' last_active now stop closed h = h

woken-stop :
    (idle_timeout active last_active : ℕ) (stop : Bool) (w : Watch) (until : ℕ)
    → w ≡ waiting until
    → IsWatched idle_timeout active last_active stop w
    → stop ≡ false
woken-stop idle_timeout active last_active stop w until e h =
    (subst (IsWatched idle_timeout active last_active stop) e h).0

pub watch_round-IsConsistent :
    (idle_timeout : ℕ) (s : AngrServer)
    → s.watch ≡ looking
    → IsConsistent idle_timeout s
    → IsConsistent idle_timeout (watch_round idle_timeout s)
unfolding watch_round
watch_round-IsConsistent idle_timeout s e h = elim (Bool-cases (s.active == 0)) [
  | inl idle ↦ elim (Bool-cases (leb idle_timeout (s.now - s.last_active))) [
    | inl over ↦
        rw (running, idle, over) (record { counted = h.counted; past = h.past; watched = refl })
    | inr early ↦
        rw (running, idle, early)
          (record {
            counted = h.counted;
            past = h.past;
            watched = (refl, inr (ground (arith, h.past, early)));
          })
  ]
  | inr busy ↦
      rw (running, busy)
        (record {
          counted = h.counted;
          past = h.past;
          watched = (refl, inl (ground (arith, busy)));
        })
]
  where
    running : s.stop ≡ false
    running = subst (IsWatched idle_timeout s.active s.last_active s.stop) e h.watched

pub ServerStep-IsConsistent :
    {idle_timeout : ℕ} {s t : AngrServer}
    → ServerStep idle_timeout s t
    → IsConsistent idle_timeout s
    → IsConsistent idle_timeout t
ServerStep-IsConsistent tick h = record {
  counted = h.counted;
  past = omega (arith, h.past);
  watched = h.watched;
}
ServerStep-IsConsistent {idle_timeout} {s} (look e) h = watch_round-IsConsistent idle_timeout s e h
ServerStep-IsConsistent {idle_timeout} {s} (wake {until} e passed) h = record {
  counted = h.counted;
  past = h.past;
  watched = woken-stop idle_timeout s.active s.last_active s.stop s.watch until e h.watched;
}
ServerStep-IsConsistent {idle_timeout} {s} (begins b) h = record {
  counted = ap suc h.counted ∙ Begins-serving_count b;
  past = h.past;
  watched = begun-IsWatched idle_timeout s.active s.last_active s.stop s.watch h.watched;
}
ServerStep-IsConsistent {idle_timeout} {s} (finishes e) h = record {
  counted = omega (arith, h.counted, Ends-serving_count e);
  past = omega arith;
  watched =
      notified-IsWatched idle_timeout s.active (s.active - 1) s.last_active s.now s.stop s.watch
        h.watched;
}
ServerStep-IsConsistent (test e) h = record {
  counted = h.counted;
  past = h.past;
  watched = h.watched;
}
ServerStep-IsConsistent (accept e) h = record {
  counted = h.counted;
  past = h.past;
  watched = h.watched;
}
ServerStep-IsConsistent (timed_out e) h = record {
  counted = h.counted;
  past = h.past;
  watched = h.watched;
}
ServerStep-IsConsistent (failed e) h = record {
  counted = h.counted;
  past = h.past;
  watched = h.watched;
}

-- After any steps of the threads of a new server, in any order, `active` is the number of the handlers
-- that serve, no session has ended in the future, the watch runs exactly until the server stops, and
-- it never waits beyond the end of the timeout while nobody is served.
pub Reached-IsConsistent :
    (idle_timeout made : ℕ) (s : AngrServer)
    → Reached idle_timeout made s
    → IsConsistent idle_timeout s
Reached-IsConsistent idle_timeout made s stay = record {
  counted = refl;
  past = omega arith;
  watched = refl;
}
Reached-IsConsistent idle_timeout made s (later {t} r step) =
    ServerStep-IsConsistent step (Reached-IsConsistent idle_timeout made t r)
