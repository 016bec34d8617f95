-- ===== src/SyncServer/Keeping.antt =====
-- asiolib/tcp-server-sync.hpp: what an acceptor keeps is kept in every schedule of its server.
use boost_asio_samples.Base.{ℕ, ◌≡◌, refl, Option, some, none, List, [], ◌∷◌}
use boost_asio_samples.IoBuffers.Calls.{Outcome, done, threw, endless}
use boost_asio_samples.SyncServer.Acceptors.{Acceptor}
use boost_asio_samples.SyncServer.{
  Phase, testing, accepting, ended, Server, Program, Caller, idle, joining, running, terminated,
  Event, start, stop, join, run, other, start_thread, stop_thread, join_thread, outcome,
  other_outcome, run_thread, run_other, step, run_all,
}
use boost_asio_samples.SyncServer.Stopping.{server}

-- What holds of the state behind an outcome: `I` where the call returned, `J` where it threw.
abbrev pub Ends : {S A : Type 0} → (S → Type 0) → (S → Type 0) → Outcome S A → Type 0
Ends I J (done a t) = I t
Ends I J (threw x t) = J t
Ends I J endless = Unit

module _ (T : Acceptor) (I J : T.State → Type 0) where
  abbrev pub Holds : Program T → Type 0
  Holds (running c s) = I s.acceptor
  Holds (terminated t) = J t

  outcome-Holds :
      (c : Caller) (s s' : Server T) (o : Outcome T.State (Unit {0}))
      → I s.acceptor
      → Ends I J o
      → Holds (outcome c s s' o)
  outcome-Holds c s s' (done u t) h k = k
  outcome-Holds c s s' (threw x t) h k = k
  outcome-Holds c s s' endless h k = h

  run-Holds :
      (c : Caller) (p : Option Phase) (s : Server T)
      → s.thread ≡ p
      → I s.acceptor
      → Ends I J (T.accept s.acceptor)
      → Holds (run_thread c s)
  unfolding run_thread
  run-Holds c none s e h k = rw (e, Holds) h
  run-Holds c (some testing) s e h k = rw (e, Holds) h
  run-Holds c (some ended) s e h k = rw (e, Holds) h
  run-Holds c (some accepting) s e h k =
      rw (e, Holds)
        (outcome-Holds c s (server (some testing) s.live_flag s.acceptor) (T.accept s.acceptor) h k)

  other-Holds :
      (c : Caller) (s : Server T) (o : Option (Outcome T.State (Unit {0})))
      → I s.acceptor
      → ((r : Outcome T.State (Unit {0})) → o ≡ some r → Ends I J r)
      → Holds (other_outcome c s o)
  other-Holds c s none h k = h
  other-Holds c s (some r) h k = outcome-Holds c s s r h (k r refl)

  caller-Holds :
      (p : Option Phase) (s : Server T)
      → s.thread ≡ p
      → I s.acceptor
      → I (start_thread s).acceptor × Holds (stop_thread s) × Holds (join_thread s)
  unfolding start_thread stop_thread join_thread
  caller-Holds none s e h = rw (e, Holds) (h, h, h)
  caller-Holds (some testing) s e h = rw (e, Holds) (h, h, h)
  caller-Holds (some accepting) s e h = rw (e, Holds) (h, h, h)
  caller-Holds (some ended) s e h = rw (e, Holds) (h, h, h)

  module _ (accepts : (s : T.State) → I s → Ends I J (T.accept s))
      (others : (n : ℕ) (s : T.State) (r : Outcome T.State (Unit {0}))
        → I s
        → T.other n s ≡ some r
        → Ends I J r) where
    step-Holds : (e : Event) (p : Program T) → Holds p → Holds (step e p)
    unfolding step run_other
    step-Holds start (running idle s) h = (caller-Holds s.thread s refl h).0
    step-Holds stop (running idle s) h = (caller-Holds s.thread s refl h).1
    step-Holds join (running joining s) h = (caller-Holds s.thread s refl h).2
    step-Holds run (running c s) h = run-Holds c s.thread s refl h (accepts s.acceptor h)
    step-Holds (other n) (running c s) h =
        other-Holds c s (T.other n s.acceptor) h λ r e. others n s.acceptor r h e
    step-Holds start (running joining s) h = h
    step-Holds stop (running joining s) h = h
    step-Holds join (running idle s) h = h
    step-Holds start (terminated t) h = h
    step-Holds stop (terminated t) h = h
    step-Holds join (terminated t) h = h
    step-Holds run (terminated t) h = h
    step-Holds (other n) (terminated t) h = h

    pub run_all-Holds : (es : List Event) (p : Program T) → Holds p → Holds (run_all es p)
    unfolding run_all
    run_all-Holds [] p h = h
    run_all-Holds (e ∷ es) p h = run_all-Holds es (step e p) (step-Holds e p h)
