-- ===== src/SyncServer/Stopping.antt =====
-- asiolib/tcp-server-sync.hpp: `Server` once `Stop` has cleared its flag, over any acceptor.
use boost_asio_samples.Base.{
  ℕ, ◌+◌, ◌≤◌, ◌≡◌, refl, Bool, false, Option, some, none, List, [], ◌∷◌, arith,
}
use boost_asio_samples.IoBuffers.Calls.{Outcome, done, threw, endless}
use boost_asio_samples.SyncServer.Acceptors.{Acceptor}
use boost_asio_samples.SyncServer.{
  Phase, testing, accepting, ended, Server, Program, Caller, idle, joining, running, terminated,
  Event, start, stop, join, run, other, start_thread, stop_thread, join_thread, outcome,
  other_outcome, run_thread, run_other, step, run_all,
}

-- What holds of the state that an outcome leaves.
abbrev pub Leaves : {S A : Type 0} → (S → Type 0) → Outcome S A → Type 0
Leaves P (done a t) = P t
Leaves P (threw x t) = P t
Leaves P endless = Unit

Leaves-map :
    {S A : Type 0} {P Q : S → Type 0}
    → ((t : S) → P t → Q t)
    → (o : Outcome S A) → Leaves P o
    → Leaves Q o
Leaves-map f (done a t) h = f t h
Leaves-map f (threw x t) h = f t h
Leaves-map f endless h = tt

-- An acceptor that counts the connections it has served or given to a service.
pub record AcceptorLaws (T : Acceptor) : Type 0 where
  pub served : T.State → ℕ
  pub accept_lem : (s : T.State) → Leaves (λ t. served t ≤ served s + 1) (T.accept s)
  pub other_lem :
      (n : ℕ) (s : T.State) (o : Outcome T.State (Unit {0}))
      → T.other n s ≡ some o
      → Leaves (λ t. served t ≡ served s) o

-- The steps that the thread still makes once the flag is cleared, and whether one of them is the return
-- of an `Accept`.
abbrev pub left : Option Phase → ℕ
left none = 0
left (some ended) = 0
left (some testing) = 1
left (some accepting) = 2

abbrev pub busy : Option Phase → ℕ
busy (some accepting) = 1
busy _ = 0

abbrev pub server : {T : Acceptor} → Option Phase → Bool → T.State → Server T
server p b a = record { thread = p; live_flag = b; acceptor = a }

module _ {T : Acceptor} (law : AcceptorLaws T) where
  -- The flag is cleared, and no more than `m` connections will have been served.
  abbrev Bounded : ℕ → Program T → Type 0
  Bounded m (running c s) = (s.live_flag ≡ false) × (law.served s.acceptor + busy s.thread ≤ m)
  Bounded m (terminated t) = law.served t ≤ m

  outcome-Bounded :
      (m : ℕ) (c : Caller) (s s' : Server T) (o : Outcome T.State (Unit {0}))
      → Bounded m (running c s)
      → s'.live_flag ≡ false
      → Leaves (λ t. law.served t + busy s'.thread ≤ m) o
      → Bounded m (outcome c s s' o)
  outcome-Bounded m c s s' (done u t) h flag le = (flag, le)
  outcome-Bounded m c s s' (threw x t) h flag le = omega arith
  outcome-Bounded m c s s' endless h flag le = h

  run_thread-Bounded :
      (m : ℕ) (c : Caller) (p : Option Phase) (b : Bool) (a : T.State)
      → Bounded m (running c (server p b a))
      → Bounded m (run_thread c (server p b a))
  unfolding run_thread
  run_thread-Bounded m c none b a h = h
  run_thread-Bounded m c (some ended) b a h = h
  run_thread-Bounded m c (some testing) b a h = rw (h.0, Bounded) (refl, omega (arith, h.1))
  run_thread-Bounded m c (some accepting) b a h =
      outcome-Bounded m c (server (some accepting) b a) (server (some testing) b a) (T.accept a) h
        h.0 (Leaves-map (λ t le. omega (arith, le, h.1)) (T.accept a) (law.accept_lem a))

  other-Bounded :
      (m : ℕ) (c : Caller) (s : Server T) (o : Option (Outcome T.State (Unit {0})))
      → Bounded m (running c s)
      → ((r : Outcome T.State (Unit {0}))
          → o ≡ some r
          → Leaves (λ t. law.served t ≡ law.served s.acceptor) r)
      → Bounded m (other_outcome c s o)
  other-Bounded m c s none h keeps = h
  other-Bounded m c s (some r) h keeps =
      outcome-Bounded m c s s r h h.0
        (Leaves-map (λ t same. omega (arith, same, h.1)) r (keeps r refl))

  start-Bounded :
      (m : ℕ) (p : Option Phase) (b : Bool) (a : T.State)
      → Bounded m (running idle (server p b a))
      → Bounded m (running idle (start_thread (server p b a)))
  unfolding start_thread
  start-Bounded m none b a h = h
  start-Bounded m (some p) b a h = h

  stop-Bounded :
      (m : ℕ) (p : Option Phase) (b : Bool) (a : T.State)
      → law.served a + busy p ≤ m
      → Bounded m (stop_thread (server p b a))
  unfolding stop_thread
  stop-Bounded m none b a h = (refl, h)
  stop-Bounded m (some p) b a h = (refl, h)

  join-Bounded :
      (m : ℕ) (p : Option Phase) (b : Bool) (a : T.State)
      → Bounded m (running joining (server p b a))
      → Bounded m (join_thread (server p b a))
  unfolding join_thread
  join-Bounded m none b a h = h
  join-Bounded m (some testing) b a h = h
  join-Bounded m (some accepting) b a h = h
  join-Bounded m (some ended) b a h = h

  step-Bounded : (m : ℕ) (e : Event) (p : Program T) → Bounded m p → Bounded m (step e p)
  unfolding step run_other
  step-Bounded m start (running idle s) h = start-Bounded m s.thread s.live_flag s.acceptor h
  step-Bounded m stop (running idle s) h = stop-Bounded m s.thread s.live_flag s.acceptor h.1
  step-Bounded m join (running joining s) h = join-Bounded m s.thread s.live_flag s.acceptor h
  step-Bounded m run (running c s) h = run_thread-Bounded m c s.thread s.live_flag s.acceptor h
  step-Bounded m (other n) (running c s) h =
      other-Bounded m c s (T.other n s.acceptor) h (law.other_lem n s.acceptor)
  step-Bounded m start (running joining s) h = h
  step-Bounded m stop (running joining s) h = h
  step-Bounded m join (running idle s) h = h
  step-Bounded m start (terminated t) h = h
  step-Bounded m stop (terminated t) h = h
  step-Bounded m join (terminated t) h = h
  step-Bounded m run (terminated t) h = h
  step-Bounded m (other n) (terminated t) h = h

  run_all-Bounded :
      (m : ℕ) (es : List Event) (p : Program T) → Bounded m p → Bounded m (run_all es p)
  unfolding run_all
  run_all-Bounded m [] p h = h
  run_all-Bounded m (e ∷ es) p h = run_all-Bounded m es (step e p) (step-Bounded m e p h)

  abbrev pub served_by : Program T → ℕ
  served_by (running c s) = law.served s.acceptor
  served_by (terminated t) = law.served t

  served-Bounded : (m : ℕ) (p : Program T) → Bounded m p → served_by p ≤ m
  served-Bounded m (running c s) h = omega (arith, h.1)
  served-Bounded m (terminated t) h = h

  -- From the call of `Stop` on, a server serves at most the one connection for which its thread waits
  -- in `Accept`, and none where the thread does not wait there: whatever follows, a later `Start`
  -- included.
  pub stopped_server_accepts :
      (es : List Event) (s : Server T)
      → served_by (run_all es (stop_thread s)) ≤ law.served s.acceptor + busy s.thread
  stopped_server_accepts es s =
      let m = law.served s.acceptor + busy s.thread in
      served-Bounded m (run_all es (stop_thread s)) (
        run_all-Bounded m es (stop_thread s)
          (stop-Bounded m s.thread s.live_flag s.acceptor (omega arith)))
