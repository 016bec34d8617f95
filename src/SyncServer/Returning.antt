-- ===== src/SyncServer/Returning.antt =====
-- asiolib/tcp-server-sync.hpp: that `Stop` of a `Server` returns, where every `Accept` returns or throws.
use boost_asio_samples.Base.{
  ℕ, ◌-◌, ◌≤◌, ◌≡◌, refl, Bool, true, false, Option, some, none, List, [], ◌∷◌, All, count, ◌+◌,
  if◌then◌else◌, arith,
}
use mathlib.Core.Path.{subst}
use boost_asio_samples.IoBuffers.Calls.{Outcome, done, threw, endless}
use boost_asio_samples.SyncServer.Acceptors.{Acceptor}
use boost_asio_samples.SyncServer.{
  Phase, testing, accepting, ended, Server, Program, idle, joining, running, terminated, Event,
  start, stop, join, run, other, stop_thread, join_thread, outcome, other_outcome, run_thread,
  run_other, step, run_all,
}
use boost_asio_samples.SyncServer.Stopping.{left, server}

abbrev pub is_caller : Event → Bool
is_caller start = true
is_caller stop = true
is_caller join = true
is_caller _ = false

abbrev pub is_run : Event → Bool
is_run run = true
is_run _ = false

-- The caller of `Stop` is back and there is no thread, or an exception of a thread has ended the program.
abbrev pub Stopped : {T : Acceptor} → Program T → Type 0
Stopped (running idle s) = s.thread ≡ none
Stopped (running joining s) = ⊥
Stopped (terminated t) = Unit

abbrev pub Finishes : {S A : Type 0} → Outcome S A → Type 0
Finishes (done a t) = Unit
Finishes (threw x t) = Unit
Finishes endless = ⊥

fewer : (n a b : ℕ) → n - (a + b) ≡ (n - a) - b
fewer n a b = omega arith

minus_zero : (n : ℕ) → n - 0 ≡ n
minus_zero n = omega arith

none_left : (m : ℕ) → 2 ≤ m → 2 - m ≡ 0
none_left m h = omega arith

module _ (T : Acceptor) where
  -- The caller waits for a thread that has at most `n` steps left, or is back.
  abbrev Waits : ℕ → Program T → Type 0
  Waits n (running idle s) = s.thread ≡ none
  Waits n (running joining s) = (s.live_flag ≡ false) × (left s.thread ≤ n)
  Waits n (terminated t) = Unit

  run-Waits :
      (n : ℕ) (p : Option Phase) (b : Bool) (a : T.State)
      → Finishes (T.accept a)
      → Waits n (running joining (server {T = T} p b a))
      → Waits (n - 1) (run_thread joining (server {T = T} p b a))
  unfolding run_thread
  run-Waits n none b a returns h = (h.0, omega arith)
  run-Waits n (some ended) b a returns h = (h.0, omega arith)
  run-Waits n (some testing) b a returns h = rw (h.0, Waits) (refl, omega arith)
  run-Waits n (some accepting) b a returns h = came (T.accept a) returns
    where
      came :
          (o : Outcome T.State (Unit {0}))
          → Finishes o
          → Waits
              (n - 1)
              (outcome joining (server (some accepting) b a) (server (some testing) b a) o)
      came (done u t) some_end = (h.0, omega (arith, h.1))
      came (threw x t) some_end = tt
      came endless some_end = elim some_end [ ]

  other-Waits :
      (n : ℕ) (s : Server T) (o : Option (Outcome T.State (Unit {0})))
      → Waits n (running joining s)
      → Waits n (other_outcome joining s o)
  other-Waits n s none h = h
  other-Waits n s (some (done u t)) h = h
  other-Waits n s (some (threw x t)) h = tt
  other-Waits n s (some endless) h = h

  idle-Waits :
      (n : ℕ) (s : Server T) (o : Option (Outcome T.State (Unit {0})))
      → Waits n (running idle s)
      → Waits n (other_outcome idle s o)
  idle-Waits n s none h = h
  idle-Waits n s (some (done u t)) h = h
  idle-Waits n s (some (threw x t)) h = tt
  idle-Waits n s (some endless) h = h

  idle-run-Waits :
      (n : ℕ) (s : Server T) → Waits n (running idle s) → Waits (n - 1) (run_thread idle s)
  unfolding run_thread
  idle-run-Waits n s h = rw (h, Waits) h

  step-Waits :
      ((a : T.State) → Finishes (T.accept a))
      → (n : ℕ) (e : Event) (p : Program T) → is_caller e ≡ false
      → Waits n p
      → Waits (n - (if is_run e then 1 else 0)) (step e p)
  unfolding step run_other
  step-Waits returns n start p plain h = absurd cc
  step-Waits returns n stop p plain h = absurd cc
  step-Waits returns n join p plain h = absurd cc
  step-Waits returns n run (running idle s) plain h = idle-run-Waits n s h
  step-Waits returns n run (running joining s) plain h =
      run-Waits n s.thread s.live_flag s.acceptor (returns s.acceptor) h
  step-Waits returns n run (terminated t) plain h = tt
  step-Waits returns n (other k) (running idle s) plain h =
      rw (minus_zero n) (idle-Waits n s (T.other k s.acceptor) h)
  step-Waits returns n (other k) (running joining s) plain h =
      rw (minus_zero n) (other-Waits n s (T.other k s.acceptor) h)
  step-Waits returns n (other k) (terminated t) plain h = tt

  run_all-Waits :
      ((a : T.State) → Finishes (T.accept a))
      → (n : ℕ) (es : List Event) (p : Program T) → All (λ e. is_caller e ≡ false) es
      → Waits n p
      → Waits (n - count is_run es) (run_all es p)
  unfolding run_all
  run_all-Waits returns n [] p plain h = rw (minus_zero n) h
  run_all-Waits returns n (e ∷ es) p plain h =
      rw (fewer n (if is_run e then 1 else 0) (count is_run es)) (
        run_all-Waits returns (n - (if is_run e then 1 else 0)) es (step e p) plain.1
          (step-Waits returns n e p plain.0 h))

  stop-Waits :
      (p : Option Phase) (b : Bool) (a : T.State) → Waits 2 (stop_thread (server {T = T} p b a))
  unfolding stop_thread
  stop-Waits none b a = refl
  stop-Waits (some testing) b a = (refl, omega arith)
  stop-Waits (some accepting) b a = (refl, omega arith)
  stop-Waits (some ended) b a = (refl, omega arith)

  join-Stopped :
      (p : Option Phase) (b : Bool) (a : T.State)
      → left p ≤ 0
      → Stopped (join_thread (server {T = T} p b a))
  unfolding join_thread
  join-Stopped none b a h = refl
  join-Stopped (some ended) b a h = refl
  join-Stopped (some testing) b a h = absurd (omega (arith, h))
  join-Stopped (some accepting) b a h = absurd (omega (arith, h))

  Waits-Stopped : (p : Program T) → Waits 0 p → Stopped (step join p)
  unfolding step
  Waits-Stopped (running idle s) h = h
  Waits-Stopped (running joining s) h = join-Stopped s.thread s.live_flag s.acceptor h.1
  Waits-Stopped (terminated t) h = tt

  -- After a call of `Stop`, once the thread of the server has made two steps, whatever other threads do
  -- in between: `Stop` returns and there is no thread any more, unless an exception left a thread. Every
  -- `Accept` is taken to return or to throw.
  pub stop_returns :
      (es : List Event) (s : Server T)
      → ((a : T.State) → Finishes (T.accept a))
      → All (λ e. is_caller e ≡ false) es
      → 2 ≤ count is_run es
      → Stopped (step join (run_all es (stop_thread s)))
  stop_returns es s returns plain enough = Waits-Stopped (run_all es (stop_thread s)) (
      subst (λ m. Waits m (run_all es (stop_thread s))) (none_left (count is_run es) enough)
        (run_all-Waits returns 2 es (stop_thread s) plain
          (stop-Waits s.thread s.live_flag s.acceptor)))
