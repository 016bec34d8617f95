-- ===== src/TcpClient/Locks.antt =====
-- asiolib/tcp-client-async.hpp: the locks that the threads of the client and of its user take, one by
-- one. A schedule is the list of the threads in the order in which they run.
use boost_asio_samples.Base.{
  ℕ, zero, suc, ◌≡◌, refl, Bool, true, false, ◌||◌, Option, none, some, List, [], ◌∷◌, ◌==◌, ==_iff,
  if◌then◌else◌,
}

-- `m_active_sessions_guard`, and `m_cancel_guard` of a session.
pub data Lock : Type 0 where
  active_sessions_guard : Lock
  cancel_guard : ℕ → Lock

pub data Action : Type 0 where
  acquire release : Lock → Action

-- What a handler does whose session was cancelled: it tests the flag under the lock of the session,
-- and there calls `OnRequestComplete`, which takes the lock of the map.
abbrev pub handler_locks : ℕ → List Action
handler_locks a =
    acquire (cancel_guard a)
    ∷ acquire active_sessions_guard
    ∷ release active_sessions_guard
    ∷ release (cancel_guard a)
    ∷ []

-- What `CancelRequest` does where it finds the session.
abbrev pub cancel_locks : ℕ → List Action
cancel_locks a =
    acquire active_sessions_guard
    ∷ acquire (cancel_guard a)
    ∷ release (cancel_guard a)
    ∷ release active_sessions_guard
    ∷ []

abbrev pub lock_eq : Lock → Lock → Bool
lock_eq active_sessions_guard active_sessions_guard = true
lock_eq (cancel_guard a) (cancel_guard b) = a == b
lock_eq _ _ = false

abbrev pub is_held : Lock → List Lock → Bool
is_held l [] = false
is_held l (k ∷ ks) = lock_eq k l || is_held l ks

unfoldable pub give_back : Lock → List Lock → List Lock
give_back l [] = []
give_back l (k ∷ ks) = let rest = give_back l ks in if lock_eq k l then rest else k ∷ rest

-- What each thread has still to do, and the locks that are held.
pub record Threads : Type 0 where
  pub programs : List (List Action)
  pub held : List Lock

-- One action on the held locks, or nothing where the lock is not free.
unfoldable pub act : Action → List Lock → Option (List Lock)
act (acquire l) held = if is_held l held then none else some (l ∷ held)
act (release l) held = some (give_back l held)

abbrev pub advance : Option (List Lock) → List (List Action) → Option Threads
advance none programs = none
advance (some held) programs = some (record { programs = programs; held = held })

abbrev pub prepend : List Action → Option Threads → Option Threads
prepend p none = none
prepend p (some t) = some (record t { programs = p ∷ t.programs })

-- The next action of the thread `i`: `none` where it waits, has ended or is not there.
unfoldable pub step : ℕ → List (List Action) → List Lock → Option Threads
step i [] held = none
step zero ([] ∷ ps) held = none
step zero ((a ∷ p) ∷ ps) held = advance (act a held) (p ∷ ps)
step (suc i) (p ∷ ps) held = let rest = step i ps held in prepend p rest

unfoldable pub run : List ℕ → Option Threads → Option Threads
run [] t = t
run (i ∷ is) none = none
run (i ∷ is) (some t) = run is (step i t.programs t.held)

abbrev pub begin : ℕ → Threads
begin a = record { programs = handler_locks a ∷ cancel_locks a ∷ []; held = [] }

-- The handler holds the lock of the session and waits for that of the map, and the other way round.
abbrev pub locked : ℕ → Threads
locked a = record {
  programs =
      (acquire active_sessions_guard
        ∷ release active_sessions_guard
        ∷ release (cancel_guard a)
        ∷ [])
      ∷ (acquire (cancel_guard a) ∷ release (cancel_guard a) ∷ release active_sessions_guard ∷ [])
      ∷ [];
  held = active_sessions_guard ∷ cancel_guard a ∷ [];
}

stuck : (a i : ℕ) → step i (locked a).programs (locked a).held ≡ none
unfolding step act
stuck a zero = refl
stuck a (suc zero) = let self : (a == a) ≡ true = (==_iff a a).1 refl in rw self refl
stuck a (suc (suc i)) = refl

-- A handler of a cancelled session and a second `CancelRequest` of it can lock each other out: once
-- each has taken its first lock, no thread takes any further step, and neither has ended.
pub cancel_deadlocks :
    (a : ℕ)
    → (run (0 ∷ 1 ∷ []) (some (begin a)) ≡ some (locked a))
      × ((i : ℕ) → step i (locked a).programs (locked a).held ≡ none)
unfolding run step act
cancel_deadlocks a = (refl, stuck a)
