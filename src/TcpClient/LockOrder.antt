-- ===== src/TcpClient/LockOrder.antt =====
-- asiolib/tcp-client-async.hpp: the locks that each part of the client takes, and what a thread that has
-- done some of its actions waits for and holds.
use boost_asio_samples.Base.{
  ℕ, zero, suc, ◌≡◌, ◌⊎◌, inl, inr, refl, ap, sym, ◌∙◌, Bool, true, false, ◌||◌, List, [], ◌∷◌,
  drop, ==_iff, if◌then◌else◌, arith,
}
use boost_asio_samples.TcpClient.Locks.{
  Lock, active_sessions_guard, cancel_guard, Action, acquire, release, lock_eq, handler_locks,
  cancel_locks,
}

-- A thread of the client or of its user. A handler finds that its session was cancelled, or that it was
-- not; `CancelRequest` finds the session; and what takes only the lock of the map: beginning a request,
-- a handler of an error or of the response, and `CancelRequest` where it finds nothing. A callback takes
-- no lock of the client but that of the map, while a request is begun or cancelled in it.
pub data Part : Type 0 where
  cancelled going_on cancelling : ℕ → Part
  editing : Part

abbrev pub locks_of : Part → List Action
locks_of (cancelled a) = handler_locks a
locks_of (going_on a) = acquire (cancel_guard a) ∷ release (cancel_guard a) ∷ []
locks_of (cancelling a) = cancel_locks a
locks_of editing = acquire active_sessions_guard ∷ release active_sessions_guard ∷ []

-- Whether a thread with these actions left holds a lock: it gives it back before it takes it.
abbrev pub owes : Lock → List Action → Bool
owes l [] = false
owes l (release k ∷ p) = lock_eq k l || owes l p
owes l (acquire k ∷ p) = if lock_eq k l then false else owes l p

abbrev pub StartsWith : Action → List Action → Type 0
StartsWith x p = (q : List Action) × (p ≡ x ∷ q)

abbrev pub Releases : List Action → Type 0
Releases p = (l : Lock) × StartsWith (release l) p

pub lock_eq-path : (k l : Lock) → lock_eq k l ≡ true → k ≡ l
lock_eq-path active_sessions_guard active_sessions_guard h = refl
lock_eq-path (cancel_guard a) (cancel_guard b) h = ap cancel_guard ((==_iff a b).0 h)
lock_eq-path active_sessions_guard (cancel_guard b) h = absurd (cc)
lock_eq-path (cancel_guard a) active_sessions_guard h = absurd (cc)

pub lock_eq_self : (l : Lock) → lock_eq l l ≡ true
lock_eq_self active_sessions_guard = refl
lock_eq_self (cancel_guard a) = (==_iff a a).1 refl

drop_nil : (n : ℕ) → drop {A = Action} n [] ≡ []
drop_nil zero = refl
drop_nil (suc n) = refl

-- What a thread that has not ended does next.
pub next_action :
    (k : Part) (n : ℕ)
    → (drop n (locks_of k) ≡ [])
      ⊎ (Releases (drop n (locks_of k))
          ⊎ (StartsWith (acquire active_sessions_guard) (drop n (locks_of k))
              ⊎ ((a : ℕ) × StartsWith (acquire (cancel_guard a)) (drop n (locks_of k)))))
next_action (cancelled a) zero = inr (inr (inr (a, (_, refl))))
next_action (cancelled a) (suc zero) = inr (inr (inl (_, refl)))
next_action (cancelled a) (suc (suc zero)) = inr (inl (_, (_, refl)))
next_action (cancelled a) (suc (suc (suc zero))) = inr (inl (_, (_, refl)))
next_action (cancelled a) (suc (suc (suc (suc n)))) = inl (drop_nil n)
next_action (going_on a) zero = inr (inr (inr (a, (_, refl))))
next_action (going_on a) (suc zero) = inr (inl (_, (_, refl)))
next_action (going_on a) (suc (suc n)) = inl (drop_nil n)
next_action (cancelling a) zero = inr (inr (inl (_, refl)))
next_action (cancelling a) (suc zero) = inr (inr (inr (a, (_, refl))))
next_action (cancelling a) (suc (suc zero)) = inr (inl (_, (_, refl)))
next_action (cancelling a) (suc (suc (suc zero))) = inr (inl (_, (_, refl)))
next_action (cancelling a) (suc (suc (suc (suc n)))) = inl (drop_nil n)
next_action editing zero = inr (inr (inl (_, refl)))
next_action editing (suc zero) = inr (inl (_, (_, refl)))
next_action editing (suc (suc n)) = inl (drop_nil n)

-- The thread that holds the lock of a session gives a lock back next, or is the handler of that session,
-- which was cancelled, and wants the lock of the map.
pub guard_owner :
    (a : ℕ) (k : Part) (n : ℕ)
    → owes (cancel_guard a) (drop n (locks_of k)) ≡ true
    → Releases (drop n (locks_of k))
      ⊎ (StartsWith (acquire active_sessions_guard) (drop n (locks_of k)) × (k ≡ cancelled a))
guard_owner a (cancelled b) zero h = absurd (ground arith)
guard_owner a (cancelled b) (suc zero) h =
    inr ((_, refl), ap cancelled ((==_iff b a).0 (ground arith)))
guard_owner a (cancelled b) (suc (suc zero)) h = inl (_, (_, refl))
guard_owner a (cancelled b) (suc (suc (suc zero))) h = inl (_, (_, refl))
guard_owner a (cancelled b) (suc (suc (suc (suc n)))) h = absurd (cc (drop_nil n))
guard_owner a (going_on b) zero h = absurd (ground arith)
guard_owner a (going_on b) (suc zero) h = inl (_, (_, refl))
guard_owner a (going_on b) (suc (suc n)) h = absurd (cc (drop_nil n))
guard_owner a (cancelling b) zero h = absurd (ground arith)
guard_owner a (cancelling b) (suc zero) h = absurd (ground arith)
guard_owner a (cancelling b) (suc (suc zero)) h = inl (_, (_, refl))
guard_owner a (cancelling b) (suc (suc (suc zero))) h = inl (_, (_, refl))
guard_owner a (cancelling b) (suc (suc (suc (suc n)))) h = absurd (cc (drop_nil n))
guard_owner a editing zero h = absurd (cc)
guard_owner a editing (suc zero) h = inl (_, (_, refl))
guard_owner a editing (suc (suc n)) h = absurd (cc (drop_nil n))

-- The thread that holds the lock of the map gives a lock back next, or is a `CancelRequest` that wants
-- the lock of the session it has found.
pub map_owner :
    (k : Part) (n : ℕ)
    → owes active_sessions_guard (drop n (locks_of k)) ≡ true
    → Releases (drop n (locks_of k))
      ⊎ ((a : ℕ) × StartsWith (acquire (cancel_guard a)) (drop n (locks_of k)) × (k ≡ cancelling a))
map_owner (cancelled b) zero h = absurd (cc)
map_owner (cancelled b) (suc zero) h = absurd (cc)
map_owner (cancelled b) (suc (suc zero)) h = inl (_, (_, refl))
map_owner (cancelled b) (suc (suc (suc zero))) h = inl (_, (_, refl))
map_owner (cancelled b) (suc (suc (suc (suc n)))) h = absurd (cc (drop_nil n))
map_owner (going_on b) zero h = absurd (cc)
map_owner (going_on b) (suc zero) h = inl (_, (_, refl))
map_owner (going_on b) (suc (suc n)) h = absurd (cc (drop_nil n))
map_owner (cancelling b) zero h = absurd (cc)
map_owner (cancelling b) (suc zero) h = inr (b, (_, refl), refl)
map_owner (cancelling b) (suc (suc zero)) h = inl (_, (_, refl))
map_owner (cancelling b) (suc (suc (suc zero))) h = inl (_, (_, refl))
map_owner (cancelling b) (suc (suc (suc (suc n)))) h = absurd (cc (drop_nil n))
map_owner editing zero h = absurd (cc)
map_owner editing (suc zero) h = inl (_, (_, refl))
map_owner editing (suc (suc n)) h = absurd (cc (drop_nil n))

abbrev takes_well : List Action → Bool
takes_well [] = true
takes_well (release l ∷ q) = true
takes_well (acquire l ∷ q) = owes l q

all_take_well : (k : Part) (n : ℕ) → takes_well (drop n (locks_of k)) ≡ true
all_take_well (cancelled a) zero = rw (lock_eq_self (cancel_guard a)) refl
all_take_well (cancelled a) (suc zero) = refl
all_take_well (cancelled a) (suc (suc zero)) = refl
all_take_well (cancelled a) (suc (suc (suc zero))) = refl
all_take_well (cancelled a) (suc (suc (suc (suc n)))) = rw (drop_nil n) refl
all_take_well (going_on a) zero = rw (lock_eq_self (cancel_guard a)) refl
all_take_well (going_on a) (suc zero) = refl
all_take_well (going_on a) (suc (suc n)) = rw (drop_nil n) refl
all_take_well (cancelling a) zero = refl
all_take_well (cancelling a) (suc zero) = rw (lock_eq_self (cancel_guard a)) refl
all_take_well (cancelling a) (suc (suc zero)) = refl
all_take_well (cancelling a) (suc (suc (suc zero))) = refl
all_take_well (cancelling a) (suc (suc (suc (suc n)))) = rw (drop_nil n) refl
all_take_well editing zero = refl
all_take_well editing (suc zero) = refl
all_take_well editing (suc (suc n)) = rw (drop_nil n) refl

-- A thread holds the lock that it has just taken.
pub taken_owes :
    (l : Lock) (q : List Action) (k : Part) (n : ℕ)
    → drop n (locks_of k) ≡ acquire l ∷ q
    → owes l q ≡ true
taken_owes l q k n h = sym (ap takes_well h) ∙ all_take_well k n
