-- ===== src/TcpClient/Unblocked.antt =====
-- asiolib/tcp-client-async.hpp: threads that share the locks of a client, in any number and any schedule.
use boost_asio_samples.Base.{
  ℕ, ◌≡◌, ◌≢◌, ◌⊎◌, inl, inr, refl, ap, sym, ◌∙◌, true, false, some, List, [], ◌∷◌, length, ◌+◌,
  Bool-cases,
}
use mathlib.Core.Path.{subst}
use mathlib.Core.List.{map}
use boost_asio_samples.TcpClient.Locks.{
  Lock, active_sessions_guard, cancel_guard, Action, acquire, release, is_held, give_back, Threads,
  act, run,
}
use boost_asio_samples.TcpClient.LockOrder.{
  Part, cancelled, cancelling, locks_of, owes, StartsWith, Releases, next_action, guard_owner,
  map_owner,
}
use boost_asio_samples.TcpClient.ThreadSteps.{get_elem?, CanStep, steps, remaining, unended}
use boost_asio_samples.TcpClient.Sharing.{IsShared, all_begin, all_begin-IsShared, run-IsShared}

module _ (ks : List Part) (t : Threads) (shared : IsShared ks t)
    (apart : (i j a : ℕ)
      → get_elem? ks i ≡ some (cancelled a)
      → get_elem? ks j ≢ some (cancelling a)) where
  can_release : (i : ℕ) (p : List Action) → get_elem? t.programs i ≡ some p → Releases p → CanStep t
  unfolding act
  can_release i p at (l, (q, e)) = (
    i,
    _,
    steps i t.programs t.held (give_back l t.held) (release l) q (at ∙ ap (λ r. some r) e) refl,
  )

  can_take :
      (l : Lock) (i : ℕ) (p : List Action)
      → get_elem? t.programs i ≡ some p
      → StartsWith (acquire l) p
      → is_held l t.held ≡ false
      → CanStep t
  unfolding act
  can_take l i p at (q, e) free = (
    i,
    _,
    steps i t.programs t.held (l ∷ t.held) (acquire l) q (at ∙ ap (λ r. some r) e) (rw free refl),
  )

  -- Whoever holds the lock of a session goes on, unless it waits for that of the map.
  guard_moves :
      (a : ℕ)
      → is_held (cancel_guard a) t.held ≡ true
      → (is_held active_sessions_guard t.held ≡ false)
        ⊎ ((j : ℕ) × (get_elem? ks j ≡ some (cancelling a)))
      → CanStep t
  guard_moves a taken other =
      let (i, p, at, owed) = shared.owners (cancel_guard a) taken in
      let (k, part, (n, left)) = shared.parts i p at in
      elim (guard_owner a k n (ap (owes (cancel_guard a)) (sym left) ∙ owed)) [
        | inl gives ↦ can_release i p at (subst Releases (sym left) gives)
        | inr (wants, is) ↦ elim other [
          | inl free ↦
              can_take active_sessions_guard i p at
                (subst (StartsWith (acquire active_sessions_guard)) (sym left) wants) free
          | inr (j, cancels) ↦ absurd (apart i j a (part ∙ ap (λ m. some m) is) cancels)
        ]
      ]

  map_moves : is_held active_sessions_guard t.held ≡ true → CanStep t
  map_moves taken =
      let (i, p, at, owed) = shared.owners active_sessions_guard taken in
      let (k, part, (n, left)) = shared.parts i p at in
      elim (map_owner k n (ap (owes active_sessions_guard) (sym left) ∙ owed)) [
        | inl gives ↦ can_release i p at (subst Releases (sym left) gives)
        | inr (a, wants, is) ↦ elim (Bool-cases (is_held (cancel_guard a) t.held)) [
          | inr free ↦
              can_take (cancel_guard a) i p at
                (subst (StartsWith (acquire (cancel_guard a))) (sym left) wants) free
          | inl held ↦ guard_moves a held (inr (i, part ∙ ap (λ m. some m) is))
        ]
      ]

  moves : (i : ℕ) (x : Action) (q : List Action) → get_elem? t.programs i ≡ some (x ∷ q) → CanStep t
  moves i x q at = elim (Bool-cases (is_held active_sessions_guard t.held)) [
    | inl taken ↦ map_moves taken
    | inr free ↦
        let (k, part, (n, left)) = shared.parts i (x ∷ q) at in
        elim (next_action k n) [
          | inl ended ↦ let nothing : x ∷ q ≡ [] = left ∙ ended in absurd cc
          | inr (inl gives) ↦ can_release i (x ∷ q) at (subst Releases (sym left) gives)
          | inr (inr (inl wants)) ↦
              can_take active_sessions_guard i (x ∷ q) at
                (subst (StartsWith (acquire active_sessions_guard)) (sym left) wants) free
          | inr (inr (inr (a, wants))) ↦ elim (Bool-cases (is_held (cancel_guard a) t.held)) [
            | inl held ↦ guard_moves a held (inl free)
            | inr open_guard ↦
                can_take (cancel_guard a) i (x ∷ q) at
                  (subst (StartsWith (acquire (cancel_guard a))) (sym left) wants) open_guard
          ]
        ]
  ]

-- Any number of threads, each in one part of the client, where no `CancelRequest` has found a session
-- whose handler has found it cancelled: no schedule has more steps than the threads have actions, and
-- one that has fewer can be taken further, so that the threads never wait for each other for ever.
pub parts_end :
    (ks : List Part) (is : List ℕ) (t : Threads)
    → ((i j a : ℕ) → get_elem? ks i ≡ some (cancelled a) → get_elem? ks j ≢ some (cancelling a))
    → run is (some (all_begin ks)) ≡ some t
    → (length is + remaining t.programs ≡ remaining (map locks_of ks))
      × ((remaining t.programs ≡ 0) ⊎ CanStep t)
parts_end ks is t apart reached =
    let (shared, counted) = run-IsShared ks is (all_begin ks) t (all_begin-IsShared ks) reached in
    (
      counted,
      elim (unended t.programs) [
        | inl e ↦ inl e
        | inr (i, x, q, at) ↦ inr (moves ks t shared apart i x q at)
      ],
    )
