-- ===== src/TcpClient/Sharing.antt =====
-- asiolib/tcp-client-async.hpp: what every schedule of the threads keeps, who holds which lock.
use boost_asio_samples.Base.{
  ℕ, zero, suc, ◌≡◌, inl, inr, refl, ap, sym, ◌∙◌, true, false, ◌||◌, none, some, List, [], ◌∷◌,
  length, drop, ◌+◌, ◌==◌, ==_iff, if◌then◌else◌, Bool-cases, Option-cases, arith,
}
use mathlib.Core.Path.{subst}
use mathlib.Core.List.{map}
use boost_asio_samples.TcpClient.Locks.{
  Lock, Action, acquire, release, lock_eq, is_held, give_back, Threads, act, step, run,
}
use boost_asio_samples.TcpClient.LockOrder.{
  Part, locks_of, owes, lock_eq-path, lock_eq_self, taken_owes,
}
use boost_asio_samples.TcpClient.ThreadSteps.{
  get_elem?, set, get_elem?-set, drop-cons, stepped, run_none, remaining, remaining-set,
}

-- In a state that parts `ks` have come to: every thread has done some actions of its part, and a lock
-- that is held is held by one of the threads.
pub record IsShared (ks : List Part) (t : Threads) : Type 0 where
  pub parts :
      (i : ℕ) (p : List Action)
      → get_elem? t.programs i ≡ some p
      → (k : Part) × (get_elem? ks i ≡ some k) × ((n : ℕ) × (p ≡ drop n (locks_of k)))
  pub owners :
      (l : Lock)
      → is_held l t.held ≡ true
      → (i : ℕ) × (p : List Action) × (get_elem? t.programs i ≡ some p) × (owes l p ≡ true)

abbrev pub all_begin : List Part → Threads
all_begin ks = record { programs = map locks_of ks; held = [] }

map_parts :
    (ks : List Part) (i : ℕ) (p : List Action)
    → get_elem? (map locks_of ks) i ≡ some p
    → (k : Part) × (get_elem? ks i ≡ some k) × ((n : ℕ) × (p ≡ drop n (locks_of k)))
map_parts [] i p h = absurd (cc)
map_parts (k ∷ ks) zero p h = (k, refl, (0, cc))
map_parts (k ∷ ks) (suc i) p h = map_parts ks i p h

pub all_begin-IsShared : (ks : List Part) → IsShared ks (all_begin ks)
all_begin-IsShared ks = record { parts = map_parts ks; owners = λ l h. absurd (cc) }

is_held-give_back :
    (k l : Lock) (held : List Lock)
    → is_held k (give_back l held) ≡ true
    → (lock_eq l k ≡ false) × (is_held k held ≡ true)
unfolding give_back
is_held-give_back k l [] h = absurd (cc)
is_held-give_back k l (m ∷ held) h = elim (Bool-cases (lock_eq m l)) [
  | inl e ↦ let rest = is_held-give_back k l held (rw e at h) in (rest.0, ground (arith, rest.1))
  | inr e ↦
      let h' : lock_eq m k || is_held k (give_back l held) ≡ true = rw e at h in
      elim (Bool-cases (lock_eq m k)) [
        | inl f ↦
            let other : lock_eq l k ≡ false = elim (Bool-cases (lock_eq l k)) [
              | inr g ↦ g
              | inl g ↦
                  let same : m ≡ l = lock_eq-path m k f ∙ sym (lock_eq-path l k g) in
                  let same' : lock_eq m l ≡ true = ap (λ x. lock_eq x l) same ∙ lock_eq_self l in
                  absurd cc
            ] in
            (other, ground (arith, f))
        | inr f ↦
            let rest = is_held-give_back k l held (rw f at h') in (rest.0, ground (arith, rest.1))
      ]
]

abbrev Owner : Lock → Threads → Type 0
Owner l t = (i : ℕ) × (p : List Action) × (get_elem? t.programs i ≡ some p) × (owes l p ≡ true)

module _ (ks : List Part) (t u : Threads) (i : ℕ) (x : Action) (q : List Action)
    (was : get_elem? t.programs i ≡ some (x ∷ q)) (now : u.programs ≡ set t.programs i q)
    (shared : IsShared ks t) where
  now_at : (j : ℕ) → get_elem? u.programs j ≡ (if i == j then some q else get_elem? t.programs j)
  now_at j = ap (λ ps. get_elem? ps j) now ∙ get_elem?-set t.programs i j q (x ∷ q) was

  kept_parts :
      (j : ℕ) (p : List Action)
      → get_elem? u.programs j ≡ some p
      → (k : Part) × (get_elem? ks j ≡ some k) × ((n : ℕ) × (p ≡ drop n (locks_of k)))
  kept_parts j p h = elim (Bool-cases (i == j)) [
    | inr e ↦ shared.parts j p (rw e at (sym (now_at j) ∙ h))
    | inl e ↦
        let own : some q ≡ some p = rw e at (sym (now_at j) ∙ h) in
        let same : q ≡ p = cc in
        let (k, part, (n, left)) = shared.parts i (x ∷ q) was in
        (
          k,
          ap (get_elem? ks) (sym ((==_iff i j).0 e)) ∙ part,
          (suc n, sym same ∙ sym (drop-cons n x q (locks_of k) (sym left))),
        )
  ]

  -- An owner stays one if the thread that stepped still holds the lock.
  kept-Owner : (l : Lock) → Owner l t → (owes l (x ∷ q) ≡ true → owes l q ≡ true) → Owner l u
  kept-Owner l (j, p, at, holds) still = elim (Bool-cases (i == j)) [
    | inr e ↦ (j, p, now_at j ∙ rw e at, holds)
    | inl e ↦
        let there : get_elem? t.programs j ≡ some (x ∷ q) =
          ap (get_elem? t.programs) (sym ((==_iff i j).0 e)) ∙ was in
        let same : p ≡ x ∷ q = cc in
        (j, q, now_at j ∙ rw e refl, still (ap (owes l) (sym same) ∙ holds))
  ]

acts-IsShared :
    (ks : List Part) (t u : Threads) (i : ℕ) (x : Action) (q : List Action)
    → get_elem? t.programs i ≡ some (x ∷ q)
    → act x t.held ≡ some u.held
    → u.programs ≡ set t.programs i q
    → IsShared ks t
    → IsShared ks u
unfolding act
acts-IsShared ks t u i (release k) q was free now shared =
    let gave : give_back k t.held ≡ u.held = cc in
    record {
      parts = kept_parts ks t u i (release k) q was now shared;
      owners = λ l h.
          let old = is_held-give_back l k t.held (ap (is_held l) gave ∙ h) in
          kept-Owner ks t u i (release k) q was now shared l (shared.owners l old.1)
            (λ g. rw old.0 at g);
    }
acts-IsShared ks t u i (acquire k) q was free now shared = elim (Bool-cases (is_held k t.held)) [
  | inl e ↦ let nothing : none ≡ some u.held = rw e at free in absurd cc
  | inr e ↦
      let got : some (k ∷ t.held) ≡ some u.held = rw e at free in
      let held : k ∷ t.held ≡ u.held = cc in
      record {
        parts = kept_parts ks t u i (acquire k) q was now shared;
        owners = λ l h.
            let h' : lock_eq k l || is_held l t.held ≡ true = ap (is_held l) held ∙ h in
            elim (Bool-cases (lock_eq k l)) [
              | inl f ↦
                  let (p, part, (n, left)) = shared.parts i (acquire k ∷ q) was in
                  (
                    i,
                    q,
                    now_at ks t u i (acquire k) q was now shared i ∙ rw ((==_iff i i).1 refl) refl,
                    ap (λ m. owes m q) (sym (lock_eq-path k l f)) ∙ taken_owes k q p n (sym left),
                  )
              | inr f ↦
                  kept-Owner ks t u i (acquire k) q was now shared l (shared.owners l (rw f at h'))
                    (λ g. rw f at g)
            ];
      }
]

pub run-IsShared :
    (ks : List Part) (is : List ℕ) (t u : Threads)
    → IsShared ks t
    → run is (some t) ≡ some u
    → IsShared ks u × (length is + remaining u.programs ≡ remaining t.programs)
unfolding run
run-IsShared ks [] t u shared h =
    let same : t ≡ u = cc in
    (
      subst (IsShared ks) same shared,
      omega (arith, ap (λ (v : Threads). remaining v.programs) same),
    )
run-IsShared ks (i ∷ is) t u shared h = elim (Option-cases (step i t.programs t.held)) [
  | inl e ↦ let nothing : none ≡ some u = sym (run_none is) ∙ sym (ap (run is) e) ∙ h in absurd cc
  | inr (v, e) ↦
      let r = stepped i t.programs t.held v e in
      let rest =
        run-IsShared ks is v u (acts-IsShared ks t v i r.action r.left r.was r.free r.now shared)
          (sym (ap (run is) e) ∙ h) in
      (
        rest.0,
        omega (arith, rest.1, remaining-set t.programs i r.action r.left r.was, ap remaining r.now),
      )
]
