-- ===== src/TcpClient/ThreadSteps.antt =====
-- asiolib/tcp-client-async.hpp: one action of one of the threads that share the locks of a client.
use boost_asio_samples.Base.{
  ℕ, zero, suc, ◌≡◌, ◌⊎◌, inl, inr, refl, ap, sym, ◌∙◌, Option, none, some, List, [], ◌∷◌, length,
  drop, ◌+◌, ◌==◌, if◌then◌else◌, Option-cases, arith,
}
use boost_asio_samples.TcpClient.Locks.{Lock, Action, Threads, act, advance, prepend, step, run}

module _ {A : Type 0} where
  abbrev pub get_elem? : List A → ℕ → Option A
  get_elem? [] i = none
  get_elem? (x ∷ xs) zero = some x
  get_elem? (x ∷ xs) (suc i) = get_elem? xs i

  abbrev pub set : List A → ℕ → A → List A
  set [] i v = []
  set (x ∷ xs) zero v = v ∷ xs
  set (x ∷ xs) (suc i) v = x ∷ set xs i v

  pub get_elem?-set :
      (xs : List A) (i j : ℕ) (v x : A)
      → get_elem? xs i ≡ some x
      → get_elem? (set xs i v) j ≡ (if i == j then some v else get_elem? xs j)
  get_elem?-set [] i j v x h = absurd (cc)
  get_elem?-set (y ∷ xs) zero zero v x h = refl
  get_elem?-set (y ∷ xs) zero (suc j) v x h = ground arith
  get_elem?-set (y ∷ xs) (suc i) zero v x h = ground arith
  get_elem?-set (y ∷ xs) (suc i) (suc j) v x h = ground (arith, get_elem?-set xs i j v x h)

pub drop-cons : (n : ℕ) (x : Action) (q xs : List Action) → drop n xs ≡ x ∷ q → drop (suc n) xs ≡ q
drop-cons zero x q [] h = absurd (cc)
drop-cons zero x q (y ∷ xs) h = cc
drop-cons (suc n) x q [] h = absurd (cc)
drop-cons (suc n) x q (y ∷ xs) h = drop-cons n x q xs h

-- A thread that is there and whose next action is possible can take a step.
abbrev pub CanStep : Threads → Type 0
CanStep t = (i : ℕ) × (u : Threads) × (step i t.programs t.held ≡ some u)

pub steps :
    (i : ℕ) (ps : List (List Action)) (held h : List Lock) (x : Action) (q : List Action)
    → get_elem? ps i ≡ some (x ∷ q)
    → act x held ≡ some h
    → step i ps held ≡ some (record { programs = set ps i q; held = h })
unfolding step
steps i [] held h x q at free = absurd (cc)
steps zero ([] ∷ ps) held h x q at free = absurd (cc)
steps zero ((y ∷ p) ∷ ps) held h x q at free =
    let e : y ≡ x = cc in
    let e' : p ≡ q = cc in
    ap (λ a. advance (act a held) (p ∷ ps)) e
    ∙ ap (λ o. advance o (p ∷ ps)) free
    ∙ ap (λ r. some (record { programs = r ∷ ps; held = h })) e'
steps (suc i) (p ∷ ps) held h x q at free = ap (prepend p) (steps i ps held h x q at free)

-- What a step does.
pub record Stepped (i : ℕ) (ps : List (List Action)) (held : List Lock) (u : Threads) : Type 0 where
  pub action : Action
  pub left : List Action
  pub was : get_elem? ps i ≡ some (action ∷ left)
  pub free : act action held ≡ some u.held
  pub now : u.programs ≡ set ps i left

pub stepped :
    (i : ℕ) (ps : List (List Action)) (held : List Lock) (u : Threads)
    → step i ps held ≡ some u
    → Stepped i ps held u
unfolding step
stepped i [] held u h = absurd (cc)
stepped zero ([] ∷ ps) held u h = absurd (cc)
stepped zero ((x ∷ p) ∷ ps) held u h = elim (Option-cases (act x held)) [
  | inl e ↦ let nothing : none ≡ some u = sym (ap (λ o. advance o (p ∷ ps)) e) ∙ h in absurd cc
  | inr (k, e) ↦
      let found : some (record { programs = p ∷ ps; held = k }) ≡ some u =
        sym (ap (λ o. advance o (p ∷ ps)) e) ∙ h in
      let same : record { programs = p ∷ ps; held = k } ≡ u = cc in
      record {
        action = x;
        left = p;
        was = refl;
        free = e ∙ ap (λ (t : Threads). some t.held) same;
        now = sym (ap (λ (t : Threads). t.programs) same);
      }
]
stepped (suc i) (p ∷ ps) held u h = elim (Option-cases (step i ps held)) [
  | inl e ↦ let nothing : none ≡ some u = sym (ap (prepend p) e) ∙ h in absurd cc
  | inr (v, e) ↦
      let r = stepped i ps held v e in
      let found : some (record v { programs = p ∷ v.programs }) ≡ some u =
        sym (ap (prepend p) e) ∙ h in
      let same : record v { programs = p ∷ v.programs } ≡ u = cc in
      record {
        action = r.action;
        left = r.left;
        was = r.was;
        free = r.free ∙ ap (λ (t : Threads). some t.held) same;
        now = sym (ap (λ (t : Threads). t.programs) same) ∙ ap (λ qs. p ∷ qs) r.now;
      }
]

pub run_none : (is : List ℕ) → run is none ≡ none
unfolding run
run_none [] = refl
run_none (i ∷ is) = refl

abbrev pub remaining : List (List Action) → ℕ
remaining [] = 0
remaining (p ∷ ps) = length p + remaining ps

pub remaining-set :
    (ps : List (List Action)) (i : ℕ) (x : Action) (q : List Action)
    → get_elem? ps i ≡ some (x ∷ q)
    → remaining (set ps i q) + 1 ≡ remaining ps
remaining-set [] i x q h = absurd (cc)
remaining-set (p ∷ ps) zero x q h =
    let same : p ≡ x ∷ q = cc in omega (arith, ap (length {A = Action}) same)
remaining-set (p ∷ ps) (suc i) x q h = omega (arith, remaining-set ps i x q h)

-- Either every thread has ended, or one of them has an action left.
pub unended :
    (ps : List (List Action))
    → (remaining ps ≡ 0)
      ⊎ ((i : ℕ) × (x : Action) × (q : List Action) × (get_elem? ps i ≡ some (x ∷ q)))
unended [] = inl refl
unended ((x ∷ q) ∷ ps) = inr (0, x, q, refl)
unended ([] ∷ ps) = elim (unended ps) [
  | inl e ↦ inl (omega (arith, e))
  | inr (i, x, q, h) ↦ inr (suc i, x, q, h)
]
