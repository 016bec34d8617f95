-- ===== src/Operations.antt =====
-- An object that lives by asynchronous operations, as every class of asiolib that hands handlers
-- to an `io_context` does. The context completes an operation that was started once, in any order
-- and with any result; other threads may act between two handlers.
use mathlib.Core.Path.{subst}
use boost_asio_samples.Base.{
  ℕ, zero, suc, ◌+◌, ◌≤◌, ◌<◌, List, [], ◌∷◌, ◌++◌, ◌≡◌, ap, sym, length, length-append, arith,
}

pub record Machine : Type 1 where
  pub State : Type 0
  pub Op : Type 0
  pub Event : Type 0
  -- the operations that have not completed
  pub pending : State → List Op
  -- the same object with these operations left
  pub leave : State → List Op → State
  -- how often the object has come to an end
  pub ends : State → ℕ
  pub Running : State → Type 0
  -- the handler of an operation
  pub handle : Op → Event → State → State
  -- what another thread may do
  pub Meanwhile : State → State → Type 0
  -- how many operations may follow, this one included
  pub rank : Op → ℕ

-- The runs from an object, by the number of completions in them.
pub data Run (m : Machine) (r : m.State) : ℕ → m.State → Type 0 where
  here : Run m r zero r
  complete :
      {k : ℕ} {s t : m.State}
      → Run m r k s
      → (pre post : List m.Op) (op : m.Op) (e : m.Event) → m.Running s
      → m.pending s ≡ pre ++ op ∷ post
      → t ≡ m.handle op e (m.leave s (pre ++ post))
      → Run m r (suc k) t
  meanwhile : {k : ℕ} {s t : m.State} → Run m r k s → m.Meanwhile s t → Run m r k t

module _ {A : Type 0} (rank : A → ℕ) where
  abbrev pub ranks : List A → ℕ
  ranks [] = 0
  ranks (op ∷ ops) = rank op + ranks ops

  pub ranks-append : (xs ys : List A) → ranks (xs ++ ys) ≡ ranks xs + ranks ys
  ranks-append [] ys = omega arith
  ranks-append (x ∷ xs) ys = omega (arith, ranks-append xs ys)

  length-le-ranks : ((op : A) → 0 < rank op) → (ops : List A) → length ops ≤ ranks ops
  length-le-ranks pos [] = omega arith
  length-le-ranks pos (op ∷ ops) = omega (arith, pos op, length-le-ranks pos ops)

-- What waits and what has ended.
abbrev pub outcomes : (m : Machine) → m.State → ℕ
outcomes m s = length (m.pending s) + m.ends s

abbrev pub total_rank : (m : Machine) → m.State → ℕ
total_rank m s = ranks m.rank (m.pending s)

-- Each handler comes to one outcome: it starts an operation of a lower rank, or ends the object.
pub record OneOutcome (m : Machine) : Type 0 where
  pub rank_pos : (op : m.Op) → 0 < m.rank op
  pub pending-leave : (s : m.State) (ops : List m.Op) → m.pending (m.leave s ops) ≡ ops
  pub ends-leave : (s : m.State) (ops : List m.Op) → m.ends (m.leave s ops) ≡ m.ends s
  pub Running-leave : (s : m.State) (ops : List m.Op) → m.Running s → m.Running (m.leave s ops)
  pub handle_one :
      (op : m.Op) (e : m.Event) (s : m.State)
      → m.Running s
      → outcomes m (m.handle op e s) ≡ suc (outcomes m s)
  pub handle_rank :
      (op : m.Op) (e : m.Event) (s : m.State)
      → m.Running s
      → total_rank m (m.handle op e s) + 1 ≤ total_rank m s + m.rank op
  pub meanwhile_pending : {s t : m.State} → m.Meanwhile s t → m.pending t ≡ m.pending s
  pub meanwhile_ends : {s t : m.State} → m.Meanwhile s t → m.ends t ≡ m.ends s

-- Where an object stands after `k` completions, from a state with rank `n`.
pub record Balanced (m : Machine) (n k : ℕ) (s : m.State) : Type 0 where
  pub one : outcomes m s ≡ 1
  pub bounded : total_rank m s + k ≤ n

module _ (m : Machine) (law : OneOutcome m) where
  Balanced-complete :
      (n k : ℕ) (s : m.State) (pre post : List m.Op) (op : m.Op) (e : m.Event)
      → m.Running s
      → m.pending s ≡ pre ++ op ∷ post
      → Balanced m n k s
      → Balanced m n (suc k) (m.handle op e (m.leave s (pre ++ post)))
  Balanced-complete n k s pre post op e alive split b =
      let t = m.leave s (pre ++ post) in
      let facts : (length (m.pending t) + 1 ≡ length (m.pending s))
          × (total_rank m t + m.rank op ≡ total_rank m s) =
        omega (
          arith,
          ap length split,
          ap (ranks m.rank) split,
          ap length (law.pending-leave s (pre ++ post)),
          ap (ranks m.rank) (law.pending-leave s (pre ++ post)),
          length-append pre (op ∷ post),
          length-append pre post,
          ranks-append m.rank pre (op ∷ post),
          ranks-append m.rank pre post,
        ) in
      let alive' = law.Running-leave s (pre ++ post) alive in
      record {
        one =
            omega
              (arith, facts, b.one, law.ends-leave s (pre ++ post), law.handle_one op e t alive');
        bounded = omega (arith, facts, b.bounded, law.handle_rank op e t alive');
      }

  Run-Balanced : {r s : m.State} {k : ℕ} (n : ℕ) → Balanced m n 0 r → Run m r k s → Balanced m n k s
  Run-Balanced n b here = b
  Run-Balanced n b (complete {k = k} {s = s} run pre post op e alive split t) =
      subst (Balanced m n (suc k)) (sym t)
        (Balanced-complete n k s pre post op e alive split (Run-Balanced n b run))
  Run-Balanced n b (meanwhile {s = s} run step) =
      let c = Run-Balanced n b run in
      let p = law.meanwhile_pending step in
      record {
        one = omega (arith, c.one, ap length p, law.meanwhile_ends step);
        bounded = omega (arith, c.bounded, ap (ranks m.rank) p);
      }

  -- From a state with one outcome, every run keeps exactly one, and no more than `n` completions are
  -- made or still wait.
  pub Run-outcomes :
      (r s : m.State) (k n : ℕ)
      → outcomes m r ≡ 1
      → total_rank m r ≤ n
      → Run m r k s
      → (outcomes m s ≡ 1) × (length (m.pending s) + k ≤ n)
  Run-outcomes r s k n one le run =
      let b = Run-Balanced n (record { one = one; bounded = omega arith }) run in
      (b.one, omega (arith, b.bounded, length-le-ranks m.rank law.rank_pos (m.pending s)))
