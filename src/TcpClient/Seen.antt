-- ===== src/TcpClient/Seen.antt =====
-- asiolib/tcp-client-async.hpp: a client of many sessions as one session sees it.
use boost_asio_samples.Base.{
  ℕ, ◌+◌, ◌≡◌, refl, ap, ◌∙◌, Bool, true, false, List, [], ◌∷◌, ◌++◌, Bytes, ◌==◌, ==_iff,
  if◌then◌else◌, Bool-cases, inl, inr, append-nil, arith,
}
use boost_asio_samples.Errors.{ErrorCode, AsioError, failed}
use boost_asio_samples.Dict.{nat_eq}
use boost_asio_samples.TcpClient.Sessions.{
  AsyncTcpClient, Session, Op, connect, write, read_until, Call, start,
}
use boost_asio_samples.TcpClient.{on_request_complete, final_code}
use boost_asio_samples.TcpClient.Once.{address}
use boost_asio_samples.TcpClient.Reuse.{self_eq}
use boost_asio_samples.TcpClient.Local.{LocalEffect, goes_on, ends, effect_of, apply}

-- The session, the operations that it waits for and the calls of its callback.
pub record Seen : Type 0 where
  pub session : Session
  pub waits : List Op
  pub calls : List Call

abbrev pub own_ops : ℕ → List Op → List Op
own_ops a [] = []
own_ops a (op ∷ ops) = let rest = own_ops a ops in if address op == a then op ∷ rest else rest

abbrev pub own_calls : ℕ → List Call → List Call
own_calls a [] = []
own_calls a (k ∷ ks) = let rest = own_calls a ks in if k.session == a then k ∷ rest else rest

abbrev pub seen : ℕ → AsyncTcpClient → Seen
seen a c = record {
  session = c.sessions a;
  waits = own_ops a c.pending;
  calls = own_calls a c.calls;
}

pub own_ops-append : (a : ℕ) (xs ys : List Op) → own_ops a (xs ++ ys) ≡ own_ops a xs ++ own_ops a ys
own_ops-append a [] ys = refl
own_ops-append a (x ∷ xs) ys = elim (Bool-cases (address x == a)) [
  | inl e ↦ rw e (ap (λ r. x ∷ r) (own_ops-append a xs ys))
  | inr e ↦ rw e (own_ops-append a xs ys)
]

own_calls-append :
    (a : ℕ) (xs ys : List Call) → own_calls a (xs ++ ys) ≡ own_calls a xs ++ own_calls a ys
own_calls-append a [] ys = refl
own_calls-append a (x ∷ xs) ys = elim (Bool-cases (x.session == a)) [
  | inl e ↦ rw e (ap (λ r. x ∷ r) (own_calls-append a xs ys))
  | inr e ↦ rw e (own_calls-append a xs ys)
]

pub same_seen : (v w : Seen) → w.session ≡ v.session → w.waits ≡ v.waits → w.calls ≡ v.calls → w ≡ v
same_seen v w s p k = λ i. record { session = s i; waits = p i; calls = k i }

-- The next operation of a session is its own.
abbrev pub IsOwn : ℕ → LocalEffect → Type 0
IsOwn a (goes_on op) = address op ≡ a
IsOwn a (ends s) = Unit {0}

going-IsOwn :
    (p q : Bool) (op : Op) (s t : Session)
    → IsOwn (address op) (if p then ends s else if q then ends t else goes_on op)
going-IsOwn true q op s t = tt
going-IsOwn false true op s t = tt
going-IsOwn false false op s t = refl

pub effect-IsOwn :
    (op : Op) (ec : ErrorCode) (bytes : Bytes) (s : Session)
    → IsOwn (address op) (effect_of op ec bytes s)
effect-IsOwn (connect a) ec bytes s = going-IsOwn (failed ec) s.was_cancelled (write a) _ s
effect-IsOwn (write a) ec bytes s = going-IsOwn (failed ec) s.was_cancelled (read_until a) _ s
effect-IsOwn (read_until a) ec bytes s = elim (Bool-cases (failed ec)) [
  | inl e ↦ rw e tt
  | inr e ↦ rw e tt
]

module _ (asio : AsioError) where
  abbrev pub call_of : ℕ → Session → Call
  call_of a s = record {
    session = a;
    callback = s.callback;
    request_id = s.id;
    response = s.response;
    ec = final_code asio s;
  }

  -- What the handler of an operation of the session does.
  abbrev pub moved : ℕ → LocalEffect → Seen → Seen
  moved a (goes_on op) v = record v { waits = v.waits ++ op ∷ [] }
  moved a (ends s) v = record v { session = s; calls = v.calls ++ call_of a s ∷ [] }

  -- What a session does by itself: it is cancelled, or an operation that it waits for completes, which
  -- its own members decide.
  pub data Move (a : ℕ) (v : Seen) : Seen → Type 0 where
    stays : Move a v v
    is_cancelled :
        {w : Seen}
        → w ≡ record v {
          session = record v.session { was_cancelled = true; cancels = v.session.cancels + 1 };
        }
        → Move a v w
    completes :
        {w : Seen} (op : Op) (ec : ErrorCode) (bytes : Bytes) (pre post : List Op)
        → v.waits ≡ pre ++ op ∷ post
        → w ≡ moved a (effect_of op ec bytes v.session) (record v { waits = pre ++ post })
        → Move a v w

  pub data Life (a : ℕ) (v : Seen) : Seen → Type 0 where
    born : Life a v v
    lives : {w x : Seen} → Life a v w → Move a w x → Life a v x

  -- The handler of the session.
  pub own_effect :
      (a : ℕ) (f : LocalEffect) (c : AsyncTcpClient)
      → IsOwn a f
      → seen a (apply asio a f c) ≡ moved a f (seen a c)
  unfolding start on_request_complete
  own_effect a (goes_on op) c own =
      let mine : (address op == a) ≡ true = (==_iff (address op) a).1 own in
      same_seen _ _ refl (own_ops-append a c.pending (op ∷ []) ∙ rw mine refl) refl
  own_effect a (ends s) c own = rw (self_eq a) (
      same_seen _ _ refl refl (own_calls-append a c.calls (call_of a s ∷ []) ∙ rw (self_eq a) refl))

  -- The handler of another session.
  pub other_effect :
      (a b : ℕ) (f : LocalEffect) (c : AsyncTcpClient)
      → IsOwn b f
      → (b == a) ≡ false
      → seen a (apply asio b f c) ≡ seen a c
  unfolding start on_request_complete
  other_effect a b (goes_on op) c own other =
      let apart : (address op == a) ≡ false = ap (λ x. x == a) own ∙ other in
      same_seen _ _ refl
        (own_ops-append a c.pending (op ∷ []) ∙ rw apart (append-nil (own_ops a c.pending))) refl
  other_effect a b (ends s) c own other =
      let apart : (a == b) ≡ false = ground arith in
      same_seen _ _ (rw apart refl) refl
        (own_calls-append a c.calls _ ∙ rw other (append-nil (own_calls a c.calls)))
