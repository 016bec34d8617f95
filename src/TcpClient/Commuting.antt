-- ===== src/TcpClient/Commuting.antt =====
-- asiolib/tcp-client-async.hpp: the handlers of two sessions, in either order.
use boost_asio_samples.Base.{
  ℕ, ◌≡◌, refl, ap, sym, ◌∙◌, Bool, true, false, none, Option, List, [], ◌∷◌, ◌++◌, Bytes, ◌==◌,
  if◌then◌else◌, Bool-cases, inl, inr, append_assoc, arith,
}
use mathlib.Core.Path.{fun_ext}
use mathlib.Core.List.{Perm}
use mathlib.Core.List.Perm
use mathlib.Core.Quot
use mathlib.Core.Quot.{Quot}
use boost_asio_samples.Errors.{ErrorCode, AsioError}
use boost_asio_samples.Dict.{Dict, nat_eq, lookup, erase, lookup-erase}
use boost_asio_samples.TcpClient.Sessions.{AsyncTcpClient, Session, Op, Call, start}
use boost_asio_samples.TcpClient.{on_request_complete}
use boost_asio_samples.TcpClient.Steps.{handle}
use boost_asio_samples.TcpClient.Once.{address}
use boost_asio_samples.TcpClient.Reuse.{self_eq}
use boost_asio_samples.TcpClient.Local.{
  LocalEffect, goes_on, ends, effect_of, apply, handle_lem, untouched,
}

-- Two maps are the same map if every number finds the same in both.
abbrev pub SameMap : Dict ℕ ℕ → Dict ℕ ℕ → Type 0
SameMap m n = (i : ℕ) → lookup i m ≡ lookup i n

-- A client without the order in which operations were started and callbacks called.
pub record View : Type 0 where
  pub sessions : ℕ → Session
  pub next : ℕ
  pub active : Quot SameMap
  pub pending : Quot (Perm {A = Op})
  pub calls : Quot (Perm {A = Call})

unfoldable pub view : AsyncTcpClient → View
view c = record {
  sessions = c.sessions;
  next = c.next;
  active = Quot.mk c.active;
  pending = Quot.mk c.pending;
  calls = Quot.mk c.calls;
}

same_view :
    (c d : AsyncTcpClient)
    → ((b : ℕ) → c.sessions b ≡ d.sessions b)
    → c.next ≡ d.next
    → SameMap c.active d.active
    → Perm c.pending d.pending
    → Perm c.calls d.calls
    → view c ≡ view d
unfolding view
same_view c d sessions begun map waits called = λ i. record {
  sessions = fun_ext sessions i;
  next = begun i;
  active = Quot.sound {r = SameMap} map i;
  pending = Quot.sound {r = Perm} waits i;
  calls = Quot.sound {r = Perm} called i;
}

swap_last :
    {A : Type 0} (xs : List A) (x y : A)
    → Perm ((xs ++ x ∷ []) ++ y ∷ []) ((xs ++ y ∷ []) ++ x ∷ [])
swap_last xs x y =
    rw (append_assoc xs (x ∷ []) (y ∷ []), append_assoc xs (y ∷ []) (x ∷ []))
      (Perm.append_left xs (Perm.swap y x []))

ifs_comm :
    (p q : Bool) (o : Option ℕ)
    → (if p then none else if q then none else o) ≡ (if q then none else if p then none else o)
ifs_comm true true o = refl
ifs_comm true false o = refl
ifs_comm false true o = refl
ifs_comm false false o = refl

erase_comm : (i j : ℕ) (m : Dict ℕ ℕ) → SameMap (erase i (erase j m)) (erase j (erase i m))
erase_comm i j m k =
    lookup-erase i k (erase j m)
    ∙ ap (λ o. if i == k then none else o) (lookup-erase j k m)
    ∙ ifs_comm (i == k) (j == k) (lookup k m)
    ∙ sym (ap (λ o. if j == k then none else o) (lookup-erase i k m))
    ∙ sym (lookup-erase j k (erase i m))

eq_sym : (a b : ℕ) → (a == b) ≡ false → (b == a) ≡ false
eq_sym a b h = ground arith

puts_comm :
    (a b : ℕ) (s t : Session) (c : AsyncTcpClient)
    → (a == b) ≡ false
    → (k : ℕ)
    → (if k == b then t else if k == a then s else c.sessions k)
      ≡ (if k == a then s else if k == b then t else c.sessions k)
puts_comm a b s t c other k = elim (Bool-cases (k == b)) [
  | inl e ↦ let apart : (k == a) ≡ false = ground arith in rw (e, apart) refl
  | inr e ↦ rw e refl
]

module _ (asio : AsioError) where
  apply_comm :
      (a b : ℕ) (f g : LocalEffect) (c : AsyncTcpClient)
      → (a == b) ≡ false
      → view (apply asio b g (apply asio a f c)) ≡ view (apply asio a f (apply asio b g c))
  unfolding start on_request_complete
  apply_comm a b (goes_on x) (goes_on y) c other =
      same_view _ _ (λ k. refl) refl (λ i. refl) (swap_last c.pending x y) (Perm.refl c.calls)
  apply_comm a b (goes_on x) (ends s) c other = refl
  apply_comm a b (ends s) (goes_on y) c other = refl
  apply_comm a b (ends s) (ends t) c other =
      rw (self_eq a, self_eq b)
        (same_view _ _ (puts_comm a b s t c other) refl (erase_comm t.id s.id c.active)
          (Perm.refl c.pending) (swap_last c.calls _ _))

  both_lem :
      (op op' : Op) (ec ec' : ErrorCode) (bytes bytes' : Bytes) (c : AsyncTcpClient)
      → (address op' == address op) ≡ false
      → handle asio op' ec' bytes' (handle asio op ec bytes c)
        ≡ apply asio
            (address op')
            (effect_of op' ec' bytes' (c.sessions (address op')))
            (apply asio (address op) (effect_of op ec bytes (c.sessions (address op))) c)
  both_lem op op' ec ec' bytes bytes' c other =
      let a = address op in
      let b = address op' in
      let f = effect_of op ec bytes (c.sessions a) in
      let d = apply asio a f c in
      ap (handle asio op' ec' bytes') (handle_lem asio op ec bytes c)
      ∙ handle_lem asio op' ec' bytes' d
      ∙ ap (λ s. apply asio b (effect_of op' ec' bytes' s) d) (untouched asio a b f c other)

  -- Two operations of different sessions have completed: whichever of their handlers runs first, the
  -- client is the same in the end, but for the order of what waits and of the calls, and of the map.
  pub handlers_comm :
      (op op' : Op) (ec ec' : ErrorCode) (bytes bytes' : Bytes) (c : AsyncTcpClient)
      → (address op == address op') ≡ false
      → view (handle asio op' ec' bytes' (handle asio op ec bytes c))
        ≡ view (handle asio op ec bytes (handle asio op' ec' bytes' c))
  handlers_comm op op' ec ec' bytes bytes' c other =
      let a = address op in
      let b = address op' in
      let other' = eq_sym a b other in
      ap view (both_lem op op' ec ec' bytes bytes' c other')
      ∙ apply_comm a b (effect_of op ec bytes (c.sessions a))
          (effect_of op' ec' bytes' (c.sessions b)) c other
      ∙ sym (ap view (both_lem op' op ec' ec bytes' bytes c other))
