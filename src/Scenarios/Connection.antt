-- ===== src/Scenarios/Connection.antt =====
-- basics/server-client.cpp: what write_read_some reports on a new connection.
use boost_asio_samples.Base.{
  ℕ, ◌≡◌, ◌⊎◌, inl, inr, refl, sym, ap, ◌∙◌, Bool, true, false, ◌&&◌, List, [], ◌∷◌, ◌++◌, Bytes,
  length, bytes_eq, bytes_eq_refl, arith,
}
use mathlib.Core.Path.{subst}
use boost_asio_samples.Errors.{AsioError}
use boost_asio_samples.IoBuffers.Calls.{
  Socket, SocketLaws, Action, Outcome, Exception, done, threw, endless, ◌>>=◌,
}
use boost_asio_samples.IoBuffers.{write_to_socket, read_from_socket}
use boost_asio_samples.IoBuffers.Writing.{Written, IsWriteFailure, write_to_socket-Written}
use boost_asio_samples.IoBuffers.Reading.{HasRead, IsReadFailure, read_from_socket-HasRead}
use boost_asio_samples.Scenarios.Ends.{
  unthrown, beside, behind, at_first, at_second, Both, write_read,
}

-- What holds after a call: `P` where it returned, `Q` where it threw. It ends.
abbrev pub Holds : {S A : Type 0} → (A → S → Type 0) → (Exception → Type 0) → Outcome S A → Type 0
Holds P Q (done a t) = P a t
Holds P Q (threw x t) = Q x
Holds P Q endless = ⊥

module _ {S C A B : Type 0} (P : A → S → Type 0) (P' : B → S × C → Type 0)
    (Q : Exception → Type 0) where
  first_outcome :
      (f : A → Action (S × C) B) (c : C) (o : Outcome S A)
      → Holds P Q o
      → ((a : A) (t : S) → P a t → Holds P' Q (f a (t, c)))
      → Holds P' Q
          (elim (beside c o) [ done a t ↦ f a t | threw x t ↦ threw x t | endless ↦ endless ])
  first_outcome f c (done a t) h next = next a t h
  first_outcome f c (threw x t) h next = h
  first_outcome f c endless h next = elim h [ ]

  pub first_then :
      (m : Action S A) (f : A → Action (S × C) B) (s : S) (c : C)
      → Holds P Q (m s)
      → ((a : A) (t : S) → P a t → Holds P' Q (f a (t, c)))
      → Holds P' Q ((at_first m >>= f) (s, c))
  first_then m f s c h next = first_outcome f c (m s) h next

module _ {S C A B : Type 0} (P : A → C → Type 0) (P' : B → S × C → Type 0)
    (Q : Exception → Type 0) where
  second_outcome :
      (f : A → Action (S × C) B) (s : S) (o : Outcome C A)
      → Holds P Q o
      → ((a : A) (t : C) → P a t → Holds P' Q (f a (s, t)))
      → Holds P' Q
          (elim (behind s o) [ done a t ↦ f a t | threw x t ↦ threw x t | endless ↦ endless ])
  second_outcome f s (done a t) h next = next a t h
  second_outcome f s (threw x t) h next = h
  second_outcome f s endless h next = elim h [ ]

  pub second_then :
      (m : Action C A) (f : A → Action (S × C) B) (s : S) (c : C)
      → Holds P Q (m c)
      → ((a : A) (t : C) → P a t → Holds P' Q (f a (s, t)))
      → Holds P' Q ((at_second m >>= f) (s, c))
  second_then m f s c h next = second_outcome f s (m c) h next

-- A start of a text that is as long as the text is the text.
same_length : (a b rest : Bytes) → a ≡ b ++ rest → length b ≡ length a → b ≡ a
same_length [] [] rest e h = refl
same_length [] (y ∷ b) rest e h = absurd (omega arith)
same_length (x ∷ a) [] rest e h = absurd (omega arith)
same_length (x ∷ a) (y ∷ b) rest e h =
    let tails : a ≡ b ++ rest = cc in
    let heads : x ≡ y = cc in let same = same_length a b rest tails (omega arith) in cc

module _ (asio : AsioError) (k : Socket) (law : SocketLaws asio k) where
  -- Either the call threw, or it returned in this state.
  abbrev pub Ok : Bytes → k.State → Bool → k.State → Type 0
  Ok msg s ok t = (ok ≡ false) ⊎ (write_to_socket k msg s ≡ done tt t)

  outcome-Ok :
      (Q : Exception → Type 0) (msg : Bytes) (s : k.State) (o : Outcome k.State (Unit {0}))
      → write_to_socket k msg s ≡ o
      → Written asio k law (IsWriteFailure asio k law) (law.sent s) msg o
      → Holds (Ok msg s) Q (unthrown o)
  outcome-Ok Q msg s (done u t) e h = inr e
  outcome-Ok Q msg s (threw x t) e h = inl refl
  outcome-Ok Q msg s endless e h = elim h [ ]

  pub unthrown-Ok :
      (Q : Exception → Type 0) (msg : Bytes) (s : k.State)
      → Holds (Ok msg s) Q (unthrown (write_to_socket k msg s))
  unthrown-Ok Q msg s =
      outcome-Ok Q msg s (write_to_socket k msg s) refl (write_to_socket-Written asio k law msg s)

  abbrev pub Got : ℕ → k.State → Bytes → k.State → Type 0
  Got size s b t = (length b ≡ size) × (law.incoming s ≡ b ++ law.incoming t)

  outcome-Got :
      (Q : Exception → Type 0) (size : ℕ) (s : k.State) (o : Outcome k.State Bytes)
      → ((x : Exception) → IsReadFailure asio k law x → Q x)
      → HasRead asio k law (IsReadFailure asio k law) size (law.incoming s) o
      → Holds (Got size s) Q o
  outcome-Got Q size s (done b t) failure h = h
  outcome-Got Q size s (threw x t) failure h = failure x h.0
  outcome-Got Q size s endless failure h = elim h [ ]

  pub read-Got :
      (Q : Exception → Type 0) (size : ℕ) (s : k.State)
      → ((x : Exception) → IsReadFailure asio k law x → Q x)
      → Holds (Got size s) Q (read_from_socket k size s)
  read-Got Q size s failure =
      outcome-Got Q size s (read_from_socket k size s) failure
        (read_from_socket-HasRead asio k law size s)

  -- A read of what has come is the message.
  pub same_text :
      (msg b : Bytes) (s t : k.State)
      → law.incoming s ≡ msg
      → Got (length msg) s b t
      → bytes_eq msg b ≡ true
  same_text msg b s t comes got =
      let same = same_length msg b (law.incoming t) (sym comes ∙ got.1) got.0 in
      rw same (bytes_eq_refl msg)

module _ (asio : AsioError) (server client : Socket) (at_server : SocketLaws asio server)
    (at_client : SocketLaws asio client) where
  -- The two reads agree with the message, unless one of the writes threw.
  abbrev pub Agrees : List Bool → Both server client → Type 0
  Agrees (w ∷ w' ∷ r ∷ r' ∷ []) t = (w && w' ≡ false) ⊎ ((r ≡ true) × (r' ≡ true))
  Agrees _ t = ⊥

  abbrev pub IsFailedRead : Exception → Type 0
  IsFailedRead x = IsReadFailure asio server at_server x ⊎ IsReadFailure asio client at_client x

  agree :
      (msg : Bytes) (s s₁ s₂ : server.State) (c c₁ c₂ : client.State) (w w' : Bool) (r r' : Bytes)
      → at_server.sent s ≡ []
      → at_client.sent c ≡ []
      → ((t : server.State) (u : client.State)
          → write_to_socket server msg s ≡ done tt t
          → write_to_socket client msg c ≡ done tt u
          → (at_server.incoming t ≡ at_client.sent u) × (at_client.incoming u ≡ at_server.sent t))
      → Ok asio server at_server msg s w s₁
      → Ok asio client at_client msg c w' c₁
      → Got asio server at_server (length msg) s₁ r s₂
      → Got asio client at_client (length msg) c₁ r' c₂
      → (w && w' ≡ false) ⊎ ((bytes_eq msg r ≡ true) × (bytes_eq msg r' ≡ true))
  agree msg s s₁ s₂ c c₁ c₂ w w' r r' new new' carried (inl e) ok' got got' = inl (rw e refl)
  agree msg s s₁ s₂ c c₁ c₂ w w' r r' new new' carried (inr e) (inl e') got got' =
      inl (ground arith)
  agree msg s s₁ s₂ c c₁ c₂ w w' r r' new new' carried (inr e) (inr e') got got' =
      let came = carried s₁ c₁ e e' in
      let sends : at_server.sent s₁ ≡ at_server.sent s ++ msg =
        subst
          (Written asio server at_server (IsWriteFailure asio server at_server) (at_server.sent s)
            msg)
          e (write_to_socket-Written asio server at_server msg s) in
      let sends' : at_client.sent c₁ ≡ at_client.sent c ++ msg =
        subst
          (Written asio client at_client (IsWriteFailure asio client at_client) (at_client.sent c)
            msg)
          e' (write_to_socket-Written asio client at_client msg c) in
      inr (
        same_text asio server at_server msg r s₁ s₂ (came.0 ∙ sends' ∙ ap (λ b. b ++ msg) new') got,
        same_text asio client at_client msg r' c₁ c₂ (came.1 ∙ sends ∙ ap (λ b. b ++ msg) new) got',
      )

  -- On a new connection, where each end has still to read what the other has sent: the test ends; it is
  -- left only by the message of a read that failed; and where neither write threw, what either end reads
  -- is the whole message, whatever parts the calls moved.
  pub write_read-Agrees :
      (msg : Bytes) (s : server.State) (c : client.State)
      → at_server.sent s ≡ []
      → at_client.sent c ≡ []
      → ((t : server.State) (u : client.State)
          → write_to_socket server msg s ≡ done tt t
          → write_to_socket client msg c ≡ done tt u
          → (at_server.incoming t ≡ at_client.sent u) × (at_client.incoming u ≡ at_server.sent t))
      → Holds Agrees IsFailedRead (write_read server client msg (s, c))
  unfolding write_read
  write_read-Agrees msg s c new new' carried =
      first_then (Ok asio server at_server msg s) Agrees IsFailedRead
        (λ t. unthrown (write_to_socket server msg t)) _ s c
        (unthrown-Ok asio server at_server IsFailedRead msg s)
        λ w s₁ ok.
          second_then (Ok asio client at_client msg c) Agrees IsFailedRead
            (λ u. unthrown (write_to_socket client msg u)) _ s₁ c
            (unthrown-Ok asio client at_client IsFailedRead msg c)
            λ w' c₁ ok'.
              first_then (Got asio server at_server (length msg) s₁) Agrees IsFailedRead
                (read_from_socket server (length msg)) _ s₁ c₁
                (read-Got asio server at_server IsFailedRead (length msg) s₁ (λ x h. inl h))
                λ r s₂ got.
                  second_then (Got asio client at_client (length msg) c₁) Agrees IsFailedRead
                    (read_from_socket client (length msg)) _ s₂ c₁
                    (read-Got asio client at_client IsFailedRead (length msg) c₁ (λ x h. inr h))
                    λ r' c₂ got'.
                      agree msg s s₁ s₂ c c₁ c₂ w w' r r' new new' carried ok ok' got got'
