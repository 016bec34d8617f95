-- ===== src/IoBuffers/Calls.antt =====
-- Synchronous calls of a socket: each returns or throws, and leaves the socket in a new state. What
-- Boost.Asio does in them is a parameter; `SocketLaws` states what its documentation says of them.
use boost_asio_samples.Base.{
  ℕ, ◌≤◌, ◌<◌, none, [], ◌++◌, ◌≡◌, refl, ◌⊎◌, inl, inr, ◌≢◌, Bytes, length, take, after,
}
use boost_asio_samples.Errors.{ErrorCode, AsioError}

-- `boost::system::system_error` with its code, or `std::runtime_error` with its message.
pub data Exception : Type 0 where
  system_error : ErrorCode → Exception
  runtime_error : Bytes → Exception

-- What a call of Asio does: it throws a `system_error` of a code, or returns.
pub data Result (S A : Type 0) : Type 0 where
  failed_with : ErrorCode → S → Result S A
  returned : A → S → Result S A

-- What a function does. `endless` stands for a loop that was not done within the rounds of the model.
pub data Outcome (S A : Type 0) : Type 0 where
  done : A → S → Outcome S A
  threw : Exception → S → Outcome S A
  endless : Outcome S A

abbrev pub Action : Type 0 → Type 0 → Type 0
Action S A = S → Outcome S A

abbrev pub translate : (ErrorCode → Bytes) → Exception → Exception
translate msg (system_error e) = runtime_error (msg e)
translate msg (runtime_error b) = runtime_error b

module _ {S A : Type 0} where
  abbrev pub pure : A → Action S A
  pure a s = done a s

  abbrev pub call : (S → Result S A) → Action S A
  call c s = elim (c s) [ failed_with e t ↦ threw (system_error e) t | returned a t ↦ done a t ]

  -- `catch (const system_error& e)` that throws a `runtime_error` with the message `msg`.
  abbrev pub rethrow : (ErrorCode → Bytes) → Action S A → Action S A
  rethrow msg m s = elim (m s) [
    | done a t ↦ done a t
    | threw x t ↦ threw (translate msg x) t
    | endless ↦ endless
  ]

infixl 5 ◌>>=◌ ◌>>◌
abbrev pub ◌>>=◌ : {S A B : Type 0} → Action S A → (A → Action S B) → Action S B
◌>>=◌ m f s = elim (m s) [ done a t ↦ f a t | threw x t ↦ threw x t | endless ↦ endless ]

abbrev pub ◌>>◌ : {S A B : Type 0} → Action S A → Action S B → Action S B
m >> k = m >>= λ _. k

pub Result-cases :
    {S A : Type 0} (r : Result S A)
    → ((e : ErrorCode) × (t : S) × (r ≡ failed_with e t)) ⊎ ((a : A) × (t : S) × (r ≡ returned a t))
Result-cases (failed_with e t) = inl (e, t, refl)
Result-cases (returned a t) = inr (a, t, refl)

-- What holds after a call: `P` where it failed, `Q` where it returned.
abbrev pub After : {S A : Type 0} → Result S A → (S → Type 0) → (A → S → Type 0) → Type 0
After (failed_with e t) P Q = P t
After (returned a t) P Q = Q a t

-- The calls of Asio that asiolib/io_buffers.hpp makes on one socket.
pub record Socket : Type 1 where
  pub State : Type 0
  -- `write_some` returns how many of the bytes it took
  pub write_some : Bytes → State → Result State ℕ
  -- `read_some` puts its bytes at the start of a buffer of that size
  pub read_some : ℕ → State → Result State Bytes
  -- `asio::write`, `asio::read` of a buffer of that size, `asio::read_until` of a delimiter
  pub write : Bytes → State → Result State ℕ
  pub read : ℕ → State → Result State Bytes
  pub read_until : ℕ → State → Result State Bytes
  -- `asio::read` of an unbounded buffer, which gives its error back with what it has read
  pub read_to_end : State → (ErrorCode × Bytes) × State
  -- `shutdown(shutdown_send)`
  pub shutdown_send : State → Result State (Unit {0})
  -- `what()` of a `system_error`
  pub what : ErrorCode → Bytes

-- What is documented: a call of `write_some` or `read_some` on a buffer that is not empty moves at
-- least one byte or fails; the composed calls move everything or fail; bytes keep their order.
pub record SocketLaws (asio : AsioError) (k : Socket) : Type 0 where
  -- the bytes that the socket has taken, and those that are still to be read from it
  pub sent : k.State → Bytes
  pub incoming : k.State → Bytes
  pub write_some_lem :
      (b : Bytes) (s : k.State)
      → b ≢ []
      → After
          (k.write_some b s)
          (λ t. sent t ≡ sent s)
          (λ m t. (0 < m) × (m ≤ length b) × (sent t ≡ sent s ++ take m b))
  pub read_some_lem :
      (n : ℕ) (s : k.State)
      → 0 < n
      → After
          (k.read_some n s)
          (λ t. incoming t ≡ incoming s)
          (λ b t. (0 < length b) × (length b ≤ n) × (incoming s ≡ b ++ incoming t))
  pub write_lem :
      (b : Bytes) (s : k.State)
      → After
          (k.write b s)
          (λ t. Unit)
          (λ m t. (m ≡ length b) × (sent t ≡ sent s ++ b) × (incoming t ≡ incoming s))
  pub read_lem :
      (n : ℕ) (s : k.State)
      → After (k.read n s) (λ t. Unit) (λ b t. (length b ≡ n) × (incoming s ≡ b ++ incoming t))
  pub read_until_lem :
      (d : ℕ) (s : k.State)
      → After
          (k.read_until d s)
          (λ t. Unit)
          (λ b t. (after d b ≢ none) × (incoming s ≡ b ++ incoming t) × (sent t ≡ sent s))
  pub read_to_end_lem :
      (s : k.State)
      → let r = k.read_to_end s in
        (incoming s ≡ r.0.1 ++ incoming r.1)
        × (r.0.0 ≡ asio.eof → incoming r.1 ≡ [])
        × (sent r.1 ≡ sent s)
  pub shutdown_lem :
      (s : k.State)
      → After (k.shutdown_send s) (λ t. Unit) (λ u t. (sent t ≡ sent s) × (incoming t ≡ incoming s))
