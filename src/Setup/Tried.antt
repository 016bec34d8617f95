-- ===== src/Setup/Tried.antt =====
-- What a call gives back or throws, as a value, and the system that the calls of Asio ask.
use boost_asio_samples.Base.{ℕ, Option, some, none, List, Bytes}
use boost_asio_samples.Errors.{ErrorCode}
use boost_asio_samples.IoBuffers.Calls.{Exception, system_error, runtime_error}

pub data Tried (A : Type 0) : Type 0 where
  returns : A → Tried A
  throws : Exception → Tried A

infixl 5 ◌>>=◌ ◌>>◌
abbrev pub ◌>>=◌ : {A B : Type 0} → Tried A → (A → Tried B) → Tried B
returns a >>= f = f a
throws x >>= f = throws x

abbrev pub ◌>>◌ : {A B : Type 0} → Tried A → Tried B → Tried B
m >> k = m >>= λ _. k

-- An address is what `from_string` makes of a text.
pub record Endpoint : Type 0 where
  pub address : Bytes
  pub port : ℕ

-- How the calls of Asio end, each with a code, or with the code that it throws, if it throws.
pub record System : Type 0 where
  pub from_string : Bytes → ErrorCode × Bytes
  pub any : Bytes
  pub open_acceptor : ErrorCode
  pub open_socket : ErrorCode
  pub bind : Endpoint → ErrorCode
  pub listen : ℕ → Option ErrorCode
  -- a socket that is not open, and one of a protocol
  pub make_socket : Option ErrorCode
  pub make_open_socket : Option ErrorCode
  pub connect : Endpoint → Option ErrorCode
  pub accept : Option ErrorCode
  pub resolve : Bytes → Bytes → ErrorCode × List Endpoint
  -- `ec.message()`, `e.what()`, an `int` of a code and a code as `<<` prints them
  pub message : ErrorCode → Bytes
  pub what : ErrorCode → Bytes
  pub value_text : ErrorCode → Bytes
  pub code_text : ErrorCode → Bytes

-- `what()` of an exception.
abbrev pub what_of : System → Exception → Bytes
what_of sys (system_error e) = sys.what e
what_of sys (runtime_error b) = b

-- A call that throws a `system_error`, if it throws.
abbrev pub raise : Option ErrorCode → Tried (Unit {0})
raise none = returns tt
raise (some e) = throws (system_error e)
