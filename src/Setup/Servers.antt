-- ===== src/Setup/Servers.antt =====
-- asiolib/servers.hpp and dns-resolve.hpp: what a server does to the promise it is given, and the two
-- ways to ask for end points.
use boost_asio_samples.Base.{
  ℕ, ◌≡◌, ◌≢◌, ◌↔◌, refl, sym, ◌∙◌, ◌++◌, [], ◌∷◌, List, append_assoc, append-nil, Bytes, Bool,
  true, Option, none, some, ◌⊎◌, inl, inr,
}
use boost_asio_samples.Errors.{ErrorCode}
use boost_asio_samples.Setup.Tried.{Tried as Attempt, returns, throws, Endpoint, System, raise}
use boost_asio_samples.Setup.{
  unset, value, failure, Ended, finished, escaped, caught, listening, run_server,
  get_single_client_socket, collect, get_endpoints, get_endpoints_itr,
}

collect_append : (output es : List Endpoint) (sys : System) → collect sys output es ≡ output ++ es
unfolding collect
collect_append output [] sys = sym (append-nil output)
collect_append output (e ∷ es) sys =
    collect_append (output ++ e ∷ []) es sys ∙ append_assoc output (e ∷ []) es

module _ (sys : System) where
  -- `GetEndpoints` and `GetEndpointsItr` agree: the same end points in the same order, or the same
  -- exception.
  pub get_endpoints_agree :
      (host port : Bytes) → get_endpoints sys host port ≡ get_endpoints_itr sys host port
  unfolding get_endpoints get_endpoints_itr
  get_endpoints_agree host port = rw (collect_append [] (sys.resolve host port).1 sys) refl

  abbrev pub Settled : {A : Type 0} → Ended A → Type 0
  Settled (finished unset) = ⊥
  Settled (finished (value a)) = Unit
  Settled (finished (failure b)) = Unit
  Settled (escaped p) = ⊥

  caught_settles : (t : Attempt (Unit {0})) → Settled (caught sys unset (λ u. finished (value u)) t)
  caught_settles (returns u) = tt
  caught_settles (throws x) = tt

  -- Whatever fails, `GetSingleClientSocket` returns and leaves its promise with the socket or with the
  -- message of the exception.
  pub get_single_client_socket-Settled :
      (backlog port : ℕ) → Settled (get_single_client_socket sys backlog port)
  unfolding get_single_client_socket
  get_single_client_socket-Settled backlog port = caught_settles _

  -- `RunServer` from how listening and accepting end.
  abbrev run_from : Attempt (Unit {0}) → Option ErrorCode → Ended Bool
  run_from t o =
      caught sys unset (λ _. caught sys (value true) (λ _. finished (value true)) (raise o)) t

  run_from_escapes :
      (t : Attempt (Unit {0})) (o : Option ErrorCode)
      → ((run_from t o ≡ escaped (value true)) ↔ ((t ≡ returns tt) × (o ≢ none)))
        × (Settled (run_from t o) ⊎ (run_from t o ≡ escaped (value true)))
  run_from_escapes (returns u) none = (((λ h. absurd cc), λ h. absurd (h.1 refl)), inl tt)
  run_from_escapes (returns u) (some e) = (((λ h. (refl, λ k. cc)), λ h. refl), inr refl)
  run_from_escapes (throws x) o = (((λ h. absurd cc), λ h. (let e = h.0 in absurd cc)), inl tt)

  -- An exception leaves `RunServer` exactly when the server listens and the
  -- call of `accept` fails: the promise has its value then and cannot take the exception. Otherwise
  -- the function returns and has settled its promise.
  pub run_server_escapes :
      (backlog port : ℕ)
      → ((run_server sys backlog port ≡ escaped (value true))
          ↔ ((listening sys backlog port ≡ returns tt) × (sys.accept ≢ none)))
        × (Settled (run_server sys backlog port)
            ⊎ (run_server sys backlog port ≡ escaped (value true)))
  unfolding run_server
  run_server_escapes backlog port = run_from_escapes (listening sys backlog port) sys.accept
