-- ===== src/Scenarios/Report.antt =====
-- What a test of basics reports.
use boost_asio_samples.Base.{Bool, true, false, ◌&&◌, List, [], ◌∷◌}
use boost_asio_samples.Setup.Tried.{Tried as Attempt, returns, throws}

-- A check that fails does not end the test; an exception does.
abbrev pub Report : Type 0
Report = Attempt (List Bool)

-- `EXPECT_THROW(…, std::runtime_error)`: a `system_error` of Boost is a `std::runtime_error` too.
abbrev pub expect_throw : {A : Type 0} → Attempt A → Bool
expect_throw (returns a) = false
expect_throw (throws x) = true

abbrev pub expect_no_throw : {A : Type 0} → Attempt A → Bool
expect_no_throw (returns a) = true
expect_no_throw (throws x) = false

abbrev pub all_hold : List Bool → Bool
all_hold [] = true
all_hold (c ∷ cs) = c && all_hold cs

abbrev pub passed : Report → Bool
passed (returns checks) = all_hold checks
passed (throws x) = false
