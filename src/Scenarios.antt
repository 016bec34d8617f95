-- ===== src/Scenarios.antt =====
-- The tests of basics, each as a function over the calls of Asio that it makes: what it reports is a
-- list of the checks of its `EXPECT_`s, or the exception that leaves it.
pub mod Report
pub mod EndPoints
pub mod Binding
pub mod Resolving
pub mod Buffers
pub mod Handlers
pub mod Ends
pub mod Connection
pub mod Shutdown
pub mod Bodies
pub mod HttpTest
mod Tests
