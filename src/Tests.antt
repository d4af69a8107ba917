-- ===== src/Tests.antt =====
-- Concrete values, states and runs, on which the theorems are applied.
mod Data
mod PolicyTests
mod DequeTests
mod ChannelTests
mod SemaphoreTests
mod AsyncRuns
mod AsyncSends
mod PiTests
mod HandshakeTests
mod DeriveTests
mod HostTests
mod ThreadTests
mod CellTests
mod CouplerTests
mod TimeTests
mod Crate
