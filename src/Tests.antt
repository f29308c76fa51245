-- ===== src/Tests.antt =====
-- Runs of the definitions at concrete inputs, and the theorems at inputs that meet their hypotheses.
mod QuicTests
mod H2Tests
mod HpackTests
mod SchedulerTests
mod H3Tests
mod FrameTests
mod IoTests
mod WsTests
mod CryptoTests
