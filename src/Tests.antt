-- ===== src/Tests.antt =====
-- The theorems at concrete inputs, and runs of the model.
mod Fixtures
mod ConfigTests
mod RemoteTests
mod ParseTests
mod PingedTests
mod DialTests
mod SchedulerTests
mod ProberTests
mod CollectorTests
mod HandlerTests
mod ReloadTests
