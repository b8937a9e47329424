-- ===== src/Tests.antt =====
-- Concrete instances of what the models leave open, and the theorems applied to small data.
pub mod Fields
pub mod KnapsackTests
pub mod RedisTests
pub mod ShareMemoryTests
pub mod TimerTests
pub mod CacheTests
pub mod ChannelTests
pub mod GateTests
pub mod TaskTests
pub mod EventTests
pub mod LogicTests
pub mod ZoneWorlds
pub mod ZoneTests
pub mod LoginTests
