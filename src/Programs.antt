-- ===== src/Programs.antt =====
-- The computations of the sample programs in programs/.
pub mod Act
pub mod Countdown
pub mod Bitacora
pub mod BusyLoop
pub mod Primes
pub mod Fibonacci
pub mod Sockets
pub mod Channel
pub mod Squares
pub mod PingPong
pub mod Diamond
pub mod Memory
pub mod Lottery
