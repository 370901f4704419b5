-- ===== src/Go.antt =====
-- What the program uses of Go and its standard library: texts, maps, errors, time, and calls that
-- read or change the outside world.
pub mod Text
pub mod Dict
pub mod Error
pub mod Time
pub mod Act
pub mod Check
pub mod Http
pub mod Json
