-- ===== src/Play.antt =====
-- src/play.cpp. `Streams` has the choice of the streams, `Loop` the loop that reads the file, with the
-- queues that it writes to; `Markers` and `Reach` are about its runs. `Opening` has the way to the loop
-- and what every way closes.
pub mod Streams
pub mod Loop
pub mod Opening
pub mod Markers
pub mod Reach
mod Examples
