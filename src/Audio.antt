-- ===== src/Audio.antt =====
-- src/audio.cpp. `Blocks` has how frames are cut into the blocks of the device, `Device` the device
-- that all players share and how it is opened and closed, `Callback` the channels that the device
-- plays, `Frames` the frames that the display thread owns, and `Shutdown` the threads
-- that `close` waits for; `Closing` is about when it returns.
pub mod Blocks
pub mod Cut
pub mod Device
pub mod Sharing
pub mod Callback
pub mod Active
pub mod Mixing
pub mod Frames
pub mod Ownership
pub mod Shutdown
pub mod Work
pub mod Closing
mod Examples
