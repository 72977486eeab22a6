-- ===== src/Termios.antt =====
-- core/darwin_ioctl.c: BSD terminal attributes over those of the Linux kernel.
pub mod Words
pub mod Names
pub mod Requests
pub mod Convert
pub mod Bridge
pub mod Masks
pub mod RoundTrip
pub mod Speed
pub mod Slots
pub mod Chars
pub mod Calls
pub mod Terminal
pub mod Attributes
mod Sample
mod Runs
