-- ===== src/OsThread.antt =====
-- core/OSThread.c: thread-local storage, mutexes, once, attributes and thread creation. Tls.antt,
-- Mutex.antt, Once.antt, Attributes.antt and Create.antt have the functions, and the files below
-- them what they satisfy.
pub mod Outcome
pub mod Tls
pub mod Mutex
pub mod Once
pub mod Attributes
pub mod Create
mod Runs
