-- ===== src/Display.antt =====
-- The display: the queue of requests and the loop of its thread in display.cpp. A method under the mutex is one
-- step. What displayInternal.cpp does is an interface, whose state the thread owns.
mod Tests
pub mod Thread
pub mod Fifo
pub mod Message
pub mod Modes
pub mod Backgrounds
pub mod Ticks
pub mod Transitions
pub mod Steps
pub mod Lasting
