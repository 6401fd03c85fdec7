-- ===== src/WebHandler.antt =====
-- The web handlers of webHandlerInternal.cpp. libevent and the worker threads stand outside.
mod Tests
pub mod Form
pub mod Buffer
pub mod Written
pub mod Values
pub mod Walk
pub mod Encoding
pub mod RoundTrip
pub mod Routing
pub mod Routes
pub mod Hits
pub mod Html
pub mod Pages
pub mod Output
pub mod Process
pub mod Serving
pub mod Selected
pub mod Answers
pub mod Reading
pub mod Posting
