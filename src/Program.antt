-- ===== src/Program.antt =====
-- Asynchronous code that calls its ports: a tree of calls, each with a continuation for every answer.
mod Core
pub mod Safe
pub use Core.{Program, return, raise, call, ◌>>=◌, ◌>>◌, ask, attempt, try_else, check}
