-- ===== src/Dispatch.antt =====
-- src/dispatch: the queue's runtime claim, and the continuous driver.
--   Dispatch.Queue        claims, and how one is taken
--   Dispatch.Continuous   the loop of `dispatchContinuously`
--   Dispatch.Taken        what is known of a claim that was taken
--   Dispatch.Claims       what holds of claims that are taken
--   Dispatch.Recovery     the run that a claim owns
pub mod Queue
pub mod Continuous
pub mod Taken
pub mod Claims
pub mod Recovery
