-- ===== src/Examples.antt =====
-- The theorems at concrete inputs, over one way to provide what the repository does not hold.
mod AsciiBoost
mod Decide
mod Url
mod Http
mod Server
mod Parser
mod Rest
mod System
mod Client
mod Session
mod Exchange
mod Forms
mod KeptAlive
mod Detector
