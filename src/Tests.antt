-- ===== src/Tests.antt =====
-- Runs of the models at concrete inputs.
mod Data
mod Trees
mod Consuming
mod Pages
mod Sorting
mod Handling
mod Chains
mod Settings
mod Fetching
mod Streams
mod Reading
mod Running
mod Serving
mod Proving
mod Exiting
mod Plain
mod Stopping
