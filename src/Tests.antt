-- ===== src/Tests.antt =====
-- Runs of the model on small inputs, and each theorem at an input that meets its hypotheses.
mod Buffer
mod Queue
mod Lifecycle
mod Wire
mod Reconnect
mod Returning
mod Owning
mod Paths
mod Wstest
mod Routes
mod Starting
mod Serving
mod Settings
mod Sharing
mod Paging
