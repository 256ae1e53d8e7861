-- ===== src/Tests.antt =====
-- Runs of the models and instances of the theorems at concrete inputs.
mod Machine
mod Rules
mod Engine
mod Store
mod Notifier
mod Memory
mod Accounts
mod Recorder
mod Writer
mod Synoptics
mod Poller
mod Requests
mod Commands
mod Routes
mod Editing
mod Acknowledge
