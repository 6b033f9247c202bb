-- ===== src/Tests.antt =====
-- Runs of the model at concrete inputs, and each theorem with a hypothesis at an input that meets it.
mod Wire
mod Places
mod Blocks
mod Trees
mod Chains
mod Tables
mod Items
mod Headers
mod Texts
mod Players
mod Settings
mod BlockNames
mod Chunks
