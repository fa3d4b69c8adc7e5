-- ===== src/Tests.antt =====
-- Runs of the model at concrete inputs, and each theorem with hypotheses at an input that meets them.
mod Sets
mod Contexts
mod Versions
mod Tables
mod Maps
mod Feedback
mod Ranges
mod Stores
mod Bytecodes
mod Functions
mod PirTypes
mod Arguments
