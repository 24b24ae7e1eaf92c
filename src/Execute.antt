-- ===== src/Execute.antt =====
-- The instructions of extractions/python/src/evm/evm/execute.py that compute on the operand stack.
pub mod Guard
pub mod Instructions
pub mod Spec
pub mod Refines
pub mod Program
pub mod Steps
pub mod Frames
mod Tests
