-- ===== src/Actions.antt =====
-- src/parsing/actions.c, the actions of the grammar: declarations and expressions in the child
-- `Expressions`, conditions in `Conditions`, control structures and calls in `Control`.
pub mod Expressions
pub mod Conditions
pub mod Control
pub mod Code
pub mod Jumps
pub mod Loops
pub mod Numbering
pub mod ForLoops
pub mod Operands
mod Tests
