-- ===== src/Compressor.antt =====
-- The compressor: src/Field.hpp, src/Message.h, src/FieldInstructionInteger.hpp,
-- src/FieldInstructionString.hpp, src/Template.hpp, src/Templates.hpp and src/Context.hpp.
pub mod Fields
pub mod Integer
pub mod InStep
pub mod Full
pub mod Strings
pub mod StringStep
pub mod Template
pub mod Step
pub mod StepBack
pub mod Rows
pub mod Loops
pub mod PresenceMap
pub mod TemplateStep
pub mod Values
pub mod Context
pub mod ContextStep
pub mod Ends
mod Examples
mod Exchange
