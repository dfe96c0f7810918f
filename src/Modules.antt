-- ===== src/Modules.antt =====
-- plugins/modules: the decisions of amt_power and amt_log_clear, from the options to what is sent.
-- An AmtError that reaches the module's end fails the task with its class; it is the error here.
pub mod Power
pub mod LogClear
pub mod PowerRuns
pub mod ClearRuns
mod Tests
