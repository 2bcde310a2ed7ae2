-- ===== src/Operator.antt =====
-- apps/operator-cli: the command line with which an operator looks at threads and moves them.
pub mod Commands
pub mod Service
mod Tests
