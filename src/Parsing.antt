-- ===== src/Parsing.antt =====
-- src/parsing: what the parser of scripts is built from.
pub mod Results
pub mod Error
pub mod Combinators
pub mod Looping
pub mod Errors
pub mod Report
pub mod Lines
pub mod Reports
pub mod Keys
pub mod Nom
pub mod Lexer
pub mod KeyParsers
pub mod Interface
pub mod Expressions
pub mod Statements
pub mod Grammar
pub mod Precedence
pub mod NomLaws
pub mod Progress
pub mod Runs
pub mod Operands
pub mod Printing
pub mod Flags
