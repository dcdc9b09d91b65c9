-- ===== src/Vs/Postprocess.antt =====
-- vs/postprocess.rs: the filter of preprocessed output. Its parts are the buffer, the literals, the
-- directives and the loop of the filter.
pub mod Buffer
pub mod Literals
pub mod Directives
pub mod Filter
pub mod Moves
pub mod Skips
pub mod Lines
pub mod Tokens
pub mod Quoted
pub mod Marks
pub mod Words
pub mod Whole
pub mod Filtered
pub mod Subpath
mod Tests
