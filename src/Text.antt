-- ===== src/Text.antt =====
-- Go strings as lists of code points, and the functions of the packages strings and strconv that the
-- program calls. Literals are written by `codes`.
pub mod Basic
pub mod Trim
pub mod Search
pub mod Split
pub mod Fields
pub mod Number
pub mod Letters
pub mod Path
pub mod Suffix
pub mod Order
