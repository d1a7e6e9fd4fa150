-- ===== src/CString.antt =====
-- The C standard library's strings, as far as the sources use them. A `Text` is the content of a
-- C string, the bytes before its NUL; a `char` array is the list of all of its bytes.
mod Compare
pub mod Buffer
pub mod Number
pub mod Spelled
pub mod Token
pub mod Print
pub mod Literal
unfoldable pub use Compare.*
