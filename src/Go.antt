-- ===== src/Go.antt =====
-- What the program uses of Go's standard library on texts (`strings`, `sort`, `strconv`).
pub mod Strings
pub mod Numbers
pub mod Sort
