-- ===== src/Text.antt =====
-- Texts as Go has them: lists of bytes. The functions of Go's `strings` package that the program
-- calls, as far as they do not depend on Unicode's case tables (those are parameters of
-- `Text/Case.antt`).
mod Base
mod Trim
mod Split
mod Case
mod Laws
mod Front
mod Words
mod Scanner
pub use Base.{Bytes, str_eq_iff, not-str_eq, bytes_eq}
unfoldable pub use Base.{
  codes, str_eq, has_prefix, has_suffix, cut_prefix, contains, concat, replace_all,
}
unfoldable pub use Trim.{trim_space, trim_cut, trim_suffix, width, last_width, drop_runes}
unfoldable pub use Split.{split, split_n2, fields, join, index}
pub use Case.{Unicode}
unfoldable pub use Case.{to_lower, equal_fold}
pub use Laws.*
pub use Words.{fields-word, fields_nil}
pub use Front.{trim_space-head}
pub use Scanner.{Scanned}
unfoldable pub use Scanner.{scan_lines, base_name}
