-- ===== src/Http/Table.antt =====
-- The lines of a response: the parser's state machine in `OnHttpResponse` of src/psych.cc.
mod Lines
pub mod Width
mod Total
pub use Lines.{Document, ParseState, timestamp, header, row, fin, Row, is_hash}
unfoldable pub use Lines.{parse_token, parse_tokens, read_row, add_row}
pub use Lines.{data_lines, table_rows}
pub use Total.{parse_tokens-ne-escape}
