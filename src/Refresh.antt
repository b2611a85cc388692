-- ===== src/Refresh.antt =====
-- Publishing a response: `SendRefresh` and `GeneratePELock` of src/psych.cc, and marketpsych.hh.
pub mod Fields
pub mod Rows
pub mod Aligned
pub mod Described
pub mod Complete
pub mod Safe
pub use Fields.{
  Built, built, check_failed, out_of_bounds, ◌>>=◌, find_field, stock_ric, source_feed_name,
  time_of_update, active_date, engine_version_id,
}
unfoldable pub use Fields.{round_half_up, mantissa, column_fields, value_entry, common_fields}
pub use Rows.{NameMap, Published, published_all, interrupted, faulted, find_name}
unfoldable pub use Rows.{generate_pe_lock, market_price, send_row, send_rows, send_refresh}
