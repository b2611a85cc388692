-- ===== src/Http/Table/Lines.antt =====
-- The four states of the parser, and its loop over the lines.
use psych.Prelude.{ℕ, Bool, false, List, [], ◌∷◌, ◌++◌, map, ltb, ◌==◌, if◌then◌else◌, length}
use psych.Prelude.Bytes.{Bytes}
use psych.Platform.{Platform}
use psych.Http.Header.{Parsed, go, fail, escape, ◌>>=◌, Stamp, parse_stamp}

pub data ParseState : Type 0 where
  timestamp header row fin : ParseState

-- a sector and its values
abbrev pub Row : Platform → Type 0
Row plat = Bytes × List plat.Double

-- what `OnHttpResponse` returns through its arguments
pub record Document (plat : Platform) : Type 0 where
  pub stamp : Stamp
  pub columns : List Bytes
  pub rows : List (Row plat)

-- `'#' == t.token()[0]`, for a line with a first byte
abbrev pub is_hash : Bytes → Bool
is_hash [] = false
is_hash (c ∷ cs) = c == b'#'

-- the first line
stamp_line : (plat : Platform) → Document plat → Bytes → Parsed (ParseState × Document plat)
stamp_line plat doc token = do
  stamp ← parse_stamp plat doc.stamp token
  go (header, record doc { stamp = stamp })

-- the names of the columns
columns_line : (plat : Platform) → Document plat → Bytes → Parsed (ParseState × Document plat)
columns_line plat doc token =
    let columns = doc.columns ++ plat.split_tabs token in
    if ltb (length columns) 2 then fail else go (row, record doc { columns = columns })

-- a row of as many cells as there are columns, the first of them the sector
unfoldable pub read_row : (plat : Platform) → List Bytes → Parsed (Row plat)
read_row plat [] = escape
read_row plat (sector ∷ values) = go (sector, map plat.read_double values)

unfoldable pub add_row : (plat : Platform) → Document plat → List Bytes → Parsed (Document plat)
unfolding read_row
add_row plat doc row_text = do
  r ← read_row plat row_text
  go (record doc { rows = doc.rows ++ r ∷ [] })

row_line : (plat : Platform) → Document plat → Bytes → Parsed (ParseState × Document plat)
unfolding add_row
row_line plat doc token =
    if is_hash token
    then go (fin, doc)
    else if length (plat.split_tabs token) == length doc.columns
    then (do doc' ← add_row plat doc (plat.split_tabs token); go (row, doc'))
    else go (row, doc)

-- the body of the loop, but for `STATE_FIN`, where the loop is left
unfoldable pub parse_token :
    (plat : Platform) → ParseState → Document plat → Bytes → Parsed (ParseState × Document plat)
unfolding stamp_line columns_line row_line
parse_token plat timestamp doc token = stamp_line plat doc token
parse_token plat header doc token = columns_line plat doc token
parse_token plat row doc token = row_line plat doc token
parse_token plat fin doc token = go (fin, doc)

unfoldable pub parse_tokens :
    (plat : Platform) → ParseState → Document plat → List Bytes → Parsed (Document plat)
unfolding parse_token
parse_tokens plat state doc [] = go doc
parse_tokens plat fin doc (token ∷ rest) = go doc
parse_tokens plat state doc (token ∷ rest) =
    parse_token plat state doc token >>= λ r. parse_tokens plat r.0 r.1 rest

-- The description of the table: the lines before the first that begins with `#`, ...
abbrev pub data_lines : List Bytes → List Bytes
data_lines [] = []
data_lines (l ∷ ls) = if is_hash l then [] else l ∷ data_lines ls

abbrev pub row_of : (plat : Platform) → List Bytes → List (Row plat)
row_of plat [] = []
row_of plat (sector ∷ values) = (sector, map plat.read_double values) ∷ []

-- ... and of these the ones with as many cells as there are columns.
abbrev pub table_rows : (plat : Platform) → ℕ → List Bytes → List (Row plat)
table_rows plat width [] = []
table_rows plat width (l ∷ ls) =
    (if length (plat.split_tabs l) == width then row_of plat (plat.split_tabs l) else [])
    ++ table_rows plat width ls
