-- ===== src/Console/Reading.antt =====
-- How the console reads a request (`read_request`, console.rs). White space and case are those of
-- ASCII; `String::from_utf8_lossy` is an argument.
use tarsk.Base.{
  Bool, List, Option, Text, [], drop, if◌then◌else◌, is_empty, leb, length, map, nat_eq, none, some,
  take, text, text_eq, ℕ, ◌&&◌, ◌*◌, ◌++◌, ◌+◌, ◌==◌, ◌||◌, ◌∷◌,
}
use tarsk.Console.{Request, trim_end, trim_start}
use tarsk.Base.Dict.{is_some}
use tarsk.Base.Splitting.{split, split_once, split_whitespace}

abbrev pub max_request : ℕ
max_request = 16 * 1024

abbrev pub head_end : Text
head_end = 13 ∷ 10 ∷ 13 ∷ 10 ∷ []

-- The halves around the first occurrence of a pattern.
unfoldable pub split_once_at : Text → Text → Option (Text × Text)
split_once_at pattern_text [] = none
split_once_at pattern_text (x ∷ xs) =
    let rest = split_once_at pattern_text xs in
    if take (length pattern_text) (x ∷ xs) == pattern_text
    then some ([], drop (length pattern_text) (x ∷ xs))
    else elim rest [ none ↦ none | some halves ↦ some (x ∷ halves.0, halves.1) ]

abbrev pub is_complete : Text → Bool
is_complete raw = is_some (split_once_at head_end raw) || leb max_request (length raw)

-- The loop over the reads of the stream: `none` is an error or the end of the ten seconds, and an
-- empty read is the end of the stream. A list that ends first is a client that has gone silent.
unfoldable pub gather : (raw : Text) → List (Option Text) → Option Text
unfolding split_once_at
gather raw [] = if is_complete raw then some raw else none
gather raw (read ∷ reads) =
    let more = λ (chunk : Text). gather (raw ++ chunk) reads in
    if is_complete raw
    then some raw
    else elim read [ none ↦ none | some chunk ↦ if is_empty chunk then some raw else more chunk ]

abbrev pub strip_return : Text → Text
strip_return [] = []
strip_return (x ∷ []) = if x == 13 then [] else x ∷ []
strip_return (x ∷ y ∷ rest) = x ∷ strip_return (y ∷ rest)

-- What `str::lines` makes of the pieces between line feeds.
abbrev pub clean_lines : List Text → List Text
clean_lines [] = []
clean_lines (last ∷ []) = if is_empty last then [] else last ∷ []
clean_lines (line ∷ next_line ∷ rest) = strip_return line ∷ clean_lines (next_line ∷ rest)

abbrev pub lower : ℕ → ℕ
lower x = if leb b'A' x && leb x b'Z' then x + 32 else x

abbrev pub to_ascii_lowercase : Text → Text
to_ascii_lowercase = map lower

abbrev pub starts_with : (prefix body : Text) → Bool
starts_with prefix body = take (length prefix) body == prefix

-- The first line with the name, of all lines of the head.
unfoldable pub header_in : (name : Text) → List Text → Text
header_in name [] = []
header_in name (line ∷ lines) =
    let rest = header_in name lines in
    if starts_with (name ++ text ":") (to_ascii_lowercase line)
    then (elim (split_once b':' line) [ none ↦ [] | some halves ↦ trim_end (trim_start halves.1) ])
    else rest

abbrev pub first_piece : Text → List Text → Text
first_piece whole [] = whole
first_piece whole (piece ∷ pieces) = piece

abbrev pub request_of : (method target body : Text) → List Text → Request
request_of method target body lines = record {
  method = method;
  path = first_piece target (split b'?' target);
  authorization = header_in (text "authorization") lines;
  fetch_site = to_ascii_lowercase (header_in (text "sec-fetch-site") lines);
  origin = header_in (text "origin") lines;
  host = header_in (text "host") lines;
  body = body;
}

abbrev pub from_words : List Text → (body : Text) → List Text → Option Request
from_words (method ∷ target ∷ words) body lines = some (request_of method target body lines)
from_words (method ∷ []) body lines = none
from_words [] body lines = none

unfoldable pub read_lines : List Text → (body : Text) → Option Request
unfolding split split_whitespace header_in
read_lines [] body = none
read_lines (first ∷ rest) body = from_words (split_whitespace first) body (first ∷ rest)

unfoldable pub read_request : (lossy : Text → Text) → List (Option Text) → Option Request
unfolding gather split_once_at read_lines split
read_request lossy reads = elim (gather [] reads) [
  | none ↦ none
  | some raw ↦ elim (split_once_at head_end (lossy raw)) [
    | none ↦ none
    | some halves ↦ read_lines (clean_lines (split 10 halves.0)) halves.1
  ]
]
