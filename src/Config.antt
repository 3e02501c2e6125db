-- ===== src/Config.antt =====
-- config.c: the lines of a configuration file, and the buffer that keeps the lines of an object for
-- later. A text is the list of its bytes, without the NUL at its end.
pub mod Lines
pub mod Buffer
pub mod Values
pub mod Arrays
use libproc.Prelude.{
  ℕ, zero, suc, ◌+◌, ◌-◌, ◌*◌, ◌^◌, ◌%◌, Bool, true, false, not, ◌&&◌, ◌||◌, ◌==◌, ltb, leb, Option,
  none, some, List, [], ◌∷◌, ◌++◌, length, take, if◌then◌else◌,
}

abbrev newline : ℕ
newline = 10

abbrev is_eol : ℕ → Bool
is_eol c = c == newline || c == 13

-- isblank
abbrev is_blank : ℕ → Bool
is_blank c = c == 32 || c == 9

abbrev is_empty : List ℕ → Bool
is_empty [] = true
is_empty (c ∷ s) = false

-- `buff[len - 1] == '\n'`
unfoldable pub ends_line : List ℕ → Bool
ends_line [] = false
ends_line (c ∷ s) = let rest = ends_line s in elim s [ [] ↦ c == newline | (d ∷ t) ↦ rest ]

unfoldable pub strip_end : List ℕ → List ℕ
strip_end [] = []
strip_end (c ∷ s) = let rest = strip_end s in if is_eol c && is_empty rest then [] else c ∷ rest

unfoldable pub strip_start : List ℕ → List ℕ
strip_start [] = []
strip_start (c ∷ s) = let rest = strip_start s in if is_blank c then rest else c ∷ s

unfoldable pub cleaned : List ℕ → List ℕ
unfolding strip_end strip_start
cleaned s = strip_start (strip_end s)

-- An empty line, or one that starts with `#` or `;`.
abbrev pub skipped : List ℕ → Bool
skipped [] = true
skipped (c ∷ s) = c == 35 || c == 59

-- What NextLine leaves: the line, unless the file is done, lineNum, and what fgets will give.
pub record Reading : Type 0 where
  pub line : Option (List ℕ)
  pub line_num : ℕ
  pub chunks : List (List ℕ)

-- NextLine on a file. `chunks` are the results of fgets, and the flag is `skipFlag`.
unfoldable pub next_line : Bool → ℕ → List (List ℕ) → Reading
unfolding ends_line cleaned
next_line skip_flag n [] = record { line = none; line_num = n; chunks = [] }
next_line skip_flag n (s ∷ chunks) =
    let flipped = next_line (not skip_flag) (n + 1) chunks in
    let same = next_line skip_flag (n + 1) chunks in
    if is_empty s
    then same
    else if not (ends_line s) || skip_flag
    then flipped
    else if skipped (cleaned s)
    then same
    else record { line = some (cleaned s); line_num = n + 1; chunks = chunks }

-- The part of struct CFG_Context that a buffered object uses: `accum` with its first `used` bytes.
pub record Accum : Type 0 where
  pub accum : Option (List ℕ)
  pub len : ℕ

-- The text and the size of the buffer before a line is added; malloc succeeds.
abbrev pub begun : Accum → List ℕ × ℕ
begun a = elim a.accum [
  | none ↦ ([], 1024)
  | some text ↦ if a.len == 0 then ([], 1024) else (text, a.len)
]

-- `ctx->len - ctx->used - 3`, as a size_t.
abbrev pub room_left : ℕ → ℕ → ℕ
room_left len used = (len + (2 ^ 64 - used) + (2 ^ 64 - 3)) % 2 ^ 64

abbrev pub grown : ℕ → ℕ → ℕ → ℕ
grown line_len used len = if leb (room_left len used) line_len then len * 2 % 2 ^ 64 else len

-- memcpy, the newline and the NUL; `none` is a write past the buffer's end.
abbrev pub written : List ℕ → List ℕ → ℕ → Option Accum
written text line len =
    if leb (length text + length line + 2) len
    then some (record { accum = some (text ++ line ++ newline ∷ []); len = len })
    else none

-- accumulate_line
unfoldable pub accumulate_line : Accum → List ℕ → Option Accum
accumulate_line a line =
    let (text, len) = begun a in written text line (grown (length line) (length text) len)

unfoldable pub accumulate_lines : Accum → List (List ℕ) → Option Accum
unfolding accumulate_line
accumulate_lines a [] = some a
accumulate_lines a (line ∷ lines) = elim (accumulate_line a line) [
  | none ↦ none
  | some b ↦ accumulate_lines b lines
]

-- The part of struct CFG_Context that a replay uses.
pub record Replay : Type 0 where
  pub buff : List ℕ
  pub replay : Option (List ℕ)
  pub stop : Bool
  pub line_num : ℕ

-- strchr: the bytes before the first newline, and those behind it if there is one.
unfoldable pub split_line : List ℕ → List ℕ × Option (List ℕ)
split_line [] = ([], none)
split_line (c ∷ s) =
    let (line, rest) = split_line s in if c == newline then ([], some s) else (c ∷ line, rest)

abbrev pub has_no : Option (List ℕ) → Bool
has_no none = true
has_no (some s) = false

-- NextLine on a buffer; it returns 1, also once the buffer is at its end.
unfoldable pub next_replayed : Replay → Replay
unfolding split_line
next_replayed r = elim r.replay [
  | none ↦ r
  | some text ↦
      let (line, rest) = split_line text in
      record {
        buff = take 4095 line;
        replay = rest;
        stop = r.stop || has_no rest;
        line_num = r.line_num + 1;
      }
]

-- The lines that `n` calls give.
unfoldable pub replayed : ℕ → Replay → List (List ℕ)
unfolding next_replayed
replayed zero r = []
replayed (suc n) r = let s = next_replayed r in s.buff ∷ replayed n s
