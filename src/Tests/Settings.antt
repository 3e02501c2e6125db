-- ===== src/Tests/Settings.antt =====
-- Lines of a configuration file: `a=1`, `#x` and a long line, and an array of two entries.
use libproc.Prelude.{
  ℕ, ◌+◌, ◌*◌, ◌<◌, ◌≤◌, ◌≡◌, refl, inl, inr, true, false, none, some, List, [], ◌∷◌, ◌++◌, length,
  arith, ◌↔◌, ◌⊎◌,
}
use libproc.Config.{
  ends_line, cleaned, next_line, Accum, accumulate_line, accumulate_lines, replayed,
}
use libproc.Config.Lines.{
  Whole, IsContent, RealLines, no_lines, passed_over, real_line, next_line-RealLines,
  next_line_long,
}
use libproc.Config.Buffer.{
  Clean, no_newline, text_of, started, holding, accumulate_line-none_iff, replayed-accumulate_lines,
}
use libproc.Config.Values.{CfgArray, appended, ptr_array_append}
use libproc.Config.Arrays.{IsArray, contents, ptr_array_append-contents}

abbrev file : List (List ℕ)
file = (35 ∷ 120 ∷ 10 ∷ []) ∷ (32 ∷ 97 ∷ 61 ∷ 49 ∷ 13 ∷ 10 ∷ []) ∷ (10 ∷ []) ∷ []

comment_line : IsContent (35 ∷ 120 ∷ 10 ∷ []) (35 ∷ 120 ∷ [])
comment_line = record {
  before = [];
  after = 10 ∷ [];
  parts = refl;
  blanks = tt;
  eols = (inl refl, tt);
  starts = ((λ e. omega arith), λ e. omega arith);
  stops = ((λ e. omega arith), λ e. omega arith);
}

setting_line : IsContent (32 ∷ 97 ∷ 61 ∷ 49 ∷ 13 ∷ 10 ∷ []) (97 ∷ 61 ∷ 49 ∷ [])
setting_line = record {
  before = 32 ∷ [];
  after = 13 ∷ 10 ∷ [];
  parts = refl;
  blanks = (inl refl, tt);
  eols = (inr refl, (inl refl, tt));
  starts = ((λ e. omega arith), λ e. omega arith);
  stops = ((λ e. omega arith), λ e. omega arith);
}

empty_line : IsContent (10 ∷ []) []
empty_line = record {
  before = [];
  after = 10 ∷ [];
  parts = refl;
  blanks = tt;
  eols = (inl refl, tt);
  starts = tt;
  stops = tt;
}

file_lines : RealLines file ((97 ∷ 61 ∷ 49 ∷ []) ∷ [])
file_lines = passed_over comment_line (inl refl) (
    real_line setting_line ((λ e. omega arith), λ e. omega arith)
      (passed_over empty_line tt no_lines))

next_line-RealLines_example :
    let r = next_line false 0 file in
    (r.line ≡ some (97 ∷ 61 ∷ 49 ∷ []))
    × RealLines r.chunks []
    × (r.line_num + length r.chunks ≡ 0 + length file)
unfolding Whole ends_line
next_line-RealLines_example =
    next_line-RealLines 0 file ((97 ∷ 61 ∷ 49 ∷ []) ∷ []) (refl, (refl, (refl, tt))) file_lines

-- `aa`, `b` and the line's end come in three pieces.
next_line_long_example :
    (next_line false 0 ((97 ∷ 97 ∷ []) ∷ (98 ∷ []) ∷ []) ≡ next_line false 2 [])
    × ((next_line false 0 ((97 ∷ 97 ∷ []) ∷ (98 ∷ []) ∷ (99 ∷ 10 ∷ []) ∷ [])).line
        ≡ some (cleaned (99 ∷ 10 ∷ [])))
unfolding ends_line cleaned
next_line_long_example = next_line_long 0 97 98 (97 ∷ []) [] (99 ∷ 10 ∷ []) [] refl refl refl

accumulate_line-none_iff_example :
    (accumulate_line (holding (97 ∷ 10 ∷ []) 4) (98 ∷ []) ≡ none)
    ↔ (((2 + 3 ≤ 4) × (2 * 4 < 2 + 1 + 2)) ⊎ ((4 < 2 + 3) × (4 < 2 + 1 + 2)))
accumulate_line-none_iff_example =
    accumulate_line-none_iff (97 ∷ 10 ∷ []) (98 ∷ []) 4 (omega arith) (omega arith) (omega arith)
      (omega arith)

abbrev kept : List (List ℕ)
kept = (60 ∷ 97 ∷ 62 ∷ []) ∷ (98 ∷ 61 ∷ 49 ∷ []) ∷ []

abbrev buffer : Accum
buffer = record { accum = some (60 ∷ 97 ∷ 62 ∷ 10 ∷ 98 ∷ 61 ∷ 49 ∷ 10 ∷ []); len = 1024 }

replayed-accumulate_lines_example : replayed 2 (started (text_of buffer)) ≡ kept
unfolding Clean no_newline accumulate_lines
replayed-accumulate_lines_example =
    replayed-accumulate_lines kept buffer (refl, omega arith, (refl, omega arith, tt)) refl

abbrev array : CfgArray
array = record { len = 1; capacity = 1; slots = some (7 ∷ []) }

array-IsArray : IsArray array
unfolding IsArray
array-IsArray = (refl, omega arith)

ptr_array_append-contents_example :
    (b : CfgArray) × (ptr_array_append array 8 true ≡ appended b)
    × IsArray b
    × (contents b ≡ contents array ++ 8 ∷ [])
ptr_array_append-contents_example = ptr_array_append-contents array 8 array-IsArray
