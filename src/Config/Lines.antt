-- ===== src/Config/Lines.antt =====
-- config.c: NextLine on a file.
use libproc.Prelude.{
  ℕ, ◌+◌, ◌≡◌, ◌≢◌, ◌⊎◌, ◌++◌, ◌∙◌, ap, refl, Bool, true, false, not, ◌||◌, Option, none, some,
  List, [], ◌∷◌, length, arith,
}
use libproc.Config.{ends_line, strip_end, strip_start, cleaned, skipped, next_line}

-- Every line is read whole.
unfoldable pub Whole : List (List ℕ) → Type 0
Whole [] = Unit
Whole (s ∷ chunks) = (ends_line s ≡ true) × Whole chunks

abbrev AreBlanks : List ℕ → Type 0
AreBlanks [] = Unit
AreBlanks (c ∷ s) = ((c ≡ 32) ⊎ (c ≡ 9)) × AreBlanks s

abbrev AreEols : List ℕ → Type 0
AreEols [] = Unit
AreEols (c ∷ s) = ((c ≡ 10) ⊎ (c ≡ 13)) × AreEols s

-- The first character is no space or tab, and the last one no newline or carriage return.
abbrev NoBlankFirst : List ℕ → Type 0
NoBlankFirst [] = Unit
NoBlankFirst (c ∷ s) = (c ≢ 32) × (c ≢ 9)

abbrev NoEolLast : List ℕ → Type 0
NoEolLast [] = Unit
NoEolLast (c ∷ []) = (c ≢ 10) × (c ≢ 13)
NoEolLast (c ∷ d ∷ s) = NoEolLast (d ∷ s)

-- What is between the blanks at the start of a line and the line's end.
pub record IsContent (s text : List ℕ) : Type 0 where
  pub before : List ℕ
  pub after : List ℕ
  pub parts : s ≡ before ++ text ++ after
  pub blanks : AreBlanks before
  pub eols : AreEols after
  pub starts : NoBlankFirst text
  pub stops : NoEolLast text

-- Nothing, or a comment: `#` or `;` is its first character.
abbrev pub IsComment : List ℕ → Type 0
IsComment [] = Unit
IsComment (c ∷ s) = (c ≡ 35) ⊎ (c ≡ 59)

abbrev pub IsReal : List ℕ → Type 0
IsReal [] = ⊥
IsReal (c ∷ s) = (c ≢ 35) × (c ≢ 59)

-- A file's real lines: the contents of its lines, without what is empty or a comment.
pub data RealLines : List (List ℕ) → List (List ℕ) → Type 0 where
  no_lines : RealLines [] []
  passed_over :
      {s text : List ℕ} {chunks lines : List (List ℕ)}
      → IsContent s text
      → IsComment text
      → RealLines chunks lines
      → RealLines (s ∷ chunks) lines
  real_line :
      {s text : List ℕ} {chunks lines : List (List ℕ)}
      → IsContent s text
      → IsReal text
      → RealLines chunks lines
      → RealLines (s ∷ chunks) (text ∷ lines)

strip_end-eols : (after : List ℕ) → AreEols after → strip_end after ≡ []
unfolding strip_end
strip_end-eols [] e = refl
strip_end-eols (c ∷ s) e = ground (arith, strip_end-eols s (e.1), e.0)

strip_end-append : (t after : List ℕ) → AreEols after → NoEolLast t → strip_end (t ++ after) ≡ t
unfolding strip_end
strip_end-append [] after e n = strip_end-eols after e
strip_end-append (c ∷ []) after e n = ground (arith, strip_end-eols after e, n.0, n.1)
strip_end-append (c ∷ d ∷ t) after e n = ground (arith, strip_end-append (d ∷ t) after e n)

NoEolLast-append :
    (before text : List ℕ) → AreBlanks before → NoEolLast text → NoEolLast (before ++ text)
NoEolLast-append [] text b n = n
NoEolLast-append (c ∷ []) [] b n = (ground arith, ground arith)
NoEolLast-append (c ∷ []) (d ∷ text) b n = n
NoEolLast-append (c ∷ d ∷ before) text b n = NoEolLast-append (d ∷ before) text (b.1) n

strip_start-append :
    (before text : List ℕ)
    → AreBlanks before
    → NoBlankFirst text
    → strip_start (before ++ text) ≡ text
unfolding strip_start
strip_start-append [] [] b n = refl
strip_start-append [] (c ∷ text) b n = ground (arith, n.0, n.1)
strip_start-append (c ∷ before) text b n =
    ground (arith, strip_start-append before text (b.1) n, b.0)

cleaned-IsContent : (s text : List ℕ) → IsContent s text → cleaned s ≡ text
unfolding cleaned
cleaned-IsContent s text h =
    ap cleaned (h.parts)
    ∙ ap strip_start (
        strip_end-append (h.before ++ text) h.after h.eols
          (NoEolLast-append h.before text h.blanks h.stops))
    ∙ strip_start-append h.before text h.blanks h.starts

skipped-IsComment : (text : List ℕ) → IsComment text → skipped text ≡ true
skipped-IsComment [] h = refl
skipped-IsComment (c ∷ s) h = ground (arith, h)

skipped-IsReal : (text : List ℕ) → IsReal text → skipped text ≡ false
skipped-IsReal [] h = absurd h
skipped-IsReal (c ∷ s) h = ground (arith, h.0, h.1)

abbrev pub first_line : List (List ℕ) → Option (List ℕ)
first_line [] = none
first_line (s ∷ lines) = some s

abbrev pub later_lines : List (List ℕ) → List (List ℕ)
later_lines [] = []
later_lines (s ∷ lines) = lines

-- For the lines of a file that fgets reads whole: the file's real lines are what stands between
-- the spaces and tabs at the start of a line and the newlines and carriage returns at its end,
-- where that is not empty and does not start with `#` or `;`. NextLine gives the first of them, or
-- reports the end if there is none; the real lines of what is left for the later calls are the
-- others, in their order; and lineNum has grown by the number of lines that were read.
pub next_line-RealLines :
    (n : ℕ) (chunks lines : List (List ℕ))
    → Whole chunks
    → RealLines chunks lines
    → let r = next_line false n chunks in
      (r.line ≡ first_line lines)
      × RealLines r.chunks (later_lines lines)
      × (r.line_num + length r.chunks ≡ n + length chunks)
unfolding next_line Whole ends_line
next_line-RealLines n [] [] w no_lines = (refl, no_lines, refl)
next_line-RealLines n [] (text ∷ lines) w real = elim real [ ]
next_line-RealLines n ([] ∷ chunks) lines w real = absurd (cc (w.0))
next_line-RealLines n ((c ∷ s) ∷ chunks) lines w (passed_over {text} h comment real) =
    let r = next_line-RealLines (n + 1) chunks lines (w.1) real in
    rw (w.0, cleaned-IsContent (c ∷ s) text h, skipped-IsComment text comment)
      (r.0, r.1, omega (arith, r.2))
next_line-RealLines n ((c ∷ s) ∷ chunks) (text ∷ lines) w (real_line h is_real real) =
    rw (w.0, cleaned-IsContent (c ∷ s) text h, skipped-IsReal text is_real)
      (refl, real, omega arith)

or-true : (b : Bool) → (not b || true) ≡ true
or-true true = refl
or-true false = refl

-- Where fgets reads a piece that is not empty and has no newline at its end, and then another
-- piece that is not empty, NextLine drops the two and goes on behind them, whether or not the
-- second ends the line; so a third piece of the same line, if it ends with a newline and is
-- neither empty nor a comment once it is cleaned, is given as a line.
pub next_line_long :
    (n c d : ℕ) (s t u : List ℕ) (chunks : List (List ℕ))
    → ends_line (c ∷ s) ≡ false
    → ends_line u ≡ true
    → skipped (cleaned u) ≡ false
    → (next_line false n ((c ∷ s) ∷ (d ∷ t) ∷ chunks) ≡ next_line false (n + 1 + 1) chunks)
      × ((next_line false n ((c ∷ s) ∷ (d ∷ t) ∷ u ∷ chunks)).line ≡ some (cleaned u))
unfolding next_line ends_line
next_line_long n c d s t [] chunks part whole real = absurd (cc whole)
next_line_long n c d s t (a ∷ u) chunks part whole real =
    rw (part, or-true (ends_line (d ∷ t)), whole, real) (refl, refl)
