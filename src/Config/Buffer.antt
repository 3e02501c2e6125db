-- ===== src/Config/Buffer.antt =====
-- config.c: accumulate_line, and NextLine on what it has kept.
use libproc.Prelude.{
  ℕ, zero, suc, ◌+◌, ◌-◌, ◌*◌, ◌^◌, ◌<◌, ◌≤◌, ◌≡◌, refl, sym, ◌∙◌, ap, inl, inr, ◌⊎◌, ◌↔◌, Bool,
  true, false, not, ◌&&◌, ◌==◌, leb, none, some, List, [], ◌∷◌, ◌++◌, length, take, append_assoc,
  append-nil, if◌then◌else◌, arith, Bool-cases, Option-cases,
}
use libproc.Config.{
  Accum, begun, room_left, grown, written, accumulate_line, accumulate_lines, Replay, split_line,
  next_replayed, replayed,
}

-- The size test of accumulate_line.
room_left_fits :
    (len used : ℕ) → len < 2 ^ 62 → used + 3 ≤ len → room_left len used ≡ len - used - 3
room_left_fits len used small fits = omega arith

room_left_wraps :
    (len used : ℕ)
    → len < 2 ^ 62
    → used ≤ len
    → len < used + 3
    → room_left len used ≡ 2 ^ 64 + len - used - 3
room_left_wraps len used small le over = omega arith

abbrev pub holding : List ℕ → ℕ → Accum
holding text len = record { accum = some text; len = len }

module _ (text line : List ℕ) (len : ℕ) (positive : 0 < len) (small : len < 2 ^ 62)
    (full : length text ≤ len) (short : length line < 2 ^ 62) where
  -- With at most as many bytes kept as the buffer has, a buffer of at least one byte, and sizes
  -- below 2 ^ 62, accumulate_line writes past its buffer exactly in two cases: there are at least
  -- three bytes of room, and the line does not fit with its newline and NUL into twice the buffer;
  -- or there is less room, and the line does not fit into the buffer as it is.
  pub accumulate_line-none_iff : (accumulate_line (holding text len) line ≡ none) ↔ (
      ((length text + 3 ≤ len) × (2 * len < length text + length line + 2))
      ⊎ ((len < length text + 3) × (len < length text + length line + 2)))
  unfolding accumulate_line
  accumulate_line-none_iff = elim (Bool-cases (leb (length text + 3) len)) [
    | inl e ↦ ground (arith, e, room_left_fits len (length text) small)
    | inr e ↦ ground (arith, e, room_left_wraps len (length text) small full)
  ]

-- The lines one after another, each with a newline.
unfoldable pub joined : List (List ℕ) → List ℕ
joined [] = []
joined (l ∷ lines) = l ++ 10 ∷ joined lines

-- No newline, and short enough for the line buffer.
unfoldable pub no_newline : List ℕ → Bool
no_newline [] = true
no_newline (c ∷ s) = not (c == 10) && no_newline s

unfoldable pub Clean : List (List ℕ) → Type 0
Clean [] = Unit
Clean (l ∷ lines) = (no_newline l ≡ true) × (length l ≤ 4095) × Clean lines

abbrev pub text_of : Accum → List ℕ
text_of a = (begun a).0

run_none :
    (text line : List ℕ) (len : ℕ)
    → leb (length text + length line + 2) len ≡ false
    → written text line len ≡ none
run_none text line len e = rw e refl

run_some :
    (text line : List ℕ) (len : ℕ)
    → leb (length text + length line + 2) len ≡ true
    → written text line len ≡ some (record { accum = some (text ++ line ++ 10 ∷ []); len = len })
run_some text line len e = rw e refl

positive-test : (len : ℕ) → 0 < len → (len == 0) ≡ false
positive-test len h = ground arith

accumulate_lines-none :
    (a : Accum) (l : List ℕ) (lines : List (List ℕ))
    → accumulate_line a l ≡ none
    → accumulate_lines a (l ∷ lines) ≡ none
unfolding accumulate_lines
accumulate_lines-none a l lines e = rw (e, accumulate_lines) refl

accumulate_lines-some :
    (a m : Accum) (l : List ℕ) (lines : List (List ℕ))
    → accumulate_line a l ≡ some m
    → accumulate_lines a (l ∷ lines) ≡ accumulate_lines m lines
unfolding accumulate_lines
accumulate_lines-some a m l lines e = rw (e, accumulate_lines) refl

some-inj {ℓ} : {A : Type ℓ} (x y : A) → some x ≡ some y → x ≡ y
some-inj x y h = ap (λ o. elim o [ none ↦ x | some z ↦ z ]) h

written-text :
    (text line : List ℕ) (len : ℕ) (b : Accum)
    → written text line len ≡ some b
    → text_of b ≡ text ++ line ++ 10 ∷ []
written-text text line len b h = elim (Bool-cases (leb (length text + length line + 2) len)) [
  | inl e ↦
      let new : Accum = record { accum = some (text ++ line ++ 10 ∷ []); len = len } in
      ap text_of (sym (some-inj new b (sym (run_some text line len e) ∙ h)))
      ∙ ap (λ z. (if◌then◌else◌ {A = List ℕ × ℕ} z ([], 1024) (text ++ line ++ 10 ∷ [], len)).0)
          (positive-test len (ground (arith, e)))
  | inr e ↦ absurd (cc (h, run_none text line len e))
]

accumulate_line-text :
    (a b : Accum) (line : List ℕ)
    → accumulate_line a line ≡ some b
    → text_of b ≡ text_of a ++ line ++ 10 ∷ []
unfolding accumulate_line
accumulate_line-text a b line h =
    written-text (begun a).0 line (grown (length line) (length (begun a).0) (begun a).1) b h

accumulate_lines-text :
    (lines : List (List ℕ)) (a b : Accum)
    → accumulate_lines a lines ≡ some b
    → text_of b ≡ text_of a ++ joined lines
unfolding accumulate_lines joined
accumulate_lines-text [] a b h = ap text_of (sym (some-inj a b h)) ∙ sym (append-nil (text_of a))
accumulate_lines-text (l ∷ lines) a b h = elim (Option-cases (accumulate_line a l)) [
  | inl e ↦ absurd (cc (h, accumulate_lines-none a l lines e))
  | inr (m, e) ↦
      accumulate_lines-text lines m b (sym (accumulate_lines-some a m l lines e) ∙ h)
      ∙ ap (λ t. t ++ joined lines) (accumulate_line-text a m l e)
      ∙ append_assoc (text_of a ++ l) (10 ∷ []) (joined lines)
      ∙ append_assoc (text_of a) l (10 ∷ joined lines)
]

ordinary : (c : ℕ) (b : Bool) → (not (c == 10) && b) ≡ true → (c == 10) ≡ false
ordinary c b h = ground (arith, h)

split_line-append : (l s : List ℕ) → no_newline l ≡ true → split_line (l ++ 10 ∷ s) ≡ (l, some s)
unfolding split_line no_newline
split_line-append [] s h = refl
split_line-append (c ∷ l) s h =
    rw (ordinary c (no_newline l) h, split_line-append l s (ground (arith, h))) refl

abbrev pub started : List ℕ → Replay
started text = record { buff = []; replay = some text; stop = false; line_num = 0 }

take_short : (n : ℕ) (s : List ℕ) → length s ≤ n → take n s ≡ s
take_short zero [] h = refl
take_short zero (c ∷ s) h = absurd (omega arith)
take_short (suc n) [] h = refl
take_short (suc n) (c ∷ s) h = ap (λ r. c ∷ r) (take_short n s (omega arith))

next_replayed-run :
    (l s : List ℕ) (r : Replay)
    → r.replay ≡ some (l ++ 10 ∷ s)
    → no_newline l ≡ true
    → length l ≤ 4095
    → ((next_replayed r).buff ≡ l) × ((next_replayed r).replay ≡ some s)
unfolding next_replayed
next_replayed-run l s r e clean short =
    rw (e, split_line-append l s clean, next_replayed) (take_short 4095 l short, refl)

-- The lines are read back in their order.
replayed-joined :
    (lines : List (List ℕ)) (r : Replay)
    → Clean lines
    → r.replay ≡ some (joined lines)
    → replayed (length lines) r ≡ lines
unfolding replayed next_replayed joined Clean
replayed-joined [] r clean e = refl
replayed-joined (l ∷ lines) r clean e =
    let next = next_replayed-run l (joined lines) r e (clean.0) (clean.1) in
    rw (next.0, replayed-joined lines (next_replayed r) (clean.2) (next.1)) refl

module _ (lines : List (List ℕ)) (b : Accum) (clean : Clean lines)
    (kept : accumulate_lines (record { accum = none; len = 0 }) lines ≡ some b) where
  -- For lines without a newline and of at most 4095 bytes which accumulate_line adds, from the
  -- first one on, without a write past its buffer, NextLine on the buffer gives those lines back
  -- in their order.
  pub replayed-accumulate_lines : replayed (length lines) (started (text_of b)) ≡ lines
  replayed-accumulate_lines =
      replayed-joined lines (started (text_of b)) clean
        (ap some (accumulate_lines-text lines (record { accum = none; len = 0 }) b kept))
