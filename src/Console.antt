-- ===== src/Console.antt =====
-- TP2-SO-2025/Kernel/fonts.c: where the characters go on a window of `width` by `height` pixels. What is drawn is
-- a list. A result is none where a coordinate would fall below 0, or where the fuel of a loop does not
-- do.
pub mod Inside
mod Tests
use tp_so_grupo.Base.{
  ℕ, zero, suc, ◌-◌, ◌+◌, ◌*◌, ◌%◌, List, [], ◌∷◌, ◌++◌, Bool, true, false, not, ◌&&◌, Option, none,
  some, ◌==◌, ltb, leb, if◌then◌else◌,
}
use tp_so_grupo.Strings.{Text}

pub record Screen : Type 0 where
  pub font_size : ℕ
  pub x : ℕ
  pub y : ℕ
  pub max_glyph_size_y : ℕ
  pub dirty_line : Bool

pub data Drawing : Type 0 where
  glyph : (ascii size x y : ℕ) → Drawing
  scroll_up : ℕ → Drawing

-- The width and the height of a glyph on the screen.
abbrev pub glyph_size : Screen → ℕ
glyph_size s = 8 * s.font_size

-- A step that draws, and one after it.
abbrev pub then_draw :
    Option (List Drawing × Screen)
    → (Screen → Option (List Drawing × Screen))
    → Option (List Drawing × Screen)
then_draw none f = none
then_draw (some (out, s)) f = elim (f s) [ none ↦ none | some (more, t) ↦ some (out ++ more, t) ]

-- `renderAscii` draws a glyph for every byte: its test `ascii < 128` is of a signed char. A byte from
-- 128 on draws what stands in front of the table of glyphs.
unfoldable pub draw : (ascii : ℕ) → Screen → List Drawing × Screen
draw ascii s = (glyph ascii (glyph_size s) s.x s.y ∷ [], record s { x = s.x + glyph_size s })

abbrev pub dirty : Screen → Screen
dirty s = record s { dirty_line = true }

module _ (width height : ℕ) where
  -- `scrollBufferPositionIfNeeded`
  unfoldable pub scroll_if_needed : Screen → Option (List Drawing × Screen)
  scroll_if_needed s =
      if ltb height (s.y + glyph_size s)
      then (if ltb s.y (glyph_size s)
          then none
          else some (scroll_up (glyph_size s) ∷ [], record s { y = s.y - glyph_size s }))
      else some ([], s)

  unfoldable pub new_line : Screen → Option (List Drawing × Screen)
  unfolding scroll_if_needed
  new_line s = scroll_if_needed (record s {
    dirty_line = false;
    y = s.y + s.max_glyph_size_y;
    x = 0;
    max_glyph_size_y = glyph_size s;
  })

  -- The default branch of `putChar`.
  unfoldable pub put_glyph : (ascii : ℕ) → Screen → Option (List Drawing × Screen)
  unfolding new_line draw
  put_glyph ascii s =
      if ltb width (s.x + glyph_size s)
      then then_draw (new_line s) (λ t. some (draw ascii t))
      else some (draw ascii s)

  unfoldable pub retract_position : Screen → Option Screen
  retract_position s =
      if s.x == 0
      then (if ltb s.y (glyph_size s)
          then some (record s { y = 0 })
          else if ltb (width - width % glyph_size s) (glyph_size s)
          then none
          else some (record s {
            y = s.y - glyph_size s;
            x = width - width % glyph_size s - glyph_size s;
          }))
      else if ltb s.x (glyph_size s)
      then none
      else some (record s { x = s.x - glyph_size s })

  -- The loop of a carriage return.
  unfoldable pub retract_all : (fuel : ℕ) → Screen → Option Screen
  unfolding retract_position
  retract_all zero s = if s.x == 0 then some s else none
  retract_all (suc n) s =
      let rest : Option Screen = elim (retract_position s) [
        | none ↦ none
        | some t ↦ retract_all n t
      ] in
      if s.x == 0 then some s else rest

  unfoldable pub hide_cursor : Screen → Option (List Drawing × Screen)
  unfolding put_glyph retract_position
  hide_cursor s =
      then_draw (put_glyph b' ' (dirty s))
        (λ t. elim (retract_position t) [ none ↦ none | some u ↦ some ([], u) ])

  unfoldable pub show_cursor : Screen → Option (List Drawing × Screen)
  unfolding put_glyph retract_position
  show_cursor s =
      then_draw (put_glyph b'|' (dirty s))
        (λ t. elim (retract_position t) [ none ↦ none | some u ↦ some ([], u) ])

  unfoldable pub clear_previous_character : Screen → Option (List Drawing × Screen)
  unfolding hide_cursor show_cursor
  clear_previous_character s =
      then_draw (hide_cursor s)
        (λ t. elim (retract_position t) [ none ↦ none | some u ↦ show_cursor u ])

  -- The loop of a tab.
  unfoldable pub put_tab : (fuel : ℕ) → Screen → Option (List Drawing × Screen)
  unfolding put_glyph
  put_tab zero s = none
  put_tab (suc n) s =
      then_draw (put_glyph b' ' (dirty s)) (λ t.
        let rest = put_tab n t in if t.x % (4 * glyph_size t) == 0 then some ([], t) else rest)

  unfoldable pub put_char : (fuel : ℕ) → (ascii : ℕ) → Screen → Option (List Drawing × Screen)
  unfolding hide_cursor new_line retract_all put_tab put_glyph
  put_char fuel ascii s =
      if ascii == 10
      then then_draw (hide_cursor (dirty s)) new_line
      else if ascii == 13
      then then_draw (hide_cursor (dirty s))
          (λ t. elim (retract_all fuel t) [ none ↦ none | some u ↦ some ([], u) ])
      else if ascii == 9
      then put_tab fuel (dirty s)
      else put_glyph ascii (dirty s)

  -- The loop of `printToFd` on the screen.
  unfoldable pub print_text : (fuel : ℕ) → Text → Screen → Option (List Drawing × Screen)
  unfolding put_char
  print_text fuel [] s = some ([], s)
  print_text fuel (c ∷ text) s = then_draw (put_char fuel c s) (print_text fuel text)

  unfoldable pub increase_font_size : Screen → Option (List Drawing × Screen)
  unfolding scroll_if_needed
  increase_font_size s =
      let size = if ltb 9 s.font_size then s.font_size else s.font_size + 1 in
      let wanted =
        if s.dirty_line && ltb (8 * size) s.max_glyph_size_y
        then s.max_glyph_size_y
        else 8 * size in
      scroll_if_needed (record s { font_size = size; max_glyph_size_y = wanted })

-- `decreaseFontSize` and `setFontSize`, which do not scroll. The size is a signed byte; one below 1 is
-- 0 here.
abbrev with_font : ℕ → Screen → Screen
with_font size s = record s {
  font_size = size;
  max_glyph_size_y =
      if s.dirty_line && ltb (8 * size) s.max_glyph_size_y then s.max_glyph_size_y else 8 * size;
}

unfoldable pub decrease_font_size : Screen → Screen
decrease_font_size s = with_font (if leb s.font_size 1 then s.font_size else s.font_size - 1) s

unfoldable pub set_font_size : ℕ → Screen → Screen
set_font_size size s = with_font (if ltb size 1 then 1 else if ltb 10 size then 10 else size) s
