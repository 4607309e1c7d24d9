-- ===== src/Console/Inside.antt =====
-- The glyphs of TP2-SO-2025/Kernel/fonts.c stay in the window while the font size does not change.
use tp_so_grupo.Base.{
  ℕ, ◌+◌, ◌*◌, ◌≡◌, ◌≤◌, ◌≢◌, refl, List, [], ◌∷◌, ◌++◌, false, Option, none, some, ◌==◌, ltb, inl,
  inr, Bool-cases, arith, ne→==,
}
use tp_so_grupo.Strings.{Text}
use tp_so_grupo.Console.{
  Screen, Drawing, glyph, scroll_up, then_draw, dirty, scroll_if_needed, new_line, draw, put_glyph,
  retract_position, hide_cursor, put_char, print_text,
}

-- The characters that are neither a tab nor a carriage return.
abbrev pub IsSimple : Text → Type 0
IsSimple [] = Unit {0}
IsSimple (c ∷ text) = (c ≢ 9) × (c ≢ 13) × IsSimple text

module _ (width height size : ℕ) where
  -- A line of this font size that is in the window.
  pub record IsPlaced (s : Screen) : Type 0 where
    pub font : s.font_size ≡ size
    pub line : s.max_glyph_size_y ≡ 8 * size
    pub fits : s.y + 8 * size ≤ height

  abbrev pub AreInside : List Drawing → Type 0
  AreInside [] = Unit {0}
  AreInside (glyph a n x y ∷ out) = (x + n ≤ width) × (y + n ≤ height) × AreInside out
  AreInside (scroll_up n ∷ out) = AreInside out

  -- The result of a step, whose screen is as `P` says.
  abbrev pub DrawnTo : (P : Screen → Type 0) → Option (List Drawing × Screen) → Type 0
  DrawnTo P none = ⊥
  DrawnTo P (some (out, t)) = P t × AreInside out

  AreInside-append : (xs ys : List Drawing) → AreInside xs → AreInside ys → AreInside (xs ++ ys)
  AreInside-append [] ys i j = j
  AreInside-append (glyph a n x y ∷ xs) ys (b, c, i) j = (b, c, AreInside-append xs ys i j)
  AreInside-append (scroll_up n ∷ xs) ys i j = AreInside-append xs ys i j

  prepend-DrawnTo :
      (Q : Screen → Type 0) (out : List Drawing) (r : Option (List Drawing × Screen))
      → AreInside out
      → DrawnTo Q r
      → DrawnTo Q (elim r [ none ↦ none | some (more, t) ↦ some (out ++ more, t) ])
  prepend-DrawnTo Q out none i d = d
  prepend-DrawnTo Q out (some (more, t)) i (q, j) = (q, AreInside-append out more i j)

  then-DrawnTo :
      (P Q : Screen → Type 0) (o : Option (List Drawing × Screen))
      (f : Screen → Option (List Drawing × Screen))
      → DrawnTo P o
      → ((t : Screen) → P t → DrawnTo Q (f t))
      → DrawnTo Q (then_draw o f)
  then-DrawnTo P Q none f d h = d
  then-DrawnTo P Q (some (out, s)) f (p, i) h = prepend-DrawnTo Q out (f s) i (h s p)

  weaken :
      (P : Screen → Type 0)
      → ((t : Screen) → P t → IsPlaced t)
      → (o : Option (List Drawing × Screen)) → DrawnTo P o
      → DrawnTo IsPlaced o
  weaken P h none d = d
  weaken P h (some (out, t)) (p, i) = (h t p, i)

  -- At the start of a line, and behind a glyph.
  abbrev AtStart : Screen → Type 0
  AtStart s = IsPlaced s × (s.x ≡ 0)

  abbrev BehindGlyph : Screen → Type 0
  BehindGlyph s = IsPlaced s × (8 * size ≤ s.x)

  draw-DrawnTo :
      (c : ℕ) (s : Screen)
      → IsPlaced s
      → s.x + 8 * size ≤ width
      → DrawnTo BehindGlyph (some (draw c s))
  unfolding draw
  draw-DrawnTo c s p h =
      let placed : IsPlaced (draw c s).1 = record { font = p.font; line = p.line; fits = p.fits } in
      let font = p.font in
      let fits = p.fits in ((placed, omega arith), (omega arith, omega arith, tt))

  module _ (one : 1 ≤ size) (wide : 8 * size ≤ width) (high : 16 * size ≤ height) where
    new_line-DrawnTo : (s : Screen) → IsPlaced s → DrawnTo AtStart (new_line width height s)
    unfolding new_line scroll_if_needed
    new_line-DrawnTo s p =
        let font = p.font in
        let line = p.line in
        let fits = p.fits in
        elim (Bool-cases (ltb height (s.y + s.max_glyph_size_y + 8 * s.font_size))) [
          | inl z ↦
              let above : ltb (s.y + s.max_glyph_size_y) (8 * s.font_size) ≡ false = ground arith in
              rw (z, above)
                ((record { font = font; line = omega arith; fits = omega arith }, refl), tt)
          | inr z ↦
              rw z ((record { font = font; line = omega arith; fits = ground arith }, refl), tt)
        ]

    put_glyph-DrawnTo :
        (c : ℕ) (s : Screen) → IsPlaced s → DrawnTo BehindGlyph (put_glyph width height c s)
    unfolding put_glyph
    put_glyph-DrawnTo c s p =
        let font = p.font in
        elim (Bool-cases (ltb width (s.x + 8 * s.font_size))) [
          | inl z ↦ rw z (
              then-DrawnTo AtStart BehindGlyph (new_line width height s) (λ t. some (draw c t))
                (new_line-DrawnTo s p) (λ t a. draw-DrawnTo c t a.0 (omega (arith, a.1))))
          | inr z ↦ rw z (draw-DrawnTo c s p (ground arith))
        ]

    dirty-IsPlaced : (s : Screen) → IsPlaced s → IsPlaced (dirty s)
    dirty-IsPlaced s p = record { font = p.font; line = p.line; fits = p.fits }

    retracted :
        (s : Screen)
        → BehindGlyph s
        → DrawnTo IsPlaced
            (elim (retract_position width height s) [ none ↦ none | some u ↦ some ([], u) ])
    unfolding retract_position
    retracted s (p, h) =
        let font = p.font in
        let later : s.x == 0 ≡ false = ground arith in
        let enough : ltb s.x (8 * s.font_size) ≡ false = ground arith in
        rw (later, enough) (record { font = p.font; line = p.line; fits = p.fits }, tt)

    hide_cursor-DrawnTo : (s : Screen) → IsPlaced s → DrawnTo IsPlaced (hide_cursor width height s)
    unfolding hide_cursor
    hide_cursor-DrawnTo s p =
        then-DrawnTo BehindGlyph IsPlaced (put_glyph width height b' ' (dirty s)) _
          (put_glyph-DrawnTo b' ' (dirty s) (dirty-IsPlaced s p)) retracted

    put_char-DrawnTo :
        (fuel c : ℕ) (s : Screen)
        → c ≢ 9
        → c ≢ 13
        → IsPlaced s
        → DrawnTo IsPlaced (put_char width height fuel c s)
    unfolding put_char
    put_char-DrawnTo fuel c s tab return p = elim (Bool-cases (c == 10)) [
      | inl z ↦ rw z (
          then-DrawnTo IsPlaced IsPlaced (hide_cursor width height (dirty s))
            (new_line width height) (hide_cursor-DrawnTo (dirty s) (dirty-IsPlaced s p))
            (λ t q. weaken AtStart (λ u a. a.0) (new_line width height t) (new_line-DrawnTo t q)))
      | inr z ↦
          rw (z, ne→== c 13 return, ne→== c 9 tab)
            (weaken BehindGlyph (λ u a. a.0) (put_glyph width height c (dirty s))
              (put_glyph-DrawnTo c (dirty s) (dirty-IsPlaced s p)))
    ]

    -- On a window at least one glyph wide and two high, of a font size that is not 0, printing a
    -- text without a tab or a carriage return, of any other bytes, from a line of that size that lies in the window,
    -- never takes a coordinate below 0, draws every glyph inside the window, and ends on such a
    -- line.
    pub print_text-DrawnTo :
        (fuel : ℕ) (text : Text) (s : Screen)
        → IsSimple text
        → IsPlaced s
        → DrawnTo IsPlaced (print_text width height fuel text s)
    unfolding print_text
    print_text-DrawnTo fuel [] s h p = (p, tt)
    print_text-DrawnTo fuel (c ∷ text) s (tab, return, h) p =
        then-DrawnTo IsPlaced IsPlaced (put_char width height fuel c s)
          (print_text width height fuel text) (put_char-DrawnTo fuel c s tab return p)
          (λ t q. print_text-DrawnTo fuel text t h q)
