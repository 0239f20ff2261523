-- ===== src/Term/Flush/Cells.antt =====
-- src/termctl.c, `tc_flush`: what holds between two cells of its loops, and that a cell keeps it.
use native.Mathlib.Decide.{ℕ_discrete}
use boggart.Base.{
  ◌⊎◌, ℕ, zero, suc, ◌+◌, ◌-◌, ◌*◌, ◌≤◌, ◌<◌, ◌≡◌, ◌≢◌, refl, ◌∙◌, sym, ap, subst, ◌==◌, ◌&&◌, true,
  [], ◌∷◌, ◌++◌, inl, inr, set, length, length-set, if◌then◌else◌, arith,
}
use boggart.Term.Width.{tc_wcwidth, tc_wcwidth-nul}
use boggart.Term.Grid.{Cell, Screen, cell_eq}
use boggart.Term.Grid.Paint.{cell, ch_at, WideAt, get_or-set_if}
use boggart.Term.Grid.Pairs.{mod_pos}
use boggart.Term.Grid.Sound.{IsSound}
use boggart.Term.Flush.{glyph, Flush, place_ops, style_ops, draw_cell}
use boggart.Term.Flush.Display.{Display, obey_all, obey_all-append, cell_eq-true}
use boggart.Term.Flush.Step.{
  KnowsPlace, KnowsStyle, IsPlain, drawn, draw_ops-lem, drawn-shows, drawn-KnowsPlace,
  drawn-KnowsStyle,
}

-- A sound grid whose cells the output can express, each right half with the look of its left half.
pub record IsDrawable (t : Screen) : Type 0 where
  pub sound : IsSound t
  pub plain : (k : ℕ) → IsPlain (cell t.back k)
  pub halves : (k : ℕ) → WideAt t.back k → cell t.back (k + 1) ≡ record (cell t.back k) { ch = 0 }

-- Where the front buffer agrees with the back buffer, the terminal shows that cell, and the right half
-- of a wide character with it.
pub record Agrees (t : Screen) (d : Display) : Type 0 where
  pub agree :
      (k : ℕ)
      → k < t.w * t.h
      → cell_eq (cell t.back k) (cell t.front k) ≡ true
      → d.shows k ≡ cell t.back k
  pub whole :
      (k : ℕ)
      → k < t.w * t.h
      → cell_eq (cell t.back k) (cell t.front k) ≡ true
      → WideAt t.back k
      → d.shows (k + 1) ≡ cell t.back (k + 1)

module _ (t : Screen) (d₀ : Display) (drawable : IsDrawable t) (agrees : Agrees t d₀) where
  -- The cells before `i` are done.
  pub record At (i : ℕ) (s : Flush) (d : Display) : Type 0 where
    pub ran : obey_all t.w s.out d₀ ≡ d
    pub place : KnowsPlace s.place d
    pub style : KnowsStyle s.style d
    pub size : length s.front ≡ t.w * t.h
    pub shown : (j : ℕ) → j < i → d.shows j ≡ cell t.back j
    pub copied : (j : ℕ) → j < i → cell s.front j ≡ cell t.back j
    pub ahead : (j : ℕ) → i ≤ j → cell s.front j ≡ cell t.front j
    pub later : (j : ℕ) → i < j → d.shows j ≡ d₀.shows j
    pub covered : (j : ℕ) → suc j ≡ i → WideAt t.back j → d.shows i ≡ cell t.back i
    pub open_place : ((j : ℕ) → suc j ≡ i → ¬ WideAt t.back j) → d.shows i ≡ d₀.shows i

  -- The cell is covered by its left neighbour, or not.
  cover_cases :
      (i : ℕ)
      → ((j : ℕ) × (suc j ≡ i) × WideAt t.back j) ⊎ ((j : ℕ) → suc j ≡ i → ¬ WideAt t.back j)
  cover_cases zero = inr (λ j e. absurd (omega arith))
  cover_cases (suc i) = elim (ℕ_discrete (tc_wcwidth (ch_at t.back i)) 2) [
    | yes e ↦ inl (i, refl, e)
    | no e ↦ inr (λ j h k. e (subst (WideAt t.back) (omega arith) k))
  ]

  -- One more cell is right.
  up_to :
      (i : ℕ) (d : Display) (j : ℕ)
      → d.shows i ≡ cell t.back i
      → ((j : ℕ) → j < i → d.shows j ≡ cell t.back j)
      → j < i + 1
      → d.shows j ≡ cell t.back j
  up_to i d j here before h = elim (ℕ_discrete i j) [
    | yes e ↦ subst (λ k. d.shows k ≡ cell t.back k) e here
    | no ne ↦ before j (omega arith)
  ]

  -- Nothing is drawn: what is shown is right already.
  passed :
      (i : ℕ) (s s' : Flush) (d : Display)
      → At i s d
      → d.shows i ≡ cell t.back i
      → (WideAt t.back i → d₀.shows (i + 1) ≡ cell t.back (i + 1))
      → s'.out ≡ s.out
      → s'.place ≡ s.place
      → s'.style ≡ s.style
      → length s'.front ≡ length s.front
      → ((j : ℕ) → cell s'.front j ≡ (if i == j then cell t.back i else cell s.front j))
      → At (i + 1) s' d
  passed i s s' d a here next o p y l f = record {
    ran = subst (λ os. obey_all t.w os d₀ ≡ d) (sym o) a.ran;
    place = subst (λ q. KnowsPlace q d) (sym p) a.place;
    style = subst (λ q. KnowsStyle q d) (sym y) a.style;
    size = l ∙ a.size;
    shown = λ j h. up_to i d j here a.shown h;
    copied = λ j h. ground (arith, f j, a.copied j);
    ahead = λ j h. ground (arith, f j, a.ahead j);
    later = λ j h. a.later j (omega arith);
    covered = λ j e k. a.later (i + 1) (omega arith) ∙ next (subst (WideAt t.back) (omega arith) k);
    open_place = λ n. a.later (i + 1) (omega arith);
  }

  -- The front buffer has the cell already.
  pub step_same :
      (i : ℕ) (s : Flush) (d : Display)
      → i < t.w * t.h
      → At i s d
      → cell_eq (cell t.back i) (cell s.front i) ≡ true
      → At (i + 1) s d
  step_same i s d h a e =
      let f : cell t.back i ≡ cell s.front i = cell_eq-true (cell t.back i) (cell s.front i) e in
      let e' = ap (cell_eq (cell t.back i)) (sym (a.ahead i (omega arith))) ∙ e in
      passed i s s d a (here (agrees.agree i h e')) (agrees.whole i h e') refl refl refl refl
        (λ j. same_at j f)
    where
      here : d₀.shows i ≡ cell t.back i → d.shows i ≡ cell t.back i
      here g = elim (cover_cases i) [
        | inl (j, e', k) ↦ a.covered j e' k
        | inr n ↦ a.open_place n ∙ g
      ]

      same_at :
          (j : ℕ)
          → cell t.back i ≡ cell s.front i
          → cell s.front j ≡ (if i == j then cell t.back i else cell s.front j)
      same_at j f = ground arith

  -- A right half, which its left neighbour covers
  pub step_half :
      (i : ℕ) (s : Flush) (d : Display)
      → i < t.w * t.h
      → At i s d
      → ch_at t.back i ≡ 0
      → At (i + 1) (record s { front = set s.front i (cell t.back i) }) d
  step_half i s d h a e =
      let (p, q) = (drawable.sound.paired i).right_half e in
      let u : 0 < i = mod_pos t.w i p in
      passed i s _ d a (a.covered (i - 1) (omega arith) q) (λ k. absurd (narrow e k)) refl refl refl
        (length-set s.front i (cell t.back i))
        (λ j. get_or-set_if s.front i j (cell t.back i) (omega (arith, a.size)))
    where
      narrow : ch_at t.back i ≡ 0 → ¬ WideAt t.back i
      narrow e k = ground (arith, tc_wcwidth-nul)

  -- A cell that is drawn
  pub step_draw :
      (i x y : ℕ) (s : Flush) (d : Display)
      → y * t.w + x ≡ i
      → i < t.w * t.h
      → At i s d
      → At (i + 1) (draw_cell i x y (cell t.back i) s) (drawn t.w x y (cell t.back i) d)
  unfolding draw_cell
  step_draw i x y s d e h a =
      let b : Cell = cell t.back i in
      let d' : Display = drawn t.w x y b d in
      let f = λ (j : ℕ). get_or-set_if s.front i j b (omega (arith, a.size)) in
      record {
        ran =
            obey_all-append t.w s.out
              (place_ops s.place x y ++ (style_ops s.style b ++ (glyph b.ch ∷ []))) d₀
            ∙ ap
                (obey_all t.w (place_ops s.place x y ++ (style_ops s.style b ++ (glyph b.ch ∷ []))))
                a.ran
            ∙ draw_ops-lem t.w x y s.place s.style b d a.place a.style (drawable.plain i);
        place = drawn-KnowsPlace t.w x y b d;
        style = drawn-KnowsStyle t.w x y b d;
        size = length-set s.front i b ∙ a.size;
        shown = λ j k.
            up_to i d' j (shows_at i ∙ ground arith)
              (λ l m. shows_at l ∙ ground (arith, a.shown l m)) k;
        copied = λ j k. ground (arith, f j, a.copied j);
        ahead = λ j k. ground (arith, f j, a.ahead j);
        later = λ j k. shows_at j ∙ ground (arith, a.later j);
        covered = λ j q k.
            shows_at (i + 1)
            ∙ right_there _ b _ (subst (WideAt t.back) (omega arith) k)
            ∙ sym (drawable.halves i (subst (WideAt t.back) (omega arith) k));
        open_place = λ n.
            shows_at (i + 1) ∙ not_there _ b _ (n i (omega arith)) ∙ a.later (i + 1) (omega arith);
      }
    where
      shows_at :
          (j : ℕ)
          → (drawn t.w x y (cell t.back i) d).shows j ≡ (
              if (tc_wcwidth (ch_at t.back i) == 2) && (j == i + 1)
              then record (cell t.back i) { ch = 0 }
              else if j == i
              then cell t.back i
              else d.shows j)
      shows_at j = drawn-shows t.w x y (cell t.back i) d j ∙ rw e refl

      right_there :
          (n : ℕ) (b o : Cell)
          → n ≡ 2
          → (if (n == 2) && (i + 1 == i + 1)
              then record b { ch = 0 }
              else if i + 1 == i
              then b
              else o)
            ≡ record b { ch = 0 }
      right_there n b o k = ground arith

      not_there :
          (n : ℕ) (b o : Cell)
          → n ≢ 2
          → (if (n == 2) && (i + 1 == i + 1)
              then record b { ch = 0 }
              else if i + 1 == i
              then b
              else o)
            ≡ o
      not_there n b o k = ground arith
