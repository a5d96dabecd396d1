-- ===== src/Util/Strms/Closing.antt =====
-- Close of a list of closers.
use usbd.Base.{Error, ◌≡◌, refl, ap, ◌∙◌, Option, none, some, List, [], ◌∷◌}
use usbd.Util.Strms.{close_from, close_list, keep_first}

module _ {W : Type 0} where
  -- What the closers say when each is called, whatever the others say, and what is left.
  abbrev pub each_closed : List (W → Option Error × W) → W → List (Option Error) × W
  each_closed [] w = ([], w)
  each_closed (closer ∷ closers) w =
      let (e, w') = closer w in let (es, w'') = each_closed closers w' in (e ∷ es, w'')

abbrev pub first_error : List (Option Error) → Option Error
first_error [] = none
first_error (none ∷ es) = first_error es
first_error (some e ∷ es) = some e

keep_first-first_error :
    (e e' : Option Error) (es : List (Option Error))
    → keep_first (keep_first e e') (first_error es) ≡ keep_first e (first_error (e' ∷ es))
keep_first-first_error none none es = refl
keep_first-first_error none (some e') es = refl
keep_first-first_error (some e) none es = refl
keep_first-first_error (some e) (some e') es = refl

module _ {W : Type 0} where
  close_from-lem :
      (e : Option Error) (closers : List (W → Option Error × W)) (w : W)
      → close_from e closers w
        ≡ (keep_first e (first_error (each_closed closers w).0), (each_closed closers w).1)
  close_from-lem none [] w = refl
  close_from-lem (some e) [] w = refl
  close_from-lem e (closer ∷ closers) w =
      let (es, w') = each_closed closers (closer w).1 in
      close_from-lem (keep_first e (closer w).0) closers (closer w).1
      ∙ ap (λ r. (r, w')) (keep_first-first_error e (closer w).0 es)

  -- Close calls every closer once, in order, also behind one that fails, and returns the first error.
  pub close_list_lem :
      (closers : List (W → Option Error × W)) (w : W)
      → close_list closers w ≡ (first_error (each_closed closers w).0, (each_closed closers w).1)
  unfolding close_list
  close_list_lem closers w = close_from-lem none closers w
