-- ===== src/InjectPath/RoundTrip.antt =====
-- Paths that are written out are parsed back.
use exalsius_operator.InjectPath.{
  Progress, path_loop, start, in_quotes, Mode, flush_bare, bracket_closed, segments, path_step,
  path_end, after_dot, go_on, opened, path_start, parse_path,
}
use exalsius_operator.Prelude.{
  ℕ, ◌≡◌, Bool, true, false, ◌||◌, List, [], ◌∷◌, ◌++◌, arith, Text, is_empty, any, ◌==◌, ◌⊎◌,
  append-nil, append_assoc, is_nil, refl, ap, ◌∙◌, map, All, inl, inr,
}

-- A segment as a class author writes it: bare, or in brackets between two quotes `q`.
pub data Segment : Type 0 where
  bare : Text → Segment
  quoted : ℕ → Text → Segment

abbrev pub key_of : Segment → Text
key_of (bare t) = t
key_of (quoted q t) = t

unfoldable pub render_rest : List Segment → Text
render_rest [] = []
render_rest (bare t ∷ r) = b'.' ∷ (t ++ render_rest r)
render_rest (quoted q t ∷ r) = b'[' ∷ q ∷ (t ++ (q ∷ b']' ∷ render_rest r))

-- The text of a path: a dot stands before every bare segment but the first.
unfoldable pub render : List Segment → Text
unfolding render_rest
render (bare t ∷ r) = t ++ render_rest r
render r = render_rest r

-- No byte of the text satisfies the test, and there is one.
abbrev pub Avoids : (ℕ → Bool) → Text → Type 0
Avoids bad t = (is_empty t ≡ false) × (any bad t ≡ false)

abbrev special : ℕ → Bool
special c = (c == b'.') || (c == b'[')

-- Bare segments have no dot and no bracket; quoted ones do not hold their quote.
abbrev pub IsWritable : Segment → Type 0
IsWritable (bare t) = Avoids special t
IsWritable (quoted q t) = (((q == b'"') || (q == b'\'')) ≡ true) × Avoids (λ c. c == q) t

append_snoc : (b : Text) (c : ℕ) (t : Text) → (b ++ c ∷ []) ++ t ≡ b ++ c ∷ t
append_snoc b c t = append_assoc b (c ∷ []) t

-- A bare segment goes to the buffer.
scan_bare :
    (t rest : Text) (s : Progress)
    → any special t ≡ false
    → path_loop start (t ++ rest) s ≡ path_loop start rest (record s { buf = s.buf ++ t })
unfolding path_loop path_step
scan_bare [] rest s h = rw append-nil
scan_bare (c ∷ t) rest s h =
    ground (arith, scan_bare t rest (record s { buf = s.buf ++ c ∷ [] }), append_snoc s.buf c t)

-- A quoted segment goes to the key.
scan_quoted :
    (q : ℕ) (key t rest : Text) (s : Progress)
    → any (λ c. c == q) t ≡ false
    → path_loop (in_quotes q key) (t ++ rest) s ≡ path_loop (in_quotes q (key ++ t)) rest s
unfolding path_loop path_step
scan_quoted q key [] rest s h = rw append-nil
scan_quoted q key (c ∷ t) rest s h =
    ground (arith, scan_quoted q (key ++ c ∷ []) t rest s, append_snoc key c t)

-- The loop stands behind a segment: what is buffered completes the list `o`.
record IsBehind (m : Mode) (s : Progress) (o : List Text) : Type 0 where
  pub place : (m ≡ start) ⊎ (m ≡ bracket_closed)
  pub pushed : flush_bare s ≡ record { out = o; buf = []; emitted = true }
  pub some_out : is_nil o ≡ false

module _ {m : Mode} {s : Progress} {o : List Text} (h : IsBehind m s o) where
  dot_step : path_step m b'.' s ≡ go_on after_dot (record { out = o; buf = []; emitted = false })
  unfolding path_step
  dot_step = ground (arith, h.place, h.pushed)

  bracket_step : path_step m b'[' s ≡ go_on opened (record { out = o; buf = []; emitted = true })
  unfolding path_step
  bracket_step = ground (arith, h.place, h.pushed)

  end_step : path_end m s ≡ segments o
  unfolding path_end
  end_step = ground (arith, h.place, h.pushed, h.some_out)

is_nil_snoc : (xs : List Text) (x : Text) → is_nil (xs ++ x ∷ []) ≡ false
unfolding is_nil
is_nil_snoc [] x = refl
is_nil_snoc (y ∷ xs) x = refl

IsBehind-bare :
    (o : List Text) (t : Text) (e : Bool)
    → is_empty t ≡ false
    → IsBehind start (record { out = o; buf = t; emitted = e }) (o ++ t ∷ [])
unfolding flush_bare
IsBehind-bare o t e h = record { place = inl refl; pushed = rw h; some_out = is_nil_snoc o t }

IsBehind-quoted :
    (o : List Text) (t : Text)
    → IsBehind bracket_closed (record { out = o ++ t ∷ []; buf = []; emitted = true }) (o ++ t ∷ [])
unfolding flush_bare is_empty
IsBehind-quoted o t = record { place = inr refl; pushed = refl; some_out = is_nil_snoc o t }

after_dot-start :
    (t rest : Text) (s : Progress)
    → is_empty t ≡ false
    → path_loop after_dot (t ++ rest) s ≡ path_loop start (t ++ rest) s
unfolding path_loop path_step is_empty
after_dot-start [] rest s h = cc
after_dot-start (c ∷ t) rest s h = refl

dot_then :
    {m : Mode} {s : Progress} {o : List Text} (h : IsBehind m s o) (cs : Text)
    → path_loop m (b'.' ∷ cs) s
      ≡ path_loop after_dot cs (record { out = o; buf = []; emitted = false })
unfolding path_loop
dot_then h cs = rw (dot_step h, path_loop)

quote_start :
    (q : ℕ) (cs : Text) (s : Progress)
    → ((q == b'"') || (q == b'\'')) ≡ true
    → path_loop opened (q ∷ cs) s ≡ path_loop (in_quotes q []) cs s
unfolding path_loop path_step
quote_start q cs s e = ground arith

open_quote :
    {m : Mode} {s : Progress} {o : List Text} (h : IsBehind m s o) (q : ℕ) (cs : Text)
    → ((q == b'"') || (q == b'\'')) ≡ true
    → path_loop m (b'[' ∷ q ∷ cs) s
      ≡ path_loop (in_quotes q []) cs (record { out = o; buf = []; emitted = true })
unfolding path_loop
open_quote h q cs e = rw (bracket_step h, path_loop) (quote_start q cs _ e)

close_quote :
    (q : ℕ) (t cs : Text) (o : List Text) (b : Bool)
    → is_empty t ≡ false
    → path_loop (in_quotes q t) (q ∷ b']' ∷ cs) (record { out = o; buf = []; emitted = b })
      ≡ path_loop bracket_closed cs (record { out = o ++ t ∷ []; buf = []; emitted = true })
unfolding path_loop path_step
close_quote q t cs o b e = ground arith

render_rest-parse :
    (segs : List Segment) (m : Mode) (s : Progress) (o : List Text)
    → IsBehind m s o
    → All IsWritable segs
    → path_loop m (render_rest segs) s ≡ segments (o ++ map key_of segs)
unfolding render_rest path_loop
render_rest-parse [] m s o h w = rw append-nil (end_step h)
render_rest-parse (bare t ∷ r) m s o h w =
    dot_then h (t ++ render_rest r)
    ∙ after_dot-start t (render_rest r) _ w.0.0
    ∙ scan_bare t (render_rest r) _ w.0.1
    ∙ render_rest-parse r start _ (o ++ t ∷ []) (IsBehind-bare o t false w.0.0) w.1
    ∙ ap segments (append_assoc o (t ∷ []) (map key_of r))
render_rest-parse (quoted q t ∷ r) m s o h w =
    open_quote h q _ w.0.0
    ∙ scan_quoted q [] t (q ∷ b']' ∷ render_rest r) _ w.0.1.1
    ∙ close_quote q t (render_rest r) o true w.0.1.0
    ∙ render_rest-parse r bracket_closed _ (o ++ t ∷ []) (IsBehind-quoted o t) w.1
    ∙ ap segments (append_assoc o (t ∷ []) (map key_of r))

-- A path that is written from bare and quoted segments parses to their keys, whatever the mix:
-- keys with dots and slashes survive between quotes.
pub parse_path-render :
    (g : Segment) (segs : List Segment)
    → All IsWritable (g ∷ segs)
    → parse_path (render (g ∷ segs)) ≡ segments (map key_of (g ∷ segs))
unfolding parse_path render is_empty flush_bare
parse_path-render (bare (c ∷ t)) segs w =
    scan_bare (c ∷ t) (render_rest segs) path_start w.0.1
    ∙ render_rest-parse segs start _ ((c ∷ t) ∷ []) (IsBehind-bare [] (c ∷ t) false refl) w.1
parse_path-render (bare []) segs w = cc (w.0.0)
parse_path-render (quoted q t) segs w =
    quote_start q (t ++ q ∷ b']' ∷ render_rest segs) path_start w.0.0
    ∙ scan_quoted q [] t (q ∷ b']' ∷ render_rest segs) _ w.0.1.1
    ∙ close_quote q t (render_rest segs) [] false w.0.1.0
    ∙ render_rest-parse segs bracket_closed _ (t ∷ []) (IsBehind-quoted [] t) w.1
