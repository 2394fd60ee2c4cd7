-- ===== src/InjectPath/Sound.antt =====
-- What parsePath accepts.
use exalsius_operator.Prelude.{
  ℕ, Text, List, [], ◌∷◌, is_empty, All, is_nil, Bool, ◌≡◌, ◌++◌, Bool-cases, if◌then◌else◌, ◌==◌,
  false, true, refl, ◌≢◌, inl, inr, ◌||◌,
}
use exalsius_operator.InjectPath.{
  Progress, flush_bare, Next, on_char, path_step, Parsed, finish_path, path_end, Mode, in_quotes,
  after_dot, bracket_closed, opened, start, malformed, go_on, stop, no_segments, segments,
  quote_closed, path_loop, path_start, parse_path, bad_quote, unexpected_char, missing_bracket,
}

abbrev pub IsNonEmpty : Text → Type 0
IsNonEmpty s = is_empty s ≡ false

-- The loop's invariant: what is out is not empty, and a segment since the last dot is out.
record Inv (s : Progress) : Type 0 where
  pub filled : All IsNonEmpty s.out
  pub emitted_out : s.emitted ≡ true → is_nil s.out ≡ false

All-append :
    (xs : List Text) (x : Text) → All IsNonEmpty xs → IsNonEmpty x → All IsNonEmpty (xs ++ x ∷ [])
All-append [] x h e = (e, tt)
All-append (y ∷ xs) x h e = (h.0, All-append xs x h.1 e)

is_nil-append : (xs : List Text) (x : Text) → is_nil (xs ++ x ∷ []) ≡ false
unfolding is_nil
is_nil-append [] x = refl
is_nil-append (y ∷ xs) x = refl

push-Inv :
    (s : Progress) (x b : Text)
    → Inv s
    → IsNonEmpty x
    → Inv (record { out = s.out ++ x ∷ []; buf = b; emitted = true })
push-Inv s x b i e = record {
  filled = All-append s.out x i.filled e;
  emitted_out = λ _. is_nil-append s.out x;
}

flush_bare-Inv : (s : Progress) → Inv s → Inv (flush_bare s)
unfolding flush_bare
flush_bare-Inv s i = elim (Bool-cases (is_empty s.buf)) [
  | inl e ↦ rw e i
  | inr e ↦ rw e (push-Inv s s.buf [] i e)
]

abbrev NextInv : Next → Type 0
NextInv (go_on m s) = Inv s
NextInv (stop e) = e ≢ no_segments

NextInv-if : (b : Bool) (x y : Next) → NextInv x → NextInv y → NextInv (if b then x else y)
NextInv-if true x y h k = h
NextInv-if false x y h k = k

on_char-Inv : (c : ℕ) (s : Progress) → Inv s → NextInv (on_char c s)
unfolding on_char
on_char-Inv c s i =
    let t = flush_bare-Inv s i in
    NextInv-if (c == b'.') _ _
      (NextInv-if (flush_bare s).emitted _ _ (record { filled = t.filled; emitted_out = λ e. cc })
        (λ p. cc))
      (NextInv-if (c == b'[') _ _ t (record { filled = i.filled; emitted_out = i.emitted_out }))

path_step-Inv : (m : Mode) (c : ℕ) (s : Progress) → Inv s → NextInv (path_step m c s)
unfolding path_step
path_step-Inv start c s i = on_char-Inv c s i
path_step-Inv after_dot c s i = on_char-Inv c s i
path_step-Inv opened c s i =
    NextInv-if ((c == b'"') || (c == b'\'')) (go_on (in_quotes c []) s) (stop bad_quote) i (λ p. cc)
path_step-Inv (in_quotes q key) c s i =
    NextInv-if (c == q) _ _
      (elim (Bool-cases (is_empty key)) [
        | inl e ↦ rw e (λ p. cc)
        | inr e ↦ rw e (push-Inv s key s.buf i e)
      ])
      i
path_step-Inv quote_closed c s i =
    NextInv-if (c == b']') (go_on bracket_closed s) (stop missing_bracket) i (λ p. cc)
path_step-Inv bracket_closed c s i =
    NextInv-if ((c == b'.') || (c == b'[')) (on_char c s) (stop unexpected_char) (on_char-Inv c s i)
      (λ p. cc)

-- What a parse that succeeds returns.
abbrev pub IsPath : Parsed → Type 0
IsPath (segments segs) = (is_nil segs ≡ false) × All IsNonEmpty segs
IsPath (malformed e) = e ≢ no_segments

finish_path-IsPath : (s : Progress) → Inv s → IsPath (finish_path s)
unfolding finish_path
finish_path-IsPath s i =
    let t = flush_bare-Inv s i in
    elim (Bool-cases (flush_bare s).emitted) [
      | inl e ↦ rw (e, t.emitted_out e) (t.emitted_out e, t.filled)
      | inr e ↦ rw e (λ p. cc)
    ]

path_end-IsPath : (m : Mode) (s : Progress) → Inv s → IsPath (path_end m s)
unfolding path_end
path_end-IsPath start s i = finish_path-IsPath s i
path_end-IsPath bracket_closed s i = finish_path-IsPath s i
path_end-IsPath after_dot s i = λ p. cc
path_end-IsPath opened s i = λ p. cc
path_end-IsPath (in_quotes q key) s i = λ p. cc
path_end-IsPath quote_closed s i = λ p. cc

path_loop-IsPath : (m : Mode) (cs : Text) (s : Progress) → Inv s → IsPath (path_loop m cs s)
unfolding path_loop
path_loop-IsPath m [] s i = path_end-IsPath m s i
path_loop-IsPath m (c ∷ cs) s i =
    next (path_step m c s) (path_step-Inv m c s i) (λ m' s'. path_loop-IsPath m' cs s')
  where
    next :
        (n : Next)
        → NextInv n
        → ((m' : Mode) (s' : Progress) → Inv s' → IsPath (path_loop m' cs s'))
        → IsPath (elim n [ go_on m' s' ↦ path_loop m' cs s' | stop e ↦ malformed e ])
    next (go_on m' s') j k = k m' s' j
    next (stop e) j k = j

-- What is accepted is a path that can be walked: at least one segment, and none of them empty. The
-- source's last test, for a path with no segments, never fails.
pub parse_path-IsPath : (s : Text) → IsPath (parse_path s)
unfolding parse_path
parse_path-IsPath s = elim (Bool-cases (is_empty s)) [
  | inl e ↦ rw e (λ p. cc)
  | inr e ↦
      rw e (path_loop-IsPath start s path_start (record { filled = tt; emitted_out = λ p. cc }))
]
