-- ===== src/InjectPath.antt =====
-- internal/controller/workspaces/inject.go: parsePath, a JSONPath-lite parser. The position in the
-- source's loop is a mode: `in_quotes` is its inner loop, the others are the places between tests.
pub mod Sound
pub mod RoundTrip
use exalsius_operator.Prelude.{
  ℕ, Text, List, [], ◌∷◌, Bool, if◌then◌else◌, false, is_empty, ◌==◌, is_nil, ◌++◌, ◌||◌, true,
}

pub data PathError : Type 0 where
  path_empty empty_segment trailing_dot unclosed_bracket bad_quote : PathError
  unterminated_quote empty_quoted missing_bracket unexpected_char no_segments : PathError

pub data Parsed : Type 0 where
  segments : List Text → Parsed
  malformed : PathError → Parsed

pub data Mode : Type 0 where
  start after_dot opened : Mode
  in_quotes : ℕ → Text → Mode
  quote_closed bracket_closed : Mode

-- `out`, `buf` and `emittedSinceDot`
pub record Progress : Type 0 where
  pub out : List Text
  pub buf : Text
  pub emitted : Bool

pub data Next : Type 0 where
  go_on : Mode → Progress → Next
  stop : PathError → Next

unfoldable pub flush_bare : Progress → Progress
flush_bare s =
    if is_empty s.buf then s else record { out = s.out ++ s.buf ∷ []; buf = []; emitted = true }

-- The `switch` on one byte.
unfoldable pub on_char : ℕ → Progress → Next
on_char c s =
    let t = flush_bare s in
    if c == b'.'
    then (if t.emitted then go_on after_dot (record t { emitted = false }) else stop empty_segment)
    else if c == b'['
    then go_on opened t
    else go_on start (record s { buf = s.buf ++ c ∷ [] })

unfoldable pub path_step : Mode → ℕ → Progress → Next
unfolding on_char
path_step start c s = on_char c s
path_step after_dot c s = on_char c s
path_step opened c s =
    if (c == b'"') || (c == b'\'') then go_on (in_quotes c []) s else stop bad_quote
path_step (in_quotes q key) c s =
    if c == q
    then (if is_empty key
        then stop empty_quoted
        else go_on quote_closed (record s { out = s.out ++ key ∷ []; emitted = true }))
    else go_on (in_quotes q (key ++ c ∷ [])) s
path_step quote_closed c s = if c == b']' then go_on bracket_closed s else stop missing_bracket
path_step bracket_closed c s =
    if (c == b'.') || (c == b'[') then on_char c s else stop unexpected_char

-- After the loop.
unfoldable pub finish_path : Progress → Parsed
finish_path s =
    let t = flush_bare s in
    if t.emitted
    then (if is_nil t.out then malformed no_segments else segments t.out)
    else malformed trailing_dot

-- The end of the input in each mode.
unfoldable pub path_end : Mode → Progress → Parsed
unfolding finish_path
path_end start s = finish_path s
path_end after_dot s = malformed trailing_dot
path_end opened s = malformed unclosed_bracket
path_end (in_quotes q key) s = malformed unterminated_quote
path_end quote_closed s = malformed missing_bracket
path_end bracket_closed s = finish_path s

unfoldable pub path_loop : Mode → Text → Progress → Parsed
path_loop m [] s = path_end m s
path_loop m (c ∷ cs) s = elim (path_step m c s) [
  | go_on m' s' ↦ path_loop m' cs s'
  | stop e ↦ malformed e
]

abbrev pub path_start : Progress
path_start = record { out = []; buf = []; emitted = false }

unfoldable pub parse_path : Text → Parsed
unfolding path_loop path_step path_end
parse_path s = if is_empty s then malformed path_empty else path_loop start s path_start
