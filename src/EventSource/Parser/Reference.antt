-- ===== src/EventSource/Parser/Reference.antt =====
-- An event stream read one character at a time, as the format is specified: a line ends at a CR, a
-- LF or a CR LF, and each line is dispatched as it ends. It knows nothing of chunks.
use python_server_sdk.Base.{
  ℕ, ◌≡◌, refl, Bool, false, ◌&&◌, [], ◌∷◌, ◌++◌, Text, join, nat_eq, ◌==◌, if◌then◌else◌,
}
use python_server_sdk.EventSource.Parser.{
  Options, EventBuffer, Parser, Run, done, raised, ◌>>=◌, dispatch_line, is_terminator,
}

pub record Reading : Type 0 where
  pub line : Text
  pub after_cr : Bool
  pub events : EventBuffer

-- What a parser holds, without how it is cut into parts.
abbrev pub view : Parser → Reading
view p = record { line = join [] p.line_parts; after_cr = p.pending_lf; events = p.events }

unfoldable pub ended : ℕ → Run EventBuffer → Run Reading
ended c (done b) = done (record { line = []; after_cr = c == 13; events = b })
ended c (raised e b) = raised e (record { line = []; after_cr = c == 13; events = b })

unfoldable pub read_char : Options → ℕ → Reading → Run Reading
unfolding ended is_terminator
read_char o c r =
    if r.after_cr && c == 10
    then done (record r { after_cr = false })
    else if is_terminator c
    then ended c (dispatch_line o r.line r.events)
    else done (record r { line = r.line ++ c ∷ []; after_cr = false })

unfoldable pub read : Options → Text → Reading → Run Reading
read o [] r = done r
read o (c ∷ s) r = read_char o c r >>= read o s

-- Reading two texts one after the other is reading their concatenation.
pub read-append :
    (o : Options) (s t : Text) (r : Reading) → read o (s ++ t) r ≡ (read o s r >>= read o t)
unfolding read
read-append o [] t r = refl
read-append o (c ∷ s) t r =
    elim (read_char o c r) as (λ m. (m >>= read o (s ++ t)) ≡ ((m >>= read o s) >>= read o t)) [
      | done q ↦ read-append o s t q
      | raised e q ↦ refl
    ]
