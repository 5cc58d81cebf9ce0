-- ===== src/EventSource/Parser/Agreement.antt =====
-- `feed` against the reader of single characters: they agree on every chunk, up to the limit on an
-- unterminated line, which only `feed` has.
use python_server_sdk.Base.{
  ℕ, ◌<◌, ◌≤◌, ◌≡◌, refl, sym, subst, Bool, true, false, ◌&&◌, List, [], ◌∷◌, ◌++◌, Text, join,
  length, length-append, nat_eq, ◌==◌, Bool-cases, inl, inr, if◌then◌else◌, arith, stream_too_large,
}
use mathlib.Core.List.{append-nil, append_assoc}
use python_server_sdk.EventSource.Parser.{
  Options, EventBuffer, Parser, Run, done, raised, ◌>>=◌, dispatch_line, is_terminator, buffer_line,
  with_events, finish_line, end_of_chunk, scan, feed_stripped,
}
use python_server_sdk.EventSource.Parser.Reference.{Reading, view, ended, read_char, read}

-- `line_len` is the length of the unterminated line, and within the limit.
pub record IsBounded (o : Options) (p : Parser) : Type 0 where
  pub counted : p.line_len ≡ length (join [] p.line_parts)
  pub within : p.line_len ≤ o.max_line_chars

-- The outcome of a method against that of the reader. Where only the method raises, the
-- unterminated line is over the limit.
abbrev pub Agrees : Options → Run Parser → Run Reading → Type 0
Agrees o (done p) (done r) = (view p ≡ r) × IsBounded o p
Agrees o (done p) (raised e r) = ⊥
Agrees o (raised e p) (done r) =
    (e ≡ stream_too_large) × (o.max_line_chars < length r.line) × (p.events ≡ r.events)
Agrees o (raised e p) (raised e' r) = (e ≡ e') × (p.events ≡ r.events)

join-snoc : (xs : List Text) (s : Text) → join [] (xs ++ s ∷ []) ≡ join [] xs ++ s
unfolding join
join-snoc [] s = refl
join-snoc (x ∷ []) s = refl
join-snoc (x ∷ y ∷ xs) s = rw (join-snoc (y ∷ xs) s) (rw append_assoc refl)

finish_line_lem :
    (o : Options) (s : Text) (p : Parser)
    → IsBounded o p
    → finish_line o s p
      ≡ with_events
          (record p { line_parts = []; line_len = 0 })
          (dispatch_line o (join [] p.line_parts ++ s) p.events)
unfolding finish_line join
finish_line_lem o s p h = ground (arith, join-snoc p.line_parts s)

end_of_chunk-Agrees :
    (o : Options) (s : Text) (p : Parser)
    → IsBounded o p
    → Agrees o (end_of_chunk o s p) (done (record (view p) { line = join [] p.line_parts ++ s }))
unfolding end_of_chunk buffer_line
end_of_chunk-Agrees o [] p h = ground (arith, append-nil (join [] p.line_parts))
end_of_chunk-Agrees o (c ∷ s) p h =
    ground (arith, join-snoc p.line_parts (c ∷ s), length-append (join [] p.line_parts) (c ∷ s))

line-Agrees :
    (o : Options) (c : ℕ) (p : Parser) (d : Run EventBuffer) (k : Parser → Run Parser) (rest : Text)
    → ((b : EventBuffer)
        → Agrees o
            (k (record p { events = b }))
            (read o rest (record { line = []; after_cr = c == 13; events = b })))
    → Agrees o (with_events p d >>= k) (ended c d >>= read o rest)
unfolding with_events ended
line-Agrees o c p (done b) k rest h = h b
line-Agrees o c p (raised e b) k rest h = (refl, refl)

-- After a CR, only a LF is read differently.
read-after_cr :
    (o : Options) (d : ℕ) (rest : Text) (r : Reading)
    → (r.after_cr && d == 10) ≡ false
    → read o (d ∷ rest) r ≡ read o (d ∷ rest) (record r { after_cr = false })
unfolding read read_char ended
read-after_cr o d rest r h = ground arith

-- What the parser holds, with a fragment of the current chunk behind it.
abbrev reading : Parser → Text → Reading
reading p s = record (view p) { line = join [] p.line_parts ++ s }

-- Off a CR, a character ends the line or extends it.
read_char-terminator :
    (o : Options) (c : ℕ) (r : Reading)
    → is_terminator c ≡ true
    → r.after_cr ≡ false
    → read_char o c r ≡ ended c (dispatch_line o r.line r.events)
unfolding read_char
read_char-terminator o c r t free = rw (free, t)

read_char-other :
    (o : Options) (c : ℕ) (r : Reading)
    → is_terminator c ≡ false
    → r.after_cr ≡ false
    → read_char o c r ≡ done (record r { line = r.line ++ c ∷ [] })
unfolding read_char
read_char-other o c r f free = ground arith

IsBounded-empty :
    (o : Options) (p : Parser) (b : EventBuffer)
    → IsBounded o (record p { line_parts = []; line_len = 0; events = b })
unfolding join
IsBounded-empty o p b = record { counted = refl; within = omega arith }

-- What a terminator leaves to the loop: the rest of the chunk, or the mark of a CR at its end.
last-Agrees :
    (o : Options) (c : ℕ) (p : Parser) (b : EventBuffer)
    → p.pending_lf ≡ false
    → Agrees o
        (done (
          if c == 13
          then record p { line_parts = []; line_len = 0; pending_lf = true; events = b }
          else record p { line_parts = []; line_len = 0; events = b }))
        (done (record { line = []; after_cr = c == 13; events = b }))
unfolding join
last-Agrees o c p b free = ground arith

skip_lf :
    (o : Options) (rest : Text) (r : Reading)
    → r.after_cr ≡ true
    → read o (10 ∷ rest) r ≡ read o rest (record r { after_cr = false })
unfolding read read_char
skip_lf o rest r h = rw h

read_char-crlf :
    (o : Options) (c d : ℕ) (b : EventBuffer)
    → (c == 13 && d == 10) ≡ true
    → read_char o d (record { line = []; after_cr = c == 13; events = b })
      ≡ done (record { line = []; after_cr = false; events = b })
unfolding read_char
read_char-crlf o c d b e = ground arith

and_left : {a : Bool} (b : Bool) → a ≡ false → (a && b) ≡ false
and_left b h = rw h

and_right : (a : Bool) {b : Bool} → b ≡ false → (a && b) ≡ false
and_right a h = ground arith

read_char-lf :
    (o : Options) (c : ℕ) (r : Reading)
    → r.after_cr ≡ true
    → (c == 10) ≡ true
    → read_char o c r ≡ done (record r { after_cr = false })
unfolding read_char
read_char-lf o c r h e = ground arith

module _ (o : Options) where
  at_line_start :
      (rest : Text) (p : Parser)
      → p.pending_lf ≡ false
      → Agrees o (scan o [] rest p) (read o rest (reading p []))
      → Agrees o (scan o [] rest p) (read o rest (record (reading p []) { after_cr = false }))
  at_line_start rest p free =
      subst
        (λ a. Agrees o (scan o [] rest p) (read o rest (record (reading p []) { after_cr = a })))
        free

  scan-Agrees :
      (s rest : Text) (p : Parser)
      → IsBounded o p
      → p.pending_lf ≡ false
      → Agrees o (scan o s rest p) (read o rest (reading p s))
  unfolding scan read join
  scan-Agrees s [] p h free = end_of_chunk-Agrees o s p h
  scan-Agrees s (c ∷ []) p h free = elim (Bool-cases (is_terminator c)) [
    | inl t ↦
        rw (t, finish_line_lem o s p h, read_char-terminator o c (reading p s) t free)
          (line-Agrees o c (record p { line_parts = []; line_len = 0 })
            (dispatch_line o (join [] p.line_parts ++ s) p.events)
            (λ q. done (if c == 13 then record q { pending_lf = true } else q)) []
            (λ b. last-Agrees o c p b free))
    | inr f ↦
        rw (f, read_char-other o c (reading p s) f free)
          (rw append_assoc (end_of_chunk-Agrees o (s ++ c ∷ []) p h))
  ]
  scan-Agrees s (c ∷ d ∷ rest) p h free =
      let q : Parser = record p { line_parts = []; line_len = 0 } in
      let line = dispatch_line o (join [] p.line_parts ++ s) p.events in
      let next_rest = λ (b : EventBuffer).
        at_line_start rest (record q { events = b }) free
          (scan-Agrees [] rest (record q { events = b }) (IsBounded-empty o p b) free) in
      let next = λ (b : EventBuffer).
        at_line_start (d ∷ rest) (record q { events = b }) free
          (scan-Agrees [] (d ∷ rest) (record q { events = b }) (IsBounded-empty o p b) free) in
      elim (Bool-cases (is_terminator c)) [
        | inl t ↦
            rw (t, finish_line_lem o s p h, read_char-terminator o c (reading p s) t free)
              (elim (Bool-cases (c == 13 && d == 10)) [
                | inl e ↦ rw e (
                    line-Agrees o c q line (scan o [] rest) (d ∷ rest)
                      (λ b. rw (read_char-crlf o c d b e) (next_rest b)))
                | inr e ↦ rw e (
                    line-Agrees o c q line (scan o [] (d ∷ rest)) (d ∷ rest) (λ b.
                      rw
                        (read-after_cr o d rest
                          (record { line = []; after_cr = c == 13; events = b }) e)
                        (next b)))
              ])
        | inr f ↦
            rw (f, read_char-other o c (reading p s) f free)
              (rw append_assoc (scan-Agrees (s ++ c ∷ []) (d ∷ rest) p h free))
      ]

  scan_start :
      (rest : Text) (p : Parser)
      → IsBounded o p
      → p.pending_lf ≡ false
      → Agrees o (scan o [] rest p) (read o rest (record (view p) { after_cr = false }))
  scan_start rest p h free =
      subst
        (λ l.
          Agrees o (scan o [] rest p)
            (read o rest (record (view p) { line = l; after_cr = false })))
        (append-nil (join [] p.line_parts))
        (at_line_start rest p free (scan-Agrees [] rest p h free))

  -- The state of a chunk that opens after a CR.
  abbrev unmarked : Parser → Parser
  unmarked p = record p { pending_lf = false }

  unmarked-IsBounded : (p : Parser) → IsBounded o p → IsBounded o (unmarked p)
  unmarked-IsBounded p h = record { counted = h.counted; within = h.within }

  pub feed_stripped-Agrees :
      (chunk : Text) (p : Parser)
      → IsBounded o p
      → Agrees o (feed_stripped o chunk p) (read o chunk (view p))
  unfolding feed_stripped read
  feed_stripped-Agrees [] p h = (refl, h)
  feed_stripped-Agrees (c ∷ rest) p h = elim (Bool-cases p.pending_lf) [
    | inl marked ↦
        let r : Reading = record (view p) { after_cr = true } in
        rw marked (elim (Bool-cases (c == 10)) [
          | inl lf ↦
              rw (lf, read_char-lf o c r refl lf)
                (scan_start rest (unmarked p) (unmarked-IsBounded p h) refl)
          | inr other ↦
              rw (other, read-after_cr o c rest r other)
                (scan_start (c ∷ rest) (unmarked p) (unmarked-IsBounded p h) refl)
        ])
    | inr free ↦
        let r : Reading = view p in
        let marked : Run Parser =
          if c == 10 then scan o [] rest (unmarked p) else scan o [] (c ∷ rest) (unmarked p) in
        let plain = scan o [] (c ∷ rest) p in
        subst (λ b. Agrees o (if b then marked else plain) (read o (c ∷ rest) r)) (sym free)
          (rw (read-after_cr o c rest r (and_left (c == 10) free)) (scan_start (c ∷ rest) p h free))
  ]
