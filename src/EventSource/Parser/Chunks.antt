-- ===== src/EventSource/Parser/Chunks.antt =====
-- `feed` of whole chunks: what a stream means does not depend on how it is cut into chunks.
use python_server_sdk.Base.{
  ℕ, ◌≤◌, ◌≡◌, refl, sym, ap, ◌∙◌, Bool, true, false, [], ◌∷◌, ◌++◌, Text, join, length, nat_eq,
  ◌==◌, starts_with, if◌then◌else◌, Bool-cases, inl, inr, arith,
}
use python_server_sdk.EventSource.Parser.{
  Options, Parser, Run, done, raised, ◌>>=◌, init, strip_bom, finish_line, end_of_chunk, scan,
  feed_stripped, feed,
}
use python_server_sdk.EventSource.Parser.Reference.{Reading, view, read, read-append}
use python_server_sdk.EventSource.Parser.Agreement.{Agrees, IsBounded, feed_stripped-Agrees}

-- The text that `feed` reads of a chunk.
abbrev pub opened : Parser → Text → Text
opened p chunk = if p.first_chunk then strip_bom chunk else chunk

opened-append :
    (a b : Text) (p : Parser)
    → (p.first_chunk ≡ true → strip_bom (a ++ b) ≡ strip_bom a ++ b)
    → opened p (a ++ b) ≡ opened p a ++ b
opened-append a b p whole = ground (arith, whole)

module _ (o : Options) where
  -- From a bounded state, `feed` has the outcome of reading the chunk one character at a time: the
  -- same state and calls, the same error, or, only where the unterminated line that is left is
  -- over the limit, the error for a line that is too long.
  pub feed-Agrees :
      (chunk : Text) (p : Parser)
      → IsBounded o p
      → Agrees o (feed o chunk p) (read o (opened p chunk) (view p))
  unfolding feed
  feed-Agrees chunk p h = elim (Bool-cases p.first_chunk) [
    | inl first ↦
        rw first
          (feed_stripped-Agrees o (strip_bom chunk) (record p { first_chunk = false }) bounded)
    | inr later ↦ rw later (feed_stripped-Agrees o chunk (record p { first_chunk = false }) bounded)
  ]
    where
      bounded : IsBounded o (record p { first_chunk = false })
      bounded = record { counted = h.counted; within = h.within }

  done-Agrees :
      (p : Parser) (r : Run Reading) → Agrees o (done p) r → (r ≡ done (view p)) × IsBounded o p
  done-Agrees p (done r) h = (ap done (sym h.0), h.1)
  done-Agrees p (raised e r) h = absurd h

  pub feed-done :
      (chunk : Text) (p q : Parser)
      → IsBounded o p
      → feed o chunk p ≡ done q
      → (read o (opened p chunk) (view p) ≡ done (view q)) × IsBounded o q
  feed-done chunk p q h e = done-Agrees q _ (rw e at (feed-Agrees chunk p h))

  first_of : Run Parser → Bool
  first_of (done p) = p.first_chunk
  first_of (raised e p) = p.first_chunk

  finish_line-first_chunk : (s : Text) (p : Parser) → first_of (finish_line o s p) ≡ p.first_chunk
  unfolding first_of finish_line
  finish_line-first_chunk s p = ground arith

  end_of_chunk-first_chunk : (s : Text) (p : Parser) → first_of (end_of_chunk o s p) ≡ p.first_chunk
  unfolding first_of end_of_chunk
  end_of_chunk-first_chunk s p = ground arith

  mark-first_chunk :
      (c : ℕ) (q : Parser)
      → first_of (done (if c == 13 then record q { pending_lf = true } else q)) ≡ q.first_chunk
  unfolding first_of
  mark-first_chunk c q = ground arith

  -- The rest of the loop keeps the mark if it does from every state.
  bind-first_chunk :
      (m : Run Parser) (k : Parser → Run Parser) (b : Bool)
      → first_of m ≡ b
      → ((q : Parser) → first_of (k q) ≡ q.first_chunk)
      → first_of (m >>= k) ≡ b
  unfolding first_of
  bind-first_chunk (done q) k b h keep = keep q ∙ h
  bind-first_chunk (raised e q) k b h keep = h

  scan-first_chunk : (s rest : Text) (p : Parser) → first_of (scan o s rest p) ≡ p.first_chunk
  unfolding scan
  scan-first_chunk s [] p = end_of_chunk-first_chunk s p
  scan-first_chunk s (c ∷ []) p = ground (
    arith,
    end_of_chunk-first_chunk (s ++ c ∷ []) p,
    bind-first_chunk (finish_line o s p)
        (λ q. done (if c == 13 then record q { pending_lf = true } else q)) p.first_chunk
        (finish_line-first_chunk s p) (λ q. mark-first_chunk c q),
  )
  scan-first_chunk s (c ∷ d ∷ rest) p = ground (
    arith,
    scan-first_chunk (s ++ c ∷ []) (d ∷ rest) p,
    bind-first_chunk (finish_line o s p) (scan o [] rest) p.first_chunk
        (finish_line-first_chunk s p) (λ q. scan-first_chunk [] rest q),
    bind-first_chunk (finish_line o s p) (scan o [] (d ∷ rest)) p.first_chunk
        (finish_line-first_chunk s p) (λ q. scan-first_chunk [] (d ∷ rest) q),
  )

  feed-first_chunk : (chunk : Text) (p : Parser) → first_of (feed o chunk p) ≡ false
  unfolding feed feed_stripped first_of
  feed-first_chunk chunk p = elim (Bool-cases p.first_chunk) [
    | inl first ↦ rw first (stripped (strip_bom chunk) (record p { first_chunk = false }) refl)
    | inr later ↦ rw later (stripped chunk (record p { first_chunk = false }) refl)
  ]
    where
      stripped :
          (t : Text) (q : Parser) → q.first_chunk ≡ false → first_of (feed_stripped o t q) ≡ false
      stripped [] q h = h
      stripped (c ∷ t) q h = ground (
        arith,
        scan-first_chunk [] (c ∷ t) q,
        scan-first_chunk [] (c ∷ t) (record q { pending_lf = false }),
        scan-first_chunk [] t (record q { pending_lf = false }),
      )

  -- Within the limit, `feed` returns where the reader does.
  within-done :
      (m : Run Parser) (r : Reading)
      → Agrees o m (done r)
      → length r.line ≤ o.max_line_chars
      → (q : Parser) × (m ≡ done q) × (view q ≡ r)
  within-done (done q) r h fits = (q, refl, h.0)
  within-done (raised e q) r h fits = absurd (omega arith)

  -- Feeding two chunks is feeding their concatenation. From a bounded state, if the two calls
  -- return, then the one call returns too, with the same pending line, the same event under
  -- construction and the same calls. On the first chunk of a stream, the mark at its start must
  -- not be cut.
  pub feed-append :
      (a b : Text) (p p1 p2 : Parser)
      → IsBounded o p
      → (p.first_chunk ≡ true → strip_bom (a ++ b) ≡ strip_bom a ++ b)
      → feed o a p ≡ done p1
      → feed o b p1 ≡ done p2
      → (q : Parser) × (feed o (a ++ b) p ≡ done q) × (view q ≡ view p2)
  unfolding first_of
  feed-append a b p p1 p2 h whole ea eb =
      let (ra, h1) = feed-done a p p1 h ea in
      let (rb, h2) = feed-done b p1 p2 h1 eb in
      let later : p1.first_chunk ≡ false = rw ea at (feed-first_chunk a p) in
      let rb' : read o b (view p1) ≡ done (view p2) = rw later at rb in
      let both : read o (opened p (a ++ b)) (view p) ≡ done (view p2) =
        rw (opened-append a b p whole, read-append, ra) rb' in
      within-done (feed o (a ++ b) p) (view p2) (rw both at (feed-Agrees (a ++ b) p h))
        (omega arith)

-- A first chunk of three characters or more holds the whole mark, if there is one.
pub strip_bom-append : (a b : Text) → 3 ≤ length a → strip_bom (a ++ b) ≡ strip_bom a ++ b
unfolding strip_bom starts_with
strip_bom-append (x ∷ y ∷ z ∷ a) b h = ground arith
strip_bom-append [] b h = absurd (omega arith)
strip_bom-append (x ∷ []) b h = absurd (omega arith)
strip_bom-append (x ∷ y ∷ []) b h = absurd (omega arith)

pub init-IsBounded : (o : Options) → IsBounded o init
unfolding init join
init-IsBounded o = record { counted = refl; within = omega arith }

-- The byte order mark that opens a stream is dropped if it opens the first chunk, and is read as
-- the first character of the first line if an empty chunk came before it.
pub bom_after_empty_chunk :
    (o : Options) (s : Text)
    → Agrees o (feed o (0xfeff ∷ s) init) (read o s (view init))
      × Agrees o (feed o [] init >>= feed o (0xfeff ∷ s)) (read o (0xfeff ∷ s) (view init))
unfolding feed feed_stripped init strip_bom starts_with
bom_after_empty_chunk o s = (
  feed-Agrees o (0xfeff ∷ s) init (init-IsBounded o),
  feed-Agrees o (0xfeff ∷ s) (record init { first_chunk = false })
      (record { counted = (init-IsBounded o).counted; within = (init-IsBounded o).within }),
)
