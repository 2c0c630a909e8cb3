-- ===== src/Sftp/Download/Safety.antt =====
-- What a finished download has done, whatever the server answered and whatever failed on the way.
use qingzhou_ssh.Prelude.{
  ℕ, ◌+◌, ◌≤◌, ◌<◌, ◌≡◌, refl, ◌∙◌, subst, inl, inr, false, ◌||◌, Option, none, some, List, [], ◌∷◌,
  ◌++◌, arith, length, length-append, ltb, Bool-cases, Option-cases,
}
use qingzhou_ssh.Prelude.Result.{ok, >>=-eq-ok, ok-injective, Result-cases}
use qingzhou_ssh.Sftp.Pipeline.Window.{
  Chunk, PipelineStats, u64_max, max_pipeline_requests, max_pipeline_bytes,
}
use qingzhou_ssh.Sftp.Pipeline.Buffer.{Bytes, is_empty}
use qingzhou_ssh.Sftp.Download.{
  Local, WriteAnswer, Window, Response, Event, Status, running, finished, stopped, completed,
  answered, eof, failed, cancelled, join_failed, take_nth, receive, step, start, feed, run,
  write_chunks,
}
use qingzhou_ssh.Sftp.Download.Invariant.{take_nth-Splits, Splits, IsWindowState}
use qingzhou_ssh.Sftp.Download.Invariant.Steps.{accept_lem, after, drained, after-IsWindowState}
use qingzhou_ssh.Sftp.Download.Windows.{IsStatus, next_window_lem, settle_lem}

abbrev pub BringsTo : (ℕ → Bytes → Type 0) → Bytes → Option (Chunk × List Chunk) → Type 0
BringsTo P bs none = Unit
BringsTo P bs (some found) = P found.0.offset bs

-- The bytes that an event brings, if any, satisfy `P` at the offset of the read that ends.
abbrev pub Brings : (ℕ → Bytes → Type 0) → Status → Event → Type 0
Brings P (running w) (completed i (answered bs) answers) = BringsTo P bs (take_nth i w.reads)
Brings P s e = Unit

-- Each event brings such bytes, in the state that it finds.
abbrev pub Bring : (ℕ → Bytes → Type 0) → ℕ → ℕ → Status → List Event → Type 0
Bring P total chunk_bytes s [] = Unit
Bring P total chunk_bytes s (e ∷ es) =
    Brings P s e × Bring P total chunk_bytes (feed total chunk_bytes s e) es

module _ (P Q : ℕ → Bytes → Type 0)
    (extend : (n : ℕ) (x b : Bytes) → Q n x → P n b → Q (n + length b) (x ++ b)) where
  accept-IsWindowState :
      (total : ℕ) (w w' : Window) (c : Chunk) (rest : List Chunk) (bs : Bytes)
      (answers : List WriteAnswer)
      → IsWindowState P Q total w
      → Splits w.reads c rest
      → P c.offset bs
      → receive w (answered bs) answers c rest ≡ ok w'
      → IsWindowState P Q total w'
  unfolding receive
  accept-IsWindowState total w w' c rest bs answers h s p e =
      elim (Bool-cases (is_empty bs || ltb c.len (length bs))) [
        | inl bad ↦ absurd (ground arith)
        | inr good ↦
            let n : 0 < length bs = nonempty bs (ground arith) in
            let fits : length bs ≤ c.len = ground arith in
            let accepted = rw good at e in
            let eq = rw (accept_lem bs h s n fits p answers) at accepted in
            let (l, wrote, done) =
              >>=-eq-ok (write_chunks answers (drained bs h s n fits p).1 w.local)
                (λ l. ok (after bs h s n fits p l)) eq in
            subst (IsWindowState P Q total) (ok-injective done)
              (after-IsWindowState bs h s n fits p extend answers l wrote)
      ]
    where
      nonempty : (b : Bytes) → is_empty b ≡ false → 0 < length b
      nonempty [] h = cc
      nonempty (x ∷ b) h = omega arith

  received :
      (total : ℕ) (w w' : Window) (i : ℕ) (answers : List WriteAnswer) (r : Response)
      (found : Chunk × List Chunk)
      → IsWindowState P Q total w
      → take_nth i w.reads ≡ some found
      → Brings P (running w) (completed i r answers)
      → receive w r answers found.0 found.1 ≡ ok w'
      → IsWindowState P Q total w'
  unfolding receive
  received total w w' i answers eof found h at b e = cc
  received total w w' i answers (failed message) found h at b e = cc
  received total w w' i answers (answered bs) found h at b e =
      accept-IsWindowState total w w' found.0 found.1 bs answers h
        (take_nth-Splits i w.reads found.0 found.1 h.positive at) (subst (BringsTo P bs) at b) e

  step-IsWindowState :
      (total : ℕ) (w w' : Window) (e : Event)
      → IsWindowState P Q total w
      → Brings P (running w) e
      → step w e ≡ ok w'
      → IsWindowState P Q total w'
  unfolding step
  step-IsWindowState total w w' cancelled h b e = cc
  step-IsWindowState total w w' (join_failed message) h b e = cc
  step-IsWindowState total w w' (completed i r answers) h b e =
      elim (Option-cases (take_nth i w.reads)) [
        | inl gone ↦ subst (IsWindowState P Q total) (ok-injective (rw (gone, step) at e)) h
        | inr (found, at) ↦ received total w w' i answers r found h at b (rw (at, step) at e)
      ]

  module _ (total chunk_bytes : ℕ) (bound : total ≤ u64_max) (asks : 0 < chunk_bytes) where
    pub start-IsStatus : Q 0 [] → IsStatus P Q total (start total chunk_bytes)
    unfolding start
    start-IsStatus q =
        (next_window_lem P Q total chunk_bytes bound asks
          (record { written = []; hashed = []; transferred = 0 })
          (record { max_in_flight = 0; max_buffered_bytes = 0 }) (omega arith)
          (record { content = q; same = refl }) (omega arith)).0

    feed-IsStatus :
        (s : Status) (e : Event)
        → IsStatus P Q total s
        → Brings P s e
        → IsStatus P Q total (feed total chunk_bytes s e)
    unfolding feed
    feed-IsStatus (finished l stats) e h b = h
    feed-IsStatus (stopped error) e h b = tt
    feed-IsStatus (running w) e h b = elim (Result-cases (step w e)) [
      | inr (error, at) ↦ rw (at, feed) tt
      | inl (w', at) ↦
          rw (at, feed)
            (settle_lem P Q total chunk_bytes bound asks w'
              (step-IsWindowState total w w' e h.0 b at)).0
    ]

    pub run-IsStatus :
        (s : Status) (es : List Event)
        → IsStatus P Q total s
        → Bring P total chunk_bytes s es
        → IsStatus P Q total (run total chunk_bytes s es)
    unfolding run
    run-IsStatus s [] h b = h
    run-IsStatus s (e ∷ es) h b =
        run-IsStatus (feed total chunk_bytes s e) es (feed-IsStatus s e h b.0) b.1

module _ (total chunk_bytes : ℕ) where
  Bring-any : (s : Status) (es : List Event) → Bring (λ o bs. Unit) total chunk_bytes s es
  Bring-any s [] = tt
  Bring-any s (e ∷ es) = (any_event s e, Bring-any (feed total chunk_bytes s e) es)
    where
      at : (bs : Bytes) (o : Option (Chunk × List Chunk)) → BringsTo (λ o bs. Unit) bs o
      at bs none = tt
      at bs (some found) = tt

      any_event : (s : Status) (e : Event) → Brings (λ o bs. Unit) s e
      any_event (running w) (completed i (answered bs) answers) = at bs (take_nth i w.reads)
      any_event s e = tt

  -- Whatever a server answers, in whatever order the reads end and whatever fails: if the download
  -- finishes, it has written and hashed the same bytes, exactly as many as the file was said to
  -- have, with at most 8 reads under way and at most 16 MiB buffered at any time.
  pub finished_complete :
      (es : List Event) (l : Local) (stats : PipelineStats)
      → total ≤ u64_max
      → 0 < chunk_bytes
      → run total chunk_bytes (start total chunk_bytes) es ≡ finished l stats
      → (l.transferred ≡ total)
        × (length l.written ≡ total)
        × (l.hashed ≡ l.written)
        × (stats.max_in_flight ≤ max_pipeline_requests)
        × (stats.max_buffered_bytes ≤ max_pipeline_bytes)
  finished_complete es l stats bound asks e =
      let any = λ (o : ℕ) (bs : Bytes). Unit {0} in
      let counts = λ (n : ℕ) (bs : Bytes). length bs ≡ n in
      let extend : (n : ℕ) (x b : Bytes)
          → length x ≡ n
          → Unit {0}
          → length (x ++ b) ≡ n + length b =
        λ n x b h u. omega (arith, length-append x b) in
      let s0 = start-IsStatus any counts extend total chunk_bytes bound asks refl in
      let s =
        run-IsStatus any counts extend total chunk_bytes bound asks (start total chunk_bytes) es s0
          (Bring-any (start total chunk_bytes) es) in
      let f = subst (IsStatus any counts total) e s in
      (f.0, f.1.content ∙ f.0, f.1.same, f.2.0, f.2.1)
