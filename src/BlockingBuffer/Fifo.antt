-- ===== src/BlockingBuffer/Fifo.antt =====
-- Bytes come out in the order in which they went in.
use utp.Base.{
  ℕ, ◌<◌, ◌≡◌, refl, List, [], ◌∷◌, ◌++◌, map, Option, none, some, ltb, length, arith, append_assoc,
  append-nil, take-append-drop, ◌∙◌, ap, sym, Bool-cases, inl, inr, ltb→lt,
}
use utp.BlockingBuffer.{
  ByteBuffer, Reader, Resolved, ReadOutcome, now, pending, assertion_failed, BlockingBuffer, serve,
  serve_all, write, read, drain, resolve_null,
}

abbrev pub bytes_of : Option (List ℕ) → List ℕ
bytes_of none = []
bytes_of (some bs) = bs

-- all that a list of resolved reads delivered
abbrev pub delivered : List Resolved → List ℕ
delivered [] = []
delivered (r ∷ rs) = bytes_of r.bytes ++ delivered rs

abbrev pub outcome_bytes : ReadOutcome → List ℕ
outcome_bytes (now got) = bytes_of got
outcome_bytes pending = []
outcome_bytes assertion_failed = []

module _ (𝓑 : ByteBuffer) where
  open 𝓑 use {contents, contents-write, contents-read, read_bytes}

  abbrev pub held : BlockingBuffer 𝓑 → List ℕ
  held b = contents b.buffer

  serve_lem :
      (b : BlockingBuffer 𝓑) (r : Reader) (rs : List Reader)
      → 0 < length (held b)
      → bytes_of (serve 𝓑 b r rs).1.bytes ++ held (serve 𝓑 b r rs).0 ≡ held b
  unfolding serve
  serve_lem b r rs h =
      rw (read_bytes b.buffer r.room h, contents-read b.buffer r.room h)
        (take-append-drop r.room (held b))

  serve_all_lem :
      (rs : List Reader) (b : BlockingBuffer 𝓑)
      → delivered (serve_all 𝓑 b rs).1 ++ held (serve_all 𝓑 b rs).0 ≡ held b
  unfolding serve_all
  serve_all_lem [] b = refl
  serve_all_lem (r ∷ rs) b = elim (Bool-cases (ltb 0 (length (held b)))) [
    | inl some_left ↦
        rw (some_left, append_assoc)
          (ap (λ t. bytes_of (serve 𝓑 b r rs).1.bytes ++ t) (serve_all_lem rs (serve 𝓑 b r rs).0)
            ∙ serve_lem b r rs (ltb→lt 0 _ some_left))
    | inr none_left ↦ rw none_left
  ]

  -- What `write` delivers to the reads that wait, before what it leaves in the buffer, is what the buffer
  -- held before, followed by the bytes written.
  pub write_lem :
      (b : BlockingBuffer 𝓑) (bytes : List ℕ)
      → delivered (write 𝓑 b bytes).1 ++ held (write 𝓑 b bytes).0.1 ≡ held b ++ bytes
  unfolding write
  write_lem b bytes = serve_all_lem b.read_resolvers _ ∙ contents-write b.buffer bytes

  -- A `read` takes its bytes from the front of the buffer.
  pub read_lem :
      (b : BlockingBuffer 𝓑) (r : Reader)
      → outcome_bytes (read 𝓑 b r).0 ++ held (read 𝓑 b r).1 ≡ held b
  unfolding read
  read_lem b r = elim (Bool-cases (ltb 0 (length (held b)))) [
    | inl some_left ↦
        let pos : 0 < length (held b) = ltb→lt 0 _ some_left in
        elim (Bool-cases b.closed) [
          | inl shut ↦ ground (arith, shut)
          | inr open_ ↦
              rw
                (
                  open_,
                  some_left,
                  read_bytes b.buffer r.room pos,
                  contents-read b.buffer r.room pos,
                )
                (take-append-drop r.room (held b))
        ]
    | inr none_left ↦ ground (arith, none_left)
  ]

  -- `drain` keeps every byte that is in the buffer.
  pub drain_lem : (b : BlockingBuffer 𝓑) → held (drain 𝓑 b).0 ≡ held b
  unfolding drain
  drain_lem b = ground arith

delivered-nulls : (rs : List Reader) → delivered (map resolve_null rs) ≡ []
delivered-nulls [] = refl
delivered-nulls (r ∷ rs) = delivered-nulls rs

pub after : (d l h0 h1 h2 w : List ℕ) → d ++ h1 ≡ h0 → l ++ h2 ≡ h1 ++ w → (d ++ l) ++ h2 ≡ h0 ++ w
after d l h0 h1 h2 w p q =
    append_assoc d l h2 ∙ ap (λ t. d ++ t) q ∙ sym (append_assoc d h1 w) ∙ ap (λ t. t ++ w) p

-- what the connection and the application call on a receive buffer
pub data Op : Type 0 where
  put : List ℕ → Op
  get : Reader → Op
  shut : Op

-- all bytes that a sequence of calls writes
abbrev pub all_written : List Op → List ℕ
all_written [] = []
all_written (put bytes ∷ ops) = bytes ++ all_written ops
all_written (get r ∷ ops) = all_written ops
all_written (shut ∷ ops) = all_written ops

module _ (𝓑 : ByteBuffer) where
  -- The calls in order: the buffer at the end, and all bytes that reads were resolved with.
  pub run : BlockingBuffer 𝓑 → List Op → BlockingBuffer 𝓑 × List ℕ
  run b [] = (b, [])
  run b (put bytes ∷ ops) =
      let ((_, b'), done) = write 𝓑 b bytes in
      let (b'', later) = run b' ops in (b'', delivered done ++ later)
  run b (get r ∷ ops) =
      let (outcome, b') = read 𝓑 b r in
      let (b'', later) = run b' ops in (b'', outcome_bytes outcome ++ later)
  run b (shut ∷ ops) =
      let (b', done) = drain 𝓑 b in let (b'', later) = run b' ops in (b'', delivered done ++ later)

  drain-delivered : (b : BlockingBuffer 𝓑) → delivered (drain 𝓑 b).1 ≡ []
  unfolding drain
  drain-delivered b = ground (arith, delivered-nulls b.read_resolvers)

  -- Whatever the order of writes, reads and the end of the stream: what the reads were resolved with, in
  -- order, followed by what is still in the buffer, is what was there and what was written, in order.
  pub run_lem :
      (ops : List Op) (b : BlockingBuffer 𝓑)
      → (run b ops).1 ++ held 𝓑 (run b ops).0 ≡ held 𝓑 b ++ all_written ops
  unfolding run
  run_lem [] b = sym (append-nil (held 𝓑 b))
  run_lem (put bytes ∷ ops) b =
      after (delivered (write 𝓑 b bytes).1) (run (write 𝓑 b bytes).0.1 ops).1 (held 𝓑 b ++ bytes) _
        _ (all_written ops) (write_lem 𝓑 b bytes) (run_lem ops (write 𝓑 b bytes).0.1)
      ∙ append_assoc (held 𝓑 b) bytes (all_written ops)
  run_lem (get r ∷ ops) b =
      after (outcome_bytes (read 𝓑 b r).0) (run (read 𝓑 b r).1 ops).1 (held 𝓑 b) _ _
        (all_written ops) (read_lem 𝓑 b r) (run_lem ops (read 𝓑 b r).1)
  run_lem (shut ∷ ops) b =
      after (delivered (drain 𝓑 b).1) (run (drain 𝓑 b).0 ops).1 (held 𝓑 b) _ _ (all_written ops)
        (rw drain-delivered (drain_lem 𝓑 b)) (run_lem ops (drain 𝓑 b).0)
