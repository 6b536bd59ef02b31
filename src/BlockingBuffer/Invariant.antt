-- ===== src/BlockingBuffer/Invariant.antt =====
-- When a read waits, when the buffer is closed, and that no assertion of `read` fails.
use utp.Base.{
  ℕ, ◌+◌, ◌≡◌, ◌≢◌, ◌⊎◌, refl, true, false, List, [], ◌∷◌, ltb, length, arith, ◌∙◌, sym, Bool-cases,
  inl, inr,
}
use utp.BlockingBuffer.{
  ByteBuffer, Reader, assertion_failed, BlockingBuffer, create, serve, serve_all, write, read,
  drain,
}
use utp.BlockingBuffer.Fifo.{held}

-- A read waits only while the buffer is empty; nobody waits once no more data will come; a closed
-- buffer is empty.
pub record IsValid (𝓑 : ByteBuffer) (b : BlockingBuffer 𝓑) : Type 0 where
  pub waiting : (b.read_resolvers ≡ []) ⊎ (length (held 𝓑 b) ≡ 0)
  pub draining : b.closed_for_writing ≡ true → b.read_resolvers ≡ []
  pub closed_quiet : b.closed ≡ true → b.read_resolvers ≡ []
  pub closed_empty : b.closed ≡ true → length (held 𝓑 b) ≡ 0

module _ (𝓑 : ByteBuffer) where
  open 𝓑 use {contents, contents-empty}

  pub create-IsValid : (n : ℕ) → IsValid 𝓑 (create 𝓑 n)
  unfolding create
  create-IsValid n = record {
    waiting = inl refl;
    draining = λ e. refl;
    closed_quiet = λ e. refl;
    closed_empty = λ e. cc;
  }

  -- After the loop of `write` a read is left waiting only if the buffer has run empty.
  serve_all-waiting :
      (rs : List Reader) (b : BlockingBuffer 𝓑)
      → ((serve_all 𝓑 b rs).0.read_resolvers ≡ []) ⊎ (length (held 𝓑 (serve_all 𝓑 b rs).0) ≡ 0)
  unfolding serve_all
  serve_all-waiting [] b = inl refl
  serve_all-waiting (r ∷ rs) b = elim (Bool-cases (ltb 0 (length (held 𝓑 b)))) [
    | inl some_left ↦ rw some_left (serve_all-waiting rs (serve 𝓑 b r rs).0)
    | inr none_left ↦ rw none_left (inr (ground (arith, none_left)))
  ]

  serve_all-flags :
      (rs : List Reader) (b : BlockingBuffer 𝓑)
      → ((serve_all 𝓑 b rs).0.closed ≡ b.closed)
        × ((serve_all 𝓑 b rs).0.closed_for_writing ≡ b.closed_for_writing)
  unfolding serve_all serve
  serve_all-flags [] b = (refl, refl)
  serve_all-flags (r ∷ rs) b = elim (Bool-cases (ltb 0 (length (held 𝓑 b)))) [
    | inl some_left ↦ rw some_left (serve_all-flags rs _)
    | inr none_left ↦ rw none_left (refl, refl)
  ]

  serve_all-of_nil :
      (rs : List Reader) (b : BlockingBuffer 𝓑) → rs ≡ [] → (serve_all 𝓑 b rs).0.read_resolvers ≡ []
  unfolding serve_all
  serve_all-of_nil [] b e = refl
  serve_all-of_nil (r ∷ rs) b e = cc

  abbrev written : BlockingBuffer 𝓑 → List ℕ → BlockingBuffer 𝓑
  written b bytes = record b {
    buffer = (𝓑.write b.buffer bytes).1;
    total_bytes_written = b.total_bytes_written + (𝓑.write b.buffer bytes).0;
  }

  -- `write` on a buffer that is not closed keeps the invariant: a read waits only while the buffer is
  -- empty, nobody waits once no more data will come, and a closed buffer is empty.
  pub write-IsValid :
      (b : BlockingBuffer 𝓑) (bytes : List ℕ)
      → b.closed ≡ false
      → IsValid 𝓑 b
      → IsValid 𝓑 (write 𝓑 b bytes).0.1
  unfolding write
  write-IsValid b bytes open_ v = record {
    waiting = serve_all-waiting b.read_resolvers _;
    draining = λ e.
        serve_all-of_nil b.read_resolvers _
          (v.draining (sym (serve_all-flags b.read_resolvers _).1 ∙ e));
    closed_quiet = λ e. cc ((serve_all-flags b.read_resolvers (written b bytes)).0, open_, e);
    closed_empty = λ e. cc ((serve_all-flags b.read_resolvers (written b bytes)).0, open_, e);
  }

  -- `read` keeps the invariant: a read waits only while the buffer is empty, nobody waits once no more
  -- data will come, and a closed buffer is empty.
  pub read-IsValid : (b : BlockingBuffer 𝓑) (r : Reader) → IsValid 𝓑 b → IsValid 𝓑 (read 𝓑 b r).1
  unfolding read
  read-IsValid b r v = ground arith

  -- `drain` keeps the invariant: a read waits only while the buffer is empty, nobody waits once no more
  -- data will come, and a closed buffer is empty.
  pub drain-IsValid : (b : BlockingBuffer 𝓑) → IsValid 𝓑 b → IsValid 𝓑 (drain 𝓑 b).0
  unfolding drain
  drain-IsValid b v = ground arith

  -- In a buffer that satisfies the invariant no call of `read` ends by the failed assertions on a closed
  -- buffer.
  pub read-ne-assertion_failed :
      (b : BlockingBuffer 𝓑) (r : Reader) → IsValid 𝓑 b → (read 𝓑 b r).0 ≢ assertion_failed
  unfolding read
  read-ne-assertion_failed b r v = ground arith

  -- `write`, `read` and `drain` on a buffer that is not closed keep the invariant: a read waits only while the
  -- buffer is empty, nobody waits once no more data will come, and a closed buffer is empty.
  pub write_read_drain-IsValid :
      (b : BlockingBuffer 𝓑) (bytes : List ℕ) (r : Reader)
      → b.closed ≡ false
      → IsValid 𝓑 b
      → IsValid 𝓑 (write 𝓑 b bytes).0.1 × IsValid 𝓑 (read 𝓑 b r).1 × IsValid 𝓑 (drain 𝓑 b).0
  write_read_drain-IsValid b bytes r open_ v =
      (write-IsValid b bytes open_ v, read-IsValid b r v, drain-IsValid b v)
