-- ===== src/BlockingBuffer.antt =====
-- src/blocking_buffer.ts: the receive buffer, from which `read` waits for data. The `Buffer` of
-- `std/io` that holds the bytes is a parameter. A pending `read` is its number and the size of the
-- array that it fills; an operation returns, beside the new state, the reads that it resolved.
pub mod Fifo
pub mod Invariant
use utp.Base.{
  ℕ, suc, ◌+◌, ◌-◌, ◌*◌, ◌<◌, ◌≡◌, Bool, true, false, not, ◌&&◌, ◌||◌, List, [], ◌∷◌, ◌++◌, map,
  Option, none, some, ltb, ◌==◌, if◌then◌else◌, length, take, drop,
}

-- `Buffer` of `std/io`: `write` takes all bytes, and `read` takes from the front as many as there are
-- and as the array holds. What `read` does on an empty buffer is not used.
pub record ByteBuffer : Type 1 where
  pub B : Type 0
  pub empty : B
  pub contents : B → List ℕ
  pub write : B → List ℕ → ℕ × B
  pub read : B → ℕ → Option (List ℕ) × B
  pub contents-empty : contents empty ≡ []
  pub write_count : (b : B) (d : List ℕ) → (write b d).0 ≡ length d
  pub contents-write : (b : B) (d : List ℕ) → contents (write b d).1 ≡ contents b ++ d
  pub read_bytes :
      (b : B) (n : ℕ) → 0 < length (contents b) → (read b n).0 ≡ some (take n (contents b))
  pub contents-read :
      (b : B) (n : ℕ) → 0 < length (contents b) → contents (read b n).1 ≡ drop n (contents b)

-- a `read` that waits
pub record Reader : Type 0 where
  pub id : ℕ
  pub room : ℕ

-- a `read` that is resolved, with its bytes or `null`
pub record Resolved : Type 0 where
  pub id : ℕ
  pub bytes : Option (List ℕ)

-- How a call of `read` ends: with a value, as a pending promise, or by a failed assertion.
pub data ReadOutcome : Type 0 where
  now : Option (List ℕ) → ReadOutcome
  pending : ReadOutcome
  assertion_failed : ReadOutcome

abbrev pub size_of : Option (List ℕ) → ℕ
size_of none = 0
size_of (some bs) = length bs

abbrev pub resolve_null : Reader → Resolved
resolve_null r = record { id = r.id; bytes = none }

module _ (𝓑 : ByteBuffer) where
  open 𝓑 use {B, empty, contents, write as write_bytes, read as read_from}

  pub record BlockingBuffer : Type 0 where
    pub total_bytes_written : ℕ
    pub total_bytes_read : ℕ
    pub buffer : B
    pub read_resolvers : List Reader
    pub closed : Bool
    pub closed_for_writing : Bool
    pub max_bytes : ℕ

  -- `new BlockingBuffer(maxBytes)`
  unfoldable pub create : ℕ → BlockingBuffer
  create max_bytes = record {
    total_bytes_written = 0;
    total_bytes_read = 0;
    buffer = empty;
    read_resolvers = [];
    closed = false;
    closed_for_writing = false;
    max_bytes = max_bytes;
  }

  abbrev pub size : BlockingBuffer → ℕ
  size b = length (contents b.buffer)

  -- `Math.max(0, this.maxBytes - this.buffer.length)`
  unfoldable pub free_space : BlockingBuffer → ℕ
  free_space b = b.max_bytes - size b

  -- one round of the loop of `write`, for the first of the pending reads
  unfoldable pub serve : BlockingBuffer → Reader → List Reader → BlockingBuffer × Resolved
  serve b r rs =
      let (got, buffer') = read_from b.buffer r.room in
      (
        record b {
          total_bytes_read = b.total_bytes_read + size_of got;
          buffer = buffer';
          read_resolvers = rs;
        },
        record { id = r.id; bytes = got },
      )

  -- the loop, over the list of pending reads
  unfoldable pub serve_all : BlockingBuffer → List Reader → BlockingBuffer × List Resolved
  serve_all b [] = (record b { read_resolvers = [] }, [])
  serve_all b (r ∷ rs) =
      let (b', done) = serve b r rs in
      let (b'', more) = serve_all b' rs in
      if ltb 0 (size b) then (b'', done ∷ more) else (record b { read_resolvers = r ∷ rs }, [])

  unfoldable pub write : BlockingBuffer → List ℕ → (ℕ × BlockingBuffer) × List Resolved
  write b bytes =
      let (n, buffer') = write_bytes b.buffer bytes in
      let (b', done) =
        serve_all (record b { buffer = buffer'; total_bytes_written = b.total_bytes_written + n })
          b.read_resolvers in
      ((n, b'), done)

  unfoldable pub read : BlockingBuffer → Reader → ReadOutcome × BlockingBuffer
  read b r =
      let (got, buffer') = read_from b.buffer r.room in
      if b.closed
      then (if length b.read_resolvers == 0 && size b == 0
          then (now none, b)
          else (assertion_failed, b))
      else (if ltb 0 (size b)
          then (
            now got,
            record b { buffer = buffer'; total_bytes_read = b.total_bytes_read + size_of got },
          )
          else (if b.closed_for_writing
              then (now none, record b { closed = true })
              else (pending, record b { read_resolvers = b.read_resolvers ++ r ∷ [] })))

  unfoldable pub drain : BlockingBuffer → BlockingBuffer × List Resolved
  drain b =
      if b.closed || b.closed_for_writing
      then (b, [])
      else (if size b == 0
          then (
            record b { closed_for_writing = true; closed = true; read_resolvers = [] },
            map resolve_null b.read_resolvers,
          )
          else (record b { closed_for_writing = true }, []))

  unfoldable pub close : BlockingBuffer → BlockingBuffer × List Resolved
  close b = (
    record b { closed = true; buffer = empty; read_resolvers = [] },
    map resolve_null b.read_resolvers,
  )

  unfoldable pub is_empty : BlockingBuffer → Bool
  is_empty b = size b == 0

  unfoldable pub can_safely_close : BlockingBuffer → Bool
  unfolding is_empty
  can_safely_close b = is_empty b && length b.read_resolvers == 0 && not b.closed

  unfoldable pub try_safe_close : BlockingBuffer → (Bool × BlockingBuffer) × List Resolved
  unfolding can_safely_close close
  try_safe_close b =
      if b.closed
      then ((false, b), [])
      else (if can_safely_close b then ((true, (close b).0), (close b).1) else ((false, b), []))
