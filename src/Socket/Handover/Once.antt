-- ===== src/Socket/Handover/Once.antt =====
-- src/utp_socket.ts: every connection is handed to the listener once, or not at all: what is told of it and its timer decide.
use utp.Base.{ℕ, ◌+◌, ◌≡◌, Bool, true, false, List, [], ◌∷◌, ◌++◌, if◌then◌else◌}
use utp.Base.Number.{JsNumber}
use utp.BlockingBuffer.{ByteBuffer}
use utp.Conn.{State, state_changed}
use utp.Conn.Promises.{Promise, waiting, resolved, rejected, on_state_change, on_timeout}
use utp.Socket.{UniqueId, same_id, told}
use utp.Socket.Handover.{Promises, Tiding, heard, expires, set_promise, if_resolved}

-- What may settle the promise of a connection: a state, or the end of its timer.
pub data News : Type 0 where
  turned : State → News
  expired : News

-- whether it is connected before it is reset or closed, and before its timer ends
abbrev pub connects_first : List News → Bool
connects_first [] = false
connects_first (turned State.connected ∷ ns) = true
connects_first (turned State.reset ∷ ns) = false
connects_first (turned State.closed ∷ ns) = false
connects_first (turned State.syn_sent ∷ ns) = connects_first ns
connects_first (turned State.syn_recv ∷ ns) = connects_first ns
connects_first (turned State.close_wait ∷ ns) = connects_first ns
connects_first (expired ∷ ns) = false

-- how often a connection is handed over whose promise stands so when the news come
abbrev pub expected : Promise → List News → ℕ
expected waiting ns = if connects_first ns then 1 else 0
expected resolved ns = 0
expected (rejected _) ns = 0

abbrev on_news : Promise → News → Promise
on_news w (turned t) = on_state_change w t
on_news w expired = on_timeout w

module _ (𝓝 : JsNumber) (𝓑 : ByteBuffer) where
  -- the news of a connection
  abbrev pub news_of : UniqueId → List (Tiding 𝓝 𝓑) → List News
  news_of id [] = []
  news_of id (heard (told j (state_changed s t)) ∷ ts) =
      let rest = news_of id ts in if same_id j id then turned t ∷ rest else rest
  news_of id (expires j ∷ ts) =
      let rest = news_of id ts in if same_id j id then expired ∷ rest else rest
  news_of id (_ ∷ ts) = news_of id ts

abbrev pub times : UniqueId → List UniqueId → ℕ
times id [] = 0
times id (j ∷ js) = let rest = times id js in if same_id j id then rest + 1 else rest

-- how often a promise is handed over that one piece of news settles
abbrev once : Promise → Promise → ℕ
once waiting resolved = 1
once waiting waiting = 0
once waiting (rejected _) = 0
once resolved after = 0
once (rejected _) after = 0

-- One piece of news of `j`, with what is handed over for it, in front of others that satisfy the claim.
abbrev Counted :
    (id : UniqueId) (promises : Promises) (n : News) (later : List UniqueId) (ns : List News)
    (j : UniqueId)
    → Type 0
Counted id promises n later ns j =
    let after = on_news (promises j) n in
    times id later ≡ expected (set_promise promises j after id) ns
    → times id (if_resolved j (promises j) after ++ later)
      ≡ expected (promises id) (if same_id j id then n ∷ ns else ns)
