-- ===== src/Listener/Fifo.antt =====
-- New connections are accepted in the order in which they came.
use utp.Base.{
  ℕ, ◌≡◌, ◌⊎◌, inl, inr, refl, true, false, List, [], ◌∷◌, ◌++◌, none, some, append_assoc,
  append-nil, ap, sym, ◌∙◌, Option-cases, map, arith,
}
use utp.Listener.{
  Listener, Event, Accepted, close_conn, resolve, resolve_null, conn, pending, throws, create,
  add_connection, take_pending, accept, close, yields, on_hold, next_on,
}

-- Nobody waits while a connection does; a closed listener holds none.
pub record IsValid (l : Listener) : Type 0 where
  pub nobody_waits : (l.resolve_next ≡ none) ⊎ (l.pending_connections ≡ [])
  pub closed_empty : l.is_closed ≡ true → (l.connections ≡ []) × (l.pending_connections ≡ [])

pub create-IsValid : IsValid create
unfolding create
create-IsValid = record { nobody_waits = inl refl; closed_empty = λ e. (refl, refl) }

-- A call on an open listener: a new connection, or an `accept` with its promise.
pub data Op : Type 0 where
  add : ℕ → Op
  get : ℕ → Op

abbrev pub all_added : List Op → List ℕ
all_added [] = []
all_added (add c ∷ ops) = c ∷ all_added ops
all_added (get w ∷ ops) = all_added ops

-- the connections that promises are resolved with
abbrev pub handed : List Event → List ℕ
handed [] = []
handed (close_conn c ∷ es) = handed es
handed (resolve w c ∷ es) = c ∷ handed es
handed (resolve_null w ∷ es) = handed es

abbrev pub taken : Accepted → List ℕ
taken (conn c) = c ∷ []
taken pending = []
taken throws = []

-- The calls in order: the listener at the end, and the connections that were handed out.
pub run : Listener → List Op → Listener × List ℕ
run l [] = (l, [])
run l (add c ∷ ops) =
    let (l', es) = add_connection l c in let (l'', later) = run l' ops in (l'', handed es ++ later)
run l (get w ∷ ops) =
    let (got, l') = accept l w in let (l'', later) = run l' ops in (l'', taken got ++ later)

-- One call: what it hands out, before what it leaves, is what was pending, with what came.
record Hands (l l' : Listener) (out came : List ℕ) : Type 0 where
  valid : IsValid l'
  open_ : l'.is_closed ≡ false
  queue : out ++ l'.pending_connections ≡ l.pending_connections ++ came

nobody_behind :
    (l : Listener) (w c : ℕ)
    → l.resolve_next ≡ some w
    → IsValid l
    → c ∷ l.pending_connections ≡ l.pending_connections ++ c ∷ []
nobody_behind l w c waits v = elim v.nobody_waits [ inl idle ↦ cc | inr none_left ↦ rw none_left ]

idle_behind :
    (l : Listener) (c : ℕ) (cs : List ℕ)
    → l.pending_connections ≡ c ∷ cs
    → IsValid l
    → l.resolve_next ≡ none
idle_behind l c cs e v = elim v.nobody_waits [ inl idle ↦ idle | inr none_left ↦ cc ]

add_connection-Hands :
    (l : Listener) (c : ℕ)
    → l.is_closed ≡ false
    → IsValid l
    → Hands l (add_connection l c).0 (handed (add_connection l c).1) (c ∷ [])
unfolding add_connection
add_connection-Hands l c o v = elim (Option-cases l.resolve_next) [
  | inl idle ↦
      rw (o, idle)
        (record {
          valid = record { nobody_waits = inl idle; closed_empty = λ e. cc };
          open_ = o;
          queue = refl;
        })
  | inr (w, waits) ↦
      rw (o, waits)
        (record {
          valid = record { nobody_waits = inl refl; closed_empty = λ e. cc };
          open_ = o;
          queue = nobody_behind l w c waits v;
        })
]

take_pending-Hands :
    (l : Listener) (w : ℕ) (cs : List ℕ)
    → l.is_closed ≡ false
    → l.pending_connections ≡ cs
    → IsValid l
    → Hands l (take_pending l w cs).1 (taken (take_pending l w cs).0) []
unfolding take_pending
take_pending-Hands l w [] o e v = record {
  valid = record { nobody_waits = inr e; closed_empty = λ s. cc };
  open_ = o;
  queue = rw e;
}
take_pending-Hands l w (c ∷ cs) o e v = record {
  valid = record { nobody_waits = inl (idle_behind l c cs e v); closed_empty = λ s. cc };
  open_ = o;
  queue = rw (e, append-nil);
}

accept-Hands :
    (l : Listener) (w : ℕ)
    → l.is_closed ≡ false
    → IsValid l
    → Hands l (accept l w).1 (taken (accept l w).0) []
unfolding accept
accept-Hands l w o v = simp o (take_pending-Hands l w l.pending_connections o refl v)

after :
    (d l h0 h1 h2 w v : List ℕ)
    → d ++ h1 ≡ h0 ++ v
    → l ++ h2 ≡ h1 ++ w
    → (d ++ l) ++ h2 ≡ h0 ++ (v ++ w)
after d l h0 h1 h2 w v p q =
    append_assoc d l h2
    ∙ ap (λ t. d ++ t) q
    ∙ sym (append_assoc d h1 w)
    ∙ ap (λ t. t ++ w) p
    ∙ append_assoc h0 v w

-- Whatever the order of new connections and calls of `accept` on an open listener in which nobody waits
-- while a connection does: the connections that were handed out, in order, followed by those that are
-- still pending, are those that were pending before, followed by the new ones, in order.
pub run_order :
    (ops : List Op) (l : Listener)
    → l.is_closed ≡ false
    → IsValid l
    → (run l ops).1 ++ (run l ops).0.pending_connections ≡ l.pending_connections ++ all_added ops
unfolding run
run_order [] l o v = sym (append-nil l.pending_connections)
run_order (add c ∷ ops) l o v =
    let h = add_connection-Hands l c o v in
    after (handed (add_connection l c).1) (run (add_connection l c).0 ops).1 l.pending_connections _
      _ (all_added ops) (c ∷ []) h.queue (run_order ops (add_connection l c).0 h.open_ h.valid)
run_order (get w ∷ ops) l o v =
    let h = accept-Hands l w o v in
    after (taken (accept l w).0) (run (accept l w).1 ops).1 l.pending_connections _ _
      (all_added ops) [] h.queue (run_order ops (accept l w).1 h.open_ h.valid)

-- After `close` every new connection is closed at once, and every `accept` throws.
pub close_lem :
    (l : Listener) (c w : ℕ)
    → (add_connection (close l).0 c ≡ ((close l).0, close_conn c ∷ []))
      × (accept (close l).0 w ≡ (throws, (close l).0))
unfolding close add_connection accept
close_lem l c w = (refl, refl)

closed-next :
    (w : ℕ) (cs : List ℕ)
    → map (next_on w) (map close_conn cs ++ resolve_null w ∷ [])
      ≡ map (λ c. on_hold) cs ++ yields none ∷ []
unfolding next_on
closed-next w [] = ground arith
closed-next w (c ∷ cs) = ap (◌∷◌ on_hold) (closed-next w cs)

-- `close` while a `next` waits gives it the value `null` and not the end, once the connections are closed: a `for await`
-- loop gets `null` in place of a connection.
pub next-close :
    (l : Listener) (w : ℕ)
    → l.resolve_next ≡ some w
    → map (next_on w) (close l).1 ≡ map (λ c. on_hold) l.connections ++ yields none ∷ []
unfolding close
next-close l w e = rw e (closed-next w l.connections)
