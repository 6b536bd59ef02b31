-- ===== src/Listener.antt =====
-- src/utp_listener.ts: the queue of new connections that `accept` takes from. A connection and a
-- pending promise are a number. An operation returns, beside the new state, what it sets off: the
-- connections that it closes and the promises that it resolves.
pub mod Fifo
use utp.Base.{
  ℕ, Bool, true, false, List, [], ◌∷◌, ◌++◌, map, Option, none, some, if◌then◌else◌, ◌==◌,
}

pub record Listener : Type 0 where
  pub connections : List ℕ
  pub pending_connections : List ℕ
  pub is_closed : Bool
  pub resolve_next : Option ℕ

-- `resolve_null` is the promise that `close` resolves with `null`.
pub data Event : Type 0 where
  close_conn : ℕ → Event
  resolve : ℕ → ℕ → Event
  resolve_null : ℕ → Event

-- How a call of `accept` ends: with a connection, as a pending promise, or by an exception.
pub data Accepted : Type 0 where
  conn : ℕ → Accepted
  pending : Accepted
  throws : Accepted

unfoldable pub create : Listener
create = record {
  connections = [];
  pending_connections = [];
  is_closed = false;
  resolve_next = none;
}

unfoldable pub add_connection : Listener → ℕ → Listener × List Event
add_connection l c =
    if l.is_closed
    then (l, close_conn c ∷ [])
    else (let listed = record l { connections = l.connections ++ c ∷ [] } in
        elim l.resolve_next [
          | none ↦ (record listed { pending_connections = l.pending_connections ++ c ∷ [] }, [])
          | some waiter ↦ (record listed { resolve_next = none }, resolve waiter c ∷ [])
        ])

-- the first of the connections that wait, or a promise in place of the one before
unfoldable pub take_pending : Listener → ℕ → List ℕ → Accepted × Listener
take_pending l waiter [] = (pending, record l { resolve_next = some waiter })
take_pending l waiter (c ∷ cs) = (conn c, record l { pending_connections = cs })

unfoldable pub accept : Listener → ℕ → Accepted × Listener
accept l waiter = if l.is_closed then (throws, l) else take_pending l waiter l.pending_connections

unfoldable pub close : Listener → Listener × List Event
close l = (
  record { connections = []; pending_connections = []; is_closed = true; resolve_next = none },
  map close_conn l.connections
      ++ elim l.resolve_next [ none ↦ [] | some waiter ↦ resolve_null waiter ∷ [] ],
)

-- What `next` of the asynchronous iterator gives: a value, which is `none` for the `null` that `close` resolves a promise
-- with, or its end; or it waits.
pub data Next : Type 0 where
  yields : Option ℕ → Next
  on_hold : Next
  is_done : Next

unfoldable pub next_of : Accepted → Next
next_of (conn c) = yields (some c)
next_of pending = on_hold
next_of throws = is_done

unfoldable pub next : Listener → ℕ → Next × Listener
next l waiter = let (accepted, l') = accept l waiter in (next_of accepted, l')

-- what a `next` that waits with a promise gives, when an event resolves it
unfoldable pub next_on : ℕ → Event → Next
next_on waiter (resolve w c) = if w == waiter then yields (some c) else on_hold
next_on waiter (resolve_null w) = if w == waiter then yields none else on_hold
next_on waiter (close_conn c) = on_hold
