-- ===== src/SendWindow/Rounds.antt =====
-- src/utp_send_window.ts, the bodies of the two loops of `handleAck`: what one round takes out of the window.
use utp.Base.{
  ℕ, ◌≡◌, ◌⊎◌, refl, Bool, true, false, not, ◌&&◌, [], none, if◌then◌else◌, Bool-cases,
  Option-cases, inl, inr, arith, ap, sym, ◌∙◌, ◌==◌, ==_iff, subst,
}
use utp.Base.Map
use utp.Base.Map.{Map, HasDistinctKeys, nat_key}
use utp.Base.Number.{JsNumber}
use utp.BlockingMap
use utp.BlockingMap.{BlockingMap, resolve_from, resolve_next_setter, update_capacity, delete}
use utp.SendWindow.{
  SendWindow, Entry, below, drop_packet, sample, sack_one, ack_one, is_packet_acked,
}

pub resolve_from_quiet :
    {C V : Type 0} (test : ℕ → C → Bool) (m : BlockingMap C V)
    → ((resolve_from test m []).0.map ≡ m.map) × ((resolve_from test m []).0.waiting_setters ≡ [])
unfolding resolve_from
resolve_from_quiet test m = (refl, refl)

delete_quiet :
    {C V : Type 0} (test : ℕ → C → Bool) (m : BlockingMap C V) (k : ℕ)
    → m.waiting_setters ≡ []
    → ((delete test m k).0.map ≡ Map.delete k m.map) × ((delete test m k).0.waiting_setters ≡ [])
unfolding delete resolve_next_setter
delete_quiet test m k e = elim (Bool-cases (Map.has k m.map)) [
  | inl present ↦ rw (present, e) (resolve_from_quiet test _)
  | inr absent ↦ rw absent (sym (Map.delete-absent k m.map absent), e)
]

one_gone :
    (k j : ℕ) (a : ℕ → Bool) (b : Bool)
    → a k ≡ true
    → (if k == j then false else b) ≡ (b && not (k == j && a j))
one_gone k j a b h = elim (Bool-cases (k == j)) [
  | inl same ↦ rw (same, ← ap a ((==_iff k j).0 same), h) (and_false b)
  | inr other ↦ rw other (and_true b)
]
  where
    and_false : (b : Bool) → false ≡ (b && false)
    and_false true = refl
    and_false false = refl

    and_true : (b : Bool) → b ≡ (b && true)
    and_true true = refl
    and_true false = refl

alone :
    (k j : ℕ) (a f : ℕ → Bool) → (f k ≡ false) ⊎ (a k ≡ false) → f j ≡ (f j && not (k == j && a j))
alone k j a f h = elim (Bool-cases (k == j)) [
  | inl same ↦
      rw same
        (settle (f j) (a j) (subst (λ i. (f i ≡ false) ⊎ (a i ≡ false)) ((==_iff k j).0 same) h))
  | inr other ↦ rw other (keep (f j))
]
  where
    settle : (x y : Bool) → (x ≡ false) ⊎ (y ≡ false) → x ≡ (x && not y)
    settle x y e = ground arith

    keep : (x : Bool) → x ≡ (x && true)
    keep true = refl
    keep false = refl

module _ (𝓝 : JsNumber) where
  -- Nobody waits for room, and no number stands twice.
  pub record IsQuiet (w : SendWindow 𝓝) : Type 0 where
    pub nobody_waits : w.packet_map.waiting_setters ≡ []
    pub distinct : HasDistinctKeys w.packet_map.map

  abbrev pub in_flight : SendWindow 𝓝 → ℕ → Bool
  in_flight w k = Map.has k w.packet_map.map

  -- `w'` is `w` without the packets that `gone` names.
  pub record Without (w w' : SendWindow 𝓝) (gone : ℕ → Bool) : Type 0 where
    pub quiet : IsQuiet w'
    pub latest : w'.latest_seq ≡ w.latest_seq
    pub left : (j : ℕ) → in_flight w' j ≡ (in_flight w j && not (gone j))

  drop_map :
      (w : SendWindow 𝓝) (k : ℕ)
      → IsQuiet w
      → ((drop_packet 𝓝 w k).0.packet_map.map ≡ Map.delete k w.packet_map.map)
        × ((drop_packet 𝓝 w k).0.packet_map.waiting_setters ≡ [])
        × ((drop_packet 𝓝 w k).0.latest_seq ≡ w.latest_seq)
  unfolding drop_packet
  drop_map w k q = let d = delete_quiet (below 𝓝) w.packet_map k q.nobody_waits in (d.0, d.1, refl)

  took_left :
      (w w' : SendWindow 𝓝) (k j : ℕ) (a : ℕ → Bool)
      → IsQuiet w
      → w'.packet_map.map ≡ Map.delete k w.packet_map.map
      → a k ≡ true
      → in_flight w' j ≡ (in_flight w j && not (k == j && a j))
  took_left w w' k j a q em ak =
      ap (Map.has j) em
      ∙ Map.has-delete k j w.packet_map.map q.distinct
      ∙ one_gone k j a (Map.has j w.packet_map.map) ak

  -- A state with the same latest number, nobody waiting, and one entry taken out of its map.
  took_out :
      (w w' : SendWindow 𝓝) (k : ℕ) (a : ℕ → Bool)
      → IsQuiet w
      → w'.packet_map.map ≡ Map.delete k w.packet_map.map
      → w'.packet_map.waiting_setters ≡ []
      → w'.latest_seq ≡ w.latest_seq
      → a k ≡ true
      → Without w w' (λ j. k == j && a j)
  took_out w w' k a q em ew el ak = record {
    quiet = record {
      nobody_waits = ew;
      distinct = rw em (Map.delete-HasDistinctKeys k w.packet_map.map q.distinct);
    };
    latest = el;
    left = λ j. took_left w w' k j a q em ak;
  }

  left_alone :
      (w : SendWindow 𝓝) (k : ℕ) (a : ℕ → Bool)
      → IsQuiet w
      → (in_flight w k ≡ false) ⊎ (a k ≡ false)
      → Without w w (λ j. k == j && a j)
  left_alone w k a q h = record {
    quiet = q;
    latest = refl;
    left = λ j. alone k j a (λ i. in_flight w i) h;
  }

  sample-map :
      (w : SendWindow 𝓝) (now : ℕ) (e : Entry)
      → (sample 𝓝 w now e).packet_map.map ≡ w.packet_map.map
  unfolding sample
  sample-map w now e = elim (Bool-cases (e.resend_times == 0)) [ inl h ↦ rw h | inr h ↦ rw h ]

  sample-latest :
      (w : SendWindow 𝓝) (now : ℕ) (e : Entry) → (sample 𝓝 w now e).latest_seq ≡ w.latest_seq
  unfolding sample
  sample-latest w now e = elim (Bool-cases (e.resend_times == 0)) [ inl h ↦ rw h | inr h ↦ rw h ]

  sample-IsQuiet : (w : SendWindow 𝓝) (now : ℕ) (e : Entry) → IsQuiet w → IsQuiet (sample 𝓝 w now e)
  unfolding sample
  sample-IsQuiet w now e q = elim (Bool-cases (e.resend_times == 0)) [
    | inl h ↦ rw h (record { nobody_waits = q.nobody_waits; distinct = q.distinct })
    | inr h ↦ rw h q
  ]

  not_in_flight :
      (w : SendWindow 𝓝) (k : ℕ) → BlockingMap.get w.packet_map k ≡ none → in_flight w k ≡ false
  unfolding BlockingMap.get
  not_in_flight w k e = Map.has-of_get-none k w.packet_map.map e

  pub sack_one-Without :
      (w : SendWindow 𝓝) (now k : ℕ)
      → IsQuiet w
      → Without w (sack_one 𝓝 w now k).0 (λ j. k == j && true)
  unfolding sack_one
  sack_one-Without w now k q = elim (Option-cases (BlockingMap.get w.packet_map k)) [
    | inl absent ↦
        rw (absent, sack_one) (left_alone w k (λ _. true) q (inl (not_in_flight w k absent)))
    | inr (e, present) ↦
        rw (present, sack_one)
          (let d = drop_map (sample 𝓝 w now e) k (sample-IsQuiet w now e q) in
            took_out w _ k (λ _. true) q (d.0 ∙ ap (Map.delete k) (sample-map w now e)) d.1
              (d.2 ∙ sample-latest w now e) refl)
  ]

  pub ack_one-Without :
      (w : SendWindow 𝓝) (now k : ℕ)
      → IsQuiet w
      → Without w (ack_one 𝓝 w now k).0 (λ j. k == j && is_packet_acked 𝓝 w j)
  unfolding ack_one
  ack_one-Without w now k q = elim (Bool-cases (is_packet_acked 𝓝 w k)) [
    | inr open_ ↦ rw open_ (left_alone w k (is_packet_acked 𝓝 w) q (inr open_))
    | inl acked ↦ rw acked (elim (Option-cases (BlockingMap.get w.packet_map k)) [
      | inl absent ↦
          rw absent
            (let d = drop_map w k q in took_out w _ k (is_packet_acked 𝓝 w) q d.0 d.1 d.2 acked)
      | inr (e, present) ↦ rw present (
          let d = drop_map (sample 𝓝 w now e) k (sample-IsQuiet w now e q) in
          took_out w _ k (is_packet_acked 𝓝 w) q (d.0 ∙ ap (Map.delete k) (sample-map w now e)) d.1
            (d.2 ∙ sample-latest w now e) acked)
    ])
  ]
