-- ===== src/Rtt/Bounds.antt =====
-- The timeout is never below its minimum.
use utp.Base.{ℕ, ◌≡◌, ◌-◌, true, Bool-cases, inl, inr, max}
use utp.Base.Number.{JsNumber}
use utp.Congestion.Bounds.{le-max_right}
use utp.Rtt.{Rtt, create, sampled, settle, update, min_rto, max_rto, num_eq}

module _ (𝓝 : JsNumber) where
  open 𝓝 use {Num, of_ℕ, leb, le_refl}

  abbrev pub IsPatient : Rtt 𝓝 → Type 0
  IsPatient r = leb (of_ℕ min_rto) r.rto ≡ true

  sampled-rto : (r : Rtt 𝓝) (ertt : Num) → (sampled 𝓝 r ertt).rto ≡ r.rto
  unfolding sampled
  sampled-rto r ertt = elim (Bool-cases (num_eq 𝓝 r.rtt (of_ℕ 0))) [ inl e ↦ rw e | inr e ↦ rw e ]

  pub create-IsPatient : IsPatient (create 𝓝)
  unfolding create
  create-IsPatient = le_refl (of_ℕ min_rto)

  -- A retransmission timeout of at least a second stays so through every sample, those that fail the
  -- check included.
  pub update-IsPatient :
      (r : Rtt 𝓝) (now sent_time : ℕ) → IsPatient r → IsPatient (update 𝓝 r now sent_time)
  unfolding update settle
  update-IsPatient r now sent_time p = elim (Bool-cases (leb (of_ℕ max_rto) sample.rtt)) [
    | inl wild ↦ rw (wild, sampled-rto) p
    | inr sane ↦ rw sane (le-max_right 𝓝 _ _)
  ]
    where
      sample : Rtt 𝓝
      sample = sampled 𝓝 r (of_ℕ (max (now - sent_time) 1))
