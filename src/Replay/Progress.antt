-- ===== src/Replay/Progress.antt =====
-- Which messages the timer has published.
use rises.Base.{
  ℕ, zero, suc, ◌+◌, ◌≤◌, ◌≡◌, refl, sym, ap, ◌∙◌, ◌⊎◌, inl, inr, true, false, List, [], ◌∷◌, ◌++◌,
  append-nil, if◌then◌else◌, length, drop, ltb, max, arith, Bool-cases,
}
use rises.Replay.{Stream, play_from, play, is_done}

module _ {Message : Type 0} where
  -- The messages before the first that is later than a time.
  abbrev pub upto : ℕ → List (ℕ × Message) → List Message
  upto now [] = []
  upto now ((t, a) ∷ rest) = if ltb now t then [] else a ∷ upto now rest

  pub play_from-fresh :
      (now : ℕ) (l : List (ℕ × Message)) (i : ℕ)
      → ((play_from now l i).0 ≡ upto now l) × ((play_from now l i).1 ≡ i + length (upto now l))
  unfolding play_from
  play_from-fresh now [] i = (refl, omega arith)
  play_from-fresh now ((t, a) ∷ l) i =
      let rest = play_from-fresh now l (suc i) in ground (arith, rest.0, rest.1)

  play_from-more :
      (m now : ℕ) (l : List (ℕ × Message)) (i : ℕ)
      → let out = play_from now (drop (length (upto m l)) l) i in
        (upto m l ++ out.0 ≡ upto (max m now) l)
        × (out.1 + length (upto m l) ≡ i + length (upto (max m now) l))
  unfolding play_from
  play_from-more m now [] i = (refl, omega arith)
  play_from-more m now ((t, a) ∷ l) i = elim (Bool-cases (ltb m t)) [
    | inl late ↦
        let fresh = play_from-fresh now ((t, a) ∷ l) i in
        elim (Bool-cases (ltb now t)) [
          | inl later ↦
              let both : ltb (max m now) t ≡ true = ground arith in
              rw (late, both, later, play_from) (refl, omega arith)
          | inr due ↦
              let same : max m now ≡ now = ground arith in
              rw late (
                fresh.0 ∙ ap (λ n. upto n ((t, a) ∷ l)) (sym same),
                omega (arith, fresh.1, ap (λ n. length (upto n ((t, a) ∷ l))) same),
              )
        ]
    | inr done ↦
        let next = play_from-more m now l i in
        let both : ltb (max m now) t ≡ false = ground arith in
        rw (done, both) (ap (λ x. a ∷ x) next.0, omega (arith, next.1))
  ]

  drop-nil : (n : ℕ) → drop {A = ℕ × Message} n [] ≡ []
  drop-nil zero = refl
  drop-nil (suc n) = refl

  -- A buffer that has been played up to a time, or has been cleared after all of it.
  abbrev pub Played : ℕ → List (ℕ × Message) → Stream Message → Type 0
  Played m l s =
      ((s.buffered ≡ l) × (s.replay_index ≡ length (upto m l)))
      ⊎ ((s.buffered ≡ []) × ((n : ℕ) → upto (max m n) l ≡ upto m l))

  pub play-Played :
      (m now : ℕ) (l : List (ℕ × Message)) (s : Stream Message)
      → Played m l s
      → (upto m l ++ (play now s).0 ≡ upto (max m now) l) × Played (max m now) l (play now s).1
  unfolding play
  play-Played m now l s (inl (e, f)) =
      let out = play_from-more m now l (length (upto m l)) in
      rw (e, f) (out.0, inl (refl, omega (arith, out.1)))
  play-Played m now l s (inr (e, f)) =
      let nothing : drop s.replay_index s.buffered ≡ [] =
        ap (drop s.replay_index) e ∙ drop-nil s.replay_index in
      rw (nothing, play_from)
        (
          append-nil (upto m l) ∙ sym (f now),
          inr (e, λ n. ap (λ k. upto k l) (omega arith) ∙ f (max now n) ∙ sym (f now)),
        )

  -- What is left once every message has been published.
  upto_complete :
      (m n : ℕ) (l : List (ℕ × Message))
      → length l ≤ length (upto m l)
      → upto (max m n) l ≡ upto m l
  upto_complete m n [] h = refl
  upto_complete m n ((t, a) ∷ l) h = ground (arith, upto_complete m n l)

  pub clear-Played :
      (m now : ℕ) (l : List (ℕ × Message)) (s : Stream Message)
      → Played m l s
      → is_done s ≡ true
      → (upto (max m now) l ≡ upto m l) × Played (max m now) l (record s { buffered = [] })
  clear-Played m now l s (inl (e, f)) done =
      let all : length l ≤ length (upto m l) = ground (arith, ap length e) in
      let kept : (n : ℕ) → upto (max m n) l ≡ upto m l = λ n. upto_complete m n l all in
      (
        kept now,
        inr (refl, λ n. ap (λ k. upto k l) (omega arith) ∙ kept (max now n) ∙ sym (kept now)),
      )
  clear-Played m now l s (inr (e, f)) done =
      (f now, inr (refl, λ n. ap (λ k. upto k l) (omega arith) ∙ f (max now n) ∙ sym (f now)))
