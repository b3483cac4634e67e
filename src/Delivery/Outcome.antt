-- ===== src/Delivery/Outcome.antt =====
-- When a delivery succeeds.
use rises.Base.{
  ℕ, zero, suc, ◌≡◌, refl, ◌∙◌, inl, inr, Bool, true, false, ◌&&◌, ◌||◌, List, [], ◌∷◌, ◌++◌,
  if◌then◌else◌, length, leb, all, arith, Bool-cases,
}
use rises.Base.Int.{ℤ, pos, pos_part, leb_ℤ}
use rises.Delivery.{
  Answer, unavailable, timed_out, rejects, accepts, Client, is_available, is_success, Requests,
  await, send_all, deliver_chunk, chunk_at, deliver_chunks, total_chunks, deliver,
}

-- Every client accepts the chunk.
abbrev pub all_accept : List Client → ℕ → Bool
all_accept clients c = all (λ client. is_success (client c)) clients

-- Every client accepts all of so many chunks, from one on.
abbrev pub all_accepted : List Client → ℕ → ℕ → Bool
all_accepted clients zero c = true
all_accepted clients (suc left) c = all_accept clients c && all_accepted clients left (suc c)

await-all : (ok : Bool) (futures : List Answer) → await ok futures ≡ (ok && all is_success futures)
unfolding await
await-all true [] = refl
await-all false [] = refl
await-all ok (answer ∷ futures) =
    ground (arith, await-all (if is_success answer then ok else false) futures)

module _ {Update : Type 0} (updates : List Update) where
  sent_outcome :
      (i : ℕ) (clients : List Client) (c : ℕ) (sent : Requests Update)
      → let out = send_all i clients c updates sent in
        (if out.0 then all is_success out.1 else false) ≡ all_accept clients c
  unfolding send_all
  sent_outcome i [] c sent = refl
  sent_outcome i (client ∷ rest) c sent =
      let next = if is_available (client c) then sent ++ (i, updates) ∷ [] else sent in
      step_case (client c) _ _ (sent_outcome (suc i) rest c next)
    where
      step_case :
          (a : Answer) (b : Bool) (fs : List Answer) {goal : Bool}
          → (if b then all is_success fs else false) ≡ goal
          → (if is_available a && b
              then all is_success (if is_available a then a ∷ fs else fs)
              else false)
            ≡ (if is_success a then goal else false)
      step_case unavailable b fs e = refl
      step_case timed_out b fs e = ground arith
      step_case rejects b fs e = ground arith
      step_case accepts b fs e = e

  deliver_chunk-outcome :
      (clients : List Client) (c : ℕ) (sent : Requests Update)
      → (deliver_chunk clients updates c sent).0 ≡ all_accept clients c
  unfolding deliver_chunk
  deliver_chunk-outcome clients c sent =
      let out = send_all 0 clients c updates sent in
      ground (arith, await-all true out.1, sent_outcome 0 clients c sent)

reorder :
    (d d' ok rest : Bool) → d ≡ d' → ((if d then ok else false) && rest) ≡ (ok && (d' && rest))
reorder d d' ok rest e = ground arith

module _ {Update : Type 0} (clients : List Client) (updates : List Update) where
  deliver_chunks-outcome :
      (size left c : ℕ) (ok : Bool) (sent : Requests Update)
      → (deliver_chunks clients size updates left c ok sent).0 ≡ (ok && all_accepted clients left c)
  unfolding deliver_chunks
  deliver_chunks-outcome size zero c ok sent = ground arith
  deliver_chunks-outcome size (suc left) c ok sent =
      let out = deliver_chunk clients (chunk_at size updates c) c sent in
      deliver_chunks-outcome size left (suc c) (if out.0 then ok else false) out.1
      ∙ reorder out.0 (all_accept clients c) ok (all_accepted clients left (suc c))
          (deliver_chunk-outcome (chunk_at size updates c) clients c sent)

  abbrev pub chunk_count : ℤ → ℕ
  chunk_count chunk_size =
      if leb_ℤ chunk_size (pos 0) || leb (length updates) (pos_part chunk_size)
      then 1
      else total_chunks (length updates) (pos_part chunk_size)

  -- A delivery returns true exactly when every client is available for each of the chunks, answers in
  -- time and accepts it.
  pub deliver-outcome :
      (chunk_size : ℤ) (sent : Requests Update)
      → (deliver clients chunk_size updates sent).0
        ≡ all_accepted clients (chunk_count chunk_size) 0
  unfolding deliver
  deliver-outcome chunk_size sent =
      elim (Bool-cases (leb_ℤ chunk_size (pos 0) || leb (length updates) (pos_part chunk_size))) [
        | inl e ↦ rw (deliver, e) (deliver_chunk-outcome updates clients 0 sent ∙ ground arith)
        | inr e ↦
            rw (deliver, e)
              (deliver_chunks-outcome (pos_part chunk_size)
                (total_chunks (length updates) (pos_part chunk_size)) 0 true sent)
      ]
