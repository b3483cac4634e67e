-- ===== src/Delivery/Chunks.antt =====
-- What each client is sent.
use rises.Base.{
  ℕ, zero, suc, ◌+◌, ◌-◌, ◌*◌, ◌≤◌, ◌<◌, ◌≡◌, refl, sym, ap, ◌∙◌, inl, inr, Bool, true, false, ◌||◌,
  List, [], ◌∷◌, ◌++◌, append-nil, append_assoc, some, if◌then◌else◌, length, get_elem?, drop, min,
  leb, ◌==◌, All, All-append, take-append-drop, drop-drop, length-take, arith, Bool-cases,
}
use native.Mathlib.Nat.{div-add-mod, mod-lt}
use rises.Base.Int.{ℤ, pos, pos_part, leb_ℤ}
use rises.Delivery.{
  Client, is_available, Requests, send_all, deliver_chunk, chunk_at, deliver_chunks, total_chunks,
  deliver,
}

module _ {Update : Type 0} where
  -- The updates that a client was sent, in order.
  abbrev pub received : ℕ → Requests Update → List Update
  received i [] = []
  received i ((j, updates) ∷ rest) = if j == i then updates ++ received i rest else received i rest

  received-append :
      (i : ℕ) (sent : Requests Update) (j : ℕ) (updates : List Update)
      → received i (sent ++ (j, updates) ∷ []) ≡ received i sent ++ (if j == i then updates else [])
  received-append i [] j updates = ground (arith, append-nil updates)
  received-append i ((k, first) ∷ sent) j updates = ground (
    arith,
    received-append i sent j updates,
    append_assoc first (received i sent) (if j == i then updates else []),
  )

  -- A client whose turn is past is sent nothing more.
  send_all-past :
      (i j : ℕ) (clients : List Client) (c : ℕ) (updates : List Update) (sent : Requests Update)
      → i < j
      → received i (send_all j clients c updates sent).2 ≡ received i sent
  unfolding send_all
  send_all-past i j [] c updates sent lt = refl
  send_all-past i j (client ∷ rest) c updates sent lt =
      send_all-past i (suc j) rest c updates _ (omega arith)
      ∙ ground (arith, received-append i sent j updates, append-nil (received i sent))

  -- An available client is sent the chunk.
  send_all-received :
      (i j n : ℕ) (clients : List Client) (c : ℕ) (updates : List Update) (sent : Requests Update)
      {client : Client}
      → i ≡ j + n
      → get_elem? clients n ≡ some client
      → is_available (client c) ≡ true
      → received i (send_all j clients c updates sent).2 ≡ received i sent ++ updates
  unfolding send_all
  send_all-received i j n [] c updates sent e at here = cc
  send_all-received i j zero (first ∷ rest) c updates sent {client} e at here =
      let first_here : is_available (first c) ≡ true = cc in
      let mine : (j == i) ≡ true = ground arith in
      rw (first_here, send_all)
        (send_all-past i (suc j) rest c updates (sent ++ (j, updates) ∷ []) (omega arith)
          ∙ received-append i sent j updates
          ∙ rw mine refl)
  send_all-received i j (suc n) (first ∷ rest) c updates sent e at here =
      let other : (j == i) ≡ false = ground arith in
      let next = if is_available (first c) then sent ++ (j, updates) ∷ [] else sent in
      let unchanged : received i next ≡ received i sent =
        ground (arith, received-append i sent j updates, append-nil (received i sent)) in
      send_all-received i (suc j) n rest c updates next (omega arith) at here ∙ rw unchanged refl

  deliver_chunk-received :
      (i : ℕ) (clients : List Client) (c : ℕ) (updates : List Update) (sent : Requests Update)
      {client : Client}
      → get_elem? clients i ≡ some client
      → is_available (client c) ≡ true
      → received i (deliver_chunk clients updates c sent).1 ≡ received i sent ++ updates
  unfolding deliver_chunk
  deliver_chunk-received i clients c updates sent at here =
      send_all-received i 0 i clients c updates sent (omega arith) at here

  drop_all : (n : ℕ) (xs : List Update) → length xs ≤ n → drop n xs ≡ []
  drop_all zero [] h = refl
  drop_all zero (x ∷ xs) h = absurd (omega arith)
  drop_all (suc n) [] h = refl
  drop_all (suc n) (x ∷ xs) h = drop_all n xs (omega arith)

  -- A chunk and what is left after it.
  chunk_at-drop :
      (size : ℕ) (updates : List Update) (c : ℕ)
      → chunk_at size updates c ++ drop (suc c * size) updates ≡ drop (c * size) updates
  unfolding chunk_at
  chunk_at-drop size updates c =
      let begin = c * size in
      let count = min (begin + size) (length updates) - begin in
      let whole = take-append-drop count (drop begin updates) in
      let rest : drop count (drop begin updates) ≡ drop (suc c * size) updates =
        drop-drop begin count updates ∙ elim (Bool-cases (leb (begin + size) (length updates))) [
          | inl e ↦ ap (λ n. drop n updates) (ground arith)
          | inr e ↦
              drop_all (begin + count) updates (ground arith)
              ∙ sym (drop_all (suc c * size) updates (ground arith))
        ] in
      rw (sym rest) whole

  chunk_at-fits :
      (size : ℕ) (updates : List Update) (c : ℕ) → length (chunk_at size updates c) ≤ size
  unfolding chunk_at
  chunk_at-fits size updates c = omega (
    arith,
    length-take (min (c * size + size) (length updates) - c * size) (drop (c * size) updates),
  )

  deliver_chunks-received :
      (i : ℕ) (clients : List Client) (size : ℕ) (updates : List Update) (left c : ℕ) (ok : Bool)
      (sent : Requests Update) {client : Client}
      → get_elem? clients i ≡ some client
      → ((k : ℕ) → is_available (client k) ≡ true)
      → length updates ≤ (c + left) * size
      → received i (deliver_chunks clients size updates left c ok sent).1
        ≡ received i sent ++ drop (c * size) updates
  unfolding deliver_chunks
  deliver_chunks-received i clients size updates zero c ok sent at here enough =
      let nothing : drop (c * size) updates ≡ [] =
        drop_all (c * size) updates (omega (arith, enough)) in
      rw (nothing, append-nil (received i sent)) refl
  deliver_chunks-received i clients size updates (suc left) c ok sent at here enough =
      let out = deliver_chunk clients (chunk_at size updates c) c sent in
      let shifted : (c + suc left) * size ≡ (suc c + left) * size =
        ap (λ n. n * size) (omega arith) in
      deliver_chunks-received i clients size updates left (suc c) (if out.0 then ok else false)
        out.1 at here (rw shifted at enough)
      ∙ rw
          (
            deliver_chunk-received i clients c (chunk_at size updates c) sent at (here c),
            append_assoc (received i sent) (chunk_at size updates c) (drop (suc c * size) updates),
            chunk_at-drop size updates c,
          )
          refl

enough_chunks : (count size : ℕ) → 0 < size → count ≤ total_chunks count size * size
enough_chunks count size h =
    ground (arith, div-add-mod (count + size - 1) size, mod-lt (count + size - 1) h)

-- A client that is available throughout is sent all the updates, in order, each once, whatever the
-- other clients do and however it answers.
pub deliver-received :
    {Update : Type 0} (i : ℕ) (clients : List Client) (chunk_size : ℤ) (updates : List Update)
    (sent : Requests Update) {client : Client}
    → get_elem? clients i ≡ some client
    → ((k : ℕ) → is_available (client k) ≡ true)
    → received i (deliver clients chunk_size updates sent).1 ≡ received i sent ++ updates
unfolding deliver
deliver-received i clients chunk_size updates sent at here =
    elim (Bool-cases (leb_ℤ chunk_size (pos 0) || leb (length updates) (pos_part chunk_size))) [
      | inl e ↦ rw (deliver, e) (deliver_chunk-received i clients 0 updates sent at (here 0))
      | inr e ↦
          let size = pos_part chunk_size in
          let covered = enough_chunks (length updates) size (positive chunk_size _ e) in
          let whole : 0 * size ≡ 0 = omega arith in
          rw (deliver, e)
            (deliver_chunks-received i clients size updates (total_chunks (length updates) size) 0
                true sent at here (omega (arith, covered))
              ∙ rw whole refl)
    ]
  where
    positive : (n : ℤ) (b : Bool) → (leb_ℤ n (pos 0) || b) ≡ false → 0 < pos_part n
    positive n b e = ground arith

module _ {Update : Type 0} (size : ℕ) where
  abbrev pub Fits : ℕ × List Update → Type 0
  Fits (i, updates) = length updates ≤ size

  send_all-Fits :
      (i : ℕ) (clients : List Client) (c : ℕ) (updates : List Update) (sent : Requests Update)
      → length updates ≤ size
      → All Fits sent
      → All Fits (send_all i clients c updates sent).2
  unfolding send_all
  send_all-Fits i [] c updates sent small h = h
  send_all-Fits i (client ∷ rest) c updates sent small h =
      send_all-Fits (suc i) rest c updates _ small (added (is_available (client c)))
    where
      added : (here : Bool) → All Fits (if here then sent ++ (i, updates) ∷ [] else sent)
      added true = All-append Fits sent ((i, updates) ∷ []) h (small, tt)
      added false = h

  deliver_chunk-Fits :
      (clients : List Client) (c : ℕ) (updates : List Update) (sent : Requests Update)
      → length updates ≤ size
      → All Fits sent
      → All Fits (deliver_chunk clients updates c sent).1
  unfolding deliver_chunk
  deliver_chunk-Fits clients c updates sent small h = send_all-Fits 0 clients c updates sent small h

  deliver_chunks-Fits :
      (clients : List Client) (updates : List Update) (left c : ℕ) (ok : Bool)
      (sent : Requests Update)
      → All Fits sent
      → All Fits (deliver_chunks clients size updates left c ok sent).1
  unfolding deliver_chunks
  deliver_chunks-Fits clients updates zero c ok sent h = h
  deliver_chunks-Fits clients updates (suc left) c ok sent h =
      deliver_chunks-Fits clients updates left (suc c) _ _ (
        deliver_chunk-Fits clients c (chunk_at size updates c) sent (chunk_at-fits size updates c)
          h)

-- No request has more updates than the chunk size, where that is positive.
pub deliver-Fits :
    {Update : Type 0} (size : ℕ) (clients : List Client) (updates : List Update)
    → 0 < size
    → All (Fits size) (deliver clients (pos size) updates []).1
unfolding deliver
deliver-Fits size clients updates h = elim (Bool-cases (leb (length updates) size)) [
  | inl e ↦ rw (deliver, large, e) (deliver_chunk-Fits size clients 0 updates [] (ground arith) tt)
  | inr e ↦
      rw (deliver, large, e)
        (deliver_chunks-Fits size clients updates (total_chunks (length updates) size) 0 true [] tt)
]
  where
    large : leb_ℤ (pos size) (pos 0) ≡ false
    large = ground arith
