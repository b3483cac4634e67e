-- ===== src/Delivery.antt =====
-- src/message_translator: delivery_strategy.hpp and delivery_strategy.cpp.
-- A client is what its service does with each chunk. `agv_count` is the number of the clients, and
-- a vector's size is far below 2 ^ 64. `Requests` is the list of the requests sent, with the
-- client's number.
pub mod Chunks
pub mod Outcome
mod Tests
use rises.Base.{
  ℕ, zero, suc, ◌+◌, ◌-◌, ◌*◌, ◌/◌, Bool, true, false, ◌&&◌, ◌||◌, List, [], ◌∷◌, ◌++◌,
  if◌then◌else◌, length, take, drop, min, leb, ltb,
}
use rises.Base.Int.{ℤ, pos, pos_part, leb_ℤ}

-- What comes of a request: the service is not found in time; no response in time; a response.
pub data Answer : Type 0 where
  unavailable timed_out rejects accepts : Answer

abbrev pub Client : Type 0
Client = ℕ → Answer

abbrev pub is_available : Answer → Bool
is_available unavailable = false
is_available _ = true

abbrev pub is_success : Answer → Bool
is_success accepts = true
is_success _ = false

abbrev pub Requests : Type 0 → Type 0
Requests Update = List (ℕ × List Update)

-- The loop over the futures, with `all_success`.
pub await : Bool → List Answer → Bool
await all_success [] = all_success
await all_success (answer ∷ rest) = await (if is_success answer then all_success else false) rest

abbrev pub total_chunks : ℕ → ℕ → ℕ
total_chunks count chunk_size = (count + chunk_size - 1) / chunk_size

module _ {Update : Type 0} where
  -- The loop over the clients: whether all are available, the futures, and the requests.
  pub send_all :
      ℕ → List Client → ℕ → List Update → Requests Update → Bool × List Answer × Requests Update
  send_all i [] chunk_index updates sent = (true, [], sent)
  send_all i (client ∷ rest) chunk_index updates sent =
      let here = is_available (client chunk_index) in
      let (all_available, futures, after) =
        send_all (suc i) rest chunk_index updates
          (if here then sent ++ (i, updates) ∷ [] else sent) in
      (here && all_available, if here then client chunk_index ∷ futures else futures, after)

  pub deliver_chunk : List Client → List Update → ℕ → Requests Update → Bool × Requests Update
  unfolding send_all await
  deliver_chunk clients updates chunk_index sent =
      let (all_available, futures, after) = send_all 0 clients chunk_index updates sent in
      (if all_available then await true futures else false, after)

  -- The updates from `start` up to `end`.
  pub chunk_at : ℕ → List Update → ℕ → List Update
  chunk_at chunk_size updates c =
      let start = c * chunk_size in
      let end = min (start + chunk_size) (length updates) in take (end - start) (drop start updates)

  -- The loop over the chunks, with the number of chunks left.
  pub deliver_chunks :
      List Client → ℕ → List Update → ℕ → ℕ → Bool → Requests Update → Bool × Requests Update
  unfolding deliver_chunk chunk_at
  deliver_chunks clients chunk_size updates zero c all_success sent = (all_success, sent)
  deliver_chunks clients chunk_size updates (suc left) c all_success sent =
      let (delivered, after) = deliver_chunk clients (chunk_at chunk_size updates c) c sent in
      deliver_chunks clients chunk_size updates left (suc c)
        (if delivered then all_success else false) after

  -- `ServiceDeliveryStrategy::deliver`
  pub deliver : List Client → ℤ → List Update → Requests Update → Bool × Requests Update
  unfolding deliver_chunk deliver_chunks
  deliver clients chunk_size updates sent =
      if leb_ℤ chunk_size (pos 0) || leb (length updates) (pos_part chunk_size)
      then deliver_chunk clients updates 0 sent
      else deliver_chunks clients (pos_part chunk_size) updates
          (total_chunks (length updates) (pos_part chunk_size)) 0 true sent
