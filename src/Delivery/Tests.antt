-- ===== src/Delivery/Tests.antt =====
-- Five updates in chunks of two, to two clients, of which one misses a chunk.
use rises.Base.{ℕ, zero, suc, ◌≡◌, refl, List, [], ◌∷◌, ◌++◌}
use rises.Base.Int.{pos}
use rises.Delivery.{accepts, unavailable, Client, deliver}
use rises.Delivery.Chunks.{received, deliver-received}

abbrev willing : Client
willing chunk = accepts

abbrev late : Client
late zero = accepts
late (suc chunk) = unavailable

abbrev news : List ℕ
news = 1 ∷ 2 ∷ 3 ∷ 4 ∷ 5 ∷ []

deliver-received_example :
    received 0 (deliver (willing ∷ late ∷ []) (pos 2) news []).1 ≡ received 0 [] ++ news
deliver-received_example = deliver-received 0 (willing ∷ late ∷ []) (pos 2) news [] refl (λ k. refl)
