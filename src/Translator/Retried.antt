-- ===== src/Translator/Retried.antt =====
-- A flush that fails, and the updates that the next flush sends.
use rises.Base.{ℕ, ◌≡◌, ◌∙◌, ap, Bool, false, List, [], ◌++◌, some}
use rises.Base.Int.{ℤ}
use rises.Base.Dict.{int_keys, lookup}
use rises.Spatial.Batch.{MapUpdate}
use rises.Delivery.{Client}
use rises.Translator.State.{Messages, Config, Translator, collapse, collapse_map}
use rises.Translator.Collapse.{collapse-retry}
use rises.Translator.Flush.{finish_flush}
use rises.Translator.Progress.{is_delivered, finish_flush-failed, deliver_updates-outcome}

module _ (M : Messages) (c : Config) where
  open M use {Obstacle}

  -- When some client does not accept some chunk of a flush, the collapsed updates stand in the buffer
  -- before those that came meanwhile, so that the map of the next flush has for each id what it would
  -- have had from all the updates in the order in which they came.
  pub finish_flush-retry :
      (now : ℕ) (clients : List Client) (is_available : Bool) (us : List (MapUpdate Obstacle))
      → (t : Translator M) → t.flushing ≡ some (collapse us)
      → is_delivered M c clients (collapse us) ≡ false
      → (k : ℤ)
      → let buffer = (finish_flush M c now clients is_available t).buffered_updates in
        (buffer ≡ collapse us ++ t.buffered_updates)
        × (lookup k (collapse_map buffer [])
            ≡ lookup k (collapse_map (us ++ t.buffered_updates) []))
  unfolding lookup
  finish_flush-retry now clients is_available us t flushing fails k =
      let (flushed, kept, guard) =
        finish_flush-failed M c now clients is_available t (collapse us) flushing
          (deliver_updates-outcome M c clients (collapse us) t ∙ fails) in
      (kept, ap (λ b. lookup k (collapse_map b [])) kept ∙ collapse-retry us t.buffered_updates k)
