-- ===== src/Batcher/Settle/OnStream.antt =====
-- `processBatch` on the Redis stream: the batcher and the queue put together.
use ride_matching_engine.Common.{◌⊎◌, List, Memᴰ, All}
use ride_matching_engine.Floats.{Floats}
use ride_matching_engine.Queue.{Message, retried}
use ride_matching_engine.Queue.Codec.{Numerals}
use ride_matching_engine.Queue.Stream.{Commands, StreamOptions, stream_queue}
use ride_matching_engine.Queue.Stream.Views.{StreamLaws}
use ride_matching_engine.Queue.Stream.NoLoss.{InPel, Requeued, GivenUp}
use ride_matching_engine.Queue.Stream.DeadLetter.{promises}
use ride_matching_engine.Batcher.Config.{Config}
use ride_matching_engine.Batcher.Batch.{FlushReason, Outside, World}
use ride_matching_engine.Batcher.Settle.{process_batch}
use ride_matching_engine.Batcher.Settle.Keeps.{Distinct}
use ride_matching_engine.Batcher.Settle.NoLoss.{WasMatched, process_batch-keeps}

module _ (fl : Floats) (n : Numerals) (redis : Commands) (o : StreamOptions)
    (laws : StreamLaws redis) where
  open fl use {F}
  open redis use {Server}

  -- Let the messages of a batch be in the group's pending list, each under its own id. After
  -- `processBatch`, on every branch and whichever commands fail, each of them was matched by the
  -- engine, or is in the pending list still, or was put back into the stream with one more match
  -- attempt, where it waits unless the stream's length cap has trimmed it, or was sent to the
  -- dead-letter stream, which stores it unless the cap has trimmed it there or the server has refused
  -- it.
  pub process_batch_outcome :
      (c : Config F) (out : Outside F) (ms : List (Message F)) (reason : FlushReason)
      (w : World Server)
      → Distinct ms
      → All (λ m. InPel fl n redis o laws w.queue m.id) ms
      → (x : Message F) → Memᴰ x ms
      → let q = (process_batch (stream_queue fl n redis o) c out ms reason w).queue in
        WasMatched c out ms x
        ⊎ (InPel fl n redis o laws q x.id
            ⊎ (Requeued fl n redis o laws q (retried x.request) ⊎ GivenUp fl n redis o laws q x))
  unfolding promises
  process_batch_outcome c out =
      process_batch-keeps (stream_queue fl n redis o) (promises fl n redis o laws) c out
