-- ===== src/Ypipe/Tests.antt =====
-- The theorems on ypipe_t at sequences of calls on a queue of numbers.
use zmq_cn_comment.Base.{ℕ, ◌≡◌, true, false, List, [], ◌∷◌}
use zmq_cn_comment.Ypipe.{Ypipe, prefetched, flush_cas, flush_set}
use zmq_cn_comment.Ypipe
use zmq_cn_comment.Ypipe.Spec
use zmq_cn_comment.Ypipe.Run.{
  Call, write, unwrite, flush, check_read, read, perform, promise, answers, answers-start,
}

-- An attempt to read, a group of two of which the second part is taken back, and a read of the next.
abbrev calls : List (Call ℕ)
calls =
    read
    ∷ write 1 true
    ∷ write 2 true
    ∷ unwrite
    ∷ write 3 false
    ∷ flush
    ∷ check_read
    ∷ read
    ∷ read
    ∷ read
    ∷ []

answers-start_example : answers perform calls Ypipe.start ≡ answers promise calls Spec.start
answers-start_example = answers-start calls
