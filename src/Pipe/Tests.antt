-- ===== src/Pipe/Tests.antt =====
-- The theorems on an end of a pipe at a new one.
use zmq_cn_comment.Base.{
  ◌+◌, ◌≤◌, ◌≡◌, refl, Bool, true, false, ◌&&◌, [], ◌∷◌, ◌++◌, some, length, ltb, if◌then◌else◌,
  arith,
}
use zmq_cn_comment.Message.{Msg, MsgType, has_more}
use zmq_cn_comment.Ypipe.{Ypipe}
use zmq_cn_comment.Ypipe
use zmq_cn_comment.Ypipe.Spec.{Spec}
use zmq_cn_comment.Ypipe.Spec
use zmq_cn_comment.Ypipe.Refine.{Represents, write-Represents}
use zmq_cn_comment.Ypipe.Run.{start-Represents}
use zmq_cn_comment.Pipe.{Pipe, start, pipe_term, term_req_sent1, read_loop, write}
use zmq_cn_comment.Pipe.Terminate.{terminate}
use zmq_cn_comment.Pipe.Credit.{Counters, in_flight, counts, write-Counters}
use zmq_cn_comment.Pipe.Receive.{first_plain, after_plain, found_in, read_loop-Represents}
use zmq_cn_comment.Pipe.Close.{Parts, none_left, one_more, Closed, terminate-Closed}

-- The first part of a message.
abbrev part : Msg
part = record { type = MsgType.vsm; flags = 1; body = 7 ∷ [] }

-- A queue with this part, and its specification.
abbrev queue : Ypipe Msg
queue = Ypipe.write part true Ypipe.start

abbrev queue_spec : Spec Msg
queue_spec = Spec.write part true Spec.start

queue-Represents : Represents queue queue_spec
queue-Represents = write-Represents part true Ypipe.start Spec.start start-Represents

part_more : has_more part ≡ true
unfolding has_more
part_more = refl

queue-Parts : Parts queue_spec.partial
queue-Parts = one_more part_more none_left

abbrev end : Pipe
end = start Ypipe.start queue 0 10

write-Counters_example :
    (r : Bool × Pipe) × (write part end ≡ some r)
    × (r.0 ≡ ltb (in_flight end) end.hwm)
    × (in_flight r.1 ≡ in_flight end + (if r.0 && counts part then 1 else 0))
    × (in_flight r.1 ≤ r.1.hwm)
    × Counters r.1
write-Counters_example =
    write-Counters part end queue refl refl refl (omega arith)
      (omega arith, omega arith, omega arith) (omega arith)

read_loop-Represents_example :
    ((read_loop (length queue.items + 1) queue).0 ≡ first_plain queue_spec.readable)
    × Represents (read_loop (length queue.items + 1) queue).1 (record (queue_spec) {
      readable = after_plain queue_spec.readable;
      asleep = found_in queue_spec.readable queue_spec.asleep;
    })
read_loop-Represents_example = read_loop-Represents queue queue_spec queue-Represents

terminate-Closed_example :
    (p : Pipe) × (terminate false end ≡ some p)
    × Closed
        (record end { state = term_req_sent1; sent = end.sent ++ (pipe_term ∷ []) })
        p
        queue_spec
terminate-Closed_example =
    terminate-Closed false end queue queue_spec refl refl queue-Represents queue-Parts
