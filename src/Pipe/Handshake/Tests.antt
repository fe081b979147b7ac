-- ===== src/Pipe/Handshake/Tests.antt =====
-- The theorems on the handshake at two new ends, and after one of them has been terminated.
use zmq_cn_comment.Base.{◌≡◌, refl, true, false, not, ◌||◌, [], ◌∷◌, some}
use zmq_cn_comment.Message.{init_delimiter}
use zmq_cn_comment.Ypipe.{Ypipe}
use zmq_cn_comment.Ypipe
use zmq_cn_comment.Ypipe.Spec
use zmq_cn_comment.Ypipe.Run.{start-Represents}
use zmq_cn_comment.Pipe.{Pipe, start, pipe_term, term_req_sent1}
use zmq_cn_comment.Pipe.Terminate.{terminate, process_hiccup}
use zmq_cn_comment.Pipe.Close.{none_left}
use zmq_cn_comment.Pipe.Handshake.{End, terminated_by_user, event}
use zmq_cn_comment.Pipe.Handshake.Together.{phase}
use zmq_cn_comment.Pipe.Handshake.States.{keeps_queue, alive}
use zmq_cn_comment.Pipe.Handshake.Safety.{IsNew, begin, other, happens, event-Reached}
use zmq_cn_comment.Pipe.Handshake.Hiccup.{process_hiccup-Reached}

abbrev new_end : End
new_end = record { pipe = some (start Ypipe.start Ypipe.start 0 0); inbox = []; wrote = false }

new_end-IsNew : IsNew new_end
new_end-IsNew = record {
  no_command = refl;
  not_wrote = refl;
  is_active = refl;
  queue = (Ypipe.start, Spec.start, refl, start-Represents, none_left);
}

-- The ends once one of them has been terminated.
abbrev first_end : End
first_end = record {
  pipe = some (record (start Ypipe.start Ypipe.start 0 0) {
    out_pipe =
        some
          (record { items = init_delimiter ∷ []; front = 0; w = 1; f = 1; r = some 0; c = some 1 });
    out_active = false;
    state = term_req_sent1;
    delay = false;
    sent = pipe_term ∷ [];
  });
  inbox = [];
  wrote = true;
}

abbrev second_end : End
second_end = record new_end { inbox = pipe_term ∷ [] }

terminate_new : event (terminated_by_user false) new_end new_end ≡ some (first_end, second_end)
unfolding event terminate Ypipe.write Ypipe.flush
terminate_new = refl

event-Reached_example :
    ((a' : End) × (b' : End) × (event (terminated_by_user true) new_end new_end ≡ some (a', b')))
    × (not (keeps_queue (phase new_end)) || alive (phase new_end) ≡ true)
event-Reached_example = event-Reached (terminated_by_user true) (begin new_end-IsNew new_end-IsNew)

-- A hiccup of the second end may wait for the first one, which has been terminated.
process_hiccup-Reached_example :
    (p : Pipe) × (p' : Pipe) × (first_end.pipe ≡ some p) × (process_hiccup Ypipe.start p ≡ some p')
process_hiccup-Reached_example =
    process_hiccup-Reached Ypipe.start
      (other (happens (terminated_by_user false) (begin new_end-IsNew new_end-IsNew) terminate_new))
      refl
