-- ===== src/Socket/Network.antt =====
-- Pipes for the tests of the sockets: pipes 7 and 3 have messages to read, and what is written is logged.
use zmq_cn_comment.Base.{ℕ, true, false, Option, none, some, List, ◌∷◌, [], ◌==◌, if◌then◌else◌}
use zmq_cn_comment.Message.{Msg}
use zmq_cn_comment.Routing.Pipes.{Pipes}

-- What is queued in pipe 7 and in pipe 3, and what was written, the last first.
pub record World : Type 0 where
  pub seven : List Msg
  pub three : List Msg
  pub log : List (ℕ × Msg)

abbrev from_seven : List Msg → World → Option Msg × World
from_seven [] w = (none, w)
from_seven (m ∷ q) w = (some m, record w { seven = q })

abbrev from_three : List Msg → World → Option Msg × World
from_three [] w = (none, w)
from_three (m ∷ q) w = (some m, record w { three = q })

-- All pipes take what they are given; a rollback forgets all that was written.
abbrev pub network : Pipes World
network = record {
  write = λ p m w. (true, record w { log = (p, m) ∷ w.log });
  flush = λ p w. w;
  rollback = λ p w. record w { log = [] };
  check_write = λ p w. (true, w);
  read = λ p w. if p == 7 then from_seven w.seven w else from_three w.three w;
  check_read = λ p w. (false, w);
  check_hwm = λ p w. true;
}
