-- ===== src/Routing/Pipes.antt =====
-- What dist_t, lb_t and fq_t ask of the pipes that they hold (src/pipe.hpp). A pipe is a number and
-- `W` is the state of all pipes together; each call changes it.
use zmq_cn_comment.Base.{ℕ, Bool, Option}
use zmq_cn_comment.Message.{Msg}

pub record Pipes (W : Type 0) : Type 0 where
  pub write : ℕ → Msg → W → Bool × W
  pub flush : ℕ → W → W
  pub rollback : ℕ → W → W
  pub check_write : ℕ → W → Bool × W
  pub read : ℕ → W → Option Msg × W
  pub check_read : ℕ → W → Bool × W
  pub check_hwm : ℕ → W → Bool
