-- ===== src/Socket/Router/Ops.antt =====
-- The router and the dealer as the sockets on top of them use them.
use zmq_cn_comment.Base.{ℕ}
use zmq_cn_comment.Routing.Pipes.{Pipes}
use zmq_cn_comment.Socket.Dealer.{Dealer}
use zmq_cn_comment.Socket.Dealer as DealerSocket
use zmq_cn_comment.Base.{Option, none, some}
use zmq_cn_comment.Socket.Req.{DealerOps}
use zmq_cn_comment.Socket.Rep.{RouterOps}
use zmq_cn_comment.Socket.Router.{Router, RouterPipes, xsend, rollback, xhas_out}
use zmq_cn_comment.Socket.Router.Receive.{xrecv, xhas_in}

abbrev nested : {A B C : Type 0} → A × B × C → A × (B × C)
nested r = (r.0, (r.1, r.2))

abbrev with_pipes : {W : Type 0} → Option Dealer → W → Option (Dealer × W)
with_pipes none w = none
with_pipes (some s) w = some (s, w)

abbrev pub dealer_ops : {W : Type 0} → Pipes W → DealerOps (Dealer × W)
dealer_ops io = record {
  sendpipe = λ m d. nested (DealerSocket.sendpipe io m d);
  recvpipe = λ d. nested (DealerSocket.recvpipe io d);
  xhas_in = λ d. nested (DealerSocket.xhas_in io d);
  xhas_out = λ d. nested (DealerSocket.xhas_out io d);
  xsetsockopt = λ option value d. with_pipes (DealerSocket.xsetsockopt option value d.0) d.1;
  xpipe_terminated = λ p d. (DealerSocket.xpipe_terminated p d.0, d.1);
}

-- The fuel is for the routing ids that come in before a message.
abbrev pub router_ops : {W : Type 0} → RouterPipes W → ℕ → RouterOps (Router × W)
router_ops pipes fuel = record {
  xsend = λ m r. nested (xsend pipes m r.0 r.1);
  xrecv = λ r. nested (xrecv pipes fuel r.0 r.1);
  rollback = λ r. rollback pipes r.0 r.1;
  xhas_in = λ r. nested (xhas_in pipes fuel r.0 r.1);
  xhas_out = λ r. (xhas_out pipes r.0 r.1, r);
}
