-- ===== src/Errno.antt =====
-- The values of errno that the modelled code sets, and what a decoder step returns.
pub data Errno : Type 0 where
  eproto emsgsize enomem eagain efsm efault einval ehostunreach : Errno
  -- -1 is returned and errno is left as it was.
  unchanged : Errno
