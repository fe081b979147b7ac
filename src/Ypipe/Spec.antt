-- ===== src/Ypipe/Spec.antt =====
-- What ypipe_t promises: three lists, the items that the reader may have, the complete ones that wait
-- for a flush, and those of an incomplete group; and whether the reader has been told that there is
-- nothing to read.
use zmq_cn_comment.Base.{
  Bool, true, false, not, List, [], ◌∷◌, ◌++◌, Option, none, length, get_elem?, drop, init_of,
  last_of, if◌then◌else◌, ◌==◌,
}

module _ {ℓ} (T : Type ℓ) where
  pub record Spec : Type ℓ where
    pub readable : List T
    pub complete : List T
    pub partial : List T
    pub asleep : Bool

module _ {ℓ} {T : Type ℓ} where
  abbrev pub start : Spec T
  start = record { readable = []; complete = []; partial = []; asleep = false }

  abbrev pub write : T → Bool → Spec T → Spec T
  write v true s = record s { partial = s.partial ++ (v ∷ []) }
  write v false s = record s { complete = s.complete ++ (s.partial ++ (v ∷ [])); partial = [] }

  abbrev pub unwrite : Spec T → Option T × Spec T
  unwrite s = (last_of s.partial, record s { partial = init_of s.partial })

  -- The answer is false if the reader sleeps and there is something new.
  abbrev pub flush : Spec T → Bool × Spec T
  flush s = if length s.complete == 0 then (true, s) else (
    not s.asleep,
    record s { readable = s.readable ++ s.complete; complete = []; asleep = false },
  )

  abbrev pub check_read : Spec T → Bool × Spec T
  check_read s = if length s.readable == 0 then (false, record s { asleep = true }) else (true, s)

  abbrev pub read : Spec T → Option T × Spec T
  read s =
      if length s.readable == 0
      then (none, record s { asleep = true })
      else (get_elem? s.readable 0, record s { readable = drop 1 s.readable })
