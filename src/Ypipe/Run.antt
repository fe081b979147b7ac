-- ===== src/Ypipe/Run.antt =====
-- The answers of ypipe_t in every sequence of calls of the writer and the reader.
use zmq_cn_comment.Base.{◌≡◌, arith, refl, ap, ap₂, Bool, List, [], ◌∷◌, Option}
use zmq_cn_comment.Ypipe.{Ypipe, is_at, prefetched, flush_cas, flush_set}
use zmq_cn_comment.Ypipe
use zmq_cn_comment.Ypipe.Spec.{Spec}
use zmq_cn_comment.Ypipe.Spec
use zmq_cn_comment.Ypipe.Refine.{Represents, write-Represents, unwrite-Agrees, flush-Agrees}
use zmq_cn_comment.Ypipe.Reader.{check_read-Agrees, read-Agrees}

module _ {ℓ} (T : Type ℓ) where
  -- A call of the writer (write, unwrite, flush) or of the reader (check_read, read).
  pub data Call : Type ℓ where
    write : T → Bool → Call
    unwrite flush check_read read : Call

  -- What a call returns.
  pub data Answer : Type ℓ where
    nothing : Answer
    item : Option T → Answer
    flag : Bool → Answer

module _ {ℓ} {T : Type ℓ} where
  abbrev with_item {ℓ'} : {S : Type ℓ'} → Option T × S → Answer T × S
  with_item (o, s) = (item o, s)

  abbrev with_flag {ℓ'} : {S : Type ℓ'} → Bool × S → Answer T × S
  with_flag (b, s) = (flag b, s)

  pub perform : Call T → Ypipe T → Answer T × Ypipe T
  perform (write v incomplete) y = (nothing, Ypipe.write v incomplete y)
  perform unwrite y = with_item (Ypipe.unwrite y)
  perform flush y = with_flag (Ypipe.flush y)
  perform check_read y = with_flag (Ypipe.check_read y)
  perform read y = with_item (Ypipe.read y)

  pub promise : Call T → Spec T → Answer T × Spec T
  promise (write v incomplete) s = (nothing, Spec.write v incomplete s)
  promise unwrite s = with_item (Spec.unwrite s)
  promise flush s = with_flag (Spec.flush s)
  promise check_read s = with_flag (Spec.check_read s)
  promise read s = with_item (Spec.read s)

  -- The answers to the calls in turn.
  pub answers {ℓ'} :
      {S : Type ℓ'} → (Call T → S → Answer T × S) → List (Call T) → S → List (Answer T)
  answers do_call [] s = []
  answers do_call (c ∷ cs) s = let r = do_call c s in r.0 ∷ answers do_call cs r.1

  perform-promise :
      (c : Call T) (y : Ypipe T) (s : Spec T)
      → Represents y s
      → ((perform c y).0 ≡ (promise c s).0) × Represents (perform c y).1 (promise c s).1
  unfolding perform promise
  perform-promise (write v incomplete) y s h = (refl, write-Represents v incomplete y s h)
  perform-promise unwrite y s h = let a = unwrite-Agrees y s h in (ap item a.0, a.1)
  perform-promise flush y s h = let a = flush-Agrees y s h in (ap flag a.0, a.1)
  perform-promise check_read y s h = let a = check_read-Agrees y s h in (ap flag a.0, a.1)
  perform-promise read y s h = let a = read-Agrees y s h in (ap item a.0, a.1)

  answers-Represents :
      (cs : List (Call T)) (y : Ypipe T) (s : Spec T)
      → Represents y s
      → answers perform cs y ≡ answers promise cs s
  unfolding answers
  answers-Represents [] y s h = refl
  answers-Represents (c ∷ cs) y s h =
      let one = perform-promise c y s h in
      ap₂ (λ a rest. a ∷ rest) one.0 (answers-Represents cs (perform c y).1 (promise c s).1 one.1)

  pub start-Represents : Represents (Ypipe.start {T = T}) Spec.start
  start-Represents = record {
    items_eq = refl;
    w_eq = refl;
    f_eq = refl;
    c_eq = refl;
    empty = λ e. refl;
    r_in = λ k e. ground arith;
  }

  -- A new ypipe_t answers every sequence of calls as its specification does: items come out in the
  -- order written, only after a flush, unwritten ones never; and a flush of something
  -- new returns false exactly if an attempt to read has found nothing since the last such flush.
  pub answers-start :
      (cs : List (Call T)) → answers perform cs Ypipe.start ≡ answers promise cs Spec.start
  answers-start cs = answers-Represents cs Ypipe.start Spec.start start-Represents
