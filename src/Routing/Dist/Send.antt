-- ===== src/Routing/Dist/Send.antt =====
-- Distribution: each matching pipe gets the message once.
use zmq_cn_comment.Base.{
  ℕ, zero, suc, ◌+◌, ◌≤◌, ◌<◌, ◌≡◌, ◌≢◌, inl, inr, refl, sym, subst, Bool, true, false, ◌&&◌, ◌||◌,
  ◌==◌, ltb, ltb→lt, leb, if◌then◌else◌, Bool-cases, List, [], ◌∷◌, none, arith,
}
use native.Mathlib.Decide.{ℕ_discrete}
use zmq_cn_comment.Message.{Msg, has_more, is_vsm, init}
use zmq_cn_comment.Routing.Array.{Has, at, index}
use zmq_cn_comment.Routing.Pipes.{Pipes}
use zmq_cn_comment.Routing.Dist.{
  Dist, IsOrdered, deactivate, write, write_loop, distribute, send_to_matching,
}
use zmq_cn_comment.Routing.Dist.Retire.{
  Same, deactivate-Same, deactivate_below, deactivate-Has, matching-deactivate,
}

-- The pipe at a position that matches.
at-Has : (d : Dist) (i : ℕ) → IsOrdered d → i < d.matching → Has d.pipes (at d.pipes i)
at-Has d i o lt = ground (arith, o.valid.knows i)

position :
    (d : Dist) (i : ℕ) → IsOrdered d → i < d.matching → index d.pipes (at d.pipes i) < d.matching
position d i o lt = ground (arith, o.valid.knows i)

module _ {W : Type 0} (io : Pipes W) (m : Msg) where
  -- The two outcomes of `write`.
  write_taken :
      (p : ℕ) (d : Dist) (w : W)
      → (io.write p m w).0 ≡ true
      → write io p m d w
        ≡ (true, d, (if has_more m then (io.write p m w).1 else io.flush p (io.write p m w).1))
  unfolding write
  write_taken p d w e = rw e

  write_refused :
      (p : ℕ) (d : Dist) (w : W)
      → (io.write p m w).0 ≡ false
      → write io p m d w ≡ (false, deactivate p d, (io.write p m w).1)
  unfolding write
  write_refused p d w e = rw e

  write_loop-IsOrdered :
      (fuel i failed : ℕ) (d : Dist) (w : W)
      → IsOrdered d
      → let r = write_loop io fuel i failed m d w in
        IsOrdered r.0 × (r.2 + r.0.matching ≡ failed + d.matching)
  unfolding write_loop
  write_loop-IsOrdered zero i failed d w o = (o, refl)
  write_loop-IsOrdered (suc fuel) i failed d w o = elim (Bool-cases (ltb i d.matching)) [
    | inr over ↦ rw over (o, refl)
    | inl next ↦ rw next (elim (Bool-cases (io.write (at d.pipes i) m w).0) [
      | inl taken ↦
          rw (write_taken (at d.pipes i) d w taken) (write_loop-IsOrdered fuel (i + 1) failed d _ o)
      | inr refused ↦ rw (write_refused (at d.pipes i) d w refused) (
          let lt : i < d.matching = ltb→lt _ _ next in
          let h : Has d.pipes (at d.pipes i) = at-Has d i o lt in
          let ih =
            write_loop-IsOrdered fuel i (failed + 1) (deactivate (at d.pipes i) d) _
              (deactivate-Same (at d.pipes i) d o h (position d i o lt)).0 in
          (ih.0, omega (arith, ih.1, matching-deactivate (at d.pipes i) d o h)))
    ])
  ]

  -- Distribution over boundaries in order keeps them so, whatever the pipes do; it leaves the caller
  -- an empty message, and of a message with shared content exactly one reference for each pipe that
  -- matches afterwards.
  pub distribute-refs :
      (d : Dist) (w : W)
      → IsOrdered d
      → let s = distribute io m d w in
        IsOrdered s.dist × (s.msg ≡ init) × (s.refs ≡ (if is_vsm m then 0 else s.dist.matching))
  unfolding distribute
  distribute-refs d w o = ground (arith, write_loop-IsOrdered d.matching 0 0 d w o)

  -- send_to_matching on boundaries in order leaves them in order, and `more` is set if and only if the
  -- message has the flag: so after a last part all eligible pipes are active.
  pub send_to_matching-IsOrdered :
      (d : Dist) (w : W)
      → IsOrdered d
      → IsOrdered (send_to_matching io m d w).dist
        × ((send_to_matching io m d w).dist.more ≡ has_more m)
  unfolding send_to_matching
  send_to_matching-IsOrdered d w o = ground (arith, distribute-refs d w o)

-- The messages that were written to a pipe.
abbrev pub written_to : ℕ → List (ℕ × Msg) → List Msg
written_to q [] = []
written_to q ((p, m) ∷ w) = if p == q then m ∷ written_to q w else written_to q w

-- Pipes that log each call of `write` with its message; those in `accept` take the message.
abbrev pub logging : (ℕ → Bool) → Pipes (List (ℕ × Msg))
logging accept = record {
  write = λ p m w. (accept p, (p, m) ∷ w);
  flush = λ p w. w;
  rollback = λ p w. w;
  check_write = λ p w. (accept p, w);
  read = λ p w. (none, w);
  check_read = λ p w. (false, w);
  check_hwm = λ p w. accept p;
}

if_same : (b : Bool) (w : List (ℕ × Msg)) → (if b then w else w) ≡ w
if_same true w = refl
if_same false w = refl

module _ (accept : ℕ → Bool) (m : Msg) where
  abbrev Loop : ℕ → ℕ → ℕ → Dist → List (ℕ × Msg) → Dist × List (ℕ × Msg) × ℕ
  Loop fuel i failed d w = write_loop (logging accept) fuel i failed m d w

  -- What the loop does to the pipe q.
  abbrev Served : ℕ → ℕ → Dist → List (ℕ × Msg) → Dist × List (ℕ × Msg) × ℕ → Type 0
  Served q i d w r =
      (written_to q r.1 ≡ (
        if ltb (index d.pipes q) d.matching && leb i (index d.pipes q)
        then m ∷ written_to q w
        else written_to q w))
      × (ltb (index r.0.pipes q) r.0.matching
          ≡ (ltb (index d.pipes q) d.matching && (ltb (index d.pipes q) i || accept q)))

  serve_taken :
      (i q : ℕ) (d : Dist) (w : List (ℕ × Msg)) (r : Dist × List (ℕ × Msg) × ℕ)
      → IsOrdered d
      → Has d.pipes q
      → i < d.matching
      → accept (at d.pipes i) ≡ true
      → Served q (i + 1) d ((at d.pipes i, m) ∷ w) r
      → Served q i d w r
  serve_taken i q d w r o hq lt taken s = ground (arith, o.valid.knows i)

  serve_refused_self :
      (i : ℕ) (d d' : Dist) (w : List (ℕ × Msg)) (r : Dist × List (ℕ × Msg) × ℕ)
      → IsOrdered d
      → i < d.matching
      → accept (at d.pipes i) ≡ false
      → d'.matching ≤ index d'.pipes (at d.pipes i)
      → Served (at d.pipes i) i d' ((at d.pipes i, m) ∷ w) r
      → Served (at d.pipes i) i d w r
  serve_refused_self i d d' w r o lt refused out s = ground (arith, o.valid.knows i)

  serve_refused_other :
      (i q : ℕ) (d d' : Dist) (w : List (ℕ × Msg)) (r : Dist × List (ℕ × Msg) × ℕ)
      → q ≢ at d.pipes i
      → ltb (index d'.pipes q) d'.matching ≡ ltb (index d.pipes q) d.matching
      → ltb (index d'.pipes q) i ≡ ltb (index d.pipes q) i
      → Served q i d' ((at d.pipes i, m) ∷ w) r
      → Served q i d w r
  serve_refused_other i q d d' w r ne same below s = ground arith

  serve_refused :
      (i q : ℕ) (d : Dist) (w : List (ℕ × Msg)) (r : Dist × List (ℕ × Msg) × ℕ)
      → IsOrdered d
      → Has d.pipes q
      → i < d.matching
      → accept (at d.pipes i) ≡ false
      → Served q i (deactivate (at d.pipes i) d) ((at d.pipes i, m) ∷ w) r
      → Served q i d w r
  serve_refused i q d w r o hq lt refused s = elim (ℕ_discrete q p) [
    | yes e ↦
        subst (λ x. Served x i d w r) (sym e)
          (serve_refused_self i d (deactivate p d) w r o lt refused
            (omega (arith, gone.1.0, gone.0.matching_le, gone.0.active_le))
            (subst (λ x. Served x i (deactivate p d) ((p, m) ∷ w) r) e s))
    | no ne ↦
        serve_refused_other i q d (deactivate p d) w r ne (gone.2 q hq ne).0
          (deactivate_below p d o h q i (position d i o lt) hq ne (omega (arith, o.valid.knows i)))
          s
  ]
    where
      p : ℕ
      p = at d.pipes i

      h : Has d.pipes p
      h = at-Has d i o lt

      gone :
          IsOrdered (deactivate p d)
          × (((deactivate p d).eligible ≤ index (deactivate p d).pipes p)
              × Has (deactivate p d).pipes p)
          × ((x : ℕ) → Has d.pipes x → x ≢ p → Same d (deactivate p d) x)
      gone = deactivate-Same p d o h (position d i o lt)

  write_loop-Served :
      (fuel i failed q : ℕ) (d : Dist) (w : List (ℕ × Msg))
      → IsOrdered d
      → d.matching ≤ i + fuel
      → Has d.pipes q
      → Served q i d w (Loop fuel i failed d w)
  unfolding write_loop
  write_loop-Served zero i failed q d w o enough hq = ground arith
  write_loop-Served (suc fuel) i failed q d w o enough hq = elim (Bool-cases (ltb i d.matching)) [
    | inr over ↦ rw over (ground arith)
    | inl next ↦ rw next (elim (Bool-cases (accept (at d.pipes i))) [
      | inl taken ↦ rw (write_taken (logging accept) m (at d.pipes i) d w taken) (
          rw (if_same (has_more m) ((at d.pipes i, m) ∷ w)) (
            serve_taken i q d w (Loop fuel (i + 1) failed d ((at d.pipes i, m) ∷ w)) o hq
              (ltb→lt _ _ next) taken
              (write_loop-Served fuel (i + 1) failed q d ((at d.pipes i, m) ∷ w) o (omega arith)
                hq)))
      | inr refused ↦ rw (write_refused (logging accept) m (at d.pipes i) d w refused) (
          let lt : i < d.matching = ltb→lt _ _ next in
          let h : Has d.pipes (at d.pipes i) = at-Has d i o lt in
          let pos : index d.pipes (at d.pipes i) < d.matching = position d i o lt in
          serve_refused i q d w
            (Loop fuel i (failed + 1) (deactivate (at d.pipes i) d) ((at d.pipes i, m) ∷ w)) o hq lt
            refused
            (write_loop-Served fuel i (failed + 1) q (deactivate (at d.pipes i) d)
              ((at d.pipes i, m) ∷ w) (deactivate-Same (at d.pipes i) d o h pos).0
              (omega (arith, matching-deactivate (at d.pipes i) d o h))
              (deactivate-Has (at d.pipes i) d o h q pos hq)))
    ])
  ]

  -- If the boundaries are in order, distribution writes this message, once, to each matching pipe and
  -- nothing else to it, and nothing to the other pipes of the array, and afterwards the pipes that match are those of them that took it.
  pub distribute_once :
      (q : ℕ) (d : Dist)
      → IsOrdered d
      → Has d.pipes q
      → let s = distribute (logging accept) m d [] in
        (written_to q s.world ≡ (if ltb (index d.pipes q) d.matching then m ∷ [] else []))
        × (ltb (index s.dist.pipes q) s.dist.matching
            ≡ (ltb (index d.pipes q) d.matching && accept q))
  unfolding distribute
  distribute_once q d o hq =
      ground (arith, write_loop-Served d.matching 0 0 q d [] o (omega arith) hq)
