-- ===== src/Routing/Dist/Retire.antt =====
-- Pipes that leave the active part of the array: a pipe that takes no more messages, and one that
-- is terminated. All other pipes stay what they were.
use zmq_cn_comment.Base.{
  ℕ, ◌+◌, ◌-◌, ◌≤◌, ◌<◌, ◌≡◌, ◌≢◌, ◌⊎◌, inl, inr, refl, ap, subst, sym, ◌∙◌, true, false,
  Bool-cases, ltb, ltb→lt, lt→ltb, arith,
}
use zmq_cn_comment.Routing.Array.{Array, IsValid, Has, size, index, swap, erase}
use zmq_cn_comment.Routing.Array.Laws.{
  size-erase, erase-IsValid, erase-Has, index-erase_other, moved-IsValid, size-moved, index-moved,
  moved-Has, moved_others, moved_below,
}
use zmq_cn_comment.Routing.Dist.{Dist, IsOrdered, leave, pipe_terminated, deactivate}

-- The array and the boundary after p has been taken out from below the boundary n.
pub record Left (a : Array) (p n : ℕ) (r : ℕ × Array) : Type 0 where
  pub valid : IsValid r.1
  pub size_eq : size r.1 ≡ size a
  pub has : (q : ℕ) → Has a q → Has r.1 q
  pub exact :
      ((index a p < n) × (r.0 ≡ n - 1) × (index r.1 p ≡ n - 1))
      ⊎ ((n ≤ index a p) × (r.0 ≡ n) × (index r.1 p ≡ index a p))
  pub same : (q : ℕ) → Has a q → q ≢ p → ltb (index r.1 q) r.0 ≡ ltb (index a q) n
  pub above : (q m : ℕ) → Has a q → q ≢ p → n ≤ m → ltb (index r.1 q) m ≡ ltb (index a q) m
  pub below : (q m : ℕ) → Has a q → q ≢ p → m ≤ index a p → ltb (index r.1 q) m ≡ ltb (index a q) m

module _ (a : Array) (p n : ℕ) (v : IsValid a) (h : Has a p) (fits : n ≤ size a) where
  leave_moved : ltb (index a p) n ≡ true → Left a p n (n - 1, swap (index a p) (n - 1) a)
  leave_moved t =
      let lt : index a p < n = ltb→lt _ _ t in
      record {
        valid = moved-IsValid a p n v h lt fits;
        size_eq = size-moved a p n v h lt fits;
        has = moved-Has a p n v h lt fits;
        exact = inl (lt, refl, index-moved a p n v h lt fits);
        same = moved_below a p n v h lt fits;
        above = λ q m hq ne le. moved_others a p n v h lt fits q m hq ne (inl le);
        below = λ q m hq ne le. moved_others a p n v h lt fits q m hq ne (inr le);
      }

  leave_stays : ltb (index a p) n ≡ false → Left a p n (n, a)
  leave_stays t = record {
    valid = v;
    size_eq = refl;
    has = λ q hq. hq;
    exact = inr (ground arith, refl, refl);
    same = λ q hq ne. refl;
    above = λ q m hq ne le. refl;
    below = λ q m hq ne le. refl;
  }

  pub leave-Left : Left a p n (leave p n a)
  leave-Left = elim (Bool-cases (ltb (index a p) n)) [
    | inl t ↦ rw t (leave_moved t)
    | inr t ↦ rw t (leave_stays t)
  ]

-- The classes of a pipe: matching, active, eligible.
abbrev pub Same : Dist → Dist → ℕ → Type 0
Same d d' q =
    (ltb (index d'.pipes q) d'.matching ≡ ltb (index d.pipes q) d.matching)
    × (ltb (index d'.pipes q) d'.active ≡ ltb (index d.pipes q) d.active)
    × (ltb (index d'.pipes q) d'.eligible ≡ ltb (index d.pipes q) d.eligible)

-- The three boundaries left one after the other.
module _ (p : ℕ) (d : Dist) (o : IsOrdered d) (h : Has d.pipes p) where
  abbrev lm : ℕ × Array
  lm = leave p d.matching d.pipes

  abbrev la : ℕ × Array
  la = leave p d.active lm.1

  abbrev le : ℕ × Array
  le = leave p d.eligible la.1

  at_m : Left d.pipes p d.matching lm
  at_m = leave-Left d.pipes p d.matching o.valid h (omega arith)

  at_a : Left lm.1 p d.active la
  at_a = leave-Left lm.1 p d.active at_m.valid (at_m.has p h) (omega (arith, at_m.size_eq))

  at_e : Left la.1 p d.eligible le
  at_e =
      leave-Left la.1 p d.eligible at_a.valid (at_a.has p (at_m.has p h))
        (omega (arith, at_m.size_eq, at_a.size_eq))

  abbrev left : Dist
  left = record d { pipes = le.1; matching = lm.0; active = la.0; eligible = le.0 }

  left-Has : (q : ℕ) → Has d.pipes q → Has le.1 q
  left-Has q hq = at_e.has q (at_a.has q (at_m.has q hq))

  left-IsOrdered : IsOrdered left × (le.0 ≤ index le.1 p)
  left-IsOrdered = (
    record {
      valid = at_e.valid;
      matching_le = omega (arith, at_m.exact, at_a.exact);
      active_le = omega (arith, at_a.exact, at_e.exact);
      eligible_le = omega (arith, at_e.exact, at_m.size_eq, at_a.size_eq, at_e.size_eq);
      settled = λ last. omega (arith, o.settled last, at_a.exact, at_e.exact);
    },
    omega (arith, at_e.exact),
  )

  left-size : size le.1 ≡ size d.pipes
  left-size = omega (arith, at_m.size_eq, at_a.size_eq, at_e.size_eq)

  left-Same : (q : ℕ) → Has d.pipes q → q ≢ p → Same d left q
  left-Same q hq ne = (
    at_e.below q lm.0 in_la ne (omega (arith, at_m.exact, at_a.exact))
        ∙ at_a.below q lm.0 in_lm ne (omega (arith, at_m.exact))
        ∙ at_m.same q hq ne,
    at_e.below q la.0 in_la ne (omega (arith, at_a.exact))
        ∙ at_a.same q in_lm ne
        ∙ at_m.above q d.active hq ne (omega arith),
    at_e.same q in_la ne
        ∙ at_a.above q d.eligible in_lm ne (omega arith)
        ∙ at_m.above q d.eligible hq ne (omega arith),
  )
    where
      in_lm : Has lm.1 q
      in_lm = at_m.has q hq

      in_la : Has la.1 q
      in_la = at_a.has q in_lm

  erased :
      (q n : ℕ) → Has d.pipes q → n ≤ le.0 → ltb (index (erase p le.1) q) n ≡ ltb (index le.1 q) n
  erased q n hq low =
      index-erase_other le.1 p at_e.valid (left-Has p h) q n (left-Has q hq)
        (omega (arith, left-IsOrdered.1)) (omega (arith, left-IsOrdered.0.eligible_le))

  leave_in : (n : ℕ) (a : Array) → index a p < n → leave p n a ≡ (n - 1, swap (index a p) (n - 1) a)
  leave_in n a lt = rw (lt→ltb _ _ lt)

  deactivate-left : index d.pipes p < d.matching → deactivate p d ≡ left
  unfolding deactivate
  deactivate-left lt = sym (λ i. record d {
    pipes = third i;
    matching = (e1 i).0;
    active = (e2 i).0;
    eligible = (e3 i).0;
  })
    where
      e1 : lm ≡ (d.matching - 1, swap (index d.pipes p) (d.matching - 1) d.pipes)
      e1 = leave_in d.matching d.pipes lt

      e2 : la ≡ (d.active - 1, swap (index lm.1 p) (d.active - 1) lm.1)
      e2 = leave_in d.active lm.1 (omega (arith, at_m.exact))

      e3 : le ≡ (d.eligible - 1, swap (index la.1 p) (d.eligible - 1) la.1)
      e3 = leave_in d.eligible la.1 (omega (arith, at_m.exact, at_a.exact))

      place : index la.1 p ≡ d.active - 1
      place = omega (arith, at_m.exact, at_a.exact)

      second :
          la.1
          ≡ swap
              (index (swap (index d.pipes p) (d.matching - 1) d.pipes) p)
              (d.active - 1)
              (swap (index d.pipes p) (d.matching - 1) d.pipes)
      second =
          ap (λ (t : ℕ × Array). t.1) e2
          ∙ ap (λ (t : ℕ × Array). swap (index t.1 p) (d.active - 1) t.1) e1

      third :
          le.1
          ≡ swap (d.active - 1) (d.eligible - 1) (
              swap
                (index (swap (index d.pipes p) (d.matching - 1) d.pipes) p)
                (d.active - 1)
                (swap (index d.pipes p) (d.matching - 1) d.pipes))
      third =
          ap (λ (t : ℕ × Array). t.1) e3
          ∙ ap (λ k. swap k (d.eligible - 1) la.1) place
          ∙ ap (swap (d.active - 1) (d.eligible - 1)) second

  -- Boundaries in order: a matching pipe that takes no message becomes passive and stays in the
  -- array. All other pipes stay matching, active or eligible as they were, and the boundaries stay in
  -- order.
  pub deactivate-Same :
      index d.pipes p < d.matching
      → IsOrdered (deactivate p d)
        × (((deactivate p d).eligible ≤ index (deactivate p d).pipes p)
            × Has (deactivate p d).pipes p)
        × ((q : ℕ) → Has d.pipes q → q ≢ p → Same d (deactivate p d) q)
  deactivate-Same lt =
      subst
        (λ e.
          IsOrdered e
          × ((e.eligible ≤ index e.pipes p) × Has e.pipes p)
          × ((q : ℕ) → Has d.pipes q → q ≢ p → Same d e q))
        (sym (deactivate-left lt)) (left-IsOrdered.0, (left-IsOrdered.1, left-Has p h), left-Same)

  -- Boundaries in order: termination of a pipe of the array makes the array one shorter, keeps the
  -- boundaries in order, and leaves every other pipe in the array, matching, active or eligible as it
  -- was.
  pub pipe_terminated-Same :
      IsOrdered (pipe_terminated p d)
      × (size (pipe_terminated p d).pipes + 1 ≡ size d.pipes)
      × ((q : ℕ)
          → Has d.pipes q
          → q ≢ p
          → Has (pipe_terminated p d).pipes q × Same d (pipe_terminated p d) q)
  unfolding pipe_terminated
  pipe_terminated-Same = (
    record {
      valid = erase-IsValid le.1 p at_e.valid (left-Has p h);
      matching_le = left-IsOrdered.0.matching_le;
      active_le = left-IsOrdered.0.active_le;
      eligible_le =
          omega (
            arith,
            left-IsOrdered.1,
            (left-Has p h).0,
            size-erase le.1 p at_e.valid (left-Has p h),
          );
      settled = left-IsOrdered.0.settled;
    },
    omega (arith, size-erase le.1 p at_e.valid (left-Has p h), left-size),
    λ q hq ne. (
      erase-Has le.1 p at_e.valid (left-Has p h) q (left-Has q hq) ne,
      (
        erased q lm.0 hq (omega (arith, left-IsOrdered.0.matching_le, left-IsOrdered.0.active_le))
            ∙ (left-Same q hq ne).0,
        erased q la.0 hq left-IsOrdered.0.active_le ∙ (left-Same q hq ne).1,
        erased q le.0 hq (omega arith) ∙ (left-Same q hq ne).2,
      ),
    ),
  )

  -- The positions before that of the pipe keep their pipes.
  pub deactivate_below :
      (q m : ℕ)
      → index d.pipes p < d.matching
      → Has d.pipes q
      → q ≢ p
      → m ≤ index d.pipes p
      → ltb (index (deactivate p d).pipes q) m ≡ ltb (index d.pipes q) m
  deactivate_below q m lt hq ne le_p =
      ap (λ (e : Dist). ltb (index e.pipes q) m) (deactivate-left lt)
      ∙ at_e.below q m (at_a.has q (at_m.has q hq)) ne (omega (arith, at_m.exact, at_a.exact))
      ∙ at_a.below q m (at_m.has q hq) ne (omega (arith, at_m.exact))
      ∙ at_m.below q m hq ne le_p

  pub deactivate-Has :
      (q : ℕ) → index d.pipes p < d.matching → Has d.pipes q → Has (deactivate p d).pipes q
  deactivate-Has q lt hq =
      subst (λ (e : Dist). Has e.pipes q) (sym (deactivate-left lt)) (left-Has q hq)

  pub matching-deactivate : (deactivate p d).matching ≡ d.matching - 1
  unfolding deactivate
  matching-deactivate = refl
