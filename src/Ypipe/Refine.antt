-- ===== src/Ypipe/Refine.antt =====
-- How a state of ypipe_t and one of its specification correspond; the writer's operations do what
-- the specification says.
use zmq_cn_comment.Base.{
  ℕ, ◌+◌, ◌≤◌, ◌<◌, ◌≡◌, inl, inr, refl, ap, sym, ◌∙◌, Bool, true, false, List, [], ◌∷◌, ◌++◌, none,
  some, length, init_of, last_of, if◌then◌else◌, ◌==◌, append_assoc, append-nil, length-append,
  Bool-cases, arith,
}
use zmq_cn_comment.Ypipe.{Ypipe, is_at, back, prefetched, prefetch, pop, flush_cas, flush_set}
use zmq_cn_comment.Ypipe
use zmq_cn_comment.Ypipe.Spec.{Spec}
use zmq_cn_comment.Ypipe.Spec

pub itself : (k : ℕ) → (k == k) ≡ true
itself k = ground arith

module _ {ℓ} {T : Type ℓ} where
  -- The positions bound the lists, `_c` is NULL exactly while the reader sleeps, and then it has read
  -- all that was flushed.
  pub record Represents (y : Ypipe T) (s : Spec T) : Type ℓ where
    pub items_eq : y.items ≡ s.readable ++ (s.complete ++ s.partial)
    pub w_eq : y.w ≡ y.front + length s.readable
    pub f_eq : y.f ≡ y.w + length s.complete
    pub c_eq : y.c ≡ (if s.asleep then none else some y.w)
    pub empty : s.asleep ≡ true → s.readable ≡ []
    pub r_in : (k : ℕ) → y.r ≡ some k → (y.front ≤ k) × (k ≤ y.w)

  pub back-Represents :
      (y : Ypipe T) (s : Spec T) → Represents y s → back y ≡ y.f + length s.partial
  back-Represents y s h = omega (
    arith,
    ap length h.items_eq,
    length-append s.readable (s.complete ++ s.partial),
    length-append s.complete s.partial,
    h.w_eq,
    h.f_eq,
  )

  pub write-Represents :
      (v : T) (incomplete : Bool) (y : Ypipe T) (s : Spec T)
      → Represents y s
      → Represents (Ypipe.write v incomplete y) (Spec.write v incomplete s)
  unfolding Ypipe.write
  write-Represents v true y s h = record {
    items_eq = rw (h.items_eq) (
        append_assoc s.readable (s.complete ++ s.partial) (v ∷ [])
        ∙ ap (λ t. s.readable ++ t) (append_assoc s.complete s.partial (v ∷ [])));
    w_eq = h.w_eq;
    f_eq = h.f_eq;
    c_eq = h.c_eq;
    empty = h.empty;
    r_in = h.r_in;
  }
  write-Represents v false y s h = record {
    items_eq = rw (h.items_eq) (
        append_assoc s.readable (s.complete ++ s.partial) (v ∷ [])
        ∙ ap (λ t. s.readable ++ t)
            (append_assoc s.complete s.partial (v ∷ [])
              ∙ sym (append-nil (s.complete ++ (s.partial ++ (v ∷ []))))));
    w_eq = h.w_eq;
    f_eq = omega (
      arith,
      back-Represents y s h,
      h.f_eq,
      length-append s.complete (s.partial ++ (v ∷ [])),
      length-append s.partial (v ∷ []),
    );
    c_eq = h.c_eq;
    empty = h.empty;
    r_in = h.r_in;
  }

  -- The same answer, and states that correspond.
  abbrev pub Agrees {ℓ'} : {A : Type ℓ'} → A × Ypipe T → A × Spec T → Type (ℓ ⊔ ℓ')
  Agrees r t = (r.0 ≡ t.0) × Represents r.1 t.1

  last_append :
      (xs ps : List T)
      → 0 < length ps
      → (last_of (xs ++ ps) ≡ last_of ps) × (init_of (xs ++ ps) ≡ xs ++ init_of ps)
  last_append [] ps pos = (refl, refl)
  last_append (x ∷ []) [] pos = absurd (omega arith)
  last_append (x ∷ []) (p ∷ ps) pos = (refl, refl)
  last_append (x ∷ x' ∷ xs) ps pos =
      let ih = last_append (x' ∷ xs) ps pos in (ih.0, ap (λ t. x ∷ t) ih.1)

  pub nothing_left : (xs : List T) → length xs ≡ 0 → xs ≡ []
  nothing_left [] e = refl
  nothing_left (x ∷ xs) e = absurd (omega arith)

  -- Only the incomplete items are others.
  with_partial :
      (y : Ypipe T) (s : Spec T)
      → Represents y s
      → (items partial : List T) → items ≡ s.readable ++ (s.complete ++ partial)
      → Represents (record y { items = items }) (record s { partial = partial })
  with_partial y s h items partial e = record {
    items_eq = e;
    w_eq = h.w_eq;
    f_eq = h.f_eq;
    c_eq = h.c_eq;
    empty = h.empty;
    r_in = h.r_in;
  }

  pub unwrite-Agrees :
      (y : Ypipe T) (s : Spec T) → Represents y s → Agrees (Ypipe.unwrite y) (Spec.unwrite s)
  unfolding Ypipe.unwrite
  unwrite-Agrees y s h = elim (Bool-cases (y.f == back y)) [
    | inl done ↦
        let none_left : s.partial ≡ [] =
          nothing_left s.partial (ground (arith, back-Represents y s h)) in
        rw done (
          ap last_of (sym none_left),
          with_partial y s h y.items (init_of s.partial) (
              h.items_eq
              ∙ ap (λ t. s.readable ++ (s.complete ++ t)) (none_left ∙ ap init_of (sym none_left))),
        )
    | inr more ↦
        let pos : 0 < length s.partial = ground (arith, back-Represents y s h) in
        let inner = last_append s.complete s.partial pos in
        let outer =
          last_append s.readable (s.complete ++ s.partial)
            (omega (arith, length-append s.complete s.partial)) in
        rw more (
          ap last_of h.items_eq ∙ outer.0 ∙ inner.0,
          with_partial y s h (init_of y.items) (init_of s.partial)
              (ap init_of h.items_eq ∙ outer.1 ∙ ap (λ t. s.readable ++ t) inner.1),
        )
  ]

  -- After a flush that found something new.
  published-Represents :
      (y : Ypipe T) (s : Spec T)
      → Represents y s
      → Represents
          (record y { w = y.f; c = some y.f })
          (record {
            readable = s.readable ++ s.complete;
            complete = [];
            partial = s.partial;
            asleep = false;
          })
  published-Represents y s h = record {
    items_eq = h.items_eq ∙ sym (append_assoc s.readable s.complete s.partial);
    w_eq = omega (arith, h.w_eq, h.f_eq, length-append s.readable s.complete);
    f_eq = omega arith;
    c_eq = refl;
    empty = λ e. absurd cc;
    r_in = λ k e. ground (arith, h.r_in k e, h.f_eq);
  }

  pub c_none : (y : Ypipe T) (s : Spec T) → Represents y s → s.asleep ≡ true → y.c ≡ none
  c_none y s h a = h.c_eq ∙ rw a refl

  pub c_some : (y : Ypipe T) (s : Spec T) → Represents y s → s.asleep ≡ false → y.c ≡ some y.w
  c_some y s h a = h.c_eq ∙ rw a refl

  pub flush-Agrees :
      (y : Ypipe T) (s : Spec T) → Represents y s → Agrees (Ypipe.flush y) (Spec.flush s)
  unfolding Ypipe.flush flush_cas flush_set
  flush-Agrees y s h = elim (Bool-cases (length s.complete == 0)) [
    | inl done ↦
        let same : (y.w == y.f) ≡ true = ground (arith, h.f_eq) in rw (done, same) (refl, h)
    | inr new ↦
        let differ : (y.w == y.f) ≡ false = ground (arith, h.f_eq) in
        rw (new, differ)
          (elim (Bool-cases s.asleep) [
            | inl a ↦
                let asleep : flush_cas y ≡ (true, y) = rw (c_none y s h a) refl in
                rw (a, asleep) (refl, published-Represents y s h)
            | inr a ↦
                let awake : flush_cas y ≡ (false, record y { c = some y.f }) =
                  rw (c_some y s h a, itself y.w) refl in
                rw (a, awake) (refl, published-Represents y s h)
          ])
  ]
