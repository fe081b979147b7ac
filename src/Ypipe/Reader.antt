-- ===== src/Ypipe/Reader.antt =====
-- The reader's operations of ypipe_t do what the specification says.
use zmq_cn_comment.Base.{
  ℕ, ◌+◌, ◌<◌, ◌≡◌, inl, inr, refl, ap, ◌∙◌, true, false, not, List, [], ◌∷◌, ◌++◌, some, length,
  get_elem?, drop, ◌==◌, Bool-cases, Option-cases, arith,
}
use zmq_cn_comment.Ypipe.{Ypipe, is_at, back, prefetched, prefetch, pop, flush_cas, flush_set}
use zmq_cn_comment.Ypipe
use zmq_cn_comment.Ypipe.Spec.{Spec}
use zmq_cn_comment.Ypipe.Spec
use zmq_cn_comment.Ypipe.Refine.{Represents, Agrees, nothing_left, c_none, c_some}

module _ {ℓ} {T : Type ℓ} where
  -- A pointer to the front is not prefetched.
  not_prefetched : (y : Ypipe T) → ((k : ℕ) → y.r ≡ some k → k ≡ y.front) → prefetched y ≡ false
  not_prefetched y h = elim (Option-cases y.r) [
    | inl e ↦ rw e refl
    | inr (k, e) ↦ let here : (k == y.front) ≡ true = ground (arith, h k e) in rw (e, here) refl
  ]

  -- The reader finds nothing, and sleeps.
  told_nothing :
      (y : Ypipe T) (s : Spec T)
      → Represents y s
      → length s.readable ≡ 0
      → Agrees (prefetched (prefetch y), prefetch y) (false, record s { asleep = true })
  told_nothing y s h e = elim (Bool-cases s.asleep) [
    | inl a ↦ rw (c_none y s h a) (
      refl,
      record {
        items_eq = h.items_eq;
        w_eq = h.w_eq;
        f_eq = h.f_eq;
        c_eq = refl;
        empty = λ _. nothing_left s.readable e;
        r_in = λ k none_some. absurd cc;
      },
    )
    | inr a ↦
        let here : (y.w == y.front) ≡ true = ground (arith, h.w_eq) in
        rw (c_some y s h a, here)
          (
            refl,
            record {
              items_eq = h.items_eq;
              w_eq = h.w_eq;
              f_eq = h.f_eq;
              c_eq = refl;
              empty = λ _. nothing_left s.readable e;
              r_in = λ k at_w. ground (arith, h.w_eq);
            },
          )
  ]

  check_read_none :
      (y : Ypipe T) (s : Spec T)
      → Represents y s
      → length s.readable ≡ 0
      → Agrees (Ypipe.check_read y) (false, record s { asleep = true })
  unfolding Ypipe.check_read
  check_read_none y s h none_left =
      let idle : prefetched y ≡ false =
        not_prefetched y (λ k e. ground (arith, h.r_in k e, h.w_eq)) in
      rw idle (told_nothing y s h none_left)

  check_read_some :
      (y : Ypipe T) (s : Spec T)
      → Represents y s
      → 0 < length s.readable
      → Agrees (Ypipe.check_read y) (true, s)
  unfolding Ypipe.check_read
  check_read_some y s h some_left = elim (Bool-cases s.asleep) [
    | inl a ↦ absurd (omega (arith, ap length (h.empty a)))
    | inr a ↦ elim (Bool-cases (prefetched y)) [
      | inl here ↦ rw here (refl, h)
      | inr away ↦
          let apart : (y.w == y.front) ≡ false = ground (arith, h.w_eq) in
          rw (away, c_some y s h a, apart)
            (
              refl,
              record {
                items_eq = h.items_eq;
                w_eq = h.w_eq;
                f_eq = h.f_eq;
                c_eq = rw a refl;
                empty = h.empty;
                r_in = λ k e. ground (arith, h.w_eq);
              },
            )
    ]
  ]

  pub check_read-Agrees :
      (y : Ypipe T) (s : Spec T) → Represents y s → Agrees (Ypipe.check_read y) (Spec.check_read s)
  check_read-Agrees y s h = elim (Bool-cases (length s.readable == 0)) [
    | inl e ↦ rw e (check_read_none y s h (ground arith))
    | inr e ↦ rw e (check_read_some y s h (ground arith))
  ]

  prefetched_past :
      (y : Ypipe T) (k : ℕ) → prefetched y ≡ true → y.r ≡ some k → (k == y.front) ≡ false
  prefetched_past y k ready e =
      let here : not (k == y.front) ≡ true = rw⁻¹ ready (rw e refl) in ground arith

  first_of :
      (xs ys : List T)
      → 0 < length xs
      → (get_elem? (xs ++ ys) 0 ≡ get_elem? xs 0)
        × (drop 1 (xs ++ ys) ≡ drop 1 xs ++ ys)
        × (length (drop 1 xs) + 1 ≡ length xs)
  first_of [] ys pos = absurd (omega arith)
  first_of (x ∷ xs) ys pos = (refl, refl, omega arith)

  check_read_prefetched :
      (y : Ypipe T) → (Ypipe.check_read y).0 ≡ true → prefetched (Ypipe.check_read y).1 ≡ true
  unfolding Ypipe.check_read
  check_read_prefetched y e = elim (Bool-cases (prefetched y)) [
    | inl here ↦ rw here here
    | inr away ↦ rw away (rw away at e)
  ]

  -- What is prefetched is there to read.
  pop-Represents :
      (y : Ypipe T) (s : Spec T)
      → Represents y s
      → prefetched y ≡ true
      → 0 < length s.readable
      → (get_elem? y.items 0 ≡ get_elem? s.readable 0)
        × Represents (pop y) (record s { readable = drop 1 s.readable })
  pop-Represents y s h ready pos =
      let split = first_of s.readable (s.complete ++ s.partial) pos in
      (
        ap (λ t. get_elem? t 0) h.items_eq ∙ split.0,
        record {
          items_eq = ap (drop 1) h.items_eq ∙ split.1;
          w_eq = omega (arith, h.w_eq, split.2);
          f_eq = h.f_eq;
          c_eq = h.c_eq;
          empty = λ a. ap (drop 1) (h.empty a);
          r_in = λ k e. (ground (arith, h.r_in k e, prefetched_past y k ready e), (h.r_in k e).1);
        },
      )

  pub read-Agrees :
      (y : Ypipe T) (s : Spec T) → Represents y s → Agrees (Ypipe.read y) (Spec.read s)
  unfolding Ypipe.read
  read-Agrees y s h = elim (Bool-cases (length s.readable == 0)) [
    | inl e ↦ let found = check_read_none y s h (ground arith) in rw (e, found.0) (refl, found.1)
    | inr e ↦
        let found = check_read_some y s h (ground arith) in
        rw (e, found.0)
          (pop-Represents (Ypipe.check_read y).1 s found.1 (check_read_prefetched y found.0)
            (ground arith))
  ]
