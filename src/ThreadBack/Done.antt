-- ===== src/ThreadBack/Done.antt =====
-- Which tasks `hdlDoneFut` of thread/ThreadBack.cpp handles.
use domino_library.Prelude.{
  ℕ, zero, suc, ◌+◌, ◌≡◌, ◌≤◌, ◌⊎◌, refl, sym, ◌∙◌, ap, inl, inr, Bool, true, List, [], ◌∷◌, ◌++◌,
  if◌then◌else◌, length, arith, Option-cases,
}
use domino_library.ThreadBack.{
  FutBackFn, ThreadBack, swap_erase_at, find_ready, done_loop, hdl_done_fut,
}
use domino_library.ThreadBack.Found.{
  count, count-append, is_ready, idle_before, find_ready-some, find_ready-none,
}

module _ {ℓ κ} {B : Type ℓ} {R : Type κ} where
  module _ (starts : FutBackFn B R → List (FutBackFn B R)) where
    -- The tasks that the back functions of these tasks start
    unfoldable pub started : List (FutBackFn B R) → List (FutBackFn B R)
    started [] = []
    started (task ∷ tasks) = starts task ++ started tasks

    record Handled (left : ℕ) (futs : List (FutBackFn B R))
        (r : List (FutBackFn B R) × List (FutBackFn B R)) : Type (ℓ ⊔ κ) where
      kept :
          (p : FutBackFn B R → Bool)
          → count p futs + count p (started r.1) ≡ count p r.1 + count p r.0
      all_ready : count is_ready r.1 ≡ length r.1
      bounded : length r.1 ≤ left
      complete : (length r.1 ≡ left) ⊎ (count is_ready r.0 ≡ 0)

    done_loop-Handled :
        (left i : ℕ) (futs : List (FutBackFn B R))
        → idle_before i futs ≡ true
        → Handled left futs (done_loop starts left i futs)
    unfolding done_loop started count is_ready
    done_loop-Handled zero i futs idle = record {
      kept = λ p. omega arith;
      all_ready = refl;
      bounded = omega arith;
      complete = inl refl;
    }
    done_loop-Handled (suc left) i futs idle = elim (Option-cases (find_ready i futs)) [
      | inl nothing ↦
          rw (done_loop, nothing)
            (record {
              kept = λ p. omega arith;
              all_ready = refl;
              bounded = omega arith;
              complete = inr (find_ready-none i futs nothing idle);
            })
      | inr ((j, task), found) ↦
          let f = find_ready-some i futs j task found idle in
          let next = swap_erase_at j futs ++ starts task in
          let rest = done_loop-Handled left j next (f.before (starts task)) in
          let tasks = (done_loop starts left j next).1 in
          rw (done_loop, found)
            (record {
              kept = λ p. omega (
                arith,
                rest.kept p,
                f.counted p,
                count-append p (swap_erase_at j futs) (starts task),
                count-append p (starts task) (started tasks),
              );
              all_ready =
                  let one : ◌≡◌ {A = ℕ} (if task.ready then 1 else 0) 1 = rw f.was_ready refl in
                  omega (arith, one, rest.all_ready);
              bounded = omega (arith, rest.bounded);
              complete = elim rest.complete [
                | inl full ↦ inl (ap suc full)
                | inr no_more ↦ inr no_more
              ];
            })
    ]

    -- `hdlDoneFut` in the main thread, whatever tasks the back functions start: no task is lost and
    -- none handled twice, each task handled was ready, the count of done tasks goes down by the
    -- number of tasks handled, and if it does not reach 0 no ready task is left.
    pub hdl_done_fut_lem :
        (tb tb' : ThreadBack B R) (handled : List (FutBackFn B R)) (p : FutBackFn B R → Bool)
        → hdl_done_fut starts tb true ≡ (tb', handled)
        → (count p tb.futs + count p (started handled) ≡ count p handled + count p tb'.futs)
          × (count is_ready handled ≡ length handled)
          × (length handled + tb'.n_done ≡ tb.n_done)
          × ((tb'.n_done ≡ 0) ⊎ (count is_ready tb'.futs ≡ 0))
    unfolding hdl_done_fut idle_before
    hdl_done_fut_lem tb tb' handled p e =
        let r = done_loop starts tb.n_done 0 tb.futs in
        let h = done_loop-Handled tb.n_done 0 tb.futs refl in
        let left = ap (λ x. x.0.futs) e in
        let did = ap (λ x. x.1) e in
        let n = ap (λ x. x.0.n_done) e in
        let len = ap length did in
        (
          omega (
            arith,
            h.kept p,
            ap (count p) left,
            ap (λ x. count p (started x)) did,
            ap (count p) did,
          ),
          sym (ap (count is_ready) did) ∙ h.all_ready ∙ len,
          omega (arith, n, len, h.bounded),
          elim h.complete [
            | inl full ↦ inl (omega (arith, n, full))
            | inr no_more ↦ inr (sym (ap (count is_ready) left) ∙ no_more)
          ],
        )
