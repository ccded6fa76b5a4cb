-- ===== src/Executor/Classes/Agreement.antt =====
-- The class test without a phase, `class_decide` of src/executor.rs, and the one with it.
use perex.Base.{
  ℕ, suc, ◌+◌, ◌-◌, ◌==◌, ltb, min, ◌<◌, ◌≡◌, refl, arith, [], Option, none, some, Bool, true,
  false,
}
use perex.Base.{Bool-cases, inl, inr, Run-cases, Run, ret, panic, stuck, ltb→lt}
use perex.Unicode.Casefold.{contains}
use perex.Executor.State.{Phase, ClassUse, class, ClassScan}
use perex.Executor.Machine.{Vm}
use perex.Executor.Monad.{Result, ok, fails, ◌>>◌}
use perex.Executor.Classes.{
  search_range, scan_ranges, class_batch, class_decide, begin_class, class_step, class_result,
  search_values, is_negated, width_of, result_phase,
}
use perex.Executor.Classes.Decide.{
  phased, all_phased, four, search_range-phased, class_batch-phased,
}

-- What the phase leaves, from what the test without it said: the same answer on the same budget, the
-- same error, or the same panic.
abbrev pub Agrees :
    ClassUse → Vm → Run (Result (Option Bool) × Vm) → Run (Result (Unit {0}) × Vm) → Type 0
Agrees context vm (ret (ok (some found), after)) stepped =
    stepped ≡ ret (ok tt, phased (result_phase found context) after)
Agrees context vm (ret (ok none, after)) stepped = after ≡ vm
Agrees context vm (ret (fails e, after)) stepped =
    (p : Phase) × (stepped ≡ ret (fails e, phased p after))
Agrees context vm panic stepped = stepped ≡ panic
Agrees context vm stuck stepped = stepped ≡ stuck

scan_of : ℕ → ℕ → ℕ → ClassUse → Bool → ClassScan
scan_of a b c context sorted = record {
  index = a;
  end = a + width_of b;
  negated = is_negated b;
  sorted = sorted;
  values = four c;
  context = context;
}

search_values-four :
    (index end c : ℕ) (p : Phase) (vm : Vm)
    → search_values index end [] (four c) (phased p vm)
      ≡ all_phased p (search_range (suc (end - index)) index end c vm)
unfolding search_values contains
search_values-four index end c p vm =
    let q : (c == c) ≡ true = ground arith in
    let h : search_range (suc (end - index)) index end c (phased p vm)
        ≡ all_phased p (search_range (suc (end - index)) index end c vm) =
      search_range-phased (suc (end - index)) index end c p vm in
    elim (Run-cases (search_range (suc (end - index)) index end c vm)) [
      | inl ((ok true, after), r) ↦ rw (h, r) refl
      | inl ((ok false, after), r) ↦ rw (h, r, q) refl
      | inl ((fails e, after), r) ↦ rw (h, r) refl
      | inr (inl r) ↦ rw (h, r) refl
      | inr (inr r) ↦ rw (h, r) refl
    ]

-- `class_decide` and the resumable phase that it saves (`begin_class` and one `class_step`, without
-- folding, with the same quantum left) agree: where the first gives an answer, the second leaves the
-- phase of that answer and the same budget; errors and panics are the same; where the first gives no
-- answer, it has done nothing.
pub class_decide-Agrees :
    (a b c available : ℕ) (context : ClassUse) (sorted : Bool) (vm : Vm)
    → Agrees context vm
        (class_decide a b c sorted available vm)
        ((begin_class a b c context false sorted >> class_step available) vm)
unfolding class_decide begin_class class_step class_result scan_of
class_decide-Agrees a b c available context true vm =
    elim (Bool-cases (ltb (a + width_of b) 0x1_0000_0000)) [
      | inr t ↦ rw t refl
      | inl t ↦ elim (Bool-cases (available == 0)) [
        | inl z ↦ rw (t, z) refl
        | inr z ↦
            let p : Phase = class (scan_of a b c context true) in
            let q : search_values a (a + width_of b) [] (four c) (phased p vm)
                ≡ all_phased p (search_range (suc (a + width_of b - a)) a (a + width_of b) c vm) =
              search_values-four a (a + width_of b) c p vm in
            elim (Run-cases (search_range (suc (a + width_of b - a)) a (a + width_of b) c vm)) [
              | inl ((ok found, after), r) ↦ rw (t, z, q, r) refl
              | inl ((fails e, after), r) ↦ rw (t, z, q, r) (p, refl)
              | inr (inl r) ↦ rw (t, z, q, r) refl
              | inr (inr r) ↦ rw (t, z, q, r) refl
            ]
      ]
    ]
class_decide-Agrees a b c available context false vm =
    elim (Bool-cases (ltb (a + width_of b) 0x1_0000_0000)) [
      | inr t ↦ rw t refl
      | inl t ↦ elim (Bool-cases (ltb (min available 256) (a + width_of b - a))) [
        | inl z ↦ rw (t, z) refl
        | inr z ↦
            let p : Phase = class (scan_of a b c context false) in
            let l : a + width_of b < 0x1_0000_0000 = ltb→lt (a + width_of b) 0x1_0000_0000 t in
            let stop : min (a + width_of b) (min 0xffff_ffff (a + min available 256))
                ≡ a + width_of b =
              ground arith in
            let same : (a + width_of b == a + width_of b) ≡ true = ground arith in
            let q : class_batch (a + width_of b - a) a (four c) (phased p vm)
                ≡ all_phased p (scan_ranges (a + width_of b - a) a c vm) =
              class_batch-phased (a + width_of b - a) a c p vm in
            elim (Run-cases (scan_ranges (a + width_of b - a) a c vm)) [
              | inl ((ok true, after), r) ↦ rw (t, z, stop, q, r) refl
              | inl ((ok false, after), r) ↦ rw (t, z, stop, q, r, same) refl
              | inl ((fails e, after), r) ↦ rw (t, z, stop, q, r) (p, refl)
              | inr (inl r) ↦ rw (t, z, stop, q, r) refl
              | inr (inr r) ↦ rw (t, z, stop, q, r) refl
            ]
      ]
    ]
