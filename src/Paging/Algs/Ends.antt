-- ===== src/Paging/Algs/Ends.antt =====
-- rand.c and opt.c: the algorithms that always give a frame.
use operating_system_unix_li.Base.{
  ℕ, suc, ◌%◌, ◌≤◌, ◌≡◌, refl, ap, false, List, [], ◌∷◌, length, get-length, map, arith, ◌==◌,
}
use operating_system_unix_li.Paging.Machine.{Machine}
use operating_system_unix_li.Paging.Policies.{rand_evict, count_frame}
use operating_system_unix_li.Paging.Policies.Farthest.{opt_evict-farthest}
use operating_system_unix_li.Paging.PageTable.Total.{IsTotal, get-inside}
use operating_system_unix_li.Paging.Algs.{Alg, algs, finish}
use operating_system_unix_li.Paging.Algs.Own.{algs-LeavesPages, opt_ref_at}

-- The trace list has a node for each reference that is left.
abbrev pub Lasts : Alg → ℕ → List ℕ → Type 0
Lasts Alg.opt n vs = n ≤ length vs
Lasts alg n vs = Unit

at_least_one : (n : ℕ) (vs : List ℕ) → suc n ≤ length vs → (v : ℕ) × (ws : List ℕ) × (vs ≡ v ∷ ws)
at_least_one n [] h = absurd (omega (arith, h))
at_least_one n (v ∷ ws) h = (v, ws, refl)

pub rand-IsTotal : (random : Machine → ℕ) → IsTotal (algs random Alg.rand) (Lasts Alg.rand)
unfolding algs rand_evict
rand-IsTotal random = record {
  leaves = algs-LeavesPages random Alg.rand;
  ref_fcn = λ n p m goes. (m, refl, tt);
  evict_fcn = λ n m goes inside.
      let some_frame : length m.coremap == 0 ≡ false = ground (arith, inside) in
      (
        random m % length m.coremap,
        m,
        simp (rand_evict, some_frame) refl,
        omega (arith, inside),
        tt,
      );
}

pub opt-IsTotal : (random : Machine → ℕ) → IsTotal (algs random Alg.opt) (Lasts Alg.opt)
unfolding algs
opt-IsTotal random = record {
  leaves = algs-LeavesPages random Alg.opt;
  ref_fcn = λ n p m goes.
      let (v, vs, now) = at_least_one n m.curr goes in
      let left : n ≤ length vs = omega (arith, goes, ap length now) in
      (record m { curr = vs }, ap finish (opt_ref_at p v vs m now), left);
  evict_fcn = λ n m goes inside.
      let (v, vs, now) = at_least_one n m.curr goes in
      let (g, at) = get-inside m.coremap 0 inside in
      let (j, f, out, here, sooner) = opt_evict-farthest m v vs 0 g now at in
      (
        j,
        record m { coremap = map (count_frame vs) m.coremap },
        out,
        get-length m.coremap j f here,
        goes,
      );
}
