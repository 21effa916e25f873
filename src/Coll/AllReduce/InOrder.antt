-- ===== src/Coll/AllReduce/InOrder.antt =====
-- The result of an allreduce, cpp/src/coll/allreduce.cpp: every rank gets the same, and for an
-- associative operator it is the reduction in the order of the ranks.
use rapidsmpf.Prelude.{
  ℕ, zero, suc, ◌+◌, ◌-◌, ◌*◌, ◌^◌, ◌≤◌, ◌<◌, ◌≡◌, refl, ap, sym, ◌∙◌, subst, ltb, if◌then◌else◌,
  List, [], Option, some, arith, Bool, true, false, Bool-cases, inl, inr, ltb→lt,
}
use rapidsmpf.Prelude.Bits.{bit_floor_lem, bit_floor}
use rapidsmpf.Prelude.Result.{ok, ok-injective}
use rapidsmpf.Memory.Types.{MemoryType}
use rapidsmpf.Coll.AllReduce.{finished, create}
use rapidsmpf.Coll.AllReduce.Value.{combined, base, AllCarry}
use rapidsmpf.Coll.AllReduce.Cluster.{Cluster, Move, run}
use rapidsmpf.Coll.AllReduce.Agreement.{Agrees, run-Agrees, finished-result, create-Settled}

twice : (b w s : ℕ) → s ≡ 2 * w → 2 * b * w ≡ b * s
twice zero w s e = omega arith
twice (suc b) w s e = grind (arith, twice b w s e)

module _ {A : Type 0} (op : A → A → A) (x : ℕ → A) where
  -- The contributions of m + 1 ranks from rank `lo` on, from left to right.
  unfoldable pub reduce_from : ℕ → ℕ → A
  reduce_from lo zero = x lo
  reduce_from lo (suc m) = op (reduce_from lo m) (x (lo + suc m))

  abbrev Assoc : Type 0
  Assoc = (a b c : A) → op (op a b) c ≡ op a (op b c)

  reduce_from-join :
      Assoc
      → (lo m j : ℕ)
      → op (reduce_from lo m) (reduce_from (lo + suc m) j) ≡ reduce_from lo (m + suc j)
  unfolding reduce_from
  reduce_from-join assoc lo m zero = let e : m + 1 ≡ suc m = omega arith in rw e refl
  reduce_from-join assoc lo m (suc j) =
      let e : m + suc (suc j) ≡ suc (m + suc j) = omega arith in
      let f : lo + suc m + suc j ≡ lo + suc (m + suc j) = omega arith in
      rw e (
        sym (assoc _ _ _)
        ∙ (ap (λ v. op v (x (lo + suc m + suc j))) (reduce_from-join assoc lo m j)
            ∙ ap (λ i. op (reduce_from lo (m + suc j)) (x i)) f))

  -- A value that reduces the ranks from `lo` up to `hi`.
  abbrev Spans : A → ℕ → ℕ → Type 0
  Spans v lo hi = (m : ℕ) × (hi ≡ lo + suc m) × (v ≡ reduce_from lo m)

  Spans-op :
      Assoc → (u v : A) (lo mid hi : ℕ) → Spans u lo mid → Spans v mid hi → Spans (op u v) lo hi
  Spans-op assoc u v lo mid hi (m, e, p) (j, f, q) = (
    m + suc j,
    omega arith,
    ap (λ w. op w v) p
        ∙ (ap (op (reduce_from lo m)) (q ∙ ap (λ i. reduce_from i j) e)
            ∙ reduce_from-join assoc lo m j),
  )

  -- The first rank that a logical rank stands for.
  abbrev first_rank : ℕ → ℕ → ℕ
  first_rank rem l = if ltb l rem then 2 * l else l + rem

  base-Spans : (rem l : ℕ) → Spans (base op x rem l) (first_rank rem l) (first_rank rem (l + 1))
  unfolding base reduce_from
  base-Spans rem l = elim (Bool-cases (ltb l rem)) [
    | inl low ↦ rw low (1, pair l (ltb→lt l rem low), ap (λ i. op (x (2 * l)) (x i)) (omega arith))
    | inr high ↦ rw high (0, alone l high, refl)
  ]
    where
      pair : (l : ℕ) → l < rem → first_rank rem (l + 1) ≡ 2 * l + 2
      pair l low = ground arith

      alone : (l : ℕ) → ltb l rem ≡ false → first_rank rem (l + 1) ≡ l + rem + 1
      alone l high = ground arith

  combined-Spans :
      Assoc
      → (rem k b : ℕ)
      → Spans
          (combined op x rem k b)
          (first_rank rem (b * 2 ^ k))
          (first_rank rem ((b + 1) * 2 ^ k))
  unfolding combined
  combined-Spans assoc rem zero b =
      let e : b * 2 ^ 0 ≡ b = omega arith in
      let f : (b + 1) * 2 ^ 0 ≡ b + 1 = omega arith in rw (e, f) (base-Spans rem b)
  combined-Spans assoc rem (suc k) b =
      let lo : 2 * b * 2 ^ k ≡ b * 2 ^ suc k = twice b (2 ^ k) (2 ^ suc k) (omega arith) in
      let mid : (2 * b + 1 + 1) * 2 ^ k ≡ (b + 1) * 2 ^ suc k =
        (let t = twice (b + 1) (2 ^ k) (2 ^ suc k) (omega arith) in
          let u : 2 * b + 1 + 1 ≡ 2 * (b + 1) = omega arith in rw u t) in
      Spans-op assoc _ _ _ (first_rank rem ((2 * b + 1) * 2 ^ k)) _
        (subst
          (λ i.
            Spans (combined op x rem k (2 * b)) (first_rank rem i)
              (first_rank rem ((2 * b + 1) * 2 ^ k)))
          lo (combined-Spans assoc rem k (2 * b)))
        (subst
          (λ i.
            Spans (combined op x rem k (2 * b + 1)) (first_rank rem ((2 * b + 1) * 2 ^ k))
              (first_rank rem i))
          mid (combined-Spans assoc rem k (2 * b + 1)))

  -- The last stage covers all ranks.
  combined-in_order :
      Assoc
      → (rem stages m : ℕ) → rem ≤ 2 ^ stages
      → suc m ≡ 2 ^ stages + rem
      → combined op x rem stages 0 ≡ reduce_from 0 m
  combined-in_order assoc rem stages m less sum =
      let (j, e, p) = combined-Spans assoc rem stages 0 in
      let top : first_rank rem (1 * 2 ^ stages) ≡ suc m = last rem (2 ^ stages) less (sym sum) in
      let bottom : first_rank rem (0 * 2 ^ stages) ≡ 0 = zeroth rem (2 ^ stages) in
      let same : j ≡ m = omega (arith, e, top, bottom) in
      p ∙ (ap (λ i. reduce_from i j) bottom ∙ ap (reduce_from 0) same)
    where
      last : (rem w : ℕ) {n : ℕ} → rem ≤ w → w + rem ≡ n → first_rank rem (1 * w) ≡ n
      last rem w h e = ground arith

      zeroth : (rem w : ℕ) → first_rank rem (0 * w) ≡ 0
      zeroth rem w = ground arith

-- The ranks of an allreduce after the constructor, each with its contribution.
module _ {A : Type 0} (op : A → A → A) (x : ℕ → A) (callback : Bool) (n : ℕ) (some_rank : 0 < n)
    (few : n < 2 ^ 31) (size : A → ℕ) (mem_type : A → MemoryType) (output : ℕ → Option A)
    (c : Cluster A)
    (created : (r : ℕ)
      → r < n
      → create size mem_type r n (some (x r)) (output r) callback ≡ ok (c.ranks r))
    (no_mail : c.mail ≡ []) where
  -- The logarithm of the ranks that exchange.
  stages_lem : (k : ℕ) × (k < 32) × (bit_floor 32 n ≡ 2 ^ k) × (2 ^ k ≤ n) × (n < 2 ^ suc k)
  stages_lem = bit_floor_lem 32 n some_rank (omega arith)

  abbrev stages : ℕ
  stages = stages_lem.0

  abbrev rest : ℕ
  rest = n - 2 ^ stages

  starts : Agrees op x rest stages callback n c
  starts = record {
    ranks_settled = λ r lt.
        create-Settled op x rest stages callback n size mem_type r (output r) (c.ranks r)
          stages_lem.2 (omega (arith, stages_lem.3)) lt (created r lt);
    mail_carries = subst (AllCarry op x rest stages) (sym no_mail) tt;
  }

  after :
      (ms : List Move)
      → (c' : Cluster A) × (run op n c ms ≡ ok c') × Agrees op x rest stages callback n c'
  after ms =
      run-Agrees op x rest stages callback n c ms stages_lem.1
        (omega (arith, stages_lem.3, stages_lem.4)) starts

  -- Whatever the schedule of turns, completed sends and arrivals, no rank of an allreduce throws: no
  -- null buffer or future is used, and every run from the constructors leads to a state.
  pub run-returns : (ms : List Move) → (c' : Cluster A) × (run op n c ms ≡ ok c')
  run-returns ms = let (c', e, g) = after ms in (c', e)

  result_at :
      (ms : List Move) (d : Cluster A) (r : ℕ)
      → run op n c ms ≡ ok d
      → r < n
      → finished (d.ranks r) ≡ true
      → ((d.ranks r).out_buffer ≡ some (combined op x rest stages 0))
        × ((d.ranks r).callback_calls ≡ (if callback then 1 else 0))
  result_at ms d r e lt f =
      let (c', e', g) = after ms in
      let same : c' ≡ d = ok-injective (sym e' ∙ e) in
      let h = subst (Agrees op x rest stages callback n) same g in
      finished-result op x rest stages callback n r (d.ranks r) (h.ranks_settled r lt) f

  -- Whatever the operator, any two ranks that have finished hold the same result, also in different
  -- schedules.
  pub finished-agree :
      (ms ms' : List Move) (d d' : Cluster A) (r r' : ℕ)
      → run op n c ms ≡ ok d
      → run op n c ms' ≡ ok d'
      → r < n
      → r' < n
      → finished (d.ranks r) ≡ true
      → finished (d'.ranks r') ≡ true
      → (d.ranks r).out_buffer ≡ (d'.ranks r').out_buffer
  finished-agree ms ms' d d' r r' e e' lt lt' f f' =
      (result_at ms d r e lt f).0 ∙ sym (result_at ms' d' r' e' lt' f').0

  -- For an associative operator, a rank that has finished holds the contributions of all ranks,
  -- reduced in the order of the ranks, and its callback, if it has one, was called once.
  pub finished-in_order :
      Assoc op x
      → (ms : List Move) (d : Cluster A) (r : ℕ) → run op n c ms ≡ ok d
      → r < n
      → finished (d.ranks r) ≡ true
      → ((d.ranks r).out_buffer ≡ some (reduce_from op x 0 (n - 1)))
        × ((d.ranks r).callback_calls ≡ (if callback then 1 else 0))
  finished-in_order assoc ms d r e lt f =
      let (value, calls) = result_at ms d r e lt f in
      let whole =
        combined-in_order op x assoc rest stages (n - 1) (omega (arith, stages_lem.3, stages_lem.4))
          (omega (arith, stages_lem.3)) in
      (value ∙ ap some whole, calls)
