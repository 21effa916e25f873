-- ===== src/Coll/AllReduce/Value.antt =====
-- The reduction that an allreduce computes, cpp/src/coll/allreduce.cpp: what a block of ranks holds
-- after each stage, for any operator, and what each message from one rank to another carries.
use rapidsmpf.Prelude.{
  ℕ, zero, suc, ◌+◌, ◌-◌, ◌*◌, ◌%◌, ◌^◌, ◌<◌, ◌≡◌, refl, ap, sym, ◌∙◌, subst, ltb, if◌then◌else◌,
  List, [], ◌∷◌, some, arith,
}
use rapidsmpf.Coll.AllReduce.{Message, stage_rank, logical_rank_of}
use rapidsmpf.Coll.AllReduce.Partners.{flip, block, flip-flip, flip-injective, stage_rank-injective}

module _ {ℓ} {A : Type ℓ} (op : A → A → A) (x : ℕ → A) (rem : ℕ) where
  -- What a logical rank holds before the first stage.
  unfoldable pub base : ℕ → A
  base l = if ltb l rem then op (x (2 * l)) (x (2 * l + 1)) else x (l + rem)

  -- What every rank of a block holds after some stages.
  unfoldable pub combined : ℕ → ℕ → A
  combined zero b = base b
  combined (suc k) b = op (combined k (2 * b)) (combined k (2 * b + 1))

  -- What a message carries is settled by who sends it to whom, in a group of 2 ^ stages ranks.
  pub record Carries (stages : ℕ) (m : Message A) : Type ℓ where
    pub first :
        m.destination < 2 * rem
        → m.destination % 2 ≡ 1
        → m.destination ≡ m.source + 1
        → m.content ≡ x m.source
    pub last :
        m.destination < 2 * rem
        → m.destination % 2 ≡ 0
        → m.source ≡ m.destination + 1
        → m.content ≡ combined stages 0
    pub staged :
        (k l : ℕ)
        → k < stages
        → l < 2 ^ stages
        → m.destination ≡ stage_rank rem l
        → m.source ≡ stage_rank rem (flip k l)
        → m.content ≡ combined k (block k (flip k l))

  abbrev pub AllCarry : ℕ → List (Message A) → Type ℓ
  AllCarry stages [] = Unit
  AllCarry stages (m ∷ ms) = Carries stages m × AllCarry stages ms

  -- A rank with a logical rank is odd or not among the first.
  stage_rank-odd : (l : ℕ) → stage_rank rem l < 2 * rem → stage_rank rem l % 2 ≡ 1
  unfolding stage_rank
  stage_rank-odd l h = ground arith

  pub logical_rank_of-stage_rank : (l : ℕ) → logical_rank_of (stage_rank rem l) rem ≡ some l
  unfolding stage_rank logical_rank_of
  logical_rank_of-stage_rank l = ground arith

  module _ (stages : ℕ) where
    pub Carries-first :
        (r : ℕ)
        → r < 2 * rem
        → r % 2 ≡ 0
        → Carries stages (record { source = r; destination = r + 1; content = x r })
    Carries-first r low even = record {
      first = λ _ _ _. refl;
      last = λ _ _ same. absurd (omega arith);
      staged = λ k l _ _ _ same. absurd (
          omega (
            arith,
            subst (λ s. s < 2 * rem → s % 2 ≡ 1) (sym same) (stage_rank-odd (flip k l)) low,
          ));
    }

    pub Carries-last :
        (r : ℕ)
        → r < 2 * rem
        → r % 2 ≡ 1
        → Carries stages (record { source = r; destination = r - 1; content = combined stages 0 })
    Carries-last r low odd = record {
      first = λ _ _ same. absurd (omega arith);
      last = λ _ _ _. refl;
      staged = λ k l _ _ same _. absurd (
          omega (
            arith,
            subst (λ s. s < 2 * rem → s % 2 ≡ 1) (sym same) (stage_rank-odd l) (omega arith),
          ));
    }

    pub Carries-stage :
        (k l : ℕ)
        → k < stages
        → l < 2 ^ stages
        → Carries stages (record {
          source = stage_rank rem l;
          destination = stage_rank rem (flip k l);
          content = combined k (block k l);
        })
    Carries-stage k l below fits = record {
      first = λ low odd same. absurd (omega (arith, stage_rank-odd l (omega arith)));
      last = λ low even same. absurd (omega (arith, stage_rank-odd (flip k l) low));
      staged = λ j m _ _ to from.
          let here : flip k l ≡ m = stage_rank-injective rem _ _ to in
          let there : l ≡ flip j m = stage_rank-injective rem _ _ from in
          let same : k ≡ j =
            flip-injective k j l (here ∙ (sym (flip-flip j m) ∙ ap (flip j) (sym there))) in
          ap (λ i. combined i (block i l)) same ∙ ap (λ i. combined j (block j i)) there;
    }
