-- ===== src/Progress/Removal.antt =====
-- What the event loop and the removal of functions in progress_thread.cpp promise.
use rapidsmpf.Prelude.{
  ℕ, ◌≡◌, ◌≢◌, refl, sym, ap, ◌∙◌, ◌⊎◌, inl, inr, Option, none, some, List, [], ◌∷◌, Bool, true,
  false, not, ◌&&◌, ◌==◌, ==_iff, arith, if◌then◌else◌, Bool-cases, Option-cases,
}
use rapidsmpf.Prelude.Result.{ok, >>=-eq-ok, ok-injective}
use rapidsmpf.Prelude.Assoc.{find, erase, find-erase}
use rapidsmpf.Progress.{
  FunctionState, ProgressThread, call, call_all, event_loop, may_remove, erase_function,
  poll_removal, is_empty,
}

unequal : (i j : ℕ) → i ≢ j → (i == j) ≡ false
unequal i j h = elim (Bool-cases (i == j)) [ inl e ↦ absurd (h ((==_iff i j).0 e)) | inr e ↦ e ]

module _ {W : Type 0} where
  call-done : (w : W) (f : FunctionState W) → f.is_done ≡ true → call w f ≡ (w, f)
  unfolding call
  call-done w f h = rw (h, call) refl

  call_all-done :
      (w : W) (fs : List (ℕ × FunctionState W)) (id : ℕ) (f : FunctionState W)
      → find id fs ≡ some f
      → f.is_done ≡ true
      → find id (call_all w fs).1 ≡ some f
  unfolding call_all find
  call_all-done w [] id f e h = e
  call_all-done w ((j, g) ∷ fs) id f e h = elim (Bool-cases (j == id)) [
    | inl same ↦
        let e' = rw (same, find) at e in
        let eg : g ≡ f = some_injective e' in
        rw (same, find) (ap some (ap (λ z. z.1) (call-done w g (ap (λ z. z.is_done) eg ∙ h)) ∙ eg))
    | inr other ↦ rw (other, find) (call_all-done (call w g).0 fs id f (rw (other, find) at e) h)
  ]
    where
      some_injective : {g f : FunctionState W} → some g ≡ some f → g ≡ f
      some_injective h = cc

  -- A function that is done stays registered and done through a turn of the event loop.
  pub event_loop-done :
      (t : ProgressThread W) (w : W) (id : ℕ) (f : FunctionState W)
      → find id t.functions ≡ some f
      → f.is_done ≡ true
      → find id (event_loop t w).0.functions ≡ some f
  unfolding event_loop
  event_loop-done t w id f e h = call_all-done w t.functions id f e h

  abbrev pub AllDone : List (ℕ × FunctionState W) → Type 0
  AllDone [] = Unit
  AllDone ((_, f) ∷ fs) = (f.is_done ≡ true) × AllDone fs

  call_all-nothing :
      (w : W) (fs : List (ℕ × FunctionState W)) → AllDone fs → call_all w fs ≡ (w, fs)
  unfolding call_all
  call_all-nothing w [] h = refl
  call_all-nothing w ((j, f) ∷ fs) h = rw (call-done w f h.0) (rw (call_all-nothing w fs h.1) refl)

  -- Once every function is done, the event loop calls none of them: nothing changes.
  event_loop-nothing :
      (t : ProgressThread W) (w : W) → AllDone t.functions → event_loop t w ≡ (t, w)
  unfolding event_loop
  event_loop-nothing t w h = rw (call_all-nothing w t.functions h) refl

  erase_function-gone :
      (t : ProgressThread W) (i : ℕ)
      → ((erase_function t i).functions ≡ erase i t.functions)
        × ((erase_function t i).active ≡ (t.active && not (is_empty (erase i t.functions))))
  unfolding erase_function
  erase_function-gone t i = elim (Bool-cases (is_empty (erase i t.functions))) [
    | inl e ↦ rw (e, erase_function) (refl, ground arith)
    | inr e ↦ rw (e, erase_function) (refl, ground arith)
  ]

  chosen :
      (b : Bool) (u t : ProgressThread W)
      → ◌≡◌ {A = Option (ProgressThread W)} (if b then some u else none) (some t)
      → (b ≡ true) × (u ≡ t)
  chosen true u t e = (refl, cc)
  chosen false u t e = cc

  allowed :
      (t : ProgressThread W) (i : ℕ)
      → may_remove t i ≡ ok true
      → (t.active ≡ false)
        ⊎ ((f : FunctionState W) × (find i t.functions ≡ some f) × (f.is_done ≡ true))
  unfolding may_remove
  allowed t i e = elim (Bool-cases t.active) [
    | inr a ↦ inl a
    | inl a ↦
        let e' = rw (a, may_remove) at e in
        elim (Option-cases (find i t.functions)) [
          | inl q ↦ let bad = rw q at e' in cc
          | inr (f, q) ↦ let d = rw q at e' in inr (f, q, ok-injective d)
        ]
  ]

  -- A removal ends only when its function is done or the thread is inactive. It then removes
  -- that function and no other, and the thread goes on being active only if it was and has other
  -- functions to call.
  pub poll_removal-removes :
      (t t' : ProgressThread W) (i : ℕ)
      → poll_removal t i ≡ ok (some t')
      → ((t.active ≡ false)
          ⊎ ((f : FunctionState W) × (find i t.functions ≡ some f) × (f.is_done ≡ true)))
        × (find i t'.functions ≡ none)
        × ((j : ℕ) → i ≢ j → find j t'.functions ≡ find j t.functions)
        × (t'.active ≡ (t.active && not (is_empty t'.functions)))
  unfolding poll_removal
  poll_removal-removes t t' i e =
      let (ready, p, e1) = >>=-eq-ok (may_remove t i) _ e in
      let (was_ready, e2) = chosen ready (erase_function t i) t' (ok-injective e1) in
      let (fs, act) = erase_function-gone t i in
      let same : t'.functions ≡ erase i t.functions = ap (λ z. z.functions) (sym e2) ∙ fs in
      (
        allowed t i (p ∙ ap ok was_ready),
        rw same (find-erase i i t.functions ∙ ground arith),
        λ j far. rw same (find-erase i j t.functions ∙ rw (unequal i j far) refl),
        ap (λ z. z.active) (sym e2) ∙ act ∙ ap (λ z. t.active && not (is_empty z)) (sym same),
      )
