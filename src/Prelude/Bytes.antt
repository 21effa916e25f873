-- ===== src/Prelude/Bytes.antt =====
-- memcpy of unsigned integers into and out of byte vectors, least significant byte first.
use mathlib.Core.Path.{ap₂}
use native.Mathlib.Nat.{pow-suc, mod-lt, div-add-mod, add-mul-mod_self_left, mod-eq_of_lt}
use rapidsmpf.Prelude.{
  false, ℕ, zero, suc, ◌+◌, ◌*◌, ◌/◌, ◌%◌, ◌^◌, ◌<◌, ◌≤◌, ◌≡◌, refl, ap, sym, ◌∙◌, subst,
  length-append, List, [], ◌∷◌, ◌++◌, arith, length, take, drop, ltb, if◌then◌else◌,
}
use rapidsmpf.Prelude.Result.{Result, ok, err, undefined}

unfoldable pub to_bytes : ℕ → ℕ → List ℕ
to_bytes zero n = []
to_bytes (suc w) n = (n % 256) ∷ to_bytes w (n / 256)

unfoldable pub from_bytes : List ℕ → ℕ
from_bytes [] = 0
from_bytes (b ∷ bs) = b + 256 * from_bytes bs

pub length-to_bytes : (w n : ℕ) → length (to_bytes w n) ≡ w
unfolding to_bytes
length-to_bytes zero n = refl
length-to_bytes (suc w) n = ap suc (length-to_bytes w (n / 256))

pub from_bytes-to_bytes : (w n : ℕ) → n < 256 ^ w → from_bytes (to_bytes w n) ≡ n
unfolding to_bytes from_bytes
from_bytes-to_bytes zero n h = omega arith
from_bytes-to_bytes (suc w) n h =
    let e : 256 ^ suc w ≡ 256 ^ w * 256 = pow-suc 256 w in
    omega (arith, from_bytes-to_bytes w (n / 256) (omega (arith, e, h)))

-- What a wrap at `c * 256` leaves of a number: its low byte, and the rest wrapped at `c`.
wrap_byte :
    (c n : ℕ) → 0 < c → (n % (c * 256) % 256 ≡ n % 256) × (n % (c * 256) / 256 ≡ n / 256 % c)
wrap_byte c n pos =
    let s = n / 256 % c in
    let t = n / 256 / c in
    let low = 256 * s + n % 256 in
    let bound : s < c = mod-lt (n / 256) pos in
    let parts : c * t + s ≡ n / 256 = div-add-mod (n / 256) c in
    let whole : low + c * 256 * t ≡ n = omega (arith, parts) in
    let same : n % (c * 256) ≡ low =
      ap (λ k. k % (c * 256)) (sym whole)
      ∙ add-mul-mod_self_left low (c * 256) t
      ∙ mod-eq_of_lt (omega (arith, bound)) in
    (omega (arith, same), omega (arith, same))

pow_pos : (w : ℕ) → 0 < 256 ^ w
pow_pos zero = omega arith
pow_pos (suc w) = omega (arith, pow-suc 256 w, pow_pos w)

-- Writing wraps the number.
pub to_bytes_wrap : (w n : ℕ) → to_bytes w (n % 256 ^ w) ≡ to_bytes w n
unfolding to_bytes
to_bytes_wrap zero n = refl
to_bytes_wrap (suc w) n =
    let (low, rest) = wrap_byte (256 ^ w) n (pow_pos w) in
    ap (λ c. n % c % 256 ∷ to_bytes w (n % c / 256)) (pow-suc 256 w)
    ∙ ap₂ (λ b m. b ∷ to_bytes w m) low rest
    ∙ ap (λ bs. n % 256 ∷ bs) (to_bytes_wrap w (n / 256))

-- Reading `w` bytes; past the end of the vector the behaviour is undefined.
unfoldable pub read : ℕ → List ℕ → Result (ℕ × List ℕ)
read w bs = if ltb (length bs) w then err undefined else ok (from_bytes (take w bs), drop w bs)

pub take-length-append {ℓ} : {A : Type ℓ} (xs ys : List A) → take (length xs) (xs ++ ys) ≡ xs
take-length-append [] ys = refl
take-length-append (x ∷ xs) ys = ap (λ zs. x ∷ zs) (take-length-append xs ys)

pub drop-length-append {ℓ} : {A : Type ℓ} (xs ys : List A) → drop (length xs) (xs ++ ys) ≡ ys
drop-length-append [] ys = refl
drop-length-append (x ∷ xs) ys = drop-length-append xs ys

not_ltb : (a b : ℕ) → b ≤ a → ltb a b ≡ false
not_ltb a b h = ground arith

pub read-to_bytes :
    (w n : ℕ) (rest : List ℕ) → n < 256 ^ w → read w (to_bytes w n ++ rest) ≡ ok (n, rest)
unfolding read
read-to_bytes w n rest h =
    let e = length-to_bytes w n in
    let long : ltb (length (to_bytes w n ++ rest)) w ≡ false =
      not_ltb _ w (omega (arith, length-append (to_bytes w n) rest, e)) in
    let t : take w (to_bytes w n ++ rest) ≡ to_bytes w n =
      subst (λ k. take k (to_bytes w n ++ rest) ≡ to_bytes w n) e
        (take-length-append (to_bytes w n) rest) in
    let d : drop w (to_bytes w n ++ rest) ≡ rest =
      subst (λ k. drop k (to_bytes w n ++ rest) ≡ rest) e
        (drop-length-append (to_bytes w n) rest) in
    rw (long, t, d, from_bytes-to_bytes w n h) refl
