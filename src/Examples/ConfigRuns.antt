-- ===== src/Examples/ConfigRuns.antt =====
-- Two options, one with an empty value, to the bytes and back.
use rapidsmpf.Prelude.{ℕ, ◌≡◌, refl, arith, List, [], ◌∷◌}
use rapidsmpf.Prelude.Result.{Result, ok, err}
use rapidsmpf.Config.{
  Text, Options, from_text, serialize, deserialize, sort_by_key, get_strings, to_lower, trim, find,
}
use rapidsmpf.Config.RoundTrip.{deserialize-serialize_options, options_of, AllKeyed, AllNormal}
use rapidsmpf.Config.Wire.{Distinct}

abbrev two_options : Options ℕ
two_options = (b'b' ∷ b'c' ∷ [], from_text (b'X' ∷ [])) ∷ (b'a' ∷ [], from_text []) ∷ []

bytes_or : Result (List ℕ) → List ℕ
bytes_or (err e) = []
bytes_or (ok bs) = bs

abbrev sent : List ℕ
sent = bytes_or (serialize two_options)

sends : serialize two_options ≡ ok sent
unfolding serialize bytes_or
sends = refl

abbrev sorted : List (Text × Text)
sorted = sort_by_key (get_strings two_options)

keyed : AllKeyed sorted
unfolding sort_by_key get_strings
keyed = (omega arith, (omega arith, tt))

normal : AllNormal sorted
unfolding sort_by_key get_strings to_lower trim
normal = (refl, (refl, tt))

distinct : Distinct [] sorted
unfolding sort_by_key get_strings find
distinct = (refl, (refl, tt))

deserialize-serialize_options_example : deserialize {V = ℕ} sent ≡ ok (options_of sorted)
deserialize-serialize_options_example =
    deserialize-serialize_options two_options sent keyed normal distinct sends
