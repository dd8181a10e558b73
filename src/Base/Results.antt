-- ===== src/Base/Results.antt =====
-- What a piece of the C++ code can do instead of returning: the model's results.
use mathlib.Core.Path.{◌≡◌, refl}
use mathlib.Core.Logic.{◌⊎◌, inl, inr}

-- `wild`: a read outside of the memory that the code owns (undefined behaviour);
-- `bad_variant_access`: the exception of `std::get`; `regex_error`: the `std::runtime_error` of the
-- tokenizer; `out_of_range`: the exception of `substr`; `aborted`: an assertion that does not hold;
-- `bad_json`: the exceptions of Boost's JSON values; `bad_template`: those of minja;
-- `worker_stopped`: that of a worker that was stopped; `moved_back`: a pointer is moved back by a
-- negative size, from where the model does not follow the code; `stuck` is no behaviour of the code: the
-- model's fuel ran out.
pub data Fault : Type 0 where
  wild bad_variant_access regex_error out_of_range aborted bad_json : Fault
  bad_template worker_stopped moved_back stuck : Fault

pub data Result {ℓ} (A : Type ℓ) : Type ℓ where
  ok : A → Result A
  err : Fault → Result A

-- What `do` chains: the first fault ends the chain.
infixl 5 ◌>>=◌
abbrev pub ◌>>=◌ {ℓ κ} : {A : Type ℓ} {B : Type κ} → Result A → (A → Result B) → Result B
err fault >>= next = err fault
ok a >>= next = next a

-- A chain that succeeds has a first part that succeeds.
pub first_ok {ℓ κ} :
    {A : Type ℓ} {B : Type κ} (first : Result A) (next : A → Result B) {result : B}
    → (first >>= next) ≡ ok result
    → (a : A) × (first ≡ ok a) × (next a ≡ ok result)
first_ok (err fault) next e = cc
first_ok (ok a) next e = (a, refl, e)

pub Result-cases {ℓ} :
    {A : Type ℓ} (r : Result A) → ((a : A) × (r ≡ ok a)) ⊎ ((fault : Fault) × (r ≡ err fault))
Result-cases (ok a) = inl (a, refl)
Result-cases (err fault) = inr (fault, refl)
