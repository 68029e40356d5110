-- ===== src/Base/Assoc.antt =====
-- Lists of entries with distinct keys: what a map holds, seen as a list in some order.
use Prim.Native.Nat.{◌+◌}
use mathlib.Core.Path.{◌≡◌, refl}
use mathlib.Core.Bool.{Bool, true, false}
use mathlib.Core.Option.{Option, none, some}
use mathlib.Core.List.{List, [], ◌∷◌}
use native.Mathlib.Omega.{arith}
use signalg.Base.Tests.{if◌then◌else◌}
use signalg.Base.Lists.{Bytes, length, bytes_eq, bytes_eq_iff}

pub bytes_eq_self : (k : Bytes) → bytes_eq k k ≡ true
bytes_eq_self k = (bytes_eq_iff k k).1 refl

abbrev pub is_some {ℓ} : {A : Type ℓ} → Option A → Bool
is_some none = false
is_some (some a) = true

module _ {ℓ} {V : Type ℓ} where
  unfoldable pub lookup : Bytes → List (Bytes × V) → Option V
  lookup k [] = none
  lookup k ((j, v) ∷ m) = if bytes_eq j k then some v else lookup k m

  unfoldable pub erase : Bytes → List (Bytes × V) → List (Bytes × V)
  erase k [] = []
  erase k ((j, v) ∷ m) = if bytes_eq j k then m else (j, v) ∷ erase k m

  abbrev pub DistinctKeys : List (Bytes × V) → Type ℓ
  DistinctKeys [] = Unit
  DistinctKeys ((k, v) ∷ m) = (lookup k m ≡ none) × DistinctKeys m

module _ {ℓ} {V : Type ℓ} where
  pub lookup-erase :
      (k j : Bytes) (m : List (Bytes × V))
      → DistinctKeys m
      → lookup j (erase k m) ≡ (if bytes_eq k j then none else lookup j m)
  unfolding lookup erase
  lookup-erase k j [] d = ground arith
  lookup-erase k j ((i, v) ∷ m) d =
      ground (arith, bytes_eq_iff i k, bytes_eq_iff i j, bytes_eq_iff k j, lookup-erase k j m d.1)

  pub erase-DistinctKeys :
      (k : Bytes) (m : List (Bytes × V)) → DistinctKeys m → DistinctKeys (erase k m)
  unfolding lookup erase
  erase-DistinctKeys k [] d = tt
  erase-DistinctKeys k ((i, v) ∷ m) d =
      ground (arith, erase-DistinctKeys k m d.1, lookup-erase k i m d.1)

  pub length-erase :
      (k : Bytes) (m : List (Bytes × V))
      → length m ≡ (if is_some (lookup k m) then length (erase k m) + 1 else length (erase k m))
  unfolding lookup erase
  length-erase k [] = ground arith
  length-erase k ((i, v) ∷ m) = ground (arith, length-erase k m)

module _ {ℓ κ} {V : Type ℓ} {W : Type κ} where
  -- Two maps with the same keys hold as many entries.
  pub length-of_keys :
      (m : List (Bytes × V)) (n : List (Bytes × W))
      → DistinctKeys m
      → DistinctKeys n
      → ((k : Bytes) → is_some (lookup k m) ≡ is_some (lookup k n))
      → length m ≡ length n
  unfolding lookup
  length-of_keys [] [] d e h = refl
  length-of_keys [] ((k, w) ∷ n) d e h = ground (arith, h k, bytes_eq_self k)
  length-of_keys ((k, v) ∷ m) n d e h =
      let rest =
        length-of_keys m (erase k n) d.1 (erase-DistinctKeys k n e)
          (λ j. ground (arith, h j, lookup-erase k j n e, bytes_eq_iff k j)) in
      ground (arith, rest, length-erase k n, h k, bytes_eq_self k)

module _ {ℓ} {V : Type ℓ} (p : V → Bool) where
  -- The entries whose value passes a test.
  unfoldable pub keep : List (Bytes × V) → List (Bytes × V)
  keep [] = []
  keep ((k, v) ∷ m) = if p v then (k, v) ∷ keep m else keep m

  abbrev pub passing : Option V → Option V
  passing none = none
  passing (some v) = if p v then some v else none

  pub lookup-keep :
      (k : Bytes) (m : List (Bytes × V)) → DistinctKeys m → lookup k (keep m) ≡ passing (lookup k m)
  unfolding lookup keep
  lookup-keep k [] d = refl
  lookup-keep k ((j, v) ∷ m) d = ground (arith, lookup-keep k m d.1, bytes_eq_iff j k)

  pub keep-DistinctKeys : (m : List (Bytes × V)) → DistinctKeys m → DistinctKeys (keep m)
  unfolding keep
  keep-DistinctKeys [] d = tt
  keep-DistinctKeys ((k, v) ∷ m) d = ground (arith, keep-DistinctKeys m d.1, lookup-keep k m d.1)
