-- ===== src/Base/Maps.antt =====
-- JavaScript's `Map`: entries in the order in which their keys were first set. A `set` of a key
-- that is there keeps its place, and a `delete` takes the entry out.
use Prim.Native.Nat.{◌+◌, ◌≤◌}
use mathlib.Core.Path.{◌≡◌, refl}
use mathlib.Core.Logic.{ite, ◌≢◌}
use mathlib.Core.Option.{Option, none, some}
use mathlib.Core.List.{List, [], ◌∷◌, ◌++◌}
use native.Mathlib.Omega.{arith}
use kross.Base.Lists.{length}

abbrev pub Map {ℓ} : Type ℓ → Type ℓ → Type ℓ
Map K V = List (K × V)

module _ {ℓ} {K V : Type ℓ} where
  abbrev pub keys : Map K V → List K
  keys [] = []
  keys ((k, v) ∷ m) = k ∷ keys m

  abbrev pub values : Map K V → List V
  values [] = []
  values ((k, v) ∷ m) = v ∷ values m

  -- No entry has the key.
  abbrev pub Absent : K → Map K V → Type ℓ
  Absent k [] = Unit
  Absent k ((j, v) ∷ m) = (j ≢ k) × Absent k m

  -- No key occurs twice.
  abbrev pub Distinct : Map K V → Type ℓ
  Distinct [] = Unit
  Distinct ((k, v) ∷ m) = Absent k m × Distinct m

module _ {ℓ} {K V : Type ℓ} (dec : Discrete K) where
  unfoldable pub get : K → Map K V → Option V
  get k [] = none
  get k ((j, v) ∷ m) = ite (dec j k) (some v) (get k m)

  unfoldable pub set : K → V → Map K V → Map K V
  set k v [] = (k, v) ∷ []
  set k v ((j, w) ∷ m) = ite (dec j k) ((j, v) ∷ m) ((j, w) ∷ set k v m)

  unfoldable pub delete : K → Map K V → Map K V
  delete k [] = []
  delete k ((j, w) ∷ m) = ite (dec j k) (delete k m) ((j, w) ∷ delete k m)

  pub get-set :
      (k j : K) (v : V) (m : Map K V) → get j (set k v m) ≡ ite (dec k j) (some v) (get j m)
  unfolding get set
  get-set k j v [] = refl
  get-set k j v ((i, w) ∷ m) = ground (arith, get-set k j v m)

  pub get-set_self : (k : K) (v : V) (m : Map K V) → get k (set k v m) ≡ some v
  get-set_self k v m = ground (arith, get-set k k v m)

  pub get-set_ne : (k j : K) (v : V) (m : Map K V) → k ≢ j → get j (set k v m) ≡ get j m
  get-set_ne k j v m h = ground (arith, get-set k j v m)

  pub get-delete : (k j : K) (m : Map K V) → get j (delete k m) ≡ ite (dec k j) none (get j m)
  unfolding get delete
  get-delete k j [] = ground arith
  get-delete k j ((i, w) ∷ m) = ground (arith, get-delete k j m)

  Absent-set : (i k : K) (v : V) (m : Map K V) → k ≢ i → Absent i m → Absent i (set k v m)
  unfolding set
  Absent-set i k v [] h a = (h, tt)
  Absent-set i k v ((j, w) ∷ m) h a = ground (arith, Absent-set i k v m)

  Absent-delete : (i k : K) (m : Map K V) → Absent i m → Absent i (delete k m)
  unfolding delete
  Absent-delete i k [] a = tt
  Absent-delete i k ((j, w) ∷ m) a = ground (arith, Absent-delete i k m)

  pub set-Distinct : (k : K) (v : V) (m : Map K V) → Distinct m → Distinct (set k v m)
  unfolding set
  set-Distinct k v [] d = (tt, tt)
  set-Distinct k v ((j, w) ∷ m) d =
      ground (arith, set-Distinct k v m, λ (h : k ≢ j). Absent-set j k v m h)

  pub delete-Distinct : (k : K) (m : Map K V) → Distinct m → Distinct (delete k m)
  unfolding delete
  delete-Distinct k [] d = tt
  delete-Distinct k ((j, w) ∷ m) d = ground (arith, delete-Distinct k m, Absent-delete j k m)

  pub get_of_Absent : (k : K) (m : Map K V) → Absent k m → get k m ≡ none
  unfolding get
  get_of_Absent k [] a = refl
  get_of_Absent k ((j, w) ∷ m) a = ground (arith, get_of_Absent k m)

  pub length-set_le : (k : K) (v : V) (m : Map K V) → length (set k v m) ≤ length m + 1
  unfolding set
  length-set_le k v [] = omega arith
  length-set_le k v ((j, w) ∷ m) = ground (arith, length-set_le k v m)

  -- A new key goes to the end.
  pub set_fresh : (k : K) (v : V) (m : Map K V) → get k m ≡ none → set k v m ≡ m ++ (k, v) ∷ []
  unfolding get set
  set_fresh k v [] h = refl
  set_fresh k v ((j, w) ∷ m) h = ground (arith, set_fresh k v m)

  -- The keys of a map stay what they were when a key that is there is set again.
  pub keys-set_present :
      (k : K) (v w : V) (m : Map K V) → get k m ≡ some w → keys (set k v m) ≡ keys m
  unfolding get set
  keys-set_present k v w [] h = cc
  keys-set_present k v w ((j, u) ∷ m) h = ground (arith, keys-set_present k v w m)
