-- ===== src/Base/Dict.antt =====
-- Python's `dict` as the list of its items in insertion order.
use python_server_sdk.Base.Tests.{==_refl, Eq, ◌==◌, if◌then◌else◌}
use python_server_sdk.Base.Lists.{drop, length}
use Prim.Native.Nat.{suc}
use Prim.Native.Nat.{ℕ, zero, suc, ◌≤◌}
use mathlib.Core.Path.{◌≡◌, refl}
use mathlib.Core.Bool.{Bool, true, false}
use mathlib.Core.List.{List, [], ◌∷◌, map}
use mathlib.Core.Option.{Option, none, some}
use mathlib.Core.Logic.{◌≢◌}
use native.Mathlib.Omega.{arith}

abbrev pub Dict {ℓ} : Type ℓ → Type ℓ → Type ℓ
Dict K V = List (K × V)

module _ {ℓ} {K V : Type ℓ} where
  -- `list(d.values())`
  abbrev pub values : Dict K V → List V
  values = map (λ e. e.1)

  abbrev pub keys : Dict K V → List K
  keys = map (λ e. e.0)

module _ {ℓ} {K V : Type ℓ} ⦃e : Eq K⦄ where
  -- `d.get(k)`
  unfoldable pub get : K → Dict K V → Option V
  get k [] = none
  get k ((j, v) ∷ d) = if j == k then some v else get k d

  -- `k in d`
  unfoldable pub has : K → Dict K V → Bool
  has k [] = false
  has k ((j, v) ∷ d) = if j == k then true else has k d

  -- `d[k] = v`: an existing key keeps its place.
  unfoldable pub set : K → V → Dict K V → Dict K V
  set k v [] = (k, v) ∷ []
  set k v ((j, w) ∷ d) = if j == k then (j, v) ∷ d else (j, w) ∷ set k v d

  -- `d.pop(k, None)`
  unfoldable pub delete : K → Dict K V → Dict K V
  delete k [] = []
  delete k ((j, v) ∷ d) = if j == k then d else (j, v) ∷ delete k d

  -- `d.update(other)`
  unfoldable pub update : Dict K V → Dict K V → Dict K V
  unfolding set
  update d [] = d
  update d ((k, v) ∷ other) = update (set k v d) other

  -- No key stands twice, which is what makes the list a dictionary.
  abbrev pub Distinct : Dict K V → Type 0
  Distinct [] = Unit
  Distinct ((k, v) ∷ d) = (has k d ≡ false) × Distinct d

module _ {ℓ} {K V : Type ℓ} ⦃e : Eq K⦄ where
  pub get-set :
      (k j : K) (v : V) (d : Dict K V) → get j (set k v d) ≡ (if k == j then some v else get j d)
  unfolding get set
  get-set k j v [] = refl
  get-set k j v ((i, w) ∷ d) =
      ground (arith, get-set k j v d, e.same_iff k j, e.same_iff i k, e.same_iff i j)

  pub has-set :
      (k j : K) (v : V) (d : Dict K V) → has j (set k v d) ≡ (if k == j then true else has j d)
  unfolding has set
  has-set k j v [] = refl
  has-set k j v ((i, w) ∷ d) =
      ground (arith, has-set k j v d, e.same_iff k j, e.same_iff i k, e.same_iff i j)

  pub length-set :
      (k : K) (v : V) (d : Dict K V)
      → length (set k v d) ≡ (if has k d then length d else suc (length d))
  unfolding has set
  length-set k v [] = refl
  length-set k v ((i, w) ∷ d) = ground (arith, length-set k v d)

  pub set-Distinct : (k : K) (v : V) (d : Dict K V) → Distinct d → Distinct (set k v d)
  unfolding set has
  set-Distinct k v [] h = (refl, tt)
  set-Distinct k v ((i, w) ∷ d) h =
      ground (arith, set-Distinct k v d, has-set k i v d, e.same_iff i k, e.same_iff k i)

  pub has-get : (k : K) (d : Dict K V) (v : V) → get k d ≡ some v → has k d ≡ true
  unfolding get has
  has-get k [] v h = ground arith
  has-get k ((i, w) ∷ d) v h = ground (arith, has-get k d v)

  pub get-eq-none : (k : K) (d : Dict K V) → has k d ≡ false → get k d ≡ none
  unfolding get has
  get-eq-none k [] h = refl
  get-eq-none k ((i, w) ∷ d) h = ground (arith, get-eq-none k d)

  pub get-delete :
      (k j : K) (d : Dict K V)
      → Distinct d
      → get j (delete k d) ≡ (if k == j then none else get j d)
  unfolding get delete has
  get-delete k j [] h = ground arith
  get-delete k j ((i, w) ∷ d) h =
      ground
        (arith, get-delete k j d, get-eq-none i d, e.same_iff k j, e.same_iff i k, e.same_iff i j)

  has-delete-false : (k j : K) (d : Dict K V) → has j d ≡ false → has j (delete k d) ≡ false
  unfolding delete has
  has-delete-false k j [] h = refl
  has-delete-false k j ((i, w) ∷ d) h = ground (arith, has-delete-false k j d)

  pub delete-Distinct : (k : K) (d : Dict K V) → Distinct d → Distinct (delete k d)
  unfolding delete
  delete-Distinct k [] h = tt
  delete-Distinct k ((i, w) ∷ d) h = ground (arith, delete-Distinct k d, has-delete-false k i d)

module _ {K V : Type 0} ⦃e : Eq K⦄ where
  pub drop-Distinct : (n : ℕ) (d : Dict K V) → Distinct d → Distinct (drop n d)
  drop-Distinct zero d h = h
  drop-Distinct (suc n) [] h = tt
  drop-Distinct (suc n) ((k, v) ∷ d) h = drop-Distinct n d h.1

  has-drop-false : (k : K) (n : ℕ) (d : Dict K V) → has k d ≡ false → has k (drop n d) ≡ false
  unfolding has
  has-drop-false k zero d h = h
  has-drop-false k (suc n) [] h = refl
  has-drop-false k (suc n) ((j, v) ∷ d) h = has-drop-false k n d (ground arith)

  pub get-drop-set_absent :
      (k : K) (v : V) (n : ℕ) (d : Dict K V)
      → has k d ≡ false
      → n ≤ length d
      → get k (drop n (set k v d)) ≡ some v
  unfolding get set has
  get-drop-set_absent k v zero [] h le = ground (arith, ==_refl k)
  get-drop-set_absent k v zero ((j, w) ∷ d) h le = ground (arith, get-drop-set_absent k v zero d)
  get-drop-set_absent k v (suc n) [] h le = absurd (omega arith)
  get-drop-set_absent k v (suc n) ((j, w) ∷ d) h le = ground (arith, get-drop-set_absent k v n d)

  pub get-set_self : (k : K) (v : V) (d : Dict K V) → get k (set k v d) ≡ some v
  get-set_self k v d = ground (arith, get-set k k v d, ==_refl k)

module _ {K V : Type 0} ⦃e : Eq K⦄ where
  -- After an update, a key has the value that the other dictionary gives it, if it gives one.
  pub get-update :
      (j : K) (d other : Dict K V)
      → Distinct other
      → get j (update d other) ≡ (if has j other then get j other else get j d)
  unfolding update get has
  get-update j d [] h = refl
  get-update j d ((k, v) ∷ other) h = ground (
    arith,
    get-update j (set k v d) other h.1,
    get-set k j v d,
    h.0,
    e.same_iff k j,
    get-eq-none j other,
  )

  pub update-Distinct : (d other : Dict K V) → Distinct d → Distinct (update d other)
  unfolding update
  update-Distinct d [] h = h
  update-Distinct d ((k, v) ∷ other) h = update-Distinct (set k v d) other (set-Distinct k v d h)

  pub has-eq-get : (k : K) (d : Dict K V) → has k d ≡ false → (v : V) → get k d ≢ some v
  has-eq-get k d h v g = cc (get-eq-none k d h)

  pub get-has : (k : K) (d : Dict K V) → get k d ≡ none → has k d ≡ false
  unfolding get has
  get-has k [] h = refl
  get-has k ((j, v) ∷ d) h = ground (arith, get-has k d)
