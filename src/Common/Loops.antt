-- ===== src/Common/Loops.antt =====
-- Loops over a collection, `for x in xs`, and counted loops, `for k in i..i + n` and the rules to reason on them.
use Prim.Native.Nat.{ℕ, zero, suc, ◌+◌}
use mathlib.Core.Path.{◌≡◌, ap, refl, sym, ◌∙◌, subst}
use mathlib.Core.List.{List, [], ◌∷◌, ◌++◌, reverse, reverse-append}
use mathlib.Core.Option.{Option, some}
use mathlib.Core.Logic.{inl, inr}
use catenary_backend.Common.Tests.{◌>>=◌, >>=-eq-some, some-injective}
use catenary_backend.Common.Lists.{In, get_elem?, length}
use native.Mathlib.Omega.{arith}

-- for k in k..k + rounds { state = round(k, state) }
unfoldable pub for_range {ℓ} : {State : Type ℓ} → ℕ → ℕ → (ℕ → State → State) → State → State
for_range zero k round state = state
for_range (suc rounds) k round state = for_range rounds (k + 1) round (round k state)

-- for x in xs { body }, where the body changes `s` and may panic
unfoldable pub for_each {ℓ κ} :
    {A : Type ℓ} {S : Type κ} → (A → S → Option S) → List A → S → Option S
for_each body [] s = some s
for_each body (x ∷ xs) s = body x s >>= λ s'. for_each body xs s'

-- xs.iter().enumerate(), counting from `i`
unfoldable pub enumerate {ℓ} : {A : Type ℓ} → ℕ → List A → List (ℕ × A)
enumerate i [] = []
enumerate i (x ∷ xs) = (i, x) ∷ enumerate (i + 1) xs

-- What every round keeps holds at the end.
pub for_each_inv {κ} :
    {A : Type 0} {S : Type 0} (P : S → Type κ) (body : A → S → Option S) (xs : List A) (s : S)
    {t : S}
    → ((x : A) (u v : S) → In x xs → P u → body x u ≡ some v → P v)
    → P s
    → for_each body xs s ≡ some t
    → P t
unfolding for_each
for_each_inv P body [] s keep h e = subst P (some-injective e) h
for_each_inv P body (x ∷ xs) s keep h e =
    let (s', e₁, e₂) = >>=-eq-some (body x s) _ e in
    for_each_inv P body xs s' (λ y u v m. keep y u v (inr m)) (keep x s s' (inl refl) h e₁) e₂

-- What one round brings about and the later rounds keep holds at the end.
pub for_each_holds {κ} :
    {A : Type 0} {S : Type 0} (Q : S → Type κ) (body : A → S → Option S) (x : A) (xs : List A)
    (s : S) {t : S}
    → ((y : A) (u v : S) → Q u → body y u ≡ some v → Q v)
    → ((u v : S) → body x u ≡ some v → Q v)
    → In x xs
    → for_each body xs s ≡ some t
    → Q t
unfolding for_each
for_each_holds Q body x [] s keep brings m e = elim m [ ]
for_each_holds Q body x (y ∷ ys) s keep brings (inl same) e =
    let (s', e₁, e₂) = >>=-eq-some (body y s) _ e in
    for_each_inv Q body ys s' (λ z u v _. keep z u v)
      (brings s s' (subst (λ z. body z s ≡ some s') (sym same) e₁)) e₂
for_each_holds Q body x (y ∷ ys) s keep brings (inr m) e =
    let (s', e₁, e₂) = >>=-eq-some (body y s) _ e in for_each_holds Q body x ys s' keep brings m e₂

pub In-enumerate :
    {A : Type 0} (k i : ℕ) (x : A) (xs : List A)
    → In (k, x) (enumerate i xs)
    → (j : ℕ) × (k ≡ i + j) × (get_elem? xs j ≡ some x)
unfolding enumerate
In-enumerate k i x [] m = elim m [ ]
In-enumerate k i x (y ∷ ys) (inl e) = (0, ap (λ p. p.0) e ∙ omega arith, ap (λ p. some p.1) (sym e))
In-enumerate k i x (y ∷ ys) (inr m) =
    let (j, e, g) = In-enumerate k (i + 1) x ys m in (suc j, omega arith, g)

pub In-enumerate_intro :
    {A : Type 0} (i j : ℕ) (x : A) (xs : List A)
    → get_elem? xs j ≡ some x
    → In (i + j, x) (enumerate i xs)
unfolding enumerate
In-enumerate_intro i j x [] g = absurd (ground arith)
In-enumerate_intro i zero x (y ∷ ys) g =
    let e : i + 0 ≡ i = omega arith in inl (λ k. (e k, some-injective (sym g) k))
In-enumerate_intro i (suc j) x (y ∷ ys) g =
    let e : i + 1 + j ≡ i + suc j = omega arith in
    inr (subst (λ n. In (n, x) (enumerate (i + 1) ys)) e (In-enumerate_intro (i + 1) j x ys g))

-- In an enumeration from 0 an element stands under its index.
pub In-enumerate_zero :
    {A : Type 0} (k : ℕ) (x : A) (xs : List A)
    → In (k, x) (enumerate 0 xs)
    → get_elem? xs k ≡ some x
In-enumerate_zero k x xs m =
    let (j, e, g) = In-enumerate k 0 x xs m in
    let same : k ≡ j = omega arith in subst (λ n. get_elem? xs n ≡ some x) (sym same) g

pub In-enumerate_zero_intro :
    {A : Type 0} (k : ℕ) (x : A) (xs : List A)
    → get_elem? xs k ≡ some x
    → In (k, x) (enumerate 0 xs)
In-enumerate_zero_intro k x xs g =
    let same : 0 + k ≡ k = omega arith in
    subst (λ n. In (n, x) (enumerate 0 xs)) same (In-enumerate_intro 0 k x xs g)

for_each-append :
    {A : Type 0} {S : Type 0} (body : A → S → Option S) (xs ys : List A) (s : S) {t : S}
    → for_each body (xs ++ ys) s ≡ some t
    → (u : S) × (for_each body xs s ≡ some u) × (for_each body ys u ≡ some t)
unfolding for_each
for_each-append body [] ys s e = (s, refl, e)
for_each-append body (x ∷ xs) ys s e =
    let (s', e₁, e₂) = >>=-eq-some (body x s) _ e in
    let (u, e₃, e₄) = for_each-append body xs ys s' e₂ in (u, rw e₁ e₃, e₄)

-- A walk back over the elements counted from i: what each round brings from j + 1 down to j holds
-- in the end for i.
for_each_down :
    {A : Type 0} {S : Type 0} (P : ℕ → S → Type 0) (body : ℕ × A → S → Option S) (i : ℕ)
    (xs : List A) (s : S) {t : S}
    → ((j : ℕ) (x : A) (u v : S)
        → get_elem? xs j ≡ some x
        → P (i + j + 1) u
        → body (i + j, x) u ≡ some v
        → P (i + j) v)
    → P (i + length xs) s
    → for_each body (reverse (enumerate i xs)) s ≡ some t
    → P i t
unfolding for_each enumerate
for_each_down P body i [] s keep h e =
    let start : i + 0 ≡ i = omega arith in
    subst (P i) (some-injective e) (subst (λ n. P n s) start h)
for_each_down P body i (x ∷ xs) s {t} keep h e =
    let (u, e₁, e₂) =
      for_each-append body (reverse (enumerate (i + 1) xs)) ((i, x) ∷ []) s
        (rw (reverse-append ((i, x) ∷ []) (enumerate (i + 1) xs)) at e) in
    let (v, e₃, e₄) = >>=-eq-some (body (i, x) u) _ e₂ in
    let size : i + suc (length xs) ≡ i + 1 + length xs = omega arith in
    let first : i + 0 ≡ i = omega arith in
    let next : i + 1 ≡ i + 0 + 1 = omega arith in
    let later =
      for_each_down P body (i + 1) xs s
        (λ j y a b at hu eb.
          let same : i + 1 + j ≡ i + suc j = omega arith in
          subst (λ n. P n b) (sym same)
            (keep (suc j) y a b at (subst (λ n. P (n + 1) a) same hu)
              (subst (λ n. body (n, y) a ≡ some b) same eb)))
        (subst (λ n. P n s) size h) e₁ in
    subst (P i) (some-injective e₄) (
      subst (λ n. P n v) first
        (keep 0 x u v refl (subst (λ n. P n u) next later)
          (subst (λ n. body (n, x) u ≡ some v) (sym first) e₃)))

-- for (i, x) in xs.iter().enumerate().rev(): what each round brings from i + 1 down to i holds for 0
-- in the end.
pub for_each_reverse :
    {A : Type 0} {S : Type 0} (P : ℕ → S → Type 0) (body : ℕ × A → S → Option S) (xs : List A)
    (s : S) {t : S}
    → ((i : ℕ) (x : A) (u v : S)
        → get_elem? xs i ≡ some x
        → P (i + 1) u
        → body (i, x) u ≡ some v
        → P i v)
    → P (length xs) s
    → for_each body (reverse (enumerate 0 xs)) s ≡ some t
    → P 0 t
for_each_reverse P body xs s keep h e =
    let size : length xs ≡ 0 + length xs = omega arith in
    for_each_down P body 0 xs s
      (λ i x u v at.
        let same : i ≡ 0 + i = omega arith in
        subst (λ n. P (n + 1) u → body (n, x) u ≡ some v → P n v) same (keep i x u v at))
      (subst (λ n. P n s) size h) e

for_each_up :
    {A : Type 0} {S : Type 0} (P : ℕ → S → Type 0) (body : ℕ × A → S → Option S) (i : ℕ)
    (xs : List A) (s : S) {t : S}
    → ((j : ℕ) (x : A) (u v : S)
        → get_elem? xs j ≡ some x
        → P (i + j) u
        → body (i + j, x) u ≡ some v
        → P (i + j + 1) v)
    → P i s
    → for_each body (enumerate i xs) s ≡ some t
    → P (i + length xs) t
unfolding for_each enumerate
for_each_up P body i [] s {t} keep h e =
    let done : i ≡ i + 0 = omega arith in subst (λ n. P n t) done (subst (P i) (some-injective e) h)
for_each_up P body i (x ∷ xs) s {t} keep h e =
    let (u, e₁, e₂) = >>=-eq-some (body (i, x) s) _ e in
    let first : i ≡ i + 0 = omega arith in
    let next : i + 0 + 1 ≡ i + 1 = omega arith in
    let done : i + 1 + length xs ≡ i + suc (length xs) = omega arith in
    subst (λ n. P n t) done
      (for_each_up P body (i + 1) xs u
        (λ j y a b at hu eb.
          let same : i + 1 + j ≡ i + suc j = omega arith in
          subst (λ n. P (n + 1) b) (sym same)
            (keep (suc j) y a b at (subst (λ n. P n a) same hu)
              (subst (λ n. body (n, y) a ≡ some b) same eb)))
        (subst (λ n. P n u) next
          (keep 0 x s u refl (subst (λ n. P n s) first h)
            (subst (λ n. body (n, x) s ≡ some u) first e₁)))
        e₂)

-- for (i, x) in xs.iter().enumerate(): what each round brings from i to i + 1 holds for the length in
-- the end.
pub for_each_enumerate :
    {A : Type 0} {S : Type 0} (P : ℕ → S → Type 0) (body : ℕ × A → S → Option S) (xs : List A)
    (s : S) {t : S}
    → ((i : ℕ) (x : A) (u v : S)
        → get_elem? xs i ≡ some x
        → P i u
        → body (i, x) u ≡ some v
        → P (i + 1) v)
    → P 0 s
    → for_each body (enumerate 0 xs) s ≡ some t
    → P (length xs) t
for_each_enumerate P body xs s {t} keep h e =
    let size : 0 + length xs ≡ length xs = omega arith in
    subst (λ n. P n t) size
      (for_each_up P body 0 xs s
        (λ i x u v at.
          let same : i ≡ 0 + i = omega arith in
          subst (λ n. P n u → body (n, x) u ≡ some v → P (n + 1) v) same (keep i x u v at))
        h e)
