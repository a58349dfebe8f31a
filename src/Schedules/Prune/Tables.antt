-- ===== src/Schedules/Prune/Tables.antt =====
-- Rows and ids of a table that is filtered by its ids.
use Prim.Native.String.{String}
use text.Mathlib.Text.{◌==◌}
use text.Mathlib.TextEquality.{eq_iff}
use mathlib.Core.Path.{subst}
use catenary_backend.Common.{
  Bool, true, some, List, [], ◌∷◌, ◌≡◌, ◌↔◌, inl, inr, refl, sym, ap, ◌∙◌, if◌then◌else◌, filter,
  some-injective, Bool-cases, true_is_false, any-In, In-any, In, In-filter, In-filter_intro, arith,
}
use catenary_backend.Schedules.Feed.{contains, get, keys}
use catenary_backend.Schedules.Prune.{ids_where, keep_ids}

pub ==-true : (a b : String) → (a == b) ≡ true → a ≡ b
==-true a b h = ground (arith, eq_iff a b)

pub ==-refl : (a : String) → (a == a) ≡ true
==-refl a = ground (arith, eq_iff a a)

pub contains-In : (ids : List String) (id : String) → contains ids id ≡ true → In id ids
unfolding contains
contains-In ids id h =
    let (x, m, e) = any-In (λ other. other == id) ids h in subst (λ y. In y ids) (==-true x id e) m

pub In-contains : (ids : List String) (id : String) → In id ids → contains ids id ≡ true
unfolding contains
In-contains ids id m = In-any (λ other. other == id) ids id m (==-refl id)

module _ {V : Type 0} where
  pub get-keep_ids :
      (ids : List String) (table : List (String × V)) (id : String)
      → contains ids id ≡ true
      → get (keep_ids ids table) id ≡ get table id
  unfolding get keep_ids filter
  get-keep_ids ids [] id h = refl
  get-keep_ids ids (entry ∷ table) id h = elim (Bool-cases (contains ids entry.0)) [
    | inl e ↦
        rw e (ap (λ o. if entry.0 == id then some entry.1 else o) (get-keep_ids ids table id h))
    | inr e ↦ elim (Bool-cases (entry.0 == id)) [
      | inl q ↦
          absurd (true_is_false (sym h ∙ (ap (contains ids) (sym (==-true entry.0 id q)) ∙ e)))
      | inr q ↦ rw e (rw q (get-keep_ids ids table id h))
    ]
  ]

  get-In :
      (table : List (String × V)) (id : String) (v : V) → get table id ≡ some v → In (id, v) table
  unfolding get
  get-In [] id v h = absurd (ground arith)
  get-In (entry ∷ table) id v h = elim (Bool-cases (entry.0 == id)) [
    | inl e ↦
        let found : some entry.1 ≡ some v =
          subst (λ c. (if c then some entry.1 else get table id) ≡ some v) e h in
        inl (λ i. (sym (==-true entry.0 id e) i, sym (some-injective found) i))
    | inr e ↦
        inr
          (get-In table id v (subst (λ c. (if c then some entry.1 else get table id) ≡ some v) e h))
  ]

  -- The table is a map: no id stands in it twice.
  unfoldable pub IsMap : List (String × V) → Type 0
  IsMap table = (id : String) (v : V) → In (id, v) table → get table id ≡ some v

  pub In-keys :
      (table : List (String × V)) (id : String) → In id (keys table) → (v : V) × In (id, v) table
  In-keys [] id m = absurd m
  In-keys (entry ∷ table) id (inl e) = (entry.1, inl (λ i. (e i, entry.1)))
  In-keys (entry ∷ table) id (inr m) = let (v, n) = In-keys table id m in (v, inr n)

  keys-In :
      (table : List (String × V)) (id : String) (v : V) → In (id, v) table → In id (keys table)
  keys-In [] id v m = absurd m
  keys-In (entry ∷ table) id v (inl e) = inl (ap (λ x. x.0) e)
  keys-In (entry ∷ table) id v (inr m) = inr (keys-In table id v m)

  -- In a map, an id passes the test exactly if its row does.
  pub ids_where-In :
      (test : V → Bool) (table : List (String × V)) (id : String) (v : V)
      → IsMap table
      → get table id ≡ some v
      → (contains (ids_where test table) id ≡ true) ↔ (test v ≡ true)
  unfolding ids_where IsMap
  ids_where-In test table id v is_map found = (
    λ h.
        let (w, m) = In-keys (filter (λ entry. test entry.1) table) id (contains-In _ id h) in
        let (n, t) = In-filter (λ entry. test entry.1) (id, w) table m in
        subst (λ x. test x ≡ true) (some-injective (sym (is_map id w n) ∙ found)) t,
    λ t. In-contains _ id (
        keys-In _ id v
          (In-filter_intro (λ entry. test entry.1) (id, v) table (get-In table id v found) t)),
  )

  pub kept-ids_where :
      (test : V → Bool) (table : List (String × V)) (id : String) (v : V)
      → IsMap table
      → get (keep_ids (ids_where test table) table) id ≡ some v
      → (get table id ≡ some v) × (test v ≡ true)
  unfolding keep_ids IsMap
  kept-ids_where test table id v is_map h =
      let (m, c) =
        In-filter (λ entry. contains (ids_where test table) entry.0) (id, v) table
          (get-In _ id v h) in
      let found = is_map id v m in
      let (to, back) = ids_where-In test table id v is_map found in (found, to c)

  pub ids_where-kept :
      (test : V → Bool) (table : List (String × V)) (id : String) (v : V)
      → IsMap table
      → get table id ≡ some v
      → test v ≡ true
      → get (keep_ids (ids_where test table) table) id ≡ some v
  ids_where-kept test table id v is_map found t =
      let (to, back) = ids_where-In test table id v is_map found in
      get-keep_ids (ids_where test table) table id (back t) ∙ found
