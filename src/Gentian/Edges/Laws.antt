-- ===== src/Gentian/Edges/Laws.antt =====
-- Each key stands once in the result, with the least duration of the edges of that key.
use catenary_backend.Common.{
  ℕ, ◌≡◌, refl, sym, ap, ◌∙◌, inl, inr, true, false, Option, none, some, List, [], ◌∷◌, map,
  if◌then◌else◌, min, Bool-cases, arith,
}
use mathlib.Core.Path.{subst}
use catenary_backend.Transit.{DagEdge, EdgeType, transit, long_distance_transit, walk}
use catenary_backend.Gentian.Edges.{
  EdgeKey, same_key, key_of, shorten, Entry, insert_edge, add_edge, add_edges, entry_edge,
  dedup_edges,
}

pub same_key_eq : (a b : EdgeKey) → same_key a b ≡ true → a ≡ b
unfolding same_key
same_key_eq a b h = ground arith

pub same_key_refl : (a : EdgeKey) → same_key a a ≡ true
unfolding same_key
same_key_refl a = ground arith

-- The seconds that an edge takes.
abbrev pub seconds : EdgeType → ℕ
seconds (transit t) = t.min_duration
seconds (long_distance_transit t) = t.min_duration
seconds (walk w) = w.duration_seconds

abbrev pub min_option : Option ℕ → ℕ → Option ℕ
min_option none d = some d
min_option (some c) d = some (min c d)

-- The least duration so far, with one more edge taken in if it has the key.
abbrev pub better : EdgeKey → DagEdge → Option EdgeType → Option ℕ → Option ℕ
better key edge none best = best
better key edge (some t) best =
    if same_key (key_of edge.from_node_idx edge.to_node_idx t) key
    then min_option best (seconds t)
    else best

-- The least duration over the edges of a key and `best`.
unfoldable pub shortest : EdgeKey → List DagEdge → Option ℕ → Option ℕ
shortest key [] best = best
shortest key (edge ∷ edges) best = shortest key edges (better key edge edge.edge_type best)

-- The duration that the first entry of a key has.
unfoldable pub entry_at : EdgeKey → List Entry → Option ℕ
entry_at key [] = none
entry_at key (e ∷ es) = if same_key e.key key then some (seconds e.edge_type) else entry_at key es

-- The entries stand under their own keys.
abbrev pub IsKeyed : List Entry → Type 0
IsKeyed [] = Unit
IsKeyed (e ∷ es) = (e.key ≡ key_of e.from_node_idx e.to_node_idx e.edge_type) × IsKeyed es

-- Edge types of one key are of one kind, and the shorter of the two is kept.
shorten_same :
    (from to : ℕ) (a b : EdgeType) (from' to' : ℕ)
    → key_of from to a ≡ key_of from' to' b
    → (key_of from to (shorten a b) ≡ key_of from to a)
      × (seconds (shorten a b) ≡ min (seconds a) (seconds b))
unfolding shorten key_of
shorten_same from to a b from' to' h = ground arith

abbrev HasKey : Entry → Type 0
HasKey e = e.key ≡ key_of e.from_node_idx e.to_node_idx e.edge_type

same_key_iff : (a b c : EdgeKey) → same_key a b ≡ true → same_key a c ≡ same_key b c
same_key_iff a b c h = ap (λ k. same_key k c) (same_key_eq a b h)

same_key_apart :
    (a b c : EdgeKey) → same_key a b ≡ false → same_key b c ≡ true → same_key a c ≡ false
same_key_apart a b c h k = subst (λ d. same_key a d ≡ false) (same_key_eq b c k) h

insert_edge-IsKeyed :
    (x : Entry) (es : List Entry) → HasKey x → IsKeyed es → IsKeyed (insert_edge x es)
unfolding insert_edge
insert_edge-IsKeyed x [] hx h = (hx, tt)
insert_edge-IsKeyed x (e ∷ es) hx h = elim (Bool-cases (same_key e.key x.key)) [
  | inl t ↦ rw t (
    h.0
        ∙ sym
            (shorten_same e.from_node_idx e.to_node_idx e.edge_type x.edge_type x.from_node_idx
              x.to_node_idx (sym h.0 ∙ same_key_eq e.key x.key t ∙ hx)).0,
    h.1,
  )
  | inr t ↦ rw t (h.0, insert_edge-IsKeyed x es hx h.1)
]

-- An insertion takes the new duration into the least one under its key, and leaves the others.
entry_at-insert_edge :
    (key : EdgeKey) (x : Entry) (es : List Entry)
    → HasKey x
    → IsKeyed es
    → entry_at key (insert_edge x es) ≡ (
        if same_key x.key key
        then min_option (entry_at key es) (seconds x.edge_type)
        else entry_at key es)
unfolding insert_edge entry_at
entry_at-insert_edge key x [] hx h = refl
entry_at-insert_edge key x (e ∷ es) hx h = elim (Bool-cases (same_key e.key x.key)) [
  | inl t ↦
      let short =
        (shorten_same e.from_node_idx e.to_node_idx e.edge_type x.edge_type x.from_node_idx
          x.to_node_idx (sym h.0 ∙ same_key_eq e.key x.key t ∙ hx)).1 in
      let both = same_key_iff e.key x.key key t in rw t (ground (arith, short, both))
  | inr t ↦ elim (Bool-cases (same_key x.key key)) [
    | inl k ↦
        rw (t, k, same_key_apart e.key x.key key t k) (entry_at-insert_edge key x es hx h.1 ∙ rw k)
    | inr k ↦ rw (t, k) (rw (entry_at-insert_edge key x es hx h.1, k))
  ]
]

pub add_edges-shortest :
    (key : EdgeKey) (edges : List DagEdge) (es : List Entry)
    → IsKeyed es
    → (entry_at key (add_edges edges es) ≡ shortest key edges (entry_at key es))
      × IsKeyed (add_edges edges es)
unfolding add_edges add_edge shortest
add_edges-shortest key [] es h = (refl, h)
add_edges-shortest key (edge ∷ edges) es h = go edge.edge_type (add_edges-shortest key edges)
  where
    go :
        (t : Option EdgeType)
        → ((es' : List Entry)
            → IsKeyed es'
            → (entry_at key (add_edges edges es') ≡ shortest key edges (entry_at key es'))
              × IsKeyed (add_edges edges es'))
        → (entry_at key (add_edges edges (add_edge edge t es))
            ≡ shortest key edges (better key edge t (entry_at key es)))
          × IsKeyed (add_edges edges (add_edge edge t es))
    go none ih = ih es h
    go (some t) ih =
        let (least, keyed) = ih (add_edge edge (some t) es) (insert_edge-IsKeyed _ es refl h) in
        (least ∙ ap (shortest key edges) (entry_at-insert_edge key _ es refl h), keyed)

-- No key stands twice.
abbrev pub IsUnique : List Entry → Type 0
IsUnique [] = Unit
IsUnique (e ∷ es) = (entry_at e.key es ≡ none) × IsUnique es

-- The duration of the first result edge of a key.
unfoldable pub duration_at : EdgeKey → List DagEdge → Option ℕ
duration_at key [] = none
duration_at key (edge ∷ edges) =
    let rest = duration_at key edges in
    elim edge.edge_type [
      | none ↦ rest
      | some t ↦
          if same_key (key_of edge.from_node_idx edge.to_node_idx t) key
          then some (seconds t)
          else rest
    ]

duration_at-entry_at :
    (key : EdgeKey) (es : List Entry)
    → IsKeyed es
    → duration_at key (map entry_edge es) ≡ entry_at key es
unfolding duration_at entry_at
duration_at-entry_at key [] h = refl
duration_at-entry_at key (e ∷ es) h = rw (← h.0, duration_at-entry_at key es h.1)

-- Under every key the result has the least duration of the edges of that key, and no edge where
-- there was none.
pub dedup_edges-shortest :
    (key : EdgeKey) (edges : List DagEdge)
    → duration_at key (dedup_edges edges) ≡ shortest key edges none
unfolding dedup_edges
dedup_edges-shortest key edges =
    let (least, keyed) = add_edges-shortest key edges [] tt in
    duration_at-entry_at key (add_edges edges []) keyed ∙ least ∙ unfold entry_at in refl

same_key_comm : (a b : EdgeKey) → same_key a b ≡ same_key b a
unfolding same_key
same_key_comm a b = ground arith

insert_edge-IsUnique :
    (x : Entry) (es : List Entry)
    → HasKey x
    → IsKeyed es
    → IsUnique es
    → IsUnique (insert_edge x es)
unfolding insert_edge
insert_edge-IsUnique x [] hx h u = (unfold entry_at in refl, tt)
insert_edge-IsUnique x (e ∷ es) hx h u = elim (Bool-cases (same_key e.key x.key)) [
  | inl t ↦ rw t (u.0, u.1)
  | inr t ↦ rw t (
    entry_at-insert_edge e.key x es hx h.1 ∙ rw (same_key_comm x.key e.key ∙ t) u.0,
    insert_edge-IsUnique x es hx h.1 u.1,
  )
]

-- The entries of the map stand under different keys.
pub add_edges-IsUnique :
    (edges : List DagEdge) (es : List Entry)
    → IsKeyed es
    → IsUnique es
    → IsUnique (add_edges edges es)
unfolding add_edges add_edge
add_edges-IsUnique [] es h u = u
add_edges-IsUnique (edge ∷ edges) es h u = go edge.edge_type (add_edges-IsUnique edges)
  where
    go :
        (t : Option EdgeType)
        → ((es' : List Entry) → IsKeyed es' → IsUnique es' → IsUnique (add_edges edges es'))
        → IsUnique (add_edges edges (add_edge edge t es))
    go none ih = ih es h u
    go (some t) ih =
        ih (add_edge edge (some t) es) (insert_edge-IsKeyed _ es refl h)
          (insert_edge-IsUnique _ es refl h u)
