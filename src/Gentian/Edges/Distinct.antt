-- ===== src/Gentian/Edges/Distinct.antt =====
-- The deduplicated edges are distinct, and they are the legs that were there.
use mathlib.Core.Path.{subst}
use catenary_backend.Common.{
  ℕ, ◌≡◌, refl, sym, ap, ◌∙◌, ◌⊎◌, inl, inr, true, Option, none, some, List, [], ◌∷◌, map, min,
  Bool-cases, In, some-injective, arith,
}
use catenary_backend.Transit.{DagEdge, EdgeType, transit, long_distance_transit, walk}
use catenary_backend.Gentian.Edges.{
  EdgeKey, same_key, key_of, Entry, add_edges, entry_edge, dedup_edges,
}
use catenary_backend.Gentian.Edges.Laws.{
  same_key_eq, same_key_refl, seconds, min_option, better, shortest, entry_at, IsKeyed, IsUnique,
  add_edges-shortest, add_edges-IsUnique,
}

-- The edge type without its seconds: what is ridden, or that one walks.
abbrev pub untimed : EdgeType → EdgeType
untimed (transit t) = transit (record t { min_duration = 0 })
untimed (long_distance_transit t) = long_distance_transit (record t { min_duration = 0 })
untimed (walk w) = walk (record w { duration_seconds = 0 })

-- Two edges with types, alike in everything but their seconds.
pub record SameLeg (a b : DagEdge) : Type 0 where
  pub a_type : EdgeType
  pub b_type : EdgeType
  pub typed_a : a.edge_type ≡ some a_type
  pub typed_b : b.edge_type ≡ some b_type
  pub from : a.from_node_idx ≡ b.from_node_idx
  pub to : a.to_node_idx ≡ b.to_node_idx
  pub leg : untimed a_type ≡ untimed b_type

-- No two edges of the list are alike.
abbrev pub IsDistinct : List DagEdge → Type 0
IsDistinct [] = Unit
IsDistinct (e ∷ es) = ((other : DagEdge) → In other es → ¬ SameLeg e other) × IsDistinct es

-- The result has one edge for each leg among the edges, and no other.
pub record IsDeduplicated (edges result : List DagEdge) : Type 0 where
  pub distinct : IsDistinct result
  pub keeps :
      (e : DagEdge) (t : EdgeType)
      → In e edges
      → e.edge_type ≡ some t
      → (kept : DagEdge) × In kept result × SameLeg e kept
  pub invents_none : (kept : DagEdge) → In kept result → (e : DagEdge) × In e edges × SameLeg e kept

-- The key is made of the nodes and the edge type without its seconds.
key_of-untimed :
    (from to from' to' : ℕ) (a b : EdgeType)
    → key_of from to a ≡ key_of from' to' b
    → (from ≡ from') × (to ≡ to') × (untimed a ≡ untimed b)
unfolding key_of
key_of-untimed from to from' to' (transit a) (transit b) h = (
  ap (λ k. k.from_node) h,
  ap (λ k. k.to_node) h,
  λ i. transit (record {
    trip_pattern_idx = (h i).p_idx;
    start_stop_idx = (h i).s_idx;
    end_stop_idx = (h i).e_idx;
    min_duration = 0;
  }),
)
key_of-untimed from to from' to' (long_distance_transit a) (long_distance_transit b) h = (
  ap (λ k. k.from_node) h,
  ap (λ k. k.to_node) h,
  λ i. long_distance_transit (record {
    trip_pattern_idx = (h i).p_idx;
    start_stop_idx = (h i).s_idx;
    end_stop_idx = (h i).e_idx;
    min_duration = 0;
  }),
)
key_of-untimed from to from' to' (walk a) (walk b) h =
    (ap (λ k. k.from_node) h, ap (λ k. k.to_node) h, refl)
key_of-untimed from to from' to' (transit a) (long_distance_transit b) h =
    absurd (omega (arith, ap (λ k. k.kind) h))
key_of-untimed from to from' to' (transit a) (walk b) h = absurd (omega (arith, ap (λ k. k.kind) h))
key_of-untimed from to from' to' (long_distance_transit a) (transit b) h =
    absurd (omega (arith, ap (λ k. k.kind) h))
key_of-untimed from to from' to' (long_distance_transit a) (walk b) h =
    absurd (omega (arith, ap (λ k. k.kind) h))
key_of-untimed from to from' to' (walk a) (transit b) h = absurd (omega (arith, ap (λ k. k.kind) h))
key_of-untimed from to from' to' (walk a) (long_distance_transit b) h =
    absurd (omega (arith, ap (λ k. k.kind) h))

untimed-key_of :
    (from to from' to' : ℕ) (a b : EdgeType)
    → from ≡ from'
    → to ≡ to'
    → untimed a ≡ untimed b
    → key_of from to a ≡ key_of from' to' b
unfolding key_of
untimed-key_of from to from' to' a b e e' h =
    plain from to a ∙ ((λ i. key_of (e i) (e' i) (h i)) ∙ sym (plain from' to' b))
  where
    plain : (from to : ℕ) (t : EdgeType) → key_of from to t ≡ key_of from to (untimed t)
    plain from to (transit t) = refl
    plain from to (long_distance_transit t) = refl
    plain from to (walk w) = refl

abbrev Some : Option ℕ → Type 0
Some o = (d : ℕ) × (o ≡ some d)

-- The key of a typed edge.
abbrev Keyed : EdgeKey → DagEdge → Type 0
Keyed key e =
    (t : EdgeType) × (e.edge_type ≡ some t) × (key_of e.from_node_idx e.to_node_idx t ≡ key)

SameLeg-of_key : (key : EdgeKey) (a b : DagEdge) → Keyed key a → Keyed key b → SameLeg a b
SameLeg-of_key key a b (t, typed, at) (u, typed', at') =
    let (from, to, leg) =
      key_of-untimed a.from_node_idx a.to_node_idx b.from_node_idx b.to_node_idx t u
        (at ∙ sym at') in
    record {
      a_type = t;
      b_type = u;
      typed_a = typed;
      typed_b = typed';
      from = from;
      to = to;
      leg = leg;
    }

shortest-Some :
    (key : EdgeKey) (edges : List DagEdge) (best : Option ℕ)
    → Some best
    → Some (shortest key edges best)
unfolding shortest
shortest-Some key [] best h = h
shortest-Some key (edge ∷ edges) best h =
    shortest-Some key edges (better key edge edge.edge_type best) (go edge.edge_type best h)
  where
    go : (t : Option EdgeType) (best : Option ℕ) → Some best → Some (better key edge t best)
    go none best h = h
    go (some t) none (d, e) = absurd (ground (arith, e))
    go (some t) (some c) h =
        elim (Bool-cases (same_key (key_of edge.from_node_idx edge.to_node_idx t) key)) [
          | inl same ↦ (min c (seconds t), rw same refl)
          | inr other ↦ (c, rw other refl)
        ]

In-shortest :
    (key : EdgeKey) (edges : List DagEdge) (best : Option ℕ) (e : DagEdge)
    → In e edges
    → Keyed key e
    → Some (shortest key edges best)
unfolding shortest
In-shortest key [] best e m keyed = absurd m
In-shortest key (edge ∷ edges) best e (inr m) keyed =
    In-shortest key edges (better key edge edge.edge_type best) e m keyed
In-shortest key (edge ∷ edges) best e (inl here) keyed =
    let (t, typed, at) = subst (Keyed key) here keyed in
    let same : same_key (key_of edge.from_node_idx edge.to_node_idx t) key ≡ true =
      ap (λ k. same_key k key) at ∙ same_key_refl key in
    shortest-Some key edges (better key edge edge.edge_type best)
      (rw (typed, same) (now best (seconds t)))
  where
    now : (best : Option ℕ) (d : ℕ) → Some (min_option best d)
    now none d = (d, refl)
    now (some c) d = (min c d, refl)

shortest-In :
    (key : EdgeKey) (edges : List DagEdge) (best : Option ℕ)
    → Some (shortest key edges best)
    → Some best ⊎ ((e : DagEdge) × In e edges × Keyed key e)
unfolding shortest
shortest-In key [] best h = inl h
shortest-In key (edge ∷ edges) best h =
    elim (shortest-In key edges (better key edge edge.edge_type best) h) [
      | inl s ↦ go edge.edge_type refl s
      | inr (e, m, keyed) ↦ inr (e, inr m, keyed)
    ]
  where
    go :
        (t : Option EdgeType)
        → edge.edge_type ≡ t
        → Some (better key edge t best)
        → Some best ⊎ ((e : DagEdge) × In e (edge ∷ edges) × Keyed key e)
    go none typed s = inl s
    go (some t) typed s =
        elim (Bool-cases (same_key (key_of edge.from_node_idx edge.to_node_idx t) key)) [
          | inl same ↦ inr (
            edge,
            inl refl,
            (t, typed, same_key_eq (key_of edge.from_node_idx edge.to_node_idx t) key same),
          )
          | inr other ↦ inl (rw other at s)
        ]

In-entry_at : (e : Entry) (es : List Entry) → In e es → Some (entry_at e.key es)
unfolding entry_at
In-entry_at e [] m = absurd m
In-entry_at e (x ∷ es) (inl here) =
    let same : same_key x.key e.key ≡ true =
      ap (λ (y : Entry). same_key y.key e.key) (sym here) ∙ same_key_refl e.key in
    (seconds x.edge_type, rw same refl)
In-entry_at e (x ∷ es) (inr m) = elim (Bool-cases (same_key x.key e.key)) [
  | inl same ↦ (seconds x.edge_type, rw same refl)
  | inr other ↦ rw other (In-entry_at e es m)
]

entry_at-In :
    (key : EdgeKey) (es : List Entry)
    → Some (entry_at key es)
    → (e : Entry) × In e es × (e.key ≡ key)
unfolding entry_at
entry_at-In key [] (d, h) = absurd (ground (arith, h))
entry_at-In key (x ∷ es) h = elim (Bool-cases (same_key x.key key)) [
  | inl same ↦ (x, inl refl, same_key_eq x.key key same)
  | inr other ↦ let (e, m, at) = entry_at-In key es (rw other at h) in (e, inr m, at)
]

IsKeyed-In : (e : Entry) (es : List Entry) → IsKeyed es → In e es → Keyed e.key (entry_edge e)
IsKeyed-In e [] h m = absurd m
IsKeyed-In e (x ∷ es) h (inl here) =
    subst (λ (y : Entry). Keyed y.key (entry_edge y)) (sym here) (x.edge_type, refl, sym h.0)
IsKeyed-In e (x ∷ es) h (inr m) = IsKeyed-In e es h.1 m

In-entry_edge :
    (edge : DagEdge) (es : List Entry)
    → In edge (map entry_edge es)
    → (e : Entry) × In e es × (edge ≡ entry_edge e)
In-entry_edge edge [] m = absurd m
In-entry_edge edge (x ∷ es) (inl here) = (x, inl refl, here)
In-entry_edge edge (x ∷ es) (inr m) = let (e, k, same) = In-entry_edge edge es m in (e, inr k, same)

In-map_entry_edge : (e : Entry) (es : List Entry) → In e es → In (entry_edge e) (map entry_edge es)
In-map_entry_edge e [] m = absurd m
In-map_entry_edge e (x ∷ es) (inl here) = inl (ap entry_edge here)
In-map_entry_edge e (x ∷ es) (inr m) = inr (In-map_entry_edge e es m)

IsDistinct-entries : (es : List Entry) → IsKeyed es → IsUnique es → IsDistinct (map entry_edge es)
IsDistinct-entries [] keyed unique = tt
IsDistinct-entries (x ∷ es) keyed unique = (
  λ other m alike.
      let (e, k, same) = In-entry_edge other es m in
      let same_leg : SameLeg (entry_edge x) (entry_edge e) =
        subst (SameLeg (entry_edge x)) same alike in
      let (t, typed, at) = IsKeyed-In e es keyed.1 k in
      let x_type : x.edge_type ≡ same_leg.a_type = some-injective same_leg.typed_a in
      let e_type : t ≡ same_leg.b_type = some-injective (sym typed ∙ same_leg.typed_b) in
      let key : x.key ≡ e.key =
        keyed.0
        ∙ (ap (key_of x.from_node_idx x.to_node_idx) x_type
            ∙ (untimed-key_of x.from_node_idx x.to_node_idx e.from_node_idx e.to_node_idx
                  same_leg.a_type same_leg.b_type same_leg.from same_leg.to same_leg.leg
                ∙ (ap (key_of e.from_node_idx e.to_node_idx) (sym e_type) ∙ at))) in
      let (d, found) = In-entry_at e es k in
      absurd (ground (arith, sym (subst (λ y. entry_at y es ≡ some d) (sym key) found) ∙ unique.0)),
  IsDistinct-entries es keyed.1 unique.1,
)

-- The result has no two edges that are alike in everything but their seconds; each typed edge has
-- one like it in the result, and each edge of the result has one like it among the edges.
pub dedup_edges-IsDeduplicated : (edges : List DagEdge) → IsDeduplicated edges (dedup_edges edges)
unfolding dedup_edges entry_at
dedup_edges-IsDeduplicated edges =
    let es = add_edges edges [] in
    let keyed : IsKeyed es = (add_edges-shortest no_key edges [] tt).1 in
    let least : (key : EdgeKey) → entry_at key es ≡ shortest key edges (entry_at key []) =
      λ key. (add_edges-shortest key edges [] tt).0 in
    record {
      distinct = IsDistinct-entries es keyed (add_edges-IsUnique edges [] tt tt);
      keeps = λ e t m typed.
          let key = key_of e.from_node_idx e.to_node_idx t in
          let (d, found) = In-shortest key edges (entry_at key []) e m (t, typed, refl) in
          let (x, k, at) = entry_at-In key es (d, least key ∙ found) in
          (
            entry_edge x,
            In-map_entry_edge x es k,
            SameLeg-of_key key e (entry_edge x) (t, typed, refl)
                (subst (λ y. Keyed y (entry_edge x)) at (IsKeyed-In x es keyed k)),
          );
      invents_none = λ kept m.
          let (x, k, same) = In-entry_edge kept es m in
          let (d, found) = In-entry_at x es k in
          elim (shortest-In x.key edges (entry_at x.key []) (d, sym (least x.key) ∙ found)) [
            | inl (c, none_yet) ↦ absurd (nothing_at x.key none_yet)
            | inr (e, n, its_key) ↦ (
              e,
              n,
              subst (SameLeg e) (sym same)
                  (SameLeg-of_key x.key e (entry_edge x) its_key (IsKeyed-In x es keyed k)),
            )
          ];
    }
  where
    no_key : EdgeKey
    no_key = record { from_node = 0; to_node = 0; kind = 0; p_idx = 0; s_idx = 0; e_idx = 0 }

    nothing_at : (key : EdgeKey) {c : ℕ} → entry_at key [] ≡ some c → ⊥
    nothing_at key h = absurd (ground (arith, h))
