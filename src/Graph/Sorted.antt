-- ===== src/Graph/Sorted.antt =====
-- The order in which `topologicalSort` lists services, forward for a start and in reverse for a stop.
use atlas_manager.Base.{
  reverse-reverse, ℕ, suc, ◌≤◌, ◌≡◌, ◌≢◌, refl, sym, ap, ◌⊎◌, ◌↔◌, inl, inr, false, List, [], ◌∷◌,
  map, arith, Str, str_eq, str_eq→eq, str_eq_refl, length, Bool-cases, includes, reverse,
}
use atlas_manager.Graph.Count.{count, count-keep, count_self, includes→count, count→includes}
use atlas_manager.Graph.Kahn.{kahn}
use atlas_manager.Graph.Kahn.Run.{Ordered, count-sort}
use atlas_manager.Graph.Kahn.Result.{Different, kahn-Ordered, Ordered-mem}
use atlas_manager.Graph.Closure.{close}
use atlas_manager.Graph.Closure.Laws.{Reach, first, further, close_lem}
use atlas_manager.Graph.Dag.{IsDag}
use atlas_manager.Graph.Order.{
  InOrder, Ordered-InOrder, count-reverse, add_all-grows, add_all-has, add_all-only,
  add_all-Different,
}
use atlas_manager.Graph.{
  Graph, node_ids, Direction, dependencies, dependents, neighbors, direct_dependencies_of,
  direct_dependents_of, compute_closure, add_all, add_closures, closure_of, edges_within,
  topological_sort,
}

-- `v` is asked for, or it is reached from a service that is asked for.
abbrev pub Needed : Graph → Direction → List Str → Str → Type 0
Needed g direction ids v =
    (1 ≤ count v ids)
    ⊎ ((start : Str) × (1 ≤ count start ids) × Reach (neighbors g direction) start v)

length-map : {A B : Type 0} (f : A → B) (xs : List A) → length (map f xs) ≡ length xs
length-map f [] = refl
length-map f (x ∷ xs) = ap suc (length-map f xs)

InOrder-imp :
    (before before' : Str → List Str) (seen xs : List Str)
    → ((v d : Str) → 1 ≤ count v xs → 1 ≤ count d (before' v) → 1 ≤ count d (before v))
    → InOrder before seen xs
    → InOrder before' seen xs
InOrder-imp before before' seen [] h o = tt
InOrder-imp before before' seen (x ∷ xs) h o = (
  λ d e. o.0 d (h x d (count_self x xs) e),
  InOrder-imp before before' (x ∷ seen) xs (λ v d m e. h v d (omega arith) e) o.1,
)

-- A list in which each element is followed by what it depends on has the dependents of each before it.
Ordered-dependents :
    (deps before : Str → List Str) (seen xs : List Str)
    → Ordered deps xs
    → Different xs
    → ((v d : Str)
        → 1 ≤ count v xs
        → 1 ≤ count d (before v)
        → ((1 ≤ count d seen) ⊎ (1 ≤ count d xs)) × (1 ≤ count v (deps d)))
    → InOrder before seen xs
Ordered-dependents deps before seen [] o u h = tt
Ordered-dependents deps before seen (x ∷ xs) o u h =
    (here, Ordered-dependents deps before (x ∷ seen) xs o.1 (λ v. omega (arith, u v)) there)
  where
    here : (d : Str) → 1 ≤ count d (before x) → 1 ≤ count d seen
    here d e =
        let (place, edge) = h x d (count_self x xs) e in
        elim place [
          | inl done ↦ done
          | inr later ↦ elim (Bool-cases (str_eq x d)) [
            | inl same ↦
                let loop = o.0 x (rw (sym (str_eq→eq x d same)) at edge) in
                absurd (omega (arith, u x, count_self x [], loop))
            | inr other ↦
                let back = Ordered-mem deps xs d x o.1 (ground arith) edge in
                absurd (omega (arith, u x, count_self x [], back))
          ]
        ]

    there :
        (v d : Str)
        → 1 ≤ count v xs
        → 1 ≤ count d (before v)
        → ((1 ≤ count d (x ∷ seen)) ⊎ (1 ≤ count d xs)) × (1 ≤ count v (deps d))
    there v d m e = let (place, edge) = h v d (omega arith) e in (ground arith, edge)

module _ (g : Graph) (rank : Str → ℕ) (dag : IsDag g rank) where
  neighbors-inside :
      (direction : Direction) (v w : Str)
      → 1 ≤ count w (neighbors g direction v)
      → 1 ≤ count w (node_ids g)
  neighbors-inside dependencies v w h = (dag.inside v w h).1
  neighbors-inside dependents v w h = (dag.inside w v ((dag.opposite w v).0 h)).0

  -- The closure of a service holds what can be reached from it.
  pub compute_closure_iff :
      (direction : Direction) (start v : Str)
      → (1 ≤ count v (compute_closure g direction start))
        ↔ (Reach (neighbors g direction) start v × (start ≢ v))
  unfolding compute_closure
  compute_closure_iff direction start v =
      let found = close (length g.nodes) (neighbors g direction) start in
      let laws =
        close_lem (node_ids g) (neighbors g direction) start (neighbors-inside direction)
          (length g.nodes) (sym (length-map (λ n. n.service_id) g.nodes)) in
      (
        λ h. (laws.0 v).0 (omega (arith, h, count-sort v found)),
        λ r. omega (arith, (laws.0 v).1 r, count-sort v found),
      )

  add_closures_iff :
      (direction : Direction) (set ids : List Str) (v : Str)
      → (1 ≤ count v (add_closures g direction set ids)) ↔ (
          (1 ≤ count v set)
          ⊎ ((start : Str) × (1 ≤ count start ids)
              × (1 ≤ count v (compute_closure g direction start))))
  unfolding add_closures
  add_closures_iff direction set [] v =
      (λ h. inl h, λ h. elim h [ inl k ↦ k | inr (s, m, r) ↦ absurd (omega arith) ])
  add_closures_iff direction set (x ∷ xs) v =
      let rest = add_closures_iff direction (add_all set (compute_closure g direction x)) xs v in
      (
        λ h. elim (rest.0 h) [
          | inl k ↦ elim (add_all-only v set (compute_closure g direction x) k) [
            | inl old ↦ inl old
            | inr new ↦ inr (x, count_self x xs, new)
          ]
          | inr (s, m, r) ↦ inr (s, omega arith, r)
        ],
        λ h. elim h [
          | inl old ↦
              rest.1 (inl (omega (arith, add_all-grows v set (compute_closure g direction x))))
          | inr (s, m, r) ↦ elim (Bool-cases (str_eq x s)) [
            | inl same ↦ rest.1 (
                inl (
                  add_all-has v set (compute_closure g direction x)
                    (rw (sym (str_eq→eq x s same)) at r)))
            | inr other ↦ rest.1 (inr (s, ground arith, r))
          ]
        ],
      )

  -- The set that is sorted holds each service that is needed, and nothing else.
  pub closure_of_iff :
      (direction : Direction) (ids : List Str) (v : Str)
      → (1 ≤ count v (closure_of g direction ids)) ↔ Needed g direction ids v
  unfolding closure_of
  closure_of_iff direction ids v =
      let found = add_closures_iff direction [] ids v in
      (
        λ h. elim (add_all-only v (add_closures g direction [] ids) ids h) [
          | inl k ↦ elim (found.0 k) [
            | inl old ↦ absurd (omega arith)
            | inr (s, m, r) ↦ inr (s, m, ((compute_closure_iff direction s v).0 r).0)
          ]
          | inr k ↦ inl k
        ],
        λ h. elim h [
          | inl k ↦ add_all-has v (add_closures g direction [] ids) ids k
          | inr (s, m, r) ↦ elim (Bool-cases (str_eq s v)) [
            | inl same ↦
                add_all-has v (add_closures g direction [] ids) ids (rw (str_eq→eq s v same) at m)
            | inr other ↦
                let here = found.1 (
                  inr (s, m, (compute_closure_iff direction s v).1 (r, λ e. differ s v other e))) in
                omega (arith, here, add_all-grows v (add_closures g direction [] ids) ids)
          ]
        ],
      )
    where
      differ : (s v : Str) → str_eq s v ≡ false → s ≢ v
      differ s v other e = absurd (cc (str_eq_refl v))

  -- No service stands in the set twice.
  add_closures-Different :
      (direction : Direction) (set ids : List Str)
      → Different set
      → Different (add_closures g direction set ids)
  unfolding add_closures
  add_closures-Different direction set [] u = u
  add_closures-Different direction set (x ∷ xs) u =
      add_closures-Different direction (add_all set (compute_closure g direction x)) xs
        (add_all-Different set (compute_closure g direction x) u)

  closure_of-Different :
      (direction : Direction) (ids : List Str) → Different (closure_of g direction ids)
  unfolding closure_of
  closure_of-Different direction ids =
      add_all-Different (add_closures g direction [] ids) ids
        (add_closures-Different direction [] ids (λ v. omega arith))

  -- The set holds the neighbors of its members.
  closure_of-closed :
      (direction : Direction) (ids : List Str) (v w : Str)
      → 1 ≤ count v (closure_of g direction ids)
      → 1 ≤ count w (neighbors g direction v)
      → 1 ≤ count w (closure_of g direction ids)
  closure_of-closed direction ids v w h e = elim ((closure_of_iff direction ids v).0 h) [
    | inl k ↦ (closure_of_iff direction ids w).1 (inr (v, k, first w e))
    | inr (s, m, r) ↦ (closure_of_iff direction ids w).1 (inr (s, m, further v w r e))
  ]

  within-member :
      (set : List Str) (v d : Str)
      → 1 ≤ count d (edges_within g set v)
      → (1 ≤ count d set) × (1 ≤ count d (direct_dependencies_of g v))
  within-member set v d h =
      ground (arith, count-keep (includes set) d (direct_dependencies_of g v), includes→count d set)

  member-within :
      (set : List Str) (v d : Str)
      → 1 ≤ count d set
      → 1 ≤ count d (direct_dependencies_of g v)
      → 1 ≤ count d (edges_within g set v)
  member-within set v d m h =
      rw (count-keep (includes set) d (direct_dependencies_of g v)) (rw (count→includes d set m) h)

  sorted_set :
      (set : List Str)
      → Different set
      → (done : List Str) × (kahn set (edges_within g set) ≡ reverse done)
        × ((v : Str) → count v done ≡ count v set)
        × Ordered (edges_within g set) done
  sorted_set set u =
      kahn-Ordered set (edges_within g set) u (λ v d m h. (within-member set v d h).0) rank
        (λ v d m h. dag.decreases v d (within-member set v d h).1)

  -- Forward, the services asked for and all they depend on are listed once each, every one after its
  -- dependencies.
  pub topological_sort-forward :
      (ids : List Str)
      → InOrder (direct_dependencies_of g) [] (topological_sort g dependencies ids)
        × ((v : Str)
            → (1 ≤ count v (topological_sort g dependencies ids)) ↔ Needed g dependencies ids v)
        × Different (topological_sort g dependencies ids)
  unfolding topological_sort
  topological_sort-forward ids =
      let set = closure_of g dependencies ids in
      let (done, result, same, ordered) = sorted_set set (closure_of-Different dependencies ids) in
      let counts : (v : Str) → count v (reverse done) ≡ count v set =
        λ v. omega (arith, count-reverse v done, same v) in
      rw result (
        InOrder-imp (edges_within g set) (direct_dependencies_of g) [] (reverse done)
            (λ v d m h.
              member-within set v d
                (closure_of-closed dependencies ids v d (omega (arith, counts v)) h) h)
            (Ordered-InOrder (edges_within g set) done ordered),
        (λ v. rw (counts v) (closure_of_iff dependencies ids v)),
        λ v. omega (arith, counts v, closure_of-Different dependencies ids v),
      )

  -- In reverse, the services asked for and all that depend on them are listed once each, every one after
  -- its dependents.
  pub topological_sort-reverse :
      (ids : List Str)
      → InOrder (direct_dependents_of g) [] (topological_sort g dependents ids)
        × ((v : Str)
            → (1 ≤ count v (topological_sort g dependents ids)) ↔ Needed g dependents ids v)
        × Different (topological_sort g dependents ids)
  unfolding topological_sort
  topological_sort-reverse ids =
      let set = closure_of g dependents ids in
      let (done, result, same, ordered) = sorted_set set (closure_of-Different dependents ids) in
      rw (result, reverse-reverse done)
        (
          Ordered-dependents (edges_within g set) (direct_dependents_of g) [] done ordered
              (λ v. omega (arith, same v, closure_of-Different dependents ids v))
              (λ v d m h.
                let inside : 1 ≤ count d set =
                  closure_of-closed dependents ids v d (omega (arith, same v)) h in
                (
                  inr (omega (arith, inside, same d)),
                  member-within set d v (omega (arith, same v)) ((dag.opposite d v).0 h),
                )),
          (λ v. rw (same v) (closure_of_iff dependents ids v)),
          λ v. omega (arith, same v, closure_of-Different dependents ids v),
        )
