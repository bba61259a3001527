-- ===== src/Graph/Dag.antt =====
-- Graphs without cycles, and the graph that `createDependencyGraph` builds.

use atlas_manager.Base.{
  ℕ, ◌≤◌, ◌<◌, ◌↔◌, inl, inr, List, [], arith, Str, Bool-cases, includes, if◌then◌else◌,
}
use atlas_manager.Graph.Count.{count, count→includes}
use atlas_manager.Graph.Kahn.{sort_strs, dependents_in}
use atlas_manager.Graph.Kahn.Run.{IsGraph, count-sort}
use atlas_manager.Graph.Kahn.Result.{Different, dependents_in-IsGraph}
use atlas_manager.Graph.{
  Entry, Graph, entry_ids, entry_deps, build, node_ids, direct_dependencies_of,
  direct_dependents_of,
}
use atlas_manager.Graph.Create.{
  Known-deps, entry_deps-node, node_ids-build, dependencies-build, dependents-build, IsValid,
}

-- A graph without cycles, and with the dependents that belong to its dependencies.
pub record IsDag (g : Graph) (rank : Str → ℕ) : Type 0 where
  pub different : Different (node_ids g)
  pub inside :
      (v d : Str)
      → 1 ≤ count d (direct_dependencies_of g v)
      → (1 ≤ count v (node_ids g)) × (1 ≤ count d (node_ids g))
  pub decreases : (v d : Str) → 1 ≤ count d (direct_dependencies_of g v) → rank d < rank v
  pub opposite :
      (v w : Str)
      → (1 ≤ count v (direct_dependents_of g w)) ↔ (1 ≤ count w (direct_dependencies_of g v))

pub build-IsDag : (es : List Entry) (v : IsValid es) → IsDag (build es) v.acyclic.0
build-IsDag es x = record {
  different = rw (node_ids-build es) x.different;
  inside = λ v d h. rw (node_ids-build es) (inside v d (rw (dependencies-build es v) at h));
  decreases =
      λ v d h. let h' = rw (dependencies-build es v) at h in x.acyclic.1 v d (inside v d h').0 h';
  opposite = λ v w. rw (dependents-build es w, dependencies-build es v) (opposite v w);
}
  where
    g : IsGraph (entry_ids es) (entry_deps es) (dependents_in (entry_ids es) (entry_deps es))
    g = dependents_in-IsGraph (entry_ids es) (entry_deps es) x.different

    inside :
        (v d : Str)
        → 1 ≤ count d (entry_deps es v)
        → (1 ≤ count v (entry_ids es)) × (1 ≤ count d (entry_ids es))
    inside v d h = (entry_deps-node es v d h, Known-deps (entry_ids es) es x.known v d h)

    opposite :
        (v w : Str)
        → (1
            ≤ count v (
                if includes (entry_ids es) w
                then sort_strs (dependents_in (entry_ids es) (entry_deps es) w)
                else []))
          ↔ (1 ≤ count w (entry_deps es v))
    opposite v w = (to, from)
      where
        to :
            1
              ≤ count v (
                  if includes (entry_ids es) w
                  then sort_strs (dependents_in (entry_ids es) (entry_deps es) w)
                  else [])
            → 1 ≤ count w (entry_deps es v)
        to h = elim (Bool-cases (includes (entry_ids es) w)) [
          | inl e ↦
              let h' = rw e at h in
              let h'' : 1 ≤ count v (dependents_in (entry_ids es) (entry_deps es) w) =
                omega (arith, h', count-sort v (dependents_in (entry_ids es) (entry_deps es) w)) in
              omega (arith, h'', g.edges v w (g.inside v w h''))
          | inr e ↦ absurd (omega (arith, rw e at h))
        ]

        from :
            1 ≤ count w (entry_deps es v)
            → 1
              ≤ count v (
                  if includes (entry_ids es) w
                  then sort_strs (dependents_in (entry_ids es) (entry_deps es) w)
                  else [])
        from h = rw (count→includes w (entry_ids es) (inside v w h).1) (
            omega (
              arith,
              count-sort v (dependents_in (entry_ids es) (entry_deps es) w),
              g.edges v w (inside v w h).0,
            ))
