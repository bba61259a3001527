-- ===== src/Graph/Create.antt =====
-- What `createDependencyGraph` accepts, and the graph that it returns.
use mathlib.Core.Path.{transport, fun_ext}
use atlas_manager.Base.{
  ℕ, ◌+◌, ◌≤◌, ◌≡◌, refl, sym, ap, ◌∙◌, ◌↔◌, inl, inr, true, List, [], ◌∷◌, map, arith, Str, str_eq,
  str_eq→eq, length, Bool-cases, includes, if◌then◌else◌, All, all, Result, ok, err, ◌>>◌, some,
  none,
}
use atlas_manager.Graph.Count.{
  count, includes→count, count→includes, not-includes→count, count_self,
}
use atlas_manager.Graph.Kahn.{sort_strs, dependents_in, detect_visited}
use atlas_manager.Graph.Kahn.Result.{Different, Closed, IsRank, detect_visited_iff}
use atlas_manager.Graph.{
  Entry, Graph, GraphError, entry_ids, entry_deps, node_of, build, node_ids, check_duplicates,
  check_known, find_node, direct_dependencies_of, direct_dependents_of, detect_cycles, create_graph,
}

-- Every dependency of an entry is one of the services.
abbrev pub Known : List Str → List Entry → Type 0
Known ids es = All (λ e. (d : Str) → 1 ≤ count d e.dependencies → 1 ≤ count d ids) es

-- The edges go from a service to one of smaller rank: there is no cycle.
abbrev pub Acyclic : List Entry → Type 0
Acyclic es = (rank : Str → ℕ) × IsRank (entry_ids es) (entry_deps es) rank

check_duplicates-ok :
    (seen : List Str) (es : List Entry)
    → check_duplicates seen es ≡ ok tt
    → ((v : Str) → count v seen ≤ 1)
    → (v : Str) → count v seen + count v (entry_ids es) ≤ 1
unfolding check_duplicates
check_duplicates-ok seen [] h u v = omega (arith, u v)
check_duplicates-ok seen (e ∷ es) h u v = elim (Bool-cases (includes seen e.service_id)) [
  | inl old ↦ cc
  | inr new ↦
      let absent = not-includes→count e.service_id seen new in
      let rest : check_duplicates (e.service_id ∷ seen) es ≡ ok tt = rw new at h in
      omega (
        arith,
        check_duplicates-ok (e.service_id ∷ seen) es rest
            (λ w. ground (arith, str_eq→eq e.service_id w, u w)) v,
      )
]

check_duplicates-accepts :
    (seen : List Str) (es : List Entry)
    → ((v : Str) → count v seen + count v (entry_ids es) ≤ 1)
    → check_duplicates seen es ≡ ok tt
unfolding check_duplicates
check_duplicates-accepts seen [] h = refl
check_duplicates-accepts seen (e ∷ es) h = elim (Bool-cases (includes seen e.service_id)) [
  | inl old ↦ absurd (
      omega (
        arith,
        h e.service_id,
        includes→count e.service_id seen old,
        count_self e.service_id (entry_ids es),
      ))
  | inr new ↦ rw new (check_duplicates-accepts (e.service_id ∷ seen) es (λ v. omega (arith, h v)))
]

all-includes :
    (ids ds : List Str)
    → all (includes ids) ds ≡ true
    → (d : Str) → 1 ≤ count d ds
    → 1 ≤ count d ids
all-includes ids [] h d k = absurd (omega arith)
all-includes ids (x ∷ ds) h d k = elim (Bool-cases (str_eq x d)) [
  | inl e ↦ rw (sym (str_eq→eq x d e)) (ground (arith, includes→count x ids))
  | inr e ↦ all-includes ids ds (ground arith) d (ground arith)
]

all-includes_conv :
    (ids ds : List Str)
    → ((d : Str) → 1 ≤ count d ds → 1 ≤ count d ids)
    → all (includes ids) ds ≡ true
all-includes_conv ids [] h = refl
all-includes_conv ids (x ∷ ds) h =
    rw (count→includes x ids (h x (count_self x ds)))
      (all-includes_conv ids ds (λ d k. h d (omega arith)))

check_known-ok : (ids : List Str) (es : List Entry) → check_known ids es ≡ ok tt → Known ids es
unfolding check_known
check_known-ok ids [] h = tt
check_known-ok ids (e ∷ es) h = elim (Bool-cases (all (includes ids) e.dependencies)) [
  | inl known ↦ (all-includes ids e.dependencies known, check_known-ok ids es (rw known at h))
  | inr unknown ↦ cc
]

check_known-accepts : (ids : List Str) (es : List Entry) → Known ids es → check_known ids es ≡ ok tt
unfolding check_known
check_known-accepts ids [] h = refl
check_known-accepts ids (e ∷ es) h =
    rw (all-includes_conv ids e.dependencies h.0) (check_known-accepts ids es h.1)

-- What an entry names as a dependency, the node of its service has.
pub Known-deps :
    (ids : List Str) (es : List Entry)
    → Known ids es
    → (v d : Str) → 1 ≤ count d (entry_deps es v)
    → 1 ≤ count d ids
Known-deps ids [] h v d k = absurd (omega arith)
Known-deps ids (e ∷ es) h v d k = elim (Bool-cases (str_eq e.service_id v)) [
  | inl same ↦ h.0 d (rw same at k)
  | inr other ↦ Known-deps ids es h.1 v d (rw other at k)
]

pub entry_deps-node :
    (es : List Entry) (v d : Str) → 1 ≤ count d (entry_deps es v) → 1 ≤ count v (entry_ids es)
entry_deps-node [] v d k = absurd (omega arith)
entry_deps-node (e ∷ es) v d k = ground (arith, entry_deps-node es v d)

ids-build : (all es : List Entry) → map (λ n. n.service_id) (map (node_of all) es) ≡ entry_ids es
ids-build all [] = refl
ids-build all (e ∷ es) = ap (λ l. e.service_id ∷ l) (ids-build all es)

-- The graph that is built has the services and the dependencies of the entries.
pub node_ids-build : (es : List Entry) → node_ids (build es) ≡ entry_ids es
node_ids-build es = ids-build es es

node_deps :
    (all es : List Entry) (v : Str)
    → ◌≡◌ {A = List Str}
        (elim (find_node (map (node_of all) es) v) [ some n ↦ n.direct_dependencies | none ↦ [] ])
        (entry_deps es v)
unfolding find_node
node_deps all [] v = refl
node_deps all (e ∷ es) v = ground (arith, node_deps all es v)

pub dependencies-build :
    (es : List Entry) (v : Str) → direct_dependencies_of (build es) v ≡ entry_deps es v
unfolding direct_dependencies_of
dependencies-build es v = node_deps es es v

node_dependents :
    (all es : List Entry) (w : Str)
    → ◌≡◌ {A = List Str}
        (elim (find_node (map (node_of all) es) w) [ some n ↦ n.direct_dependents | none ↦ [] ])
        (if includes (entry_ids es) w
          then sort_strs (dependents_in (entry_ids all) (entry_deps all) w)
          else [])
unfolding find_node
node_dependents all [] w = refl
node_dependents all (e ∷ es) w = ground (arith, node_dependents all es w, str_eq→eq e.service_id w)

pub dependents-build :
    (es : List Entry) (w : Str)
    → direct_dependents_of (build es) w ≡ (
        if includes (entry_ids es) w
        then sort_strs (dependents_in (entry_ids es) (entry_deps es) w)
        else [])
unfolding direct_dependents_of
dependents-build es w = node_dependents es es w

-- What the code asks of the entries: different services, known dependencies and no cycle.
pub record IsValid (es : List Entry) : Type 0 where
  pub different : Different (entry_ids es)
  pub known : Known (entry_ids es) es
  pub acyclic : Acyclic es

entries-Closed : (es : List Entry) → Known (entry_ids es) es → Closed (entry_ids es) (entry_deps es)
entries-Closed es known v d m k = Known-deps (entry_ids es) es known v d k

visited-build :
    (es : List Entry)
    → (detect_visited (node_ids (build es)) (direct_dependencies_of (build es))
        ≡ length (node_ids (build es)))
      ≡ (detect_visited (entry_ids es) (entry_deps es) ≡ length (entry_ids es))
visited-build es =
    ap (λ (l : List Str). detect_visited l (direct_dependencies_of (build es)) ≡ length l)
      (node_ids-build es)
    ∙ ap (λ (f : Str → List Str). detect_visited (entry_ids es) f ≡ length (entry_ids es))
        (fun_ext (dependencies-build es))

detect_cycles-ok :
    (g : Graph)
    → detect_cycles g ≡ ok tt
    → detect_visited (node_ids g) (direct_dependencies_of g) ≡ length (node_ids g)
unfolding detect_cycles
detect_cycles-ok g h = ground arith

detect_cycles-accepts :
    (g : Graph)
    → detect_visited (node_ids g) (direct_dependencies_of g) ≡ length (node_ids g)
    → detect_cycles g ≡ ok tt
unfolding detect_cycles
detect_cycles-accepts g h = ground arith

three_checks :
    (a b c : Result GraphError (Unit {0})) (x : Graph) {y : Graph}
    → (a >> (b >> (c >> ok x))) ≡ ok y
    → (a ≡ ok tt) × (b ≡ ok tt) × (c ≡ ok tt) × (x ≡ y)
three_checks (ok _) (ok _) (ok _) x h = (refl, refl, refl, cc)
three_checks (err e) b c x h = cc
three_checks (ok _) (err e) c x h = cc
three_checks (ok _) (ok _) (err e) x h = cc

-- A graph is returned exactly for entries of different services, whose dependencies are services and which
-- have no cycle; and it is the graph of these entries.
pub create_graph_iff :
    (es : List Entry) (g : Graph) → (create_graph es ≡ ok g) ↔ (IsValid es × (build es ≡ g))
unfolding create_graph
create_graph_iff es g = (to, from)
  where
    to : create_graph es ≡ ok g → IsValid es × (build es ≡ g)
    to h =
        let (a, b, c, same) =
          three_checks (check_duplicates [] es) (check_known (entry_ids es) es)
            (detect_cycles (build es)) (build es) h in
        let different : Different (entry_ids es) =
          λ v. omega (arith, check_duplicates-ok [] es a (λ w. omega arith) v) in
        let known = check_known-ok (entry_ids es) es b in
        (
          record {
            different = different;
            known = known;
            acyclic =
                (detect_visited_iff (entry_ids es) (entry_deps es) different
                    (entries-Closed es known)).0
                  (transport (visited-build es) (detect_cycles-ok (build es) c));
          },
          same,
        )

    from : IsValid es × (build es ≡ g) → create_graph es ≡ ok g
    from (v, same) = rw (check_duplicates-accepts [] es (λ w. omega (arith, v.different w))) (
        rw (check_known-accepts (entry_ids es) es v.known) (
          rw
            (detect_cycles-accepts (build es) (
              transport (sym (visited-build es)) (
                (detect_visited_iff (entry_ids es) (entry_deps es) v.different
                    (entries-Closed es v.known)).1
                  v.acyclic)))
            (rw same)))
