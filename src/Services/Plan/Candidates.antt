-- ===== src/Services/Plan/Candidates.antt =====
-- `getCandidateServiceIds` on a graph that was created.
use atlas_manager.Base.{
  ◌≤◌, ◌≡◌, ◌↔◌, refl, ◌⊎◌, inl, inr, List, [], ◌∷◌, ◌++◌, arith, Str, str_eq, str_eq→eq, ok,
  Bool-cases,
}
use atlas_manager.Graph.Count.{count, count-append, count_self, count→includes}
use atlas_manager.Graph.Kahn.Result.{Different}
use atlas_manager.Graph.Closure.Laws.{Reach, first, further}
use atlas_manager.Graph.Order.{InOrder}
use atlas_manager.Graph.Sorted.{Needed}
use atlas_manager.Graph.Created.{created-forward, created-reverse, created-closure}
use atlas_manager.Graph.{
  Entry, Graph, create_graph, Direction, dependencies, dependents, neighbors,
  direct_dependencies_of, direct_dependents_of, compute_closure,
}
use atlas_manager.Services.State.{Operation}
use atlas_manager.Services.Plan.{candidates_of, dependents_first}

-- The service itself, and what it reaches.
abbrev pub Reaches : Graph → Direction → Str → Str → Type 0
Reaches g direction target v = (target ≡ v) ⊎ Reach (neighbors g direction) target v

pub Reach-trans :
    (next : Str → List Str) {a b c : Str} → Reach next a b → Reach next b c → Reach next a c
Reach-trans next r (first w h) = further _ w r h
Reach-trans next r (further v w s h) = further v w (Reach-trans next r s) h

module _ (es : List Entry) (g : Graph) (target : Str) (made : create_graph es ≡ ok g) where
  member-closed :
      (direction : Direction) (v : Str)
      → 1 ≤ count v (compute_closure g direction target ++ (target ∷ []))
      → Reaches g direction target v
  member-closed direction v h = elim (Bool-cases (str_eq target v)) [
    | inl e ↦ inl (str_eq→eq target v e)
    | inr e ↦
        inr
          ((created-closure es g direction target v made).0
            (ground (arith, count-append v (compute_closure g direction target) (target ∷ [])))).0
  ]

  -- What is needed for the candidates is what the target reaches.
  Needed-Reaches :
      (direction : Direction) (v : Str)
      → Needed g direction (compute_closure g direction target ++ (target ∷ [])) v
        ↔ Reaches g direction target v
  Needed-Reaches direction v = (to, from)
    where
      to :
          Needed g direction (compute_closure g direction target ++ (target ∷ [])) v
          → Reaches g direction target v
      to (inl h) = member-closed direction v h
      to (inr (start, h, r)) = elim (member-closed direction start h) [
        | inl e ↦ inr (rw e r)
        | inr s ↦ inr (Reach-trans (neighbors g direction) s r)
      ]

      here : 1 ≤ count target (compute_closure g direction target ++ (target ∷ []))
      here = omega (
        arith,
        count-append target (compute_closure g direction target) (target ∷ []),
        count_self target [],
      )

      from :
          Reaches g direction target v
          → Needed g direction (compute_closure g direction target ++ (target ∷ [])) v
      from (inl e) = inl (rw (← e) here)
      from (inr r) = inr (target, here, r)

  -- The start order: the target and all it depends on, each once, after its dependencies.
  pub start_candidates :
      InOrder (direct_dependencies_of g) [] (candidates_of g Operation.start target)
      × ((v : Str)
          → (1 ≤ count v (candidates_of g Operation.start target))
            ↔ Reaches g dependencies target v)
      × Different (candidates_of g Operation.start target)
  unfolding candidates_of
  start_candidates =
      let (sorted, exactly, different) =
        created-forward es g (compute_closure g dependencies target ++ (target ∷ [])) made in
      (
        sorted,
        λ v. (
          λ h. (Needed-Reaches dependencies v).0 ((exactly v).0 h),
          λ r. (exactly v).1 ((Needed-Reaches dependencies v).1 r),
        ),
        different,
      )

  dependents_first_candidates :
      InOrder (direct_dependents_of g) [] (dependents_first g target)
      × ((v : Str) → (1 ≤ count v (dependents_first g target)) ↔ Reaches g dependents target v)
      × Different (dependents_first g target)
  dependents_first_candidates =
      let (sorted, exactly, different) =
        created-reverse es g (compute_closure g dependents target ++ (target ∷ [])) made in
      (
        sorted,
        λ v. (
          λ h. (Needed-Reaches dependents v).0 ((exactly v).0 h),
          λ r. (exactly v).1 ((Needed-Reaches dependents v).1 r),
        ),
        different,
      )

  -- The target is among its dependents first, so nothing is added.
  stop_candidates-dependents_first :
      candidates_of g Operation.stop target ≡ dependents_first g target
  unfolding candidates_of
  stop_candidates-dependents_first =
      rw
        (count→includes target (dependents_first g target)
          ((dependents_first_candidates.1 target).1 (inl refl)))
        refl

  restart_candidates-dependents_first :
      candidates_of g Operation.restart target ≡ dependents_first g target
  unfolding candidates_of
  restart_candidates-dependents_first =
      rw
        (count→includes target (dependents_first g target)
          ((dependents_first_candidates.1 target).1 (inl refl)))
        refl

  -- The stop order: the target and all that depend on it, each once, after its dependents.
  pub stop_candidates :
      InOrder (direct_dependents_of g) [] (candidates_of g Operation.stop target)
      × ((v : Str)
          → (1 ≤ count v (candidates_of g Operation.stop target)) ↔ Reaches g dependents target v)
      × Different (candidates_of g Operation.stop target)
  stop_candidates = rw stop_candidates-dependents_first dependents_first_candidates

  pub restart_candidates :
      InOrder (direct_dependents_of g) [] (candidates_of g Operation.restart target)
      × ((v : Str)
          → (1 ≤ count v (candidates_of g Operation.restart target))
            ↔ Reaches g dependents target v)
      × Different (candidates_of g Operation.restart target)
  restart_candidates = rw restart_candidates-dependents_first dependents_first_candidates
