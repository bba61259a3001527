-- ===== src/Graph/Kahn/Result.antt =====
-- What the queue loops have found when they end, and cycles.
use atlas_manager.Base.{
  ℕ, zero, suc, ◌+◌, ◌≤◌, ◌<◌, ◌≡◌, refl, sym, ◌∙◌, ◌↔◌, inl, inr, false, List, [], ◌∷◌, arith, Str,
  str_eq, str_eq→eq, length, reverse, Bool-cases, if◌then◌else◌, keep, ◌==◌,
}
use atlas_manager.Graph.Count.{
  one_if, count, count-append, count-keep, count→includes, length_le_of_count, count_le_of_length,
}
use atlas_manager.Graph.Kahn.{
  Degrees, edges_to, dependents_in, initial_degrees, initial_queue, detect_visited, kahn,
}
use atlas_manager.Graph.Kahn.Step.{missing-nil, missing-zero}
use atlas_manager.Graph.Kahn.Run.{
  Ordered, IsGraph, Running, places-le, count-sort, visit-ends, batches-ends,
}

count-edges_to :
    (v u w : Str) (ds : List Str)
    → count v (edges_to w u ds) ≡ (if str_eq u v then count w ds else 0)
count-edges_to v u w [] = ground arith
count-edges_to v u w (d ∷ ds) = ground (arith, count-edges_to v u w ds)

count-dependents_none :
    (nodes : List Str) (deps : Str → List Str) (v w : Str)
    → count v nodes ≡ 0
    → count v (dependents_in nodes deps w) ≡ 0
unfolding dependents_in
count-dependents_none [] deps v w h = refl
count-dependents_none (x ∷ xs) deps v w h = ground (
  arith,
  count-append v (edges_to w x (deps x)) (dependents_in xs deps w),
  count-edges_to v x w (deps x),
  count-dependents_none xs deps v w,
)

count-dependents_one :
    (nodes : List Str) (deps : Str → List Str) (v w : Str)
    → count v nodes ≡ 1
    → count v (dependents_in nodes deps w) ≡ count w (deps v)
unfolding dependents_in
count-dependents_one [] deps v w h = absurd (omega arith)
count-dependents_one (x ∷ xs) deps v w h = ground (
  arith,
  count-append v (edges_to w x (deps x)) (dependents_in xs deps w),
  count-edges_to v x w (deps x),
  count-dependents_one xs deps v w,
  count-dependents_none xs deps v w,
  str_eq→eq x v,
)

-- A list of different nodes.
abbrev pub Different : List Str → Type 0
Different xs = (v : Str) → count v xs ≤ 1

pub dependents_in-IsGraph :
    (nodes : List Str) (deps : Str → List Str)
    → Different nodes
    → IsGraph nodes deps (dependents_in nodes deps)
dependents_in-IsGraph nodes deps different = record {
  edges = λ v w m. count-dependents_one nodes deps v w (omega (arith, different v));
  inside = λ v w m. some_count v w (count v nodes) refl m;
}
  where
    some_count :
        (v w : Str) (n : ℕ)
        → count v nodes ≡ n
        → 1 ≤ count v (dependents_in nodes deps w)
        → 1 ≤ count v nodes
    some_count v w zero e m = absurd (omega (arith, count-dependents_none nodes deps v w e))
    some_count v w (suc n) e m = omega arith

initial-Running :
    (nodes : List Str) (deps : Str → List Str)
    → Different nodes
    → Running nodes deps [] [] (initial_queue nodes deps) (initial_degrees nodes deps)
initial-Running nodes deps different = record {
  holds = record {
    degree = λ v m. ground (arith, count→includes v nodes m, missing-nil (deps v));
    placed = λ v m z. ground (arith, in_queue v, missing-nil (deps v), different v);
    unplaced = λ v m z. ground (arith, in_queue v, missing-nil (deps v));
    outside = λ v m. ground (arith, in_queue v);
  };
  ordered = tt;
}
  where
    in_queue :
        (v : Str)
        → count v (initial_queue nodes deps) ≡ (if length (deps v) == 0 then count v nodes else 0)
    in_queue v =
        count-sort v (keep (λ u. length (deps u) == 0) nodes)
        ∙ count-keep (λ u. length (deps u) == 0) v nodes

-- Each dependency of a node has a smaller rank than the node.
abbrev pub IsRank : List Str → (Str → List Str) → (Str → ℕ) → Type 0
IsRank nodes deps rank = (v d : Str) → 1 ≤ count v nodes → 1 ≤ count d (deps v) → rank d < rank v

-- The dependencies of a node are nodes.
abbrev pub Closed : List Str → (Str → List Str) → Type 0
Closed nodes deps = (v d : Str) → 1 ≤ count v nodes → 1 ≤ count d (deps v) → 1 ≤ count d nodes

rank_in : List Str → Str → ℕ
rank_in [] v = 0
rank_in (x ∷ done) v = if str_eq x v then suc (length done) else rank_in done v

rank_in-le : (done : List Str) (v : Str) → rank_in done v ≤ length done
unfolding rank_in
rank_in-le [] v = omega arith
rank_in-le (x ∷ done) v = ground (arith, rank_in-le done v)

-- In an ordered list the dependencies of a node stand in the list too.
pub Ordered-mem :
    (deps : Str → List Str) (done : List Str) (v d : Str)
    → Ordered deps done
    → 1 ≤ count v done
    → 1 ≤ count d (deps v)
    → 1 ≤ count d done
Ordered-mem deps [] v d o m k = absurd (omega arith)
Ordered-mem deps (x ∷ done) v d o m k = elim (Bool-cases (str_eq x v)) [
  | inl e ↦ omega (arith, o.0 d (rw (sym (str_eq→eq x v e)) at k))
  | inr e ↦
      let m' : 1 ≤ one_if (str_eq x v) + count v done = m in
      let m'' : 1 ≤ one_if false + count v done = rw e at m' in
      omega (arith, Ordered-mem deps done v d o.1 (omega arith) k)
]

Ordered-rank :
    (deps : Str → List Str) (done : List Str) (v d : Str)
    → Ordered deps done
    → Different done
    → 1 ≤ count v done
    → 1 ≤ count d (deps v)
    → rank_in done d < rank_in done v
unfolding rank_in
Ordered-rank deps [] v d o u m k = absurd (omega arith)
Ordered-rank deps (x ∷ done) v d o u m k = elim (Bool-cases (str_eq x v)) [
  | inl e ↦
      let before = o.0 d (rw (sym (str_eq→eq x v e)) at k) in ground (arith, u d, rank_in-le done d)
  | inr e ↦
      let m' : 1 ≤ one_if (str_eq x v) + count v done = m in
      let m'' : 1 ≤ one_if false + count v done = rw e at m' in
      let m3 : 1 ≤ count v done = omega arith in
      let ih = Ordered-rank deps done v d o.1 (λ w. omega (arith, u w)) m3 k in
      let before = Ordered-mem deps done v d o.1 m3 k in ground (arith, u d)
]

module _ (nodes : List Str) (deps : Str → List Str) (different : Different nodes)
    (closed : Closed nodes deps) where
  -- With a rank nothing is left over.
  all_done :
      (rank : Str → ℕ) {done : List Str} {deg : _}
      → IsRank nodes deps rank
      → Running nodes deps done [] [] deg
      → (k : ℕ) (v : Str) → rank v < k
      → 1 ≤ count v nodes
      → 1 ≤ count v done
  all_done rank h r zero v lt m = absurd (omega arith)
  all_done rank {done} h r (suc k) v lt m =
      let none_missing =
        missing-zero done (deps v)
          (λ d e. all_done rank h r k d (omega (arith, h v d m e)) (closed v d m e)) in
      omega (arith, r.holds.placed v m none_missing)

  done-all :
      {done : List Str} {deg : _}
      → Running nodes deps done [] [] deg
      → (v : Str) → (count v done ≤ count v nodes) × (count v done ≤ 1)
  done-all r v =
      let p = places-le nodes deps _ (dependents_in-IsGraph nodes deps different) r v in
      (omega (arith, p.0), omega (arith, p.1))

  every :
      (rank : Str → ℕ) {done : List Str} {deg : _}
      → IsRank nodes deps rank
      → Running nodes deps done [] [] deg
      → (v : Str) → count v nodes ≤ count v done
  every rank {done} h r v = node (count v nodes) refl
    where
      node : (n : ℕ) → count v nodes ≡ n → count v nodes ≤ count v done
      node zero e = omega arith
      node (suc n) e =
          omega (arith, different v, all_done rank h r (suc (rank v)) v (omega arith) (omega arith))

  visited-ends :
      (done : List Str) × (deg : Degrees) × (detect_visited nodes deps ≡ length done)
      × Running nodes deps done [] [] deg
  unfolding detect_visited
  visited-ends =
      let (done, deg, counted, empty, r) =
        visit-ends nodes deps (dependents_in-IsGraph nodes deps different) (length nodes) 0 []
          (initial_queue nodes deps) (initial_degrees nodes deps)
          (initial-Running nodes deps different) (omega arith) in
      (done, deg, omega arith, r)

  -- All nodes are visited exactly if the graph has no cycle.
  pub detect_visited_iff :
      (detect_visited nodes deps ≡ length nodes) ↔ ((rank : Str → ℕ) × IsRank nodes deps rank)
  detect_visited_iff = (to_rank, from_rank)
    where
      to_rank : detect_visited nodes deps ≡ length nodes → (rank : Str → ℕ) × IsRank nodes deps rank
      to_rank e =
          let (done, deg, counted, r) = visited-ends in
          let every = count_le_of_length done nodes (λ v. (done-all r v).0) (omega arith) in
          (
            rank_in done,
            λ v d m k.
                Ordered-rank deps done v d r.ordered (λ w. (done-all r w).1)
                  (omega (arith, every v)) k,
          )

      from_rank :
          ((rank : Str → ℕ) × IsRank nodes deps rank) → detect_visited nodes deps ≡ length nodes
      from_rank (rank, h) =
          let (done, deg, counted, r) = visited-ends in
          let long = length_le_of_count nodes done (λ v. every rank h r v) in
          let short = length_le_of_count done nodes (λ v. (done-all r v).0) in omega arith

  -- On a graph with no cycle every node is in the result exactly once, behind its dependencies.
  pub kahn-Ordered :
      (rank : Str → ℕ)
      → IsRank nodes deps rank
      → (done : List Str) × (kahn nodes deps ≡ reverse done)
        × ((v : Str) → count v done ≡ count v nodes)
        × Ordered deps done
  unfolding kahn
  kahn-Ordered rank h =
      let (done, deg, result, empty, r) =
        batches-ends nodes deps (dependents_in-IsGraph nodes deps different) (length nodes) []
          (initial_queue nodes deps) (initial_degrees nodes deps)
          (initial-Running nodes deps different) (omega arith) in
      (done, result, λ v. omega (arith, every rank h r v, (done-all r v).0), r.ordered)
