-- ===== src/Graph/Kahn/Run.antt =====
-- The loops of the queue algorithm: they end within their fuel, and what they have done when they end.
use atlas_manager.Base.{
  ℕ, zero, suc, ◌+◌, ◌≤◌, ◌≡◌, refl, sym, ap, ◌∙◌, inl, inr, false, List, [], ◌∷◌, ◌++◌, arith, Str,
  str_eq, str_eq→eq, length, reverse, Bool-cases, includes,
}
use atlas_manager.Graph.Count.{
  one_if, count, count-append, includes→count, count_self, length_le_of_count,
}
use atlas_manager.Graph.Kahn.{
  Degrees, relax, push, push_sorted, sort_strs, insert_str, dependents_in, visit, run_batch,
  run_batches,
}
use atlas_manager.Graph.Kahn.Step.{missing, missing-cons, missing-zero_inv, Holds, relax-Holds}

pub Holds-convert :
    {nodes : List Str} {base base' : Str → ℕ} {queue queue' : List Str} {value value' : Str → ℕ}
    {deg : Degrees}
    → ((v : Str) → base v + count v queue ≡ base' v + count v queue')
    → ((v : Str) → 1 ≤ count v nodes → value v ≡ value' v)
    → Holds nodes base queue value deg
    → Holds nodes base' queue' value' deg
Holds-convert {value} {value'} e f h = record {
  degree = λ v m. rw (sym (f v m)) (h.degree v m);
  placed = λ v m z. omega (arith, e v, f v m, h.placed v m (omega (arith, f v m)));
  unplaced = λ v m z. omega (arith, e v, f v m, h.unplaced v m (omega (arith, f v m)));
  outside = λ v m. omega (arith, e v, h.outside v m);
}

-- Each node of the list has all its dependencies behind it in the list.
abbrev pub Ordered : (Str → List Str) → List Str → Type 0
Ordered deps [] = Unit
Ordered deps (id ∷ done) =
    ((d : Str) → 1 ≤ count d (deps id) → 1 ≤ count d done) × Ordered deps done

-- The graph that the loops run on. `dependents w` holds a node once for each time it depends on `w`.
pub record IsGraph (nodes : List Str) (deps dependents : Str → List Str) : Type 0 where
  pub edges : (v w : Str) → 1 ≤ count v nodes → count v (dependents w) ≡ count w (deps v)
  pub inside : (v w : Str) → 1 ≤ count v (dependents w) → 1 ≤ count v nodes

-- The state of a loop: `done` newest first, the rest of a batch, and the queue.
pub record Running (nodes : List Str) (deps : Str → List Str) (done rest queue : List Str)
    (deg : Degrees) : Type 0 where
  pub holds : Holds nodes (λ v. count v rest + count v done) queue (λ v. missing done (deps v)) deg
  pub ordered : Ordered deps done

module _ (nodes : List Str) (deps dependents : Str → List Str)
    (g : IsGraph nodes deps dependents) where
  -- No node stands twice in the lists, and nothing else stands there.
  total-le :
      (total inside value : ℕ)
      → (inside ≡ 0 → total ≡ 0)
      → (1 ≤ inside → value ≡ 0 → total ≡ 1)
      → (1 ≤ inside → 1 ≤ value → total ≡ 0)
      → (total ≤ inside) × (total ≤ 1)
  total-le total zero value a b c = (omega arith, omega arith)
  total-le total (suc n) zero a b c = (omega arith, omega arith)
  total-le total (suc n) (suc k) a b c = (omega arith, omega arith)

  pub places-le :
      {done rest queue : List Str} {deg : Degrees}
      → Running nodes deps done rest queue deg
      → (v : Str)
      → (count v rest + count v done + count v queue ≤ count v nodes)
        × (count v rest + count v done + count v queue ≤ 1)
  places-le {done} r v =
      total-le _ (count v nodes) (missing done (deps v)) (r.holds.outside v) (r.holds.placed v)
        (r.holds.unplaced v)

  -- A node that stands somewhere has no missing dependency.
  pub place-ready :
      {done rest queue : List Str} {deg : Degrees}
      → Running nodes deps done rest queue deg
      → (v : Str) → 1 ≤ count v rest + count v done + count v queue
      → missing done (deps v) ≡ 0
  place-ready {done} r v k = from_value (missing done (deps v)) refl
    where
      from_value : (n : ℕ) → missing done (deps v) ≡ n → missing done (deps v) ≡ 0
      from_value zero e = e
      from_value (suc n) e =
          absurd
            (omega (arith, r.holds.unplaced v (omega (arith, (places-le r v).0)) (omega arith)))

  -- Taking `id` off the batch.
  take-Running :
      (enqueue : Str → List Str → List Str)
      → ((v w : Str) (q : List Str) → count v (enqueue w q) ≡ count v q + one_if (str_eq w v))
      → (id : Str) (done rest queue : List Str) (deg : Degrees)
      → Running nodes deps done (id ∷ rest) queue deg
      → Running nodes deps
          (id ∷ done)
          rest
          (relax enqueue (dependents id) deg queue).1
          (relax enqueue (dependents id) deg queue).0
  take-Running enqueue grows id done rest queue deg r = record {
    holds =
        Holds-convert (λ v. omega arith) (λ v m. omega arith)
          (relax-Holds nodes (λ v. count v rest + count v (id ∷ done))
            (λ v. missing (id ∷ done) (deps v)) enqueue grows (dependents id) queue deg
            (λ v. g.inside v id)
            (Holds-convert (λ v. omega arith)
              (λ v m. omega (arith, missing-cons id done (deps v) fresh, g.edges v id m)) r.holds));
    ordered = (
      missing-zero_inv done (deps id) (place-ready r id (omega (arith, count_self id rest))),
      r.ordered,
    );
  }
    where
      fresh : includes done id ≡ false
      fresh = elim (Bool-cases (includes done id)) [
        | inl e ↦
            absurd (omega (arith, (places-le r id).1, count_self id rest, includes→count id done e))
        | inr e ↦ e
      ]

count-insert :
    (v x : Str) (xs : List Str) → count v (insert_str x xs) ≡ one_if (str_eq x v) + count v xs
unfolding insert_str
count-insert v x [] = refl
count-insert v x (y ∷ ys) = ground (arith, count-insert v x ys)

-- Sorting keeps every string as often.
pub count-sort : (v : Str) (xs : List Str) → count v (sort_strs xs) ≡ count v xs
unfolding sort_strs
count-sort v [] = refl
count-sort v (x ∷ xs) = omega (arith, count-insert v x (sort_strs xs), count-sort v xs)

length-insert : (x : Str) (xs : List Str) → length (insert_str x xs) ≡ suc (length xs)
unfolding insert_str
length-insert x [] = refl
length-insert x (y ∷ ys) = ground (arith, length-insert x ys)

pub length-sort : (xs : List Str) → length (sort_strs xs) ≡ length xs
unfolding sort_strs
length-sort [] = refl
length-sort (x ∷ xs) = length-insert x (sort_strs xs) ∙ ap suc (length-sort xs)

push-grows : (v w : Str) (q : List Str) → count v (push w q) ≡ count v q + one_if (str_eq w v)
push-grows v w q = omega (arith, count-append v q (w ∷ []))

push_sorted-grows :
    (v w : Str) (q : List Str) → count v (push_sorted w q) ≡ count v q + one_if (str_eq w v)
push_sorted-grows v w q = omega (arith, count-sort v (q ++ (w ∷ [])), push-grows v w q)

Running-shift :
    {nodes : List Str} {deps : Str → List Str} {done rest rest' queue queue' : List Str}
    {deg : Degrees}
    → ((v : Str) → count v rest + count v queue ≡ count v rest' + count v queue')
    → Running nodes deps done rest queue deg
    → Running nodes deps done rest' queue' deg
Running-shift e r = record {
  holds = Holds-convert (λ v. omega (arith, e v)) (λ v m. refl) r.holds;
  ordered = r.ordered;
}

module _ (nodes : List Str) (deps : Str → List Str)
    (g : IsGraph nodes deps (dependents_in nodes deps)) where
  -- What is done is not longer than the nodes.
  done-le :
      {done rest queue : List Str} {deg : Degrees}
      → Running nodes deps done rest queue deg
      → (id : Str) → 1 ≤ count id rest
      → suc (length done) ≤ length nodes
  done-le {done} {rest} r id k =
      length_le_of_count (id ∷ done) nodes
        (λ v. omega (arith, (places-le nodes deps _ g r v).0, count-one id rest k v))
    where
      count-one :
          (id : Str) (rest : List Str)
          → 1 ≤ count id rest
          → (v : Str) → one_if (str_eq id v) ≤ count v rest
      count-one id rest k v = elim (Bool-cases (str_eq id v)) [
        | inl e ↦ rw e (rw (sym (str_eq→eq id v e)) k)
        | inr e ↦ rw e (omega arith)
      ]

  -- The loop of `detectCycles` ends with an empty queue, and counts what it has done.
  pub visit-ends :
      (fuel visited : ℕ) (done queue : List Str) (deg : Degrees)
      → Running nodes deps done [] queue deg
      → length nodes ≤ fuel + length done
      → (done' : List Str) × (deg' : Degrees) × ((visit nodes deps fuel deg queue visited).0
            + length done
          ≡ visited + length done')
        × ((visit nodes deps fuel deg queue visited).1 ≡ [])
        × Running nodes deps done' [] [] deg'
  unfolding visit
  visit-ends zero visited done [] deg r f = (done, deg, refl, refl, r)
  visit-ends (suc fuel) visited done [] deg r f = (done, deg, refl, refl, r)
  visit-ends zero visited done (id ∷ queue) deg r f = absurd (
      omega (
        arith,
        done-le (Running-shift {rest' = id ∷ []} {queue' = queue} (λ v. omega arith) r) id
            (count_self id []),
      ))
  visit-ends (suc fuel) visited done (id ∷ queue) deg r f =
      let next =
        take-Running nodes deps (dependents_in nodes deps) g push_sorted push_sorted-grows id done
          [] queue deg (Running-shift (λ v. omega arith) r) in
      let (done', deg', counted, empty, r') =
        visit-ends fuel (visited + 1) (id ∷ done)
          (relax push_sorted (dependents_in nodes deps id) deg queue).1
          (relax push_sorted (dependents_in nodes deps id) deg queue).0 next (omega arith) in
      (done', deg', omega arith, empty, r')

  -- One batch: everything in it is done, in its order.
  batch-Running :
      (batch done queue : List Str) (deg : Degrees)
      → Running nodes deps done batch queue deg
      → (done' : List Str) × Running nodes deps done' []
          (run_batch nodes deps batch deg queue (reverse done)).1
          (run_batch nodes deps batch deg queue (reverse done)).0
        × ((run_batch nodes deps batch deg queue (reverse done)).2 ≡ reverse done')
        × (length done' ≡ length batch + length done)
  unfolding run_batch
  batch-Running [] done queue deg r = (done, r, refl, omega arith)
  batch-Running (id ∷ batch) done queue deg r =
      let next =
        take-Running nodes deps (dependents_in nodes deps) g push push-grows id done batch queue deg
          r in
      let (done', r', same, long) =
        batch-Running batch (id ∷ done) (relax push (dependents_in nodes deps id) deg queue).1
          (relax push (dependents_in nodes deps id) deg queue).0 next in
      (done', r', same, omega arith)

  -- The batches of `topologicalSort` end with an empty queue.
  pub batches-ends :
      (fuel : ℕ) (done queue : List Str) (deg : Degrees)
      → Running nodes deps done [] queue deg
      → length nodes ≤ fuel + length done
      → (done' : List Str) × (deg' : Degrees) × ((run_batches nodes deps fuel deg queue
            (reverse done)).0
          ≡ reverse done')
        × ((run_batches nodes deps fuel deg queue (reverse done)).1 ≡ [])
        × Running nodes deps done' [] [] deg'
  unfolding run_batches
  batches-ends zero done [] deg r f = (done, deg, refl, refl, r)
  batches-ends (suc fuel) done [] deg r f = (done, deg, refl, refl, r)
  batches-ends zero done (id ∷ queue) deg r f = absurd (
      omega (
        arith,
        done-le (Running-shift {rest' = id ∷ []} {queue' = queue} (λ v. omega arith) r) id
            (count_self id []),
      ))
  batches-ends (suc fuel) done (id ∷ queue) deg r f =
      let batch = sort_strs (id ∷ queue) in
      let (done1, r1, same, long) =
        batch-Running batch done [] deg
          (Running-shift (λ v. omega (arith, count-sort v (id ∷ queue))) r) in
      let deg1 = (run_batch nodes deps batch deg [] (reverse done)).0 in
      let queue1 = (run_batch nodes deps batch deg [] (reverse done)).1 in
      let (done', deg', result, empty, r') =
        batches-ends fuel done1 queue1 deg1 r1 (omega (arith, length-sort (id ∷ queue))) in
      (
        done',
        deg',
        ap (λ l. (run_batches nodes deps fuel deg1 queue1 l).0) same ∙ result,
        ap (λ l. (run_batches nodes deps fuel deg1 queue1 l).1) same ∙ empty,
        r',
      )
