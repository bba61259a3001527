-- ===== src/Graph/Closure/Laws.antt =====
-- The loop of `computeClosure` and the services that can be reached.
use atlas_manager.Base.{
  ℕ, zero, suc, ◌+◌, ◌≤◌, ◌≡◌, ◌≢◌, refl, sym, ap, ◌⊎◌, ◌↔◌, inl, inr, true, false, ◌||◌, List, [],
  ◌∷◌, ◌++◌, arith, Str, str_eq, str_eq→eq, length, length-append, Bool-cases, includes,
}
use atlas_manager.Graph.Count.{
  count, count-append, includes→count, not-includes→count, count_self, length_le_of_count,
}
use atlas_manager.Graph.Closure.{add_new, close_from, close}

-- `w` can be reached from `start` by one edge or more.
pub data Reach (next : Str → List Str) (start : Str) : Str → Type 0 where
  first : (w : Str) → 1 ≤ count w (next start) → Reach next start w
  further : (v w : Str) → Reach next start v → 1 ≤ count w (next v) → Reach next start w

-- What the inner loop does to the result and the stack.
record Adds (start : Str) (ns result stack : List Str) (after : List Str × List Str) : Type 0 where
  same_counts : (v : Str) → count v after.0 + count v stack ≡ count v result + count v after.1
  same_lengths : length after.0 + length stack ≡ length result + length after.1
  grows : (v : Str) → count v result ≤ count v after.0
  has_new : (v : Str) → 1 ≤ count v ns → (start ≡ v) ⊎ (1 ≤ count v after.0)
  only_new : (v : Str) → 1 ≤ count v after.0 → (1 ≤ count v result) ⊎ (1 ≤ count v ns)
  no_start : count start result ≡ 0 → count start after.0 ≡ 0
  once : (v : Str) → count v result ≤ 1 → count v after.0 ≤ 1

add_new-Adds :
    (start : Str) (ns result stack : List Str)
    → Adds start ns result stack (add_new start ns result stack)
unfolding add_new
add_new-Adds start [] result stack = record {
  same_counts = λ v. refl;
  same_lengths = refl;
  grows = λ v. omega arith;
  has_new = λ v h. absurd (omega arith);
  only_new = λ v h. inl h;
  no_start = λ h. h;
  once = λ v h. h;
}
add_new-Adds start (n ∷ ns) result stack = elim (Bool-cases (includes result n || str_eq n start)) [
  | inl e ↦ rw e (skip e (add_new-Adds start ns result stack))
  | inr e ↦ rw e (add e (add_new-Adds start ns (result ++ (n ∷ [])) (n ∷ stack)))
]
  where
    skip :
        (includes result n || str_eq n start) ≡ true
        → Adds start ns result stack (add_new start ns result stack)
        → Adds start (n ∷ ns) result stack (add_new start ns result stack)
    skip e a = record {
      same_counts = a.same_counts;
      same_lengths = a.same_lengths;
      grows = a.grows;
      has_new = λ v h. ground (
        arith,
        a.has_new v,
        str_eq→eq n v,
        str_eq→eq n start,
        includes→count n result,
        a.grows v,
      );
      only_new = λ v h. ground (arith, a.only_new v h);
      no_start = a.no_start;
      once = a.once;
    }

    add :
        (includes result n || str_eq n start) ≡ false
        → Adds start ns
            (result ++ (n ∷ []))
            (n ∷ stack)
            (add_new start ns (result ++ (n ∷ [])) (n ∷ stack))
        → Adds start (n ∷ ns) result stack (add_new start ns (result ++ (n ∷ [])) (n ∷ stack))
    add e a = record {
      same_counts = λ v. omega (arith, a.same_counts v, count-append v result (n ∷ []));
      same_lengths = omega (arith, a.same_lengths, length-append {0} result (n ∷ []));
      grows = λ v. omega (arith, a.grows v, count-append v result (n ∷ []));
      has_new = λ v h.
          ground (arith, a.has_new v, str_eq→eq n v, a.grows v, count-append v result (n ∷ []));
      only_new = λ v h. ground (arith, a.only_new v h, count-append v result (n ∷ []));
      no_start = λ h. ground (arith, a.no_start, count-append start result (n ∷ []));
      once = λ v h. ground (
        arith,
        a.once v,
        count-append v result (n ∷ []),
        str_eq→eq n v,
        not-includes→count n result,
      );
    }

module _ (nodes : List Str) (next : Str → List Str) (start : Str)
    (inside : (v w : Str) → 1 ≤ count w (next v) → 1 ≤ count w nodes) where
  -- Between two rounds: what is found can be reached, and the neighbors of what is no longer on the stack
  -- are found.
  record Searching (result stack : List Str) : Type 0 where
    sound : (v : Str) → 1 ≤ count v result → Reach next start v
    stacked : (v : Str) → 1 ≤ count v stack → (start ≡ v) ⊎ (1 ≤ count v result)
    explored :
        (v w : Str)
        → (start ≡ v) ⊎ (1 ≤ count v result)
        → count v stack ≡ 0
        → 1 ≤ count w (next v)
        → (start ≡ w) ⊎ (1 ≤ count w result)
    not_start : count start result ≡ 0
    once : (v : Str) → count v result ≤ 1

  Reach-inside : {v : Str} → Reach next start v → 1 ≤ count v nodes
  Reach-inside (first w h) = inside start w h
  Reach-inside (further v w r h) = inside v w h

  result-le : {result stack : List Str} → Searching result stack → length result ≤ length nodes
  result-le {result} s = length_le_of_count result nodes (λ v. below v (count v result) refl)
    where
      below : (v : Str) (n : ℕ) → count v result ≡ n → count v result ≤ count v nodes
      below v zero e = omega arith
      below v (suc n) e = omega (arith, s.once v, Reach-inside (s.sound v (omega arith)))

  Searching-start : Searching [] (start ∷ [])
  Searching-start = record {
    sound = λ v h. absurd (omega arith);
    stacked = λ v h. ground (arith, str_eq→eq start v);
    explored = λ v w h e k. elim h [
      | inl same ↦
          absurd (omega (arith, ap (λ (u : Str). count u (start ∷ [])) same, count_self start []))
      | inr found ↦ absurd (omega arith)
    ];
    not_start = refl;
    once = λ v. omega arith;
  }

  edge_of :
      (current w : Str)
      → (start ≡ current) ⊎ Reach next start current
      → 1 ≤ count w (next current)
      → Reach next start w
  edge_of current w (inl e) h = first w (rw (← e) at h)
  edge_of current w (inr r) h = further current w r h

  round-Searching :
      (current : Str) (result stack : List Str)
      → Searching result (current ∷ stack)
      → Searching
          (add_new start (next current) result stack).0
          (add_new start (next current) result stack).1
  round-Searching current result stack s = record {
    sound = λ v h. elim (a.only_new v h) [
      | inl old ↦ s.sound v old
      | inr new ↦ edge_of current v reached new
    ];
    stacked = λ v h. ground (arith, a.same_counts v, a.grows v, s.stacked v);
    explored = λ v w h e k. elim (Bool-cases (str_eq current v)) [
      | inl same ↦ a.has_new w (rw (sym (str_eq→eq current v same)) at k)
      | inr other ↦ later v w other h e k
    ];
    not_start = a.no_start s.not_start;
    once = λ v. a.once v (s.once v);
  }
    where
      a : Adds start (next current) result stack (add_new start (next current) result stack)
      a = add_new-Adds start (next current) result stack

      reached : (start ≡ current) ⊎ Reach next start current
      reached = elim (s.stacked current (count_self current stack)) [
        | inl e ↦ inl e
        | inr found ↦ inr (s.sound current found)
      ]

      later :
          (v w : Str)
          → str_eq current v ≡ false
          → (start ≡ v) ⊎ (1 ≤ count v (add_new start (next current) result stack).0)
          → count v (add_new start (next current) result stack).1 ≡ 0
          → 1 ≤ count w (next v)
          → (start ≡ w) ⊎ (1 ≤ count w (add_new start (next current) result stack).0)
      later v w other h e k = ground (arith, a.same_counts v, a.grows v, a.grows w, s.explored v w)

  -- The outer loop: with the fuel given it ends with an empty stack.
  close_from-Searching :
      (fuel : ℕ) (result stack : List Str)
      → Searching result stack
      → length stack + length nodes ≤ fuel + length result
      → ((close_from fuel next start result stack).1 ≡ [])
        × Searching (close_from fuel next start result stack).0 []
  unfolding close_from
  close_from-Searching zero result [] s f = (refl, s)
  close_from-Searching (suc fuel) result [] s f = (refl, s)
  close_from-Searching zero result (current ∷ stack) s f = absurd (omega (arith, result-le s))
  close_from-Searching (suc fuel) result (current ∷ stack) s f =
      close_from-Searching fuel (add_new start (next current) result stack).0
        (add_new start (next current) result stack).1 (round-Searching current result stack s)
        (omega (arith, (add_new-Adds start (next current) result stack).same_lengths))

  found-all :
      {result : List Str} {v : Str}
      → Searching result []
      → Reach next start v
      → (start ≡ v) ⊎ (1 ≤ count v result)
  found-all s (first w h) = s.explored start w (inl refl) refl h
  found-all s (further v w r h) = s.explored v w (found-all s r) refl h

  -- The closure holds each service that can be reached, other than the start, once, and nothing else; the
  -- loop ends with an empty stack.
  pub close_lem :
      (size : ℕ)
      → size ≡ length nodes
      → ((v : Str) → (1 ≤ count v (close size next start)) ↔ (Reach next start v × (start ≢ v)))
        × ((v : Str) → count v (close size next start) ≤ 1)
        × ((close_from (suc size) next start [] (start ∷ [])).1 ≡ [])
  unfolding close
  close_lem size e = (λ v. (λ h. (s.sound v h, not_self v h), found v), s.once, ends.0)
    where
      ends :
          ((close_from (suc size) next start [] (start ∷ [])).1 ≡ [])
          × Searching (close_from (suc size) next start [] (start ∷ [])).0 []
      ends = close_from-Searching (suc size) [] (start ∷ []) Searching-start (omega arith)

      s : Searching (close_from (suc size) next start [] (start ∷ [])).0 []
      s = ends.1

      not_self :
          (v : Str) → 1 ≤ count v (close_from (suc size) next start [] (start ∷ [])).0 → start ≢ v
      not_self v h e = absurd (omega (arith, s.not_start, rw (← e) at h))

      found :
          (v : Str)
          → Reach next start v × (start ≢ v)
          → 1 ≤ count v (close_from (suc size) next start [] (start ∷ [])).0
      found v (r, other) = elim (found-all s r) [ inl e ↦ absurd (other e) | inr k ↦ k ]
