-- ===== src/Services/Stop/Order/Laws.antt =====
-- The rounds of `dependentFirstRequestedOrder` on a graph without cycles.
use atlas_manager.Base.{
  ℕ, zero, suc, ◌+◌, ◌≤◌, ◌<◌, ◌≡◌, refl, sym, ap, ◌∙◌, ◌⊎◌, inl, inr, true, not, List, [], ◌∷◌,
  ◌++◌, arith, Str, str_eq, str_eq→eq, some, length, length-append, Bool-cases, includes, all, keep,
  if◌then◌else◌, ltb,
}
use atlas_manager.Graph.{add_all}
use atlas_manager.Graph.Count.{
  one_if, count, count-append, count-keep, includes→count, count→includes, not-includes→count,
  count_self, length_le_of_count, member-cons,
}
use atlas_manager.Graph.Kahn.Run.{count-sort}
use atlas_manager.Graph.Order.{InOrder, add_all-has, add_all-only, add_all-Different}
use atlas_manager.Services.Stop.Order.{
  is_ready, ready_of, delete_all, add_round, order_from, dependent_first_requested_order,
}

-- The services of a list that have a dependent in another list.
abbrev pub requested_dependents : (Str → List Str) → List Str → Str → List Str
requested_dependents dependents_of requested v = keep (includes requested) (dependents_of v)

InOrder-extend :
    (before before' : Str → List Str) (seen seen' xs : List Str)
    → ((d : Str) → 1 ≤ count d seen → 1 ≤ count d seen')
    → ((v d : Str)
        → 1 ≤ count v xs
        → 1 ≤ count d (before' v)
        → (1 ≤ count d (before v)) ⊎ (1 ≤ count d seen'))
    → InOrder before seen xs
    → InOrder before' seen' xs
InOrder-extend before before' seen seen' [] more h o = tt
InOrder-extend before before' seen seen' (x ∷ xs) more h o = (
  λ d e. elim (h x d (count_self x xs) e) [ inl k ↦ more d (o.0 d k) | inr k ↦ k ],
  InOrder-extend before before' (x ∷ seen) (x ∷ seen') xs (λ d k. ground (arith, more d))
      (λ v d m e. elim (h v d (omega arith) e) [ inl k ↦ inl k | inr k ↦ inr (omega arith) ]) o.1,
)

-- Elements with no predecessor can stand first.
InOrder-free :
    (before : Str → List Str) (seen xs ys : List Str)
    → ((v d : Str) → 1 ≤ count v xs → count d (before v) ≡ 0)
    → ((seen' : List Str)
        → ((d : Str) → count d seen' ≡ count d seen + count d xs)
        → InOrder before seen' ys)
    → InOrder before seen (xs ++ ys)
InOrder-free before seen [] ys free k = k seen (λ d. omega arith)
InOrder-free before seen (x ∷ xs) ys free k = (
  λ d e. absurd (omega (arith, free x d (count_self x xs))),
  InOrder-free before (x ∷ seen) xs ys (λ v d m. free v d (omega arith))
      (λ seen' e. k seen' (λ d. omega (arith, e d))),
)

-- The set of a list holds each of its elements once.
count-set : (v : Str) (xs : List Str) → count v (add_all [] xs) ≡ one_if (includes xs v)
count-set v xs = elim (Bool-cases (includes xs v)) [
  | inl e ↦ rw e (
      omega (
        arith,
        add_all-has v [] xs (includes→count v xs e),
        add_all-Different [] xs (λ w. omega arith) v,
      ))
  | inr e ↦ rw e (ground (arith, add_all-only v [] xs, not-includes→count v xs e))
]

-- In a list without repetitions each element stands once.
pub count-Different :
    (v : Str) (xs : List Str) → count v xs ≤ 1 → count v xs ≡ one_if (includes xs v)
count-Different v xs h = elim (Bool-cases (includes xs v)) [
  | inl e ↦ rw e (omega (arith, includes→count v xs e))
  | inr e ↦ rw e (not-includes→count v xs e)
]

module _ (dependents_of : Str → List Str) where
  requested_dependents-set :
      (requested : List Str) (v d : Str)
      → 1 ≤ count d (requested_dependents dependents_of requested v)
      → 1 ≤ count d (requested_dependents dependents_of (add_all [] requested) v)
  requested_dependents-set requested v d k = ground (
    arith,
    count-keep (includes requested) d (dependents_of v),
    count-keep (includes (add_all [] requested)) d (dependents_of v),
    count-set d requested,
    count→includes d (add_all [] requested),
  )

  ready-none :
      (remaining ds : List Str) (w : Str)
      → all (λ w. not (includes remaining w)) ds ≡ true
      → 1 ≤ count w ds
      → count w remaining ≡ 0
  ready-none remaining [] w h k = absurd (omega arith)
  ready-none remaining (d ∷ ds) w h k = elim (Bool-cases (str_eq d w)) [
    | inl e ↦ rw (sym (str_eq→eq d w e)) (not-includes→count d remaining (ground arith))
    | inr e ↦ ready-none remaining ds w (ground arith) (ground arith)
  ]

  none-ready :
      (remaining ds : List Str)
      → ((w : Str) → 1 ≤ count w ds → count w remaining ≡ 0)
      → all (λ w. not (includes remaining w)) ds ≡ true
  none-ready remaining [] h = refl
  none-ready remaining (d ∷ ds) h = elim (Bool-cases (includes remaining d)) [
    | inl e ↦ absurd (omega (arith, h d (count_self d ds), includes→count d remaining e))
    | inr e ↦ rw e (none-ready remaining ds (λ w k. h w (omega arith)))
  ]

  count-ready :
      (remaining : List Str) (v : Str)
      → count v (ready_of dependents_of remaining)
        ≡ (if is_ready dependents_of remaining v then count v remaining else 0)
  count-ready remaining v =
      count-sort v (keep (is_ready dependents_of remaining) remaining)
      ∙ count-keep (is_ready dependents_of remaining) v remaining

  nonempty :
      (v : Str) (xs : List Str) → 1 ≤ count v xs → (y : Str) × (ys : List Str) × (xs ≡ y ∷ ys)
  nonempty v [] h = absurd (omega arith)
  nonempty v (y ∷ ys) h = (y, ys, refl)

  add_round-some : (xs ys : List Str) → 1 ≤ length xs → add_round xs (some ys) ≡ some (xs ++ ys)
  add_round-some [] ys h = absurd (omega arith)
  add_round-some (x ∷ xs) ys h = refl

  -- A round splits the remaining services.
  count-round :
      (remaining : List Str) (v : Str)
      → count v (ready_of dependents_of remaining)
          + count v (delete_all (ready_of dependents_of remaining) remaining)
        ≡ count v remaining
  count-round remaining v =
      let ready = ready_of dependents_of remaining in
      ground (
        arith,
        count-ready remaining v,
        count-keep (λ id. not (includes ready id)) v remaining,
        includes→count v ready,
        not-includes→count v ready,
      )

  -- A list that is not empty has an element of the greatest rank.
  top :
      (rank : Str → ℕ) (r : Str) (rs : List Str)
      → (m : Str) × (1 ≤ count m (r ∷ rs)) × ((w : Str) → 1 ≤ count w (r ∷ rs) → rank w ≤ rank m)
  top rank r [] = (
    r,
    count_self r [],
    λ w k. elim (member-cons w r [] k) [
      | inl e ↦ rw e (omega arith)
      | inr none_left ↦ absurd (omega arith)
    ],
  )
  top rank r (q ∷ qs) =
      let (m, here, most) = top rank q qs in
      elim (Bool-cases (ltb (rank m) (rank r))) [
        | inl e ↦ (
          r,
          count_self r (q ∷ qs),
          λ w k. elim (member-cons w r (q ∷ qs) k) [
            | inl same ↦ rw same (omega arith)
            | inr later ↦ ground (arith, most w later)
          ],
        )
        | inr e ↦ (
          m,
          omega arith,
          λ w k. elim (member-cons w r (q ∷ qs) k) [
            | inl same ↦ rw (← same) (ground arith)
            | inr later ↦ most w later
          ],
        )
      ]

  -- The order of the services: each once, after the dependents of it that are in the list.
  abbrev pub IsOrderOf : List Str → List Str → Type 0
  IsOrderOf requested order =
      ((v : Str) → count v order ≡ count v requested)
      × InOrder (requested_dependents dependents_of requested) [] order

  round-IsOrderOf :
      (remaining later : List Str)
      → IsOrderOf (delete_all (ready_of dependents_of remaining) remaining) later
      → IsOrderOf remaining (ready_of dependents_of remaining ++ later)
  round-IsOrderOf remaining later (same, ordered) = (
    λ v. omega (arith, count-append v ready later, same v, count-round remaining v),
    InOrder-free before [] ready later (λ v d m. free v d m)
        (λ seen' e.
          InOrder-extend (requested_dependents dependents_of rest) before [] seen' later
            (λ d k. absurd (omega arith)) (λ v d m k. known seen' e v d k) ordered),
  )
    where
      ready : List Str
      ready = ready_of dependents_of remaining

      rest : List Str
      rest = delete_all ready remaining

      before : Str → List Str
      before = requested_dependents dependents_of remaining

      free : (v d : Str) → 1 ≤ count v ready → count d (before v) ≡ 0
      free v d m = elim (Bool-cases (is_ready dependents_of remaining v)) [
        | inl r ↦ ground (
          arith,
          count-keep (includes remaining) d (dependents_of v),
          ready-none remaining (dependents_of v) d r,
          includes→count d remaining,
        )
        | inr r ↦ absurd (ground (arith, count-ready remaining v))
      ]

      known :
          (seen' : List Str)
          → ((d : Str) → count d seen' ≡ count d [] + count d ready)
          → (v d : Str) → 1 ≤ count d (before v)
          → (1 ≤ count d (requested_dependents dependents_of rest v)) ⊎ (1 ≤ count d seen')
      known seen' e v d k = ground (
        arith,
        count-keep (includes remaining) d (dependents_of v),
        count-keep (includes rest) d (dependents_of v),
        count-round remaining d,
        e d,
        count→includes d rest,
        includes→count d remaining,
      )

  module _ (rank : Str → ℕ)
      (above : (v w : Str) → 1 ≤ count w (dependents_of v) → rank v < rank w) where
    -- Some service is ready, since one has the greatest rank.
    some_ready :
        (r : Str) (rs : List Str)
        → (i : Str) × (is : List Str) × (ready_of dependents_of (r ∷ rs) ≡ i ∷ is)
    some_ready r rs =
        let (m, here, most) = top rank r rs in
        let is_top = none-ready (r ∷ rs) (dependents_of m) (λ w k.
          elim (Bool-cases (includes (r ∷ rs) w)) [
            | inl e ↦ absurd (omega (arith, above m w k, most w (includes→count w (r ∷ rs) e)))
            | inr e ↦ not-includes→count w (r ∷ rs) e
          ]) in
        nonempty m (ready_of dependents_of (r ∷ rs)) (ground (arith, count-ready (r ∷ rs) m))

    order_from-IsOrderOf :
        (fuel : ℕ) (remaining : List Str)
        → length remaining ≤ fuel
        → (order : List Str) × (order_from fuel dependents_of remaining ≡ some order)
          × IsOrderOf remaining order
    unfolding order_from
    order_from-IsOrderOf fuel [] h = ([], refl, (λ v. refl, tt))
    order_from-IsOrderOf zero (r ∷ rs) h = absurd (omega arith)
    order_from-IsOrderOf (suc fuel) (r ∷ rs) h =
        let ready = ready_of dependents_of (r ∷ rs) in
        let rest = delete_all ready (r ∷ rs) in
        let (i, is, some_first) = some_ready r rs in
        let shorter =
          length_le_of_count (ready ++ rest) (r ∷ rs)
            (λ v. omega (arith, count-append v ready rest, count-round (r ∷ rs) v)) in
        let long : 1 ≤ length ready = rw some_first (omega arith) in
        let (later, returned, h') =
          order_from-IsOrderOf fuel rest (omega (arith, length-append ready rest, shorter)) in
        (
          ready ++ later,
          ap (add_round ready) returned ∙ add_round-some ready later long,
          round-IsOrderOf (r ∷ rs) later h',
        )

    -- On a graph with a rank the order of the requested services is found within its rounds: each of them once,
    -- however often it is requested.
    pub dependent_first-InOrder :
        (requested : List Str)
        → (order : List Str) × (dependent_first_requested_order dependents_of requested
            ≡ some order)
          × ((v : Str) → count v order ≡ one_if (includes requested v))
          × InOrder (requested_dependents dependents_of requested) [] order
    unfolding dependent_first_requested_order
    dependent_first-InOrder requested =
        let remaining = add_all [] requested in
        let (order, found, (same, ordered)) =
          order_from-IsOrderOf (length remaining) remaining (omega arith) in
        (
          order,
          found,
          λ v. same v ∙ count-set v requested,
          InOrder-extend (requested_dependents dependents_of remaining)
              (requested_dependents dependents_of requested) [] [] order (λ d k. k)
              (λ v d m k. inl (requested_dependents-set requested v d k)) ordered,
        )
