-- ===== src/Backup/Retention/Laws.antt =====
-- Which artifacts a retention removes, and what it reports.
use atlas_manager.Base.{
  ℕ, suc, ◌≤◌, ◌<◌, ◌≡◌, refl, sym, ap, ◌∙◌, inl, inr, Bool, true, false, ◌||◌, List, [], ◌∷◌,
  arith, map, Str, str_eq, str_eq→eq, Option, some, ok, length, keep, all, includes, All,
  Bool-cases, and_true, if◌then◌else◌,
}
use atlas_manager.Base.Int.{ℤ}
use atlas_manager.Base.Platform.{Dates}
use atlas_manager.Graph.Count.{count}
use atlas_manager.Base.Sort.{insert_by, sort_by}
use atlas_manager.Backup.Retention.Deletion.{
  Deletes, remove_all-Deletes, Deletes-counts, Due, outcome_of-Due,
}
use atlas_manager.Backup.Retention.{
  RetentionOutcome, BackupRun, ManagedArtifact, RetentionPolicy, RetentionPorts, has_artifact,
  protected_ids, is_successful, is_too_old, is_deleted, is_earlier, deletion_of, remove_all,
  outcome_of, with_artifacts, with_runs, released, with_gate, execute_retention,
}
use atlas_manager.Backup.Retention.Pages.{Answers, Ascending, read_pages-history}

abbrev pub run_ids : List ManagedArtifact → List Str
run_ids artifacts = map (λ a. a.run_id) artifacts

module _ {A : Type 0} (before : A → A → Bool) (id_of : A → Str) where
  count-insert_by :
      (v : Str) (x : A) (xs : List A)
      → count v (map id_of (insert_by before x xs)) ≡ count v (map id_of (x ∷ xs))
  unfolding insert_by
  count-insert_by v x [] = refl
  count-insert_by v x (y ∷ ys) = elim (Bool-cases (before y x)) [
    | inl e ↦ rw e (omega (arith, count-insert_by v x ys))
    | inr e ↦ rw e refl
  ]

  pub count-sort_by :
      (v : Str) (xs : List A) → count v (map id_of (sort_by before xs)) ≡ count v (map id_of xs)
  unfolding sort_by
  count-sort_by v [] = refl
  count-sort_by v (x ∷ xs) =
      omega (arith, count-insert_by v x (sort_by before xs), count-sort_by v xs)

known-is_deleted :
    (b c e : Bool) → e ≡ true → (if b then false else c || e) ≡ (if b then false else true)
known-is_deleted true c e h = refl
known-is_deleted false true e h = refl
known-is_deleted false false e h = h

module _ (d : Dates) (p : RetentionPolicy) (runs : List BackupRun) (now : ℤ) where
  count-deleted :
      (v : Str) (artifacts : List ManagedArtifact)
      → all (λ a. is_successful runs a.run_id) artifacts ≡ true
      → count v (run_ids (keep (is_deleted d p runs now) artifacts))
        ≡ (if includes (protected_ids d p runs) v then 0 else count v (run_ids artifacts))
  count-deleted v [] h = elim (Bool-cases (includes (protected_ids d p runs) v)) [
    | inl e ↦ rw e refl
    | inr e ↦ rw e refl
  ]
  count-deleted v (a ∷ rest) h =
      let (known, others) =
        and_true (is_successful runs a.run_id) (all (λ a. is_successful runs a.run_id) rest) h in
      let chosen =
        known-is_deleted (includes (protected_ids d p runs) a.run_id) (is_too_old d p now a)
          (is_successful runs a.run_id) known in
      elim (Bool-cases (str_eq a.run_id v)) [
        | inl same ↦
            let one : includes (protected_ids d p runs) a.run_id
                ≡ includes (protected_ids d p runs) v =
              ap (includes (protected_ids d p runs)) (str_eq→eq a.run_id v same) in
            ground (arith, chosen, one, count-deleted v rest others)
        | inr other ↦ ground (arith, chosen, count-deleted v rest others)
      ]

-- The deletion holds exactly the artifacts whose runs are not protected, whatever their age and the time.
deletion_of-unprotected :
    (d : Dates) (collates : Str → Str → Bool) (p : RetentionPolicy) (runs : List BackupRun)
    (now : ℤ) (artifacts : List ManagedArtifact) (v : Str)
    → all (λ a. is_successful runs a.run_id) artifacts ≡ true
    → count v (run_ids (deletion_of d collates p runs now artifacts))
      ≡ (if includes (protected_ids d p runs) v then 0 else count v (run_ids artifacts))
unfolding deletion_of
deletion_of-unprotected d collates p runs now artifacts v h =
    count-sort_by (is_earlier d collates) (λ a. a.run_id) v
      (keep (is_deleted d p runs now) artifacts)
    ∙ count-deleted d p runs now v artifacts h

-- Two policies that keep the same number of runs remove the same artifacts at all times, whatever their maximal
-- ages are; every artifact belongs to a successful run.
pub deletion_of-age :
    (d : Dates) (collates : Str → Str → Bool) (n : ℕ) (age age' : Option ℕ) (runs : List BackupRun)
    (now now' : ℤ) (artifacts : List ManagedArtifact)
    → all (λ a. is_successful runs a.run_id) artifacts ≡ true
    → (v : Str)
    → count v (
        run_ids (
          deletion_of d collates
            (record { keep_last_successful = n; max_successful_age_days = age })
            runs
            now
            artifacts))
      ≡ count v (
          run_ids (
            deletion_of d collates
              (record { keep_last_successful = n; max_successful_age_days = age' })
              runs
              now'
              artifacts))
unfolding protected_ids
deletion_of-age d collates n age age' runs now now' artifacts h v =
    deletion_of-unprotected d collates
      (record { keep_last_successful = n; max_successful_age_days = age }) runs now artifacts v h
    ∙ sym (
        deletion_of-unprotected d collates
          (record { keep_last_successful = n; max_successful_age_days = age' }) runs now' artifacts
          v h)

length-insert_by :
    {A : Type 0} (before : A → A → Bool) (x : A) (xs : List A)
    → length (insert_by before x xs) ≡ suc (length xs)
unfolding insert_by
length-insert_by before x [] = refl
length-insert_by before x (y ∷ ys) = elim (Bool-cases (before y x)) [
  | inl e ↦ rw e (ap suc (length-insert_by before x ys))
  | inr e ↦ rw e refl
]

length-sort_by :
    {A : Type 0} (before : A → A → Bool) (xs : List A) → length (sort_by before xs) ≡ length xs
unfolding sort_by
length-sort_by before [] = refl
length-sort_by before (x ∷ xs) =
    length-insert_by before x (sort_by before xs) ∙ ap suc (length-sort_by before xs)

length-keep_le : {A : Type 0} (p : A → Bool) (xs : List A) → length (keep p xs) ≤ length xs
length-keep_le p [] = omega arith
length-keep_le p (x ∷ xs) = ground (arith, length-keep_le p xs)

-- A retention that takes the gate, of a store that answers with its history page by page, and whose artifacts all
-- belong to a run of the history, removes the artifacts of a list, in its order, until a removal fails, and reports
-- how many: never more than there are, and all of the list if all removals succeed. It is completed exactly if no
-- removal failed, blocked if the first one did and partial if a later one did. The list holds exactly the artifacts
-- whose run is not protected. It releases the gate.
pub execute_retention-removes :
    {W : Type 0} (ports : RetentionPorts W) (d : Dates) (collates : Str → Str → Bool) (fuel : ℕ)
    (target : Str) (w held : W) (p : RetentionPolicy) (history : List BackupRun)
    (artifacts : List ManagedArtifact)
    → ports.find_by_id target ≡ some p
    → ports.try_acquire w ≡ some held
    → Answers history (ports.query target held)
    → Ascending history
    → All (λ r. 0 < r.sequence) history
    → ports.list_managed target held ≡ some artifacts
    → length history < fuel
    → all (λ a. is_successful (keep has_artifact history) a.run_id) artifacts ≡ true
    → (deletion : List ManagedArtifact) × (left : W) × (n : ℕ) × (finished : Bool)
      × (outcome : RetentionOutcome) × Deletes ports target deletion held left n finished
      × Due n finished outcome
      × (execute_retention ports d collates fuel target w ≡ (
        ports.release left,
        ok (record {
          target_id = target;
          processed_count = length artifacts;
          deleted_count = n;
          result = outcome;
        }),
      ))
      × (n ≤ length artifacts)
      × (finished ≡ true → n ≡ length deletion)
      × ((v : Str)
          → count v (run_ids deletion) ≡ (
              if includes (protected_ids d p (keep has_artifact history)) v
              then 0
              else count v (run_ids artifacts)))
unfolding execute_retention deletion_of
execute_retention-removes ports d collates fuel target w held p history artifacts found acquired
      answers up positive listed enough known =
    let runs = keep has_artifact history in
    let deletion = deletion_of d collates p runs (ports.now held) artifacts in
    let ran = remove_all ports target deletion held in
    let removes = remove_all-Deletes ports target deletion held in
    let counts = Deletes-counts ports target deletion held ran.0 ran.1.0 ran.1.1 removes in
    let few : length deletion ≤ length artifacts = omega (
      arith,
      length-sort_by (is_earlier d collates)
          (keep (is_deleted d p runs (ports.now held)) artifacts),
      length-keep_le (is_deleted d p runs (ports.now held)) artifacts,
    ) in
    (
      deletion,
      ran.0,
      ran.1.0,
      ran.1.1,
      outcome_of ran.1.0 ran.1.1,
      removes,
      outcome_of-Due ran.1.0 ran.1.1,
      rw (found, execute_retention)
          (ap (λ o. with_gate ports d collates fuel target p o w) acquired
            ∙ ap (λ o. released ports d collates (with_runs ports d collates target p o held))
                (read_pages-history history (ports.query target held) fuel answers up positive
                  enough)
            ∙ ap
                (λ o.
                  released ports d collates (with_artifacts ports d collates target p runs o held))
                listed
            ∙ rw (known, with_artifacts) refl),
      omega (arith, counts.0, few),
      counts.1,
      λ v. deletion_of-unprotected d collates p runs (ports.now held) artifacts v known,
    )
