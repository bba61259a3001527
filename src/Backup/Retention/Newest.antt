-- ===== src/Backup/Retention/Newest.antt =====
-- The order of the runs, and the runs that are protected.
use atlas_manager.Base.{
  ℕ, zero, suc, ◌≤◌, ◌<◌, ◌≡◌, refl, sym, ap, ◌∙◌, ◌⊎◌, All-map_imp, inl, inr, Bool, true, false,
  List, [], ◌∷◌, ◌++◌, arith, Str, length, map, some, All, Pairwise, Bool-cases, ltb,
}
use atlas_manager.Base.Int.{ℤ, ◌<ℤ◌, ltb_ℤ, eq_of_parts}
use atlas_manager.Base.Platform.{Dates}
use atlas_manager.Base.Sort.{insert_by, sort_by}
use atlas_manager.Backup.Retention.{
  BackupRun, run_time, decides, is_newer, first_of, protected_ids, RetentionPolicy,
}
use atlas_manager.Graph.Count.{count}
use atlas_manager.Backup.Retention.Laws.{count-sort_by}
use atlas_manager.Backup.Retention.Pages.{rest_of, first_of-rest_of, Pairwise-split}

module _ {A : Type 0} (before : A → A → Bool) (P : A → Type 0)
    (asym : (x y : A) → P x → P y → before x y ≡ true → before y x ≡ false)
    (trans : (x y z : A)
      → P x
      → P y
      → P z
      → before y x ≡ false
      → before z y ≡ false
      → before z x ≡ false) where
  All-insert_by :
      (Q : A → Type 0) (x : A) (ys : List A) → Q x → All Q ys → All Q (insert_by before x ys)
  unfolding insert_by
  All-insert_by Q x [] h k = (h, tt)
  All-insert_by Q x (y ∷ ys) h k = elim (Bool-cases (before y x)) [
    | inl e ↦ rw e (k.0, All-insert_by Q x ys h k.1)
    | inr e ↦ rw e (h, k)
  ]

  insert_by-Pairwise :
      (x : A) (ys : List A)
      → P x
      → All P ys
      → Pairwise (λ a b. before b a ≡ false) ys
      → Pairwise (λ a b. before b a ≡ false) (insert_by before x ys)
  unfolding insert_by
  insert_by-Pairwise x [] h k s = (tt, tt)
  insert_by-Pairwise x (y ∷ ys) h k s = elim (Bool-cases (before y x)) [
    | inl e ↦ rw e (
      All-insert_by (λ b. before b y ≡ false) x ys (asym y x k.0 h e) s.0,
      insert_by-Pairwise x ys h k.1 s.1,
    )
    | inr e ↦ rw e ((e, later y ys e k.0 k.1 s.0), s)
  ]
    where
      later :
          (y : A) (zs : List A)
          → before y x ≡ false
          → P y
          → All P zs
          → All (λ b. before b y ≡ false) zs
          → All (λ b. before b x ≡ false) zs
      later y [] e q k s = tt
      later y (z ∷ zs) e q k s = (trans x y z h q k.0 e s.0, later y zs e q k.1 s.1)

  sort_by-Pairwise :
      (xs : List A)
      → All P xs
      → Pairwise (λ a b. before b a ≡ false) (sort_by before xs) × All P (sort_by before xs)
  unfolding sort_by
  sort_by-Pairwise [] h = (tt, tt)
  sort_by-Pairwise (x ∷ xs) h =
      let (s, k) = sort_by-Pairwise xs h.1 in
      (
        insert_by-Pairwise x (sort_by before xs) h.0 k s,
        All-insert_by P x (sort_by before xs) h.0 k,
      )

-- The completion of the run reads as a time.
abbrev pub IsDated : Dates → BackupRun → Type 0
IsDated d r = (t : ℤ) × (run_time d r ≡ some t)

decides_asym :
    (a b : ℤ) (m n : ℕ)
    → decides (some a) (some b) (ltb m n) ≡ true
    → decides (some b) (some a) (ltb n m) ≡ false
decides_asym a b m n h = ground arith

decides_trans :
    (a b c : ℤ) (l m n : ℕ)
    → decides (some a) (some b) (ltb l m) ≡ false
    → decides (some b) (some c) (ltb m n) ≡ false
    → decides (some a) (some c) (ltb l n) ≡ false
decides_trans a b c l m n h k = ground arith

module _ (d : Dates) where
  is_newer-dated :
      (x y : BackupRun) (s t : ℤ)
      → run_time d x ≡ some s
      → run_time d y ≡ some t
      → is_newer d x y ≡ decides (some t) (some s) (ltb y.sequence x.sequence)
  is_newer-dated x y s t e e' =
      ap (λ a. decides a (run_time d x) (ltb y.sequence x.sequence)) e'
      ∙ ap (λ b. decides (some t) b (ltb y.sequence x.sequence)) e

  is_newer_asym :
      (x y : BackupRun) → IsDated d x → IsDated d y → is_newer d x y ≡ true → is_newer d y x ≡ false
  is_newer_asym x y (s, e) (t, e') h =
      is_newer-dated y x t s e' e
      ∙ decides_asym t s y.sequence x.sequence (sym (is_newer-dated x y s t e e') ∙ h)

  is_newer_trans :
      (x y z : BackupRun)
      → IsDated d x
      → IsDated d y
      → IsDated d z
      → is_newer d y x ≡ false
      → is_newer d z y ≡ false
      → is_newer d z x ≡ false
  is_newer_trans x y z (s, e) (t, e') (u, e'') h k =
      is_newer-dated z x u s e'' e
      ∙ decides_trans s t u x.sequence y.sequence z.sequence (sym (is_newer-dated y x t s e' e) ∙ h)
          (sym (is_newer-dated z y u t e'' e') ∙ k)

first_of-length :
    {A : Type 0} (n : ℕ) (xs : List A)
    → (length (first_of n xs) ≤ n) × (length (first_of n xs) < n → rest_of n xs ≡ [])
first_of-length n [] = (omega arith, λ h. refl)
first_of-length zero (x ∷ xs) = (omega arith, λ h. absurd (omega arith))
first_of-length (suc n) (x ∷ xs) =
    (omega (arith, (first_of-length n xs).0), λ h. (first_of-length n xs).1 (omega arith))

-- The second run was completed before the first, or at the same time with no greater sequence.
abbrev pub NotNewer : Dates → BackupRun → BackupRun → Type 0
NotNewer d k o =
    (s t : ℤ)
    → run_time d k ≡ some s
    → run_time d o ≡ some t
    → (t <ℤ s) ⊎ ((t ≡ s) × (o.sequence ≤ k.sequence))

decides_not :
    (s t : ℤ) (m n : ℕ)
    → decides (some s) (some t) (ltb m n) ≡ false
    → (t <ℤ s) ⊎ ((t ≡ s) × (n ≤ m))
decides_not s t m n h = elim (Bool-cases (ltb_ℤ t s)) [
  | inl e ↦ inl (ground (arith, e))
  | inr e ↦ inr (eq_of_parts t s (ground (arith, e, h)), ground (arith, e, h))
]

is_newer-NotNewer : (d : Dates) (k o : BackupRun) → is_newer d o k ≡ false → NotNewer d k o
is_newer-NotNewer d k o h s t e e' =
    decides_not s t k.sequence o.sequence (sym (is_newer-dated d o k t s e' e) ∙ h)

-- The runs are divided into those that are protected, as many as the policy keeps if there are as many, and
-- others, none of which was completed after one that is protected, or at the same time with a greater sequence;
-- the completion of every run reads as a time.
pub protected_ids-newest :
    (d : Dates) (p : RetentionPolicy) (runs : List BackupRun)
    → All (IsDated d) runs
    → (kept others : List BackupRun) × (protected_ids d p runs ≡ map (λ r. r.run_id) kept)
      × (length kept ≤ p.keep_last_successful)
      × (length kept < p.keep_last_successful → others ≡ [])
      × ((v : Str)
          → count v (map (λ r. r.run_id) (kept ++ others)) ≡ count v (map (λ r. r.run_id) runs))
      × All (λ k. All (λ o. NotNewer d k o) others) kept
unfolding protected_ids
protected_ids-newest d p runs dated =
    let n = p.keep_last_successful in
    let sorted = sort_by (is_newer d) runs in
    let both = first_of-rest_of n sorted in
    let up =
      (sort_by-Pairwise (is_newer d) (IsDated d) (is_newer_asym d) (is_newer_trans d) runs
        dated).0 in
    let sizes = first_of-length n sorted in
    (
      first_of n sorted,
      rest_of n sorted,
      refl,
      sizes.0,
      sizes.1,
      λ v.
          ap (λ l. count v (map (λ (r : BackupRun). r.run_id) l)) both
          ∙ count-sort_by (is_newer d) (λ r. r.run_id) v runs,
      All-map_imp _ _ (first_of n sorted)
          (λ k h. All-map_imp _ _ (rest_of n sorted) (λ o h'. is_newer-NotNewer d k o h') h)
          (Pairwise-split (λ a b. is_newer d b a ≡ false) (first_of n sorted) (rest_of n sorted)
            (rw both up)).2,
    )
