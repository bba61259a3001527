-- ===== src/Backup/Retention/Deletion.antt =====
-- The loop of the deletion, and the result that it leads to.
use atlas_manager.Base.{
  ℕ, zero, suc, ◌≤◌, ◌<◌, ◌≡◌, ◌↔◌, refl, ap, Bool, true, false, List, [], ◌∷◌, arith, Str, length,
}
use atlas_manager.Backup.Retention.{
  RetentionOutcome, completed, blocked, partial, ManagedArtifact, RetentionPorts, add_removal,
  remove_all, outcome_of,
}

module _ {W : Type 0} (ports : RetentionPorts W) (target : Str) where
  -- From one state of the world to another, the artifacts of the list are removed one after the other, in the
  -- order of the list, until a removal fails; with how many were removed, and whether all were.
  pub data Deletes : List ManagedArtifact → W → W → ℕ → Bool → Type 0 where
    all_removed : (w : W) → Deletes [] w w 0 true
    removal_failed :
        (a : ManagedArtifact) (rest : List ManagedArtifact) (w w' : W)
        → ports.remove_managed target a.run_id w ≡ (w', false)
        → Deletes (a ∷ rest) w w' 0 false
    removed :
        (a : ManagedArtifact) (rest : List ManagedArtifact) (w w' w'' : W) (n : ℕ) (finished : Bool)
        → ports.remove_managed target a.run_id w ≡ (w', true)
        → Deletes rest w' w'' n finished
        → Deletes (a ∷ rest) w w'' (suc n) finished

  add_removal-Deletes :
      (a : ManagedArtifact) (rest : List ManagedArtifact) (w w' : W) (b : Bool)
      (later : W × (ℕ × Bool))
      → ports.remove_managed target a.run_id w ≡ (w', b)
      → Deletes rest w' later.0 later.1.0 later.1.1
      → Deletes
          (a ∷ rest)
          w
          (add_removal b w' later).0
          (add_removal b w' later).1.0
          (add_removal b w' later).1.1
  add_removal-Deletes a rest w w' true later e r =
      removed a rest w w' later.0 later.1.0 later.1.1 e r
  add_removal-Deletes a rest w w' false later e r = removal_failed a rest w w' e

  pub remove_all-Deletes :
      (artifacts : List ManagedArtifact) (w : W)
      → Deletes artifacts w
          (remove_all ports target artifacts w).0
          (remove_all ports target artifacts w).1.0
          (remove_all ports target artifacts w).1.1
  unfolding remove_all
  remove_all-Deletes [] w = all_removed w
  remove_all-Deletes (a ∷ rest) w =
      let tried = ports.remove_managed target a.run_id w in
      add_removal-Deletes a rest w tried.0 tried.1 (remove_all ports target rest tried.0) refl
        (remove_all-Deletes rest tried.0)

  pub Deletes-counts :
      (artifacts : List ManagedArtifact) (w w' : W) (n : ℕ) (finished : Bool)
      → Deletes artifacts w w' n finished
      → (n ≤ length artifacts) × (finished ≡ true → n ≡ length artifacts)
  Deletes-counts _ _ _ _ _ (all_removed w) = (omega arith, λ e. refl)
  Deletes-counts _ _ _ _ _ (removal_failed a rest w w' e) = (omega arith, λ k. cc)
  Deletes-counts _ _ _ _ _ (removed a rest w w' w'' n finished e r) =
      let counts = Deletes-counts rest w' w'' n finished r in
      (omega (arith, counts.0), λ k. ap suc (counts.1 k))

-- The result that is due for a number of removals.
abbrev pub Due : ℕ → Bool → RetentionOutcome → Type 0
Due n finished r =
    ((r ≡ completed) ↔ (finished ≡ true))
    × ((r ≡ blocked) ↔ (finished ≡ false) × (n ≡ 0))
    × ((r ≡ partial) ↔ (finished ≡ false) × (0 < n))

pub outcome_of-Due : (n : ℕ) (finished : Bool) → Due n finished (outcome_of n finished)
outcome_of-Due n true = ((λ e. refl, λ e. refl), (λ e. cc, λ e. cc), (λ e. cc, λ e. cc))
outcome_of-Due zero false =
    ((λ e. cc, λ e. cc), (λ e. (refl, refl), λ e. refl), (λ e. cc, λ e. absurd (omega arith)))
outcome_of-Due (suc n) false = (
  (λ e. cc, λ e. cc),
  (λ e. cc, λ e. absurd (omega arith)),
  (λ e. (refl, omega arith), λ e. refl),
)
