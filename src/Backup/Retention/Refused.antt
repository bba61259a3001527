-- ===== src/Backup/Retention/Refused.antt =====
-- The retentions that remove nothing.
use atlas_manager.Base.{
  ℕ, ◌<◌, ◌≡◌, refl, ap, ◌∙◌, inl, inr, Bool, true, false, List, [], ◌∷◌, arith, Str, some, ok,
  length, keep, all, any, All, Bool-cases, str_eq, str_eq→eq,
}
use atlas_manager.Base.Platform.{Dates}
use atlas_manager.Backup.Retention.{
  BackupRun, ManagedArtifact, RetentionPolicy, RetentionPorts, blocked, has_artifact, is_successful,
  with_artifacts, with_runs, released, with_gate, execute_retention,
}
use atlas_manager.Backup.Retention.Pages.{Answers, Ascending, read_pages-history}

stray-unknown :
    (runs : List BackupRun) (artifacts : List ManagedArtifact) (stray : ManagedArtifact)
    → any (λ a. str_eq a.run_id stray.run_id) artifacts ≡ true
    → is_successful runs stray.run_id ≡ false
    → all (λ a. is_successful runs a.run_id) artifacts ≡ false
stray-unknown runs [] stray h k = cc
stray-unknown runs (a ∷ rest) stray h k = elim (Bool-cases (str_eq a.run_id stray.run_id)) [
  | inl e ↦
      let gone : is_successful runs a.run_id ≡ false =
        ap (is_successful runs) (str_eq→eq a.run_id stray.run_id e) ∙ k in
      rw gone refl
  | inr e ↦ ground (arith, stray-unknown runs rest stray, e, h, k)
]

-- A retention that has the gate, of a store that answers with its history page by page, is blocked if there is an
-- artifact of no run of the history with an artifact: it removes nothing and releases the gate.
pub execute_retention-blocked :
    {W : Type 0} (ports : RetentionPorts W) (d : Dates) (collates : Str → Str → Bool) (fuel : ℕ)
    (target : Str) (w held : W) (p : RetentionPolicy) (history : List BackupRun)
    (artifacts : List ManagedArtifact) (stray : ManagedArtifact)
    → ports.find_by_id target ≡ some p
    → ports.try_acquire w ≡ some held
    → Answers history (ports.query target held)
    → Ascending history
    → All (λ r. 0 < r.sequence) history
    → length history < fuel
    → ports.list_managed target held ≡ some artifacts
    → any (λ a. str_eq a.run_id stray.run_id) artifacts ≡ true
    → is_successful (keep has_artifact history) stray.run_id ≡ false
    → execute_retention ports d collates fuel target w ≡ (
      ports.release held,
      ok (record {
        target_id = target;
        processed_count = length artifacts;
        deleted_count = 0;
        result = blocked;
      }),
    )
unfolding execute_retention
execute_retention-blocked ports d collates fuel target w held p history artifacts stray found
      acquired answers up positive enough listed here unknown =
    let runs = keep has_artifact history in
    rw (found, execute_retention)
      (ap (λ o. with_gate ports d collates fuel target p o w) acquired
        ∙ ap (λ o. released ports d collates (with_runs ports d collates target p o held))
            (read_pages-history history (ports.query target held) fuel answers up positive enough)
        ∙ ap (λ o. released ports d collates (with_artifacts ports d collates target p runs o held))
            listed
        ∙ rw (stray-unknown runs artifacts stray here unknown, with_artifacts) refl)
