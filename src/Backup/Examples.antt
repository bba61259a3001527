-- ===== src/Backup/Examples.antt =====
-- Runs of the retention on a history of two backups.
use atlas_manager.Base.{
  ℕ, ◌≤◌, ◌<◌, ◌≡◌, refl, Bool, true, false, List, [], ◌∷◌, ◌++◌, arith, Str, lit, str_eq, some,
  none, ok, length, keep, all, map, includes, All, if◌then◌else◌,
}
use atlas_manager.Base.Int.{◌-ℤ◌, pos}
use atlas_manager.Base.Platform.{Dates}
use atlas_manager.Graph.Count.{count}
use atlas_manager.Base.Sort.{sort_by}
use atlas_manager.Backup.Retention.{
  BackupRun, ManagedArtifact, RetentionOutcome, RetentionPolicy, RetentionPorts, blocked, completed,
  scheduled, succeeded, has_artifact, first_of, is_successful, protected_ids, deletion_of,
  remove_all, read_pages, execute_retention,
}
use atlas_manager.Backup.Retention.Pages.{newer, Answers, Ascending, read_pages-history}
use atlas_manager.Backup.Retention.Deletion.{Deletes, Due}
use atlas_manager.Backup.Retention.Laws.{run_ids, deletion_of-age, execute_retention-removes}
use atlas_manager.Backup.Retention.Refused.{execute_retention-blocked}
use atlas_manager.Backup.Retention.Newest.{NotNewer, protected_ids-newest}

abbrev run : ℕ → Str → Str → BackupRun
run n id at = record {
  sequence = n;
  run_id = id;
  target_id = lit "db";
  trigger = scheduled;
  scheduled_for = none;
  requested_at = at;
  started_at = at;
  completed_at = some at;
  status = succeeded;
  artifact =
      some
        (record { file_count = 1; total_bytes = 10; manifest_sha256 = lit "m"; completed_at = at });
  failure_code = none;
}

abbrev monday : Str
monday = lit "monday"

abbrev tuesday : Str
tuesday = lit "tuesday"

abbrev calendar : Dates
calendar = record {
  parse = λ s. some (if str_eq s monday then pos 86400000 else pos 172800000);
  to_iso = λ t. [];
}

abbrev old : Str
old = lit "old"

abbrev new : Str
new = lit "new"

abbrev history : List BackupRun
history = run 1 old monday ∷ run 2 new tuesday ∷ []

abbrev artifact : Str → Str → ManagedArtifact
artifact id at = record {
  target_id = lit "db";
  run_id = id;
  completed_at = at;
  manifest_sha256 = lit "m";
}

abbrev artifacts : List ManagedArtifact
artifacts = artifact new tuesday ∷ artifact old monday ∷ []

-- One run is kept; no artifact is older than 30 days on the next day.
abbrev policy : RetentionPolicy
policy = record { keep_last_successful = 1; max_successful_age_days = some 30 }

-- The world is the list of the removed runs.
abbrev ports : RetentionPorts (List Str)
ports = record {
  find_by_id = λ id. some policy;
  try_acquire = λ w. some w;
  release = λ w. w;
  query = λ id w after. some (first_of 100 (keep (newer after) history));
  list_managed = λ id w. some artifacts;
  remove_managed = λ target id w. (id ∷ w, true);
  now = λ w. pos 259200000;
}

collates : Str → Str → Bool
collates s t = false

answers : Answers history (ports.query (lit "db") [])
answers after = refl

up : Ascending history
up = ((omega arith, tt), (tt, tt))

positive : All (λ r. 0 < r.sequence) history
positive = (omega arith, (omega arith, tt))

known : all (λ a. is_successful (keep has_artifact history) a.run_id) artifacts ≡ true
unfolding str_eq
known = refl

-- The old run is removed, though it is younger than 30 days.
removes_young : execute_retention ports calendar (λ s t. false) 3 (lit "db") [] ≡ (
  old ∷ [],
  ok (record { target_id = lit "db"; processed_count = 2; deleted_count = 1; result = completed }),
)
unfolding execute_retention read_pages str_eq remove_all deletion_of sort_by protected_ids ◌-ℤ◌
removes_young = refl

read_pages-history_example :
    read_pages 3 (ports.query (lit "db") []) 0 ≡ ok (keep has_artifact history)
read_pages-history_example =
    read_pages-history history (ports.query (lit "db") []) 3 answers up positive (omega arith)

deletion_of-age_example :
    count old (
      run_ids (
        deletion_of calendar collates
          (record { keep_last_successful = 1; max_successful_age_days = none })
          history
          (pos 0)
          artifacts))
    ≡ count old (
        run_ids (
          deletion_of calendar collates
            (record { keep_last_successful = 1; max_successful_age_days = some 30 })
            history
            (pos 259200000)
            artifacts))
deletion_of-age_example =
    deletion_of-age calendar collates 1 none (some 30) history (pos 0) (pos 259200000) artifacts
      known old

execute_retention-removes_example :
    (deletion : List ManagedArtifact) × (left : List Str) × (n : ℕ) × (finished : Bool)
    × (outcome : RetentionOutcome) × Deletes ports (lit "db") deletion [] left n finished
    × Due n finished outcome
    × (execute_retention ports calendar collates 3 (lit "db") [] ≡ (
      ports.release left,
      ok (record {
        target_id = lit "db";
        processed_count = length artifacts;
        deleted_count = n;
        result = outcome;
      }),
    ))
    × (n ≤ length artifacts)
    × (finished ≡ true → n ≡ length deletion)
    × ((v : Str)
        → count v (run_ids deletion) ≡ (
            if includes (protected_ids calendar policy (keep has_artifact history)) v
            then 0
            else count v (run_ids artifacts)))
execute_retention-removes_example =
    execute_retention-removes ports calendar collates 3 (lit "db") [] [] policy history artifacts
      refl refl answers up positive refl (omega arith) known

abbrev stray : ManagedArtifact
stray = artifact (lit "stray") monday

-- The same with an artifact of no run.
abbrev stray_ports : RetentionPorts (List Str)
stray_ports = record {
  find_by_id = λ id. some policy;
  try_acquire = λ w. some w;
  release = λ w. w;
  query = λ id w after. some (first_of 100 (keep (newer after) history));
  list_managed = λ id w. some (artifact new tuesday ∷ stray ∷ []);
  remove_managed = λ target id w. (id ∷ w, true);
  now = λ w. pos 259200000;
}

execute_retention-blocked_example :
    execute_retention stray_ports calendar collates 3 (lit "db") [] ≡ (
      [],
      ok (record {
        target_id = lit "db";
        processed_count = 2;
        deleted_count = 0;
        result = blocked;
      }),
    )
unfolding str_eq
execute_retention-blocked_example =
    execute_retention-blocked stray_ports calendar collates 3 (lit "db") [] [] policy history
      (artifact new tuesday ∷ stray ∷ []) stray refl refl answers up positive (omega arith) refl
      refl refl

protected_ids-newest_example :
    (kept others : List BackupRun) × (protected_ids calendar policy history
      ≡ map (λ r. r.run_id) kept)
    × (length kept ≤ policy.keep_last_successful)
    × (length kept < policy.keep_last_successful → others ≡ [])
    × ((v : Str)
        → count v (map (λ r. r.run_id) (kept ++ others)) ≡ count v (map (λ r. r.run_id) history))
    × All (λ k. All (λ o. NotNewer calendar k o) others) kept
unfolding str_eq
protected_ids-newest_example =
    protected_ids-newest calendar policy history ((pos 86400000, refl), ((pos 172800000, refl), tt))
