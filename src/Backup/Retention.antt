-- ===== src/Backup/Retention.antt =====
-- application/apply-registered-backup-retention.ts, on the runs of domain/backup-run.ts.
pub mod Pages
pub mod Deletion
pub mod Laws
pub mod Refused
pub mod Newest
use atlas_manager.Base.{
  ℕ, zero, suc, ◌*◌, Bool, true, false, not, ◌||◌, List, [], ◌∷◌, ◌++◌, map, Str, str_eq, Option,
  some, none, Result, ok, err, ◌>>=◌, length, keep, any, all, includes, ltb, leb, if◌then◌else◌,
}
use atlas_manager.Base.Sort.{sort_by}
use atlas_manager.Base.Int.{ℤ, pos, ◌-ℤ◌, ltb_ℤ}
use atlas_manager.Base.Platform.{Dates}

pub data Trigger : Type 0 where
  manual scheduled : Trigger

pub data RunStatus : Type 0 where
  started succeeded failed interrupted : RunStatus

pub record ArtifactSummary : Type 0 where
  pub file_count : ℕ
  pub total_bytes : ℕ
  pub manifest_sha256 : Str
  pub completed_at : Str

pub record BackupRun : Type 0 where
  pub sequence : ℕ
  pub run_id : Str
  pub target_id : Str
  pub trigger : Trigger
  pub scheduled_for : Option Str
  pub requested_at : Str
  pub started_at : Str
  pub completed_at : Option Str
  pub status : RunStatus
  pub artifact : Option ArtifactSummary
  pub failure_code : Option Str

pub record ManagedArtifact : Type 0 where
  pub target_id : Str
  pub run_id : Str
  pub completed_at : Str
  pub manifest_sha256 : Str

-- `none` is an age of `null`.
pub record RetentionPolicy : Type 0 where
  pub keep_last_successful : ℕ
  pub max_successful_age_days : Option ℕ

pub data RetentionOutcome : Type 0 where
  completed busy blocked partial : RetentionOutcome

pub record RetentionResult : Type 0 where
  pub target_id : Str
  pub processed_count : ℕ
  pub deleted_count : ℕ
  pub result : RetentionOutcome

-- `port_failed` is the error of a collaborator, `out_of_rounds` that the rounds of the model are used up.
pub data RetentionError : Type 0 where
  target_not_found history_corrupt port_failed out_of_rounds : RetentionError

abbrev pub has_artifact : BackupRun → Bool
has_artifact r = elim r.artifact [ some a ↦ true | none ↦ false ]

abbrev pub last_run : List BackupRun → Option BackupRun
last_run [] = none
last_run (r ∷ []) = some r
last_run (r ∷ s ∷ rs) = last_run (s ∷ rs)

-- The sequence from which the next page is read; `none` if it does not grow.
abbrev pub next_after : ℕ → Option BackupRun → Option ℕ
next_after after none = none
next_after after (some last) = if leb last.sequence after then none else some last.sequence

-- What a page adds, and the sequence from which the loop goes on, if it does.
abbrev pub read_page :
    ℕ → Option (List BackupRun) → Result RetentionError (List BackupRun × Option ℕ)
read_page after none = err port_failed
read_page after (some page) = elim (ltb (length page) 100) [
  | true ↦ ok (keep has_artifact page, none)
  | false ↦ elim (next_after after (last_run page)) [
    | none ↦ err history_corrupt
    | some next ↦ ok (keep has_artifact page, some next)
  ]
]

-- The loop over the pages of 100 runs.
unfoldable pub read_pages :
    ℕ → (ℕ → Option (List BackupRun)) → ℕ → Result RetentionError (List BackupRun)
read_pages zero query after = err out_of_rounds
read_pages (suc fuel) query after = read_page after (query after) >>= λ page. elim page.1 [
  | none ↦ ok page.0
  | some next ↦ read_pages fuel query next >>= λ runs. ok (page.0 ++ runs)
]

-- `Date.parse(run.completedAt ?? "")`.
abbrev pub run_time : Dates → BackupRun → Option ℤ
run_time d r = elim r.completed_at [ some s ↦ d.parse s | none ↦ d.parse [] ]

-- A difference of times decides unless it is zero or not a number.
abbrev pub decides : Option ℤ → Option ℤ → Bool → Bool
decides none b otherwise = otherwise
decides (some a) none otherwise = otherwise
decides (some a) (some b) otherwise =
    if ltb_ℤ a b then true else if ltb_ℤ b a then false else otherwise

-- The comparator of the runs is negative: the later run first.
abbrev pub is_newer : Dates → BackupRun → BackupRun → Bool
is_newer d left right =
    decides (run_time d right) (run_time d left) (ltb right.sequence left.sequence)

-- `xs.slice(0, n)`.
abbrev pub first_of : {A : Type 0} → ℕ → List A → List A
first_of n [] = []
first_of zero (x ∷ xs) = []
first_of (suc n) (x ∷ xs) = x ∷ first_of n xs

unfoldable pub protected_ids : Dates → RetentionPolicy → List BackupRun → List Str
protected_ids d p runs =
    map (λ r. r.run_id) (first_of p.keep_last_successful (sort_by (is_newer d) runs))

abbrev pub is_successful : List BackupRun → Str → Bool
is_successful runs id = any (λ r. str_eq r.run_id id) runs

abbrev pub is_too_old : Dates → RetentionPolicy → ℤ → ManagedArtifact → Bool
is_too_old d p now a = elim p.max_successful_age_days [
  | none ↦ false
  | some days ↦ elim (d.parse a.completed_at) [
    | none ↦ false
    | some t ↦ ltb_ℤ (pos (days * 86400000)) (now -ℤ t)
  ]
]

abbrev pub is_deleted : Dates → RetentionPolicy → List BackupRun → ℤ → ManagedArtifact → Bool
is_deleted d p runs now a =
    if includes (protected_ids d p runs) a.run_id
    then false
    else is_too_old d p now a || is_successful runs a.run_id

-- The comparator of the artifacts is negative; `collates` is `localeCompare` being negative.
abbrev pub is_earlier : Dates → (Str → Str → Bool) → ManagedArtifact → ManagedArtifact → Bool
is_earlier d collates left right =
    decides (d.parse left.completed_at) (d.parse right.completed_at)
      (collates left.run_id right.run_id)

unfoldable pub deletion_of :
    Dates
    → (Str → Str → Bool)
    → RetentionPolicy
    → List BackupRun
    → ℤ
    → List ManagedArtifact
    → List ManagedArtifact
deletion_of d collates p runs now artifacts =
    sort_by (is_earlier d collates) (keep (is_deleted d p runs now) artifacts)

-- The collaborators, on the states `W` of the world: `none` is a call that throws, or a gate that is taken.
pub record RetentionPorts (W : Type 0) : Type 0 where
  pub find_by_id : Str → Option RetentionPolicy
  pub try_acquire : W → Option W
  pub release : W → W
  pub query : Str → W → ℕ → Option (List BackupRun)
  pub list_managed : Str → W → Option (List ManagedArtifact)
  pub remove_managed : Str → Str → W → W × Bool
  pub now : W → ℤ

-- One round of the deletion, with what the later rounds give.
abbrev pub add_removal : {W : Type 0} → Bool → W → W × (ℕ × Bool) → W × (ℕ × Bool)
add_removal true w (w', (n, finished)) = (w', (suc n, finished))
add_removal false w later = (w, (0, false))

abbrev pub outcome_of : ℕ → Bool → RetentionOutcome
outcome_of n true = completed
outcome_of zero false = blocked
outcome_of (suc n) false = partial

module _ {W : Type 0} (ports : RetentionPorts W) where
  -- The loop of the deletion: how many artifacts were removed, and whether all were.
  unfoldable pub remove_all : Str → List ManagedArtifact → W → W × (ℕ × Bool)
  remove_all target [] w = (w, (0, true))
  remove_all target (a ∷ rest) w =
      let (w', removed) = ports.remove_managed target a.run_id w in
      add_removal removed w' (remove_all target rest w')

  abbrev pub removed_result : Str → ℕ → W × (ℕ × Bool) → W × Result RetentionError RetentionResult
  removed_result target processed (w, (n, finished)) = (
    w,
    ok (record {
      target_id = target;
      processed_count = processed;
      deleted_count = n;
      result = outcome_of n finished;
    }),
  )

  module _ (d : Dates) (collates : Str → Str → Bool) where
    abbrev pub with_artifacts :
        Str
        → RetentionPolicy
        → List BackupRun
        → Option (List ManagedArtifact)
        → W
        → W × Result RetentionError RetentionResult
    with_artifacts target p runs none w = (w, err port_failed)
    with_artifacts target p runs (some artifacts) w =
        elim (all (λ a. is_successful runs a.run_id) artifacts) [
          | false ↦ (
            w,
            ok (record {
              target_id = target;
              processed_count = length artifacts;
              deleted_count = 0;
              result = blocked;
            }),
          )
          | true ↦
              removed_result target (length artifacts)
                (remove_all target (deletion_of d collates p runs (ports.now w) artifacts) w)
        ]

    abbrev pub with_runs :
        Str
        → RetentionPolicy
        → Result RetentionError (List BackupRun)
        → W
        → W × Result RetentionError RetentionResult
    with_runs target p (err e) w = (w, err e)
    with_runs target p (ok runs) w = with_artifacts target p runs (ports.list_managed target w) w

    abbrev pub released :
        W × Result RetentionError RetentionResult → W × Result RetentionError RetentionResult
    released (w, r) = (ports.release w, r)

    abbrev pub with_gate :
        ℕ → Str → RetentionPolicy → Option W → W → W × Result RetentionError RetentionResult
    with_gate fuel target p none w = (
      w,
      ok (record { target_id = target; processed_count = 0; deleted_count = 0; result = busy }),
    )
    with_gate fuel target p (some held) w =
        released (with_runs target p (read_pages fuel (ports.query target held) 0) held)

    unfoldable pub execute_retention : ℕ → Str → W → W × Result RetentionError RetentionResult
    execute_retention fuel target w = elim (ports.find_by_id target) [
      | none ↦ (w, err target_not_found)
      | some p ↦ with_gate fuel target p (ports.try_acquire w) w
    ]
