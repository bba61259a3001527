-- ===== src/Backup/Retention/Pages.antt =====
-- The loop over the pages of a history.
use atlas_manager.Base.{
  ℕ, zero, suc, ◌+◌, ◌≤◌, ◌<◌, ◌≡◌, refl, sym, ap, ◌∙◌, inl, inr, Bool, true, false, List, [], ◌∷◌,
  ◌++◌, arith, Option, some, none, ok, length, length-append, keep, All, All-map_imp, Pairwise,
  Bool-cases, ltb,
}
use mathlib.Core.List.{append_assoc}
use atlas_manager.Backup.Retention.{
  BackupRun, has_artifact, last_run, next_after, first_of, read_pages, read_page,
}

-- What `query` promises: of the runs in ascending order, the first 100 that come after a sequence.
abbrev pub newer : ℕ → BackupRun → Bool
newer after r = ltb after r.sequence

abbrev pub Ascending : List BackupRun → Type 0
Ascending runs = Pairwise (λ r s. r.sequence < s.sequence) runs

abbrev pub Answers : List BackupRun → (ℕ → Option (List BackupRun)) → Type 0
Answers history query = (after : ℕ) → query after ≡ some (first_of 100 (keep (newer after) history))

abbrev pub rest_of : {A : Type 0} → ℕ → List A → List A
rest_of n [] = []
rest_of zero (x ∷ xs) = x ∷ xs
rest_of (suc n) (x ∷ xs) = rest_of n xs

first_of-all : {A : Type 0} (n : ℕ) (xs : List A) → length (first_of n xs) < n → first_of n xs ≡ xs
first_of-all n [] h = refl
first_of-all zero (x ∷ xs) h = absurd (omega arith)
first_of-all (suc n) (x ∷ xs) h = ap (λ l. x ∷ l) (first_of-all n xs (omega arith))

pub first_of-rest_of : {A : Type 0} (n : ℕ) (xs : List A) → first_of n xs ++ rest_of n xs ≡ xs
first_of-rest_of n [] = refl
first_of-rest_of zero (x ∷ xs) = refl
first_of-rest_of (suc n) (x ∷ xs) = ap (λ l. x ∷ l) (first_of-rest_of n xs)

keep-append :
    {A : Type 0} (p : A → Bool) (xs ys : List A) → keep p (xs ++ ys) ≡ keep p xs ++ keep p ys
keep-append p [] ys = refl
keep-append p (x ∷ xs) ys = elim (Bool-cases (p x)) [
  | inl e ↦ rw e (ap (λ l. x ∷ l) (keep-append p xs ys))
  | inr e ↦ rw e (keep-append p xs ys)
]

keep-none : {A : Type 0} (p : A → Bool) (xs : List A) → All (λ x. p x ≡ false) xs → keep p xs ≡ []
keep-none p [] h = refl
keep-none p (x ∷ xs) h = rw h.0 (keep-none p xs h.1)

keep-every : {A : Type 0} (p : A → Bool) (xs : List A) → All (λ x. p x ≡ true) xs → keep p xs ≡ xs
keep-every p [] h = refl
keep-every p (x ∷ xs) h = rw h.0 (ap (λ l. x ∷ l) (keep-every p xs h.1))

All-split : {A : Type 0} (P : A → Type 0) (xs ys : List A) → All P (xs ++ ys) → All P xs × All P ys
All-split P [] ys h = (tt, h)
All-split P (x ∷ xs) ys h = let (a, b) = All-split P xs ys h.1 in ((h.0, a), b)

All-append : {A : Type 0} (P : A → Type 0) (xs ys : List A) → All P xs → All P ys → All P (xs ++ ys)
All-append P [] ys h k = k
All-append P (x ∷ xs) ys h k = (h.0, All-append P xs ys h.1 k)

pub Pairwise-split :
    {A : Type 0} (R : A → A → Type 0) (xs ys : List A)
    → Pairwise R (xs ++ ys)
    → Pairwise R xs × Pairwise R ys × All (λ x. All (R x) ys) xs
Pairwise-split R [] ys h = (tt, h, tt)
Pairwise-split R (x ∷ xs) ys h =
    let (a, b, c) = Pairwise-split R xs ys h.1 in
    let (front, back) = All-split (R x) xs ys h.0 in ((front, a), b, (back, c))

-- The last run of a page has the greatest sequence.
last-greatest :
    (r : BackupRun) (rs : List BackupRun)
    → Ascending (r ∷ rs)
    → (l : BackupRun) × (last_run (r ∷ rs) ≡ some l)
      × All (λ s. s.sequence ≤ l.sequence) (r ∷ rs)
      × ((P : BackupRun → Type 0) → All P (r ∷ rs) → P l)
last-greatest r [] h = (r, refl, (omega arith, tt), λ P k. k.0)
last-greatest r (s ∷ rs) h =
    let (l, found, most, at) = last-greatest s rs h.1 in
    let above : r.sequence < l.sequence = at (λ x. r.sequence < x.sequence) h.0 in
    (l, found, (omega (arith, above), most), λ P k. at P k.1)

nonempty :
    (rs : List BackupRun) → 1 ≤ length rs → (r : BackupRun) × (ss : List BackupRun) × (rs ≡ r ∷ ss)
nonempty [] h = absurd (omega arith)
nonempty (r ∷ ss) h = (r, ss, refl)

-- The history from a sequence on: the runs up to it, and the runs after it.
record IsCut (after : ℕ) (before later : List BackupRun) : Type 0 where
  old : All (λ r. r.sequence ≤ after) before
  new : All (λ r. after < r.sequence) later
  ascending : Ascending later

keep-later :
    (after : ℕ) (before later : List BackupRun)
    → IsCut after before later
    → keep (newer after) (before ++ later) ≡ later
keep-later after before later c =
    keep-append (newer after) before later
    ∙ rw (keep-none (newer after) before (All-map_imp _ _ before (λ r h. ground (arith, h)) c.old))
        (keep-every (newer after) later (All-map_imp _ _ later (λ r h. ground (arith, h)) c.new))

-- A page cuts the history at its last run.
page-IsCut :
    (after : ℕ) (before page rest : List BackupRun)
    → IsCut after before (page ++ rest)
    → 1 ≤ length page
    → (next : ℕ) × (next_after after (last_run page) ≡ some next) × IsCut next (before ++ page) rest
page-IsCut after before [] rest c h = absurd (omega arith)
page-IsCut after before (r ∷ rs) rest c h =
    let (page_up, rest_up, cross) =
      Pairwise-split (λ x y. x.sequence < y.sequence) (r ∷ rs) rest c.ascending in
    let (l, found, most, at) = last-greatest r rs page_up in
    let above : after < l.sequence =
      at (λ x. after < x.sequence) (All-split (λ x. after < x.sequence) (r ∷ rs) rest c.new).0 in
    (
      l.sequence,
      ap (next_after after) found ∙ grows l above,
      record {
        old =
            All-append (λ x. x.sequence ≤ l.sequence) before (r ∷ rs)
              (All-map_imp _ _ before (λ x k. omega (arith, k, above)) c.old) most;
        new = at (λ x. All (λ y. x.sequence < y.sequence) rest) cross;
        ascending = rest_up;
      },
    )
  where
    grows : (l : BackupRun) → after < l.sequence → next_after after (some l) ≡ some l.sequence
    grows l above = ground (arith, above)

read_page-last :
    (after : ℕ) (page : List BackupRun)
    → ltb (length page) 100 ≡ true
    → read_page after (some page) ≡ ok (keep has_artifact page, none)
read_page-last after page e = rw (e, read_page) refl

read_page-full :
    (after next : ℕ) (page : List BackupRun)
    → ltb (length page) 100 ≡ false
    → next_after after (last_run page) ≡ some next
    → read_page after (some page) ≡ ok (keep has_artifact page, some next)
read_page-full after next page e e' = rw (e, read_page) (rw e' refl)

module _ (history : List BackupRun) (query : ℕ → Option (List BackupRun))
    (answers : Answers history query) where
  read_pages-later :
      (fuel after : ℕ) (before later : List BackupRun)
      → before ++ later ≡ history
      → IsCut after before later
      → length later < fuel
      → read_pages fuel query after ≡ ok (keep has_artifact later)
  unfolding read_pages
  read_pages-later zero after before later whole c h = absurd (omega arith)
  read_pages-later (suc fuel) after before later whole c h =
      let page = first_of 100 later in
      let rest = rest_of 100 later in
      let both : page ++ rest ≡ later = first_of-rest_of 100 later in
      let answered : query after ≡ some page =
        answers after
        ∙ ap (λ l. some (first_of 100 l)) (rw (← whole) (keep-later after before later c)) in
      elim (Bool-cases (ltb (length page) 100)) [
        | inl e ↦
            rw (ap (read_page after) answered ∙ read_page-last after page e)
              (ap (λ l. ok (keep has_artifact l)) (first_of-all 100 later (ground (arith, e))))
        | inr e ↦
            let (next, grown, c') =
              page-IsCut after before page rest (rw both c) (ground (arith, e)) in
            let sizes : length page + length rest ≡ length later =
              sym (length-append page rest) ∙ ap length both in
            let later_runs =
              read_pages-later fuel next (before ++ page) rest
                (append_assoc before page rest ∙ ap (λ l. before ++ l) both ∙ whole) c'
                (ground (arith, e, sizes)) in
            rw (ap (read_page after) answered ∙ read_page-full after next page e grown, later_runs)
              (ap ok (sym (keep-append has_artifact page rest) ∙ ap (keep has_artifact) both))
      ]

-- The pages of a store that answers with the runs after a sequence, in ascending order from 1 on, are together its
-- whole history, less the runs without an artifact: the loop ends without an error within one round more than
-- there are runs.
pub read_pages-history :
    (history : List BackupRun) (query : ℕ → Option (List BackupRun)) (fuel : ℕ)
    → Answers history query
    → Ascending history
    → All (λ r. 0 < r.sequence) history
    → length history < fuel
    → read_pages fuel query 0 ≡ ok (keep has_artifact history)
read_pages-history history query fuel answers up positive enough =
    read_pages-later history query answers fuel 0 [] history refl
      (record { old = tt; new = positive; ascending = up }) enough
