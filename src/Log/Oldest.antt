-- ===== src/Log/Oldest.antt =====
-- Which log file goes.
use video_player_core.Base.{
  ℕ, suc, ◌+◌, ◌≤◌, ◌<◌, ◌≡◌, refl, ap, ◌∙◌, inl, inr, ◌⊎◌, true, Option, none, some, List, [], ◌∷◌,
  ltb, arith, Option-cases, Bool-cases,
}
use video_player_core.Log.Backups.{
  Name, same_name, latest, Scan, no_files, backup_time, see, scan, unlink, clean_directory,
}

module _ (parse : Name → Option (ℕ × ℕ)) where
  -- The number of log files.
  pub backups : List Name → ℕ
  backups [] = 0
  backups (n ∷ names) = elim (backup_time parse n) [
    | none ↦ backups names
    | some t ↦ suc (backups names)
  ]

  -- Times that `time_t` can hold.
  abbrev pub Dated : List Name → Type 0
  Dated [] = Unit {0}
  Dated (n ∷ names) = ((t : ℕ) → backup_time parse n ≡ some t → t < latest) × Dated names

  scan-count : (names : List Name) (s : Scan) → (scan parse names s).count ≡ s.count + backups names
  unfolding scan see backups
  scan-count [] s = omega arith
  scan-count (n ∷ names) s = ground (arith, scan-count names (see parse n s))

  -- No log file is older.
  pub NoOlder : ℕ → List Name → Type 0
  NoOlder t [] = Unit {0}
  NoOlder t (n ∷ names) = ((u : ℕ) → backup_time parse n ≡ some u → t ≤ u) × NoOlder t names

  abbrev pub In : Name → List Name → Type 0
  In name [] = ⊥
  In name (n ∷ names) = (n ≡ name) ⊎ In name names

  scan_bound : (names : List Name) (s : Scan) → (scan parse names s).earliest ≤ s.earliest
  unfolding scan see
  scan_bound [] s = omega arith
  scan_bound (n ∷ names) s = ground (arith, scan_bound names (see parse n s))

  scan-NoOlder : (names : List Name) (s : Scan) → NoOlder (scan parse names s).earliest names
  unfolding scan see NoOlder
  scan-NoOlder [] s = tt
  scan-NoOlder (n ∷ names) s =
      (λ u e. ground (arith, scan_bound names (see parse n s)), scan-NoOlder names (see parse n s))

  -- Where the oldest comes from.
  abbrev Found : Scan → List Name → Scan → Type 0
  Found s names s' =
      ((s'.early ≡ s.early) × (s'.earliest ≡ s.earliest))
      ⊎ (In s'.early names × (backup_time parse s'.early ≡ some s'.earliest))

  scan-Found : (names : List Name) (s : Scan) → Found s names (scan parse names s)
  unfolding scan see
  scan-Found [] s = inl (refl, refl)
  scan-Found (n ∷ names) s = elim (scan-Found names (see parse n s)) [
    | inr (there, time) ↦ inr (inr there, time)
    | inl (early, earliest) ↦ elim (Option-cases (backup_time parse n)) [
      | inl no_backup ↦ inl (ground arith, ground arith)
      | inr (t, dated) ↦ elim (Bool-cases (ltb t s.earliest)) [
        | inl older ↦ inr (inl (ground arith), ground arith)
        | inr newer ↦ inl (ground arith, ground arith)
      ]
    ]
  ]

  -- Times below the latest one.
  scan_found :
      (names : List Name) (s : Scan)
      → Dated names
      → s.earliest ≡ latest
      → 0 < backups names
      → (scan parse names s).earliest < latest
  unfolding scan see backups
  scan_found [] s d e pos = absurd (omega arith)
  scan_found (n ∷ names) s (d, ds) e pos = elim (Option-cases (backup_time parse n)) [
    | inl no_backup ↦ ground (arith, scan_found names s ds e)
    | inr (t, dated) ↦ ground (arith, d t dated, scan_bound names (see parse n s))
  ]

  same_name_refl : (n : Name) → same_name n n ≡ true
  unfolding same_name
  same_name_refl [] = refl
  same_name_refl (x ∷ xs) = ground (arith, same_name_refl xs)

  same_name_eq : (m n : Name) → same_name m n ≡ true → m ≡ n
  unfolding same_name
  same_name_eq [] [] e = refl
  same_name_eq [] (y ∷ ys) e = absurd (ground arith)
  same_name_eq (x ∷ xs) [] e = absurd (ground arith)
  same_name_eq (x ∷ xs) (y ∷ ys) e = ground (arith, same_name_eq xs ys)

  backups-unlink :
      (name : Name) (t : ℕ) (names : List Name)
      → In name names
      → backup_time parse name ≡ some t
      → suc (backups (unlink name names)) ≡ backups names
  unfolding unlink backups
  backups-unlink name t [] there e = elim there [ ]
  backups-unlink name t (n ∷ names) (inl is) e =
      ground (arith, same_name_refl n, same_name_eq name n)
  backups-unlink name t (n ∷ names) (inr there) e =
      ground (arith, same_name_eq name n, backups-unlink name t names there e)

  -- Nothing, or the removal of one log file that is no newer than any other.
  abbrev pub Cleans : ℕ → List Name → List Name → Type 0
  Cleans max_backups folder out =
      (backups folder ≤ max_backups → out ≡ folder)
      × (max_backups < backups folder
          → (name : Name) × (t : ℕ) × In name folder
            × (backup_time parse name ≡ some t)
            × NoOlder t folder
            × (out ≡ unlink name folder)
            × (suc (backups out) ≡ backups folder))

  -- Cleaning leaves a folder with no more log files than allowed as it is, and removes exactly one
  -- from a larger one, a log file that is no newer than any other, if the times fit in `time_t`.
  pub clean_directory-Cleans :
      (max_backups : ℕ) (folder : List Name)
      → Dated folder
      → Cleans max_backups folder (clean_directory parse max_backups folder)
  unfolding clean_directory
  clean_directory-Cleans max_backups folder dated =
      let s = scan parse folder no_files in
      let count = scan-count folder no_files in
      (
        λ few. ground arith,
        λ many.
            let early = scan_found folder no_files dated refl (omega arith) in
            elim (scan-Found folder no_files) [
              | inl (same, earliest) ↦ absurd (omega arith)
              | inr (there, time) ↦
                  let out : clean_directory parse max_backups folder ≡ unlink s.early folder =
                    ground arith in
                  (
                    s.early,
                    s.earliest,
                    there,
                    time,
                    scan-NoOlder folder no_files,
                    out,
                    ap (λ f. suc (backups f)) out
                        ∙ backups-unlink s.early s.earliest folder there time,
                  )
            ],
      )
