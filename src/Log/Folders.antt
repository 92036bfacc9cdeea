-- ===== src/Log/Folders.antt =====
-- The folders of the log file.
use video_player_core.Base.{
  ℕ, ◌≡◌, refl, sym, ◌∙◌, Bool, true, false, List, [], ◌∷◌, ◌++◌, length, arith, append_assoc,
  subst, ◌<◌,
}
use video_player_core.Log.Thread.{is_slash, make_folders, create_multi_level_dir}

module _ (exists : List (List ℕ) → List ℕ → Bool) (mkdir : List ℕ → Bool)
    (stays : (made : List (List ℕ)) (p q : List ℕ)
      → exists made p ≡ true
      → exists (q ∷ made) p ≡ true)
    (is_made : (made : List (List ℕ)) (p : List ℕ) → exists (p ∷ made) p ≡ true) where
  -- What is there stays there.
  kept :
      (made : List (List ℕ)) (before path p : List ℕ)
      → exists made p ≡ true
      → exists (make_folders exists mkdir made before path).0 p ≡ true
  unfolding make_folders
  kept made before [] p there = there
  kept made before (c ∷ path) p there =
      let here = before ++ c ∷ [] in
      ground (
        arith,
        stays made p here there,
        kept made here path p there,
        kept (here ∷ made) here path p (stays made p here there),
      )

  slash_there :
      (made : List (List ℕ)) (before : List ℕ) (c : ℕ) (ys : List ℕ)
      → is_slash c ≡ true
      → (make_folders exists mkdir made before (c ∷ ys)).1 ≡ true
      → exists (make_folders exists mkdir made before (c ∷ ys)).0 (before ++ c ∷ []) ≡ true
  unfolding make_folders
  slash_there made before c ys slash ok =
      let here = before ++ c ∷ [] in
      ground (arith, kept made here ys here, kept (here ∷ made) here ys here (is_made made here))

  -- If the loop comes to the end, every folder on the path is there, and none that was there goes.
  make_folders_lem :
      (made : List (List ℕ)) (before xs : List ℕ) (c : ℕ) (ys p : List ℕ)
      → is_slash c ≡ true
      → p ≡ before ++ (xs ++ c ∷ [])
      → (make_folders exists mkdir made before (xs ++ c ∷ ys)).1 ≡ true
      → exists (make_folders exists mkdir made before (xs ++ c ∷ ys)).0 p ≡ true
  unfolding make_folders
  make_folders_lem made before [] c ys p slash e ok =
      subst (λ q. exists (make_folders exists mkdir made before (c ∷ ys)).0 q ≡ true) (sym e)
        (slash_there made before c ys slash ok)
  make_folders_lem made before (x ∷ xs) c ys p slash e ok =
      let here = before ++ x ∷ [] in
      let same : p ≡ here ++ (xs ++ c ∷ []) =
        e ∙ sym (append_assoc before (x ∷ []) (xs ++ c ∷ [])) in
      ground (
        arith,
        make_folders_lem made here xs c ys p slash same,
        make_folders_lem (here ∷ made) here xs c ys p slash same,
      )

  -- When `createMultiLevelDir` returns 0 for the path of the log file, the folders down to every
  -- separator of the path are there, if a folder that was made is there and stays; a path of more
  -- than 1024 characters is refused before anything is made.
  pub create_multi_level_dir_lem :
      (xs : List ℕ) (c : ℕ) (ys : List ℕ)
      → is_slash c ≡ true
      → let (made, ok) = create_multi_level_dir exists mkdir (xs ++ c ∷ ys) in
        (ok ≡ true → exists made (xs ++ c ∷ []) ≡ true)
        × (1024 < length (xs ++ c ∷ ys) → (ok ≡ false) × (made ≡ []))
  unfolding create_multi_level_dir
  create_multi_level_dir_lem xs c ys slash = (
    λ ok. ground (arith, make_folders_lem [] [] xs c ys (xs ++ c ∷ []) slash refl),
    λ long. (ground arith, ground arith),
  )
