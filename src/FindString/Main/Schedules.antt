-- ===== src/FindString/Main/Schedules.antt =====
-- Runs of `main` in eset/find_string_in_files/src/main.cpp for a path to a large file.
use mathlib.Core.List.{Perm, append-nil}
use mathlib.Core.Option.{some-injective}
use challenges.Common.{
  ℕ, ◌%◌, ◌/◌, ◌^◌, ◌≤◌, ◌<◌, ◌≡◌, ◌↔◌, inl, inr, refl, sym, ap, ◌∙◌, true, false, Option, some,
  List, [], ◌∷◌, ◌++◌, ◌>>=◌, Option-cases, le→not_ltb,
}
use challenges.FindString.Strings.{Text}
use challenges.FindString.Files.{Entry, file_size_limit}
use challenges.FindString.Format.{format_output}
use challenges.FindString.Large.{chunk_size, read_in_order}
use challenges.FindString.Large.Turns.{Turn, run_threads, concat}
use challenges.FindString.Large.Runs.{run_threads-Reach, run_threads-ends}
use challenges.FindString.Large.Schedules.{Reach-written}
use challenges.FindString.Main.{
  Output, FileSystem, large_one, process, process_large_file, process_path, main,
}

module _ {S : Type 0} (fs : FileSystem S) (prog path target : Text) (more : List Text)
    (content : Text) (there : fs.exists path ≡ true) (file : fs.is_directory path ≡ false)
    (opened : (fs.entry path).content ≡ some content)
    (large : file_size_limit ≤ (fs.entry path).file_size)
    (size : (fs.entry path).file_size < 2 ^ 64) where
  abbrev argv : List Text
  argv = prog ∷ (path ∷ (target ∷ more))

  -- What the threads write, after the line that announces a large file.
  abbrev announced : Text → ℕ × Output
  announced printed = (0, record { out = large_one ++ printed; err = [] })

  abbrev threads : List Turn → Option Text
  threads turns =
      run_threads fs.readsome target (fs.entry path).path turns (fs.stream (fs.entry path).path)
        (fs.entry path).file_size

  process_large_file-threads :
      (schedule : Entry → List Turn)
      → process_large_file fs schedule target (fs.entry path) ≡ (
          threads (schedule (fs.entry path))
          >>= (λ printed. some ([], record { out = large_one ++ printed; err = [] })))
  unfolding process_large_file
  process_large_file-threads schedule = rw opened refl

  main-announced :
      (schedule : Entry → List Turn)
      → main fs schedule argv
        ≡ (threads (schedule (fs.entry path)) >>= (λ printed. some (announced printed)))
  unfolding main process_path process format_output
  main-announced schedule =
      rw
        (
          there,
          file,
          le→not_ltb (fs.entry path).file_size file_size_limit large,
          process_large_file-threads schedule,
        )
        (elim (Option-cases (threads (schedule (fs.entry path)))) [
          | inl failed ↦ rw failed refl
          | inr (printed, e) ↦ rw (e, append-nil (large_one ++ printed)) refl
        ])

  -- For a path to a large file of less than 2 ^ 64 bytes that can be opened, whatever the turns
  -- of the threads, where `main` ends its status is 0, nothing goes to std::cerr, and std::cout
  -- gets the line that announces a large file and then a rearrangement of what reading the chunks
  -- of the file one after the other, searching each by itself and formatting its matches gives.
  pub main-rearranged :
      (schedule : Entry → List Turn) (status : ℕ) (written : Output)
      → main fs schedule (prog ∷ (path ∷ (target ∷ more))) ≡ some (status, written)
      → (order : List Text) × (blocks : List Text) × (last : S) × (read_in_order fs.readsome target
            (fs.entry path).path
            ((fs.entry path).file_size / chunk_size)
            (fs.stream (fs.entry path).path)
          ≡ some (blocks, last))
        × Perm order blocks
        × (status ≡ 0)
        × (written.out ≡ large_one ++ concat order)
        × (written.err ≡ [])
  main-rearranged schedule status written e =
      elim (Option-cases (threads (schedule (fs.entry path)))) [
        | inl failed ↦
            absurd (let no_result = rw failed at (sym (main-announced schedule) ∙ e) in cc)
        | inr (printed, ended) ↦
            let shown : announced printed ≡ (status, written) =
              some-injective (announced printed) (status, written)
                (rw ended at (sym (main-announced schedule) ∙ e)) in
            let whole : (fs.entry path).file_size % chunk_size ≡ 0 =
              (run_threads-ends fs.readsome target (fs.entry path).path
                  (fs.stream (fs.entry path).path) (fs.entry path).file_size size).0
                (schedule (fs.entry path), printed, ended) in
            let (n, s, r, done, concat_s) =
              run_threads-Reach fs.readsome target (fs.entry path).path
                (fs.stream (fs.entry path).path) (fs.entry path).file_size
                (schedule (fs.entry path)) printed ended in
            let (blocks, in_order, perm) =
              Reach-written fs.readsome target (fs.entry path).path (fs.stream (fs.entry path).path)
                (fs.entry path).file_size n s size whole r done in
            (
              s.printed,
              blocks,
              s.stream,
              in_order,
              perm,
              sym (ap (λ (p : ℕ × Output). p.0) shown),
              sym (ap (λ (p : ℕ × Output). p.1.out) shown) ∙ ap (λ k. large_one ++ k) concat_s,
              sym (ap (λ (p : ℕ × Output). p.1.err) shown),
            )
      ]

  -- For a path to a large file of less than 2 ^ 64 bytes that can be opened, there are turns of
  -- the threads with which `main` ends exactly where the size of the file is a whole number of
  -- chunks.
  pub main-ends :
      ((schedule : Entry → List Turn) × (result : ℕ × Output) × (main fs schedule
            (prog ∷ (path ∷ (target ∷ more)))
          ≡ some result))
      ↔ ((fs.entry path).file_size % chunk_size ≡ 0)
  main-ends = (to, from)
    where
      ends :
          ((turns : List Turn) × (printed : Text) × (threads turns ≡ some printed))
          ↔ ((fs.entry path).file_size % chunk_size ≡ 0)
      ends =
          run_threads-ends fs.readsome target (fs.entry path).path (fs.stream (fs.entry path).path)
            (fs.entry path).file_size size

      to :
          (schedule : Entry → List Turn) × (result : ℕ × Output) × (main fs schedule
                (prog ∷ (path ∷ (target ∷ more)))
              ≡ some result)
          → (fs.entry path).file_size % chunk_size ≡ 0
      to (schedule, result, e) = elim (Option-cases (threads (schedule (fs.entry path)))) [
        | inl failed ↦
            absurd (let no_result = rw failed at (sym (main-announced schedule) ∙ e) in cc)
        | inr (printed, ended) ↦ ends.0 (schedule (fs.entry path), printed, ended)
      ]

      from :
          (fs.entry path).file_size % chunk_size ≡ 0
          → (schedule : Entry → List Turn) × (result : ℕ × Output) × (main fs schedule
                (prog ∷ (path ∷ (target ∷ more)))
              ≡ some result)
      from whole =
          let (turns, printed, ended) = ends.1 whole in
          (λ entry. turns, announced printed, main-announced (λ entry. turns) ∙ rw ended refl)
