-- ===== src/FindString/Main.antt =====
-- `process_large_file` as its callers see it, `process` and `main` of
-- eset/find_string_in_files/src/main.cpp. The library's file system is a record, and the scheduler of the
-- threads gives the turns of each large file.
pub mod Runs
pub mod Schedules
use challenges.Common.{
  ℕ, zero, suc, ◌+◌, ◌-◌, ◌^◌, Bool, true, false, Option, none, some, List, [], ◌∷◌, ◌++◌, ltb,
  if◌then◌else◌, ◌>>=◌,
}
use challenges.FindString.Strings.{Text}
use challenges.FindString.{MatchInfo}
use challenges.FindString.Files.{Entry, file_size_limit, could_not_open, process_small_file}
use challenges.FindString.Format.{format_output}
use challenges.FindString.Large.Turns.{Turn, run_threads}

-- What a program has written to std::cout and std::cerr.
pub record Output : Type 0 where
  pub out : Text
  pub err : Text

pub record FileSystem (S : Type 0) : Type 0 where
  pub exists : Text → Bool
  pub is_directory : Text → Bool
  -- fs::directory_entry (path)
  pub entry : Text → Entry
  -- What the recursive iterator comes by, and whether it is a directory.
  pub entries : Text → List (Entry × Bool)
  -- std::ifstream (path), for a file that can be opened
  pub stream : Text → S
  pub readsome : S → ℕ → Text × S

-- "it's really a large one\n"
abbrev pub large_one : Text
large_one =
    (b'i'
      ∷ (b't'
          ∷ (b'\''
              ∷ (b's'
                  ∷ (b' '
                      ∷ (b'r'
                          ∷ (b'e'
                              ∷ (b'a'
                                  ∷ (b'l'
                                      ∷ (b'l'
                                          ∷ (b'y'
                                              ∷ (b' '
                                                  ∷ (b'a'
                                                      ∷ (b' '
                                                          ∷ (b'l'
                                                            ∷ (b'a'
                                                            ∷ (b'r'
                                                            ∷ (b'g'
                                                            ∷ (b'e'
                                                            ∷ (b' '
                                                            ∷ (b'o'
                                                            ∷ (b'n'
                                                            ∷ (b'e'
                                                            ∷ (b'\n' ∷ []))))))))))))))))))))))))

-- "usage: prog <path> <string_to_match>\n"
abbrev pub usage : Text
usage =
    (b'u'
      ∷ (b's'
          ∷ (b'a'
              ∷ (b'g'
                  ∷ (b'e'
                      ∷ (b':'
                          ∷ (b' '
                              ∷ (b'p'
                                  ∷ (b'r'
                                      ∷ (b'o'
                                          ∷ (b'g'
                                              ∷ (b' '
                                                  ∷ (b'<'
                                                      ∷ (b'p'
                                                          ∷ (b'a'
                                                            ∷ (b't'
                                                            ∷ (b'h'
                                                            ∷ (b'>'
                                                            ∷ (b' '
                                                            ∷ (b'<'
                                                            ∷ (b's'
                                                            ∷ (b't'
                                                            ∷ (b'r'
                                                            ∷ (b'i'
                                                            ∷ (b'n'
                                                            ∷ (b'g'
                                                            ∷ (b'_'
                                                            ∷ (b't'
                                                            ∷ (b'o'
                                                            ∷ (b'_'
                                                            ∷ (b'm'
                                                            ∷ (b'a'
                                                            ∷ (b't'
                                                            ∷ (b'c'
                                                            ∷ (b'h'
                                                            ∷ (b'>'
                                                            ∷ (b'\n'
                                                            ∷ [])))))))))))))))))))))))))))))))))))))

-- "path "
abbrev pub does_not_exist_start : Text
does_not_exist_start = (b'p' ∷ (b'a' ∷ (b't' ∷ (b'h' ∷ (b' ' ∷ [])))))

-- " does not exist"
abbrev pub does_not_exist : Text
does_not_exist =
    (b' '
      ∷ (b'd'
          ∷ (b'o'
              ∷ (b'e'
                  ∷ (b's'
                      ∷ (b' '
                          ∷ (b'n'
                              ∷ (b'o'
                                  ∷ (b't'
                                      ∷ (b' '
                                          ∷ (b'e'
                                              ∷ (b'x' ∷ (b'i' ∷ (b's' ∷ (b't' ∷ [])))))))))))))))

abbrev pub exit_failure : ℕ
exit_failure = 2 ^ 32 - 1

module _ {S : Type 0} (fs : FileSystem S) (schedule : Entry → List Turn) (target : Text) where
  -- `none` where the turns do not bring the function to its end.
  unfoldable pub process_large_file : Entry → Option (List MatchInfo × Output)
  unfolding run_threads
  process_large_file entry = elim entry.content [
    | none ↦
        some ([], record { out = large_one; err = could_not_open ++ (entry.path ++ (b'\n' ∷ [])) })
    | some content ↦ do
      printed ←
          run_threads fs.readsome target entry.path (schedule entry) (fs.stream entry.path)
            entry.file_size
      some ([], record { out = large_one ++ printed; err = [] })
  ]

  -- The matches, and what was written on the way to them.
  unfoldable pub process : Entry → Option (List MatchInfo × Output)
  unfolding process_large_file process_small_file
  process entry =
      if ltb entry.file_size file_size_limit
      then (do
        result ← process_small_file entry target
        some (result.0, record { out = []; err = result.1 }))
      else process_large_file entry

  -- A file that is not in a directory, after what was written before.
  unfoldable pub process_path : Entry → (before : Output) → Option Output
  unfolding process format_output
  process_path entry before = do
    vec ← process entry
    some (record {
      out = before.out ++ (vec.1.out ++ format_output vec.0 target);
      err = before.err ++ vec.1.err;
    })

  -- A file within the loop, which goes on where the vector is empty.
  unfoldable pub process_entry : Entry → (before : Output) → Option Output
  unfolding process format_output
  process_entry entry before = do
    vec ← process entry
    let written : Output = record { out = before.out ++ vec.1.out; err = before.err ++ vec.1.err }
    elim vec.0 [
      | [] ↦ some written
      | c ∷ v ↦ some (record written { out = written.out ++ format_output (c ∷ v) target })
    ]

  unfoldable pub process_entries : List (Entry × Bool) → (before : Output) → Option Output
  unfolding process_entry
  process_entries [] before = some before
  process_entries ((entry, is_directory) ∷ entries) before = do
    after ← (if is_directory then some before else process_entry entry before)
    process_entries entries after

-- Nothing was written yet.
abbrev pub silent : Output
silent = record { out = []; err = [] }

-- The exit status, with what was written; `argv` has the program's name first.
unfoldable pub main :
    {S : Type 0} (fs : FileSystem S) (schedule : Entry → List Turn) (argv : List Text)
    → Option (ℕ × Output)
unfolding process_entries process_path
main fs schedule (prog ∷ (path ∷ (target ∷ more))) =
    if fs.exists path
    then (do
      output ←
          (if fs.is_directory path
            then process_entries fs schedule target (fs.entries path) silent
            else process_path fs schedule target (fs.entry path) silent)
      some (0, output))
    else some
        (exit_failure, record { out = []; err = does_not_exist_start ++ (path ++ does_not_exist) })
main fs schedule argv = some (exit_failure, record { out = []; err = usage })
