-- ===== src/Examples/Search.antt =====
-- The theorems on eset/find_string_in_files/src/main.cpp at concrete inputs.
use mathlib.Core.List.{Memᴰ}
use challenges.Common.{
  length, ℕ, ◌+◌, ◌≡◌, ◌≢◌, ◌⊎◌, ◌↔◌, refl, true, false, none, some, List, [], ◌∷◌, ◌++◌, ◌>>=◌,
  arith, leb,
}
use challenges.FindString.Strings.{Text, starts_with}
use challenges.FindString.{MatchInfo, null_text, process_chunk}
use challenges.FindString.Occurrences.{In, IsAbove, Occurs, HasPath, offsets, process_chunk-Occurs}
use challenges.FindString.Context.{last_three, first_three, process_chunk-context}
use challenges.FindString.Files.{Entry, process_small_file}
use challenges.FindString.Files.Errors.{process_small_file-undefined}
use challenges.FindString.Format.{format_output}
use challenges.FindString.Format.Lines.{count}
use challenges.FindString.Large.Turns.{Turn}
use challenges.FindString.Main.{Output, FileSystem, exit_failure, usage, main}
use challenges.FindString.Main.Runs.{joined, CanSearch, main-joined, main-status, main-occurrences}

-- "one.\n"
abbrev line : Text
line = b'o' ∷ (b'n' ∷ (b'e' ∷ (b'.' ∷ (b'\n' ∷ []))))

-- "ne"
abbrev ne : Text
ne = b'n' ∷ (b'e' ∷ [])

-- "f"
abbrev name : Text
name = b'f' ∷ []

-- "one.\none.\n"
abbrev lines : Text
lines = line ++ line

process_chunk-Occurs_example :
    (ms : List MatchInfo) × (process_chunk lines ne name ≡ some ms)
    × IsAbove 0 (offsets ms)
    × HasPath name ms
    × ((p : ℕ) → In p (offsets ms) ↔ Occurs lines ne p)
unfolding length
process_chunk-Occurs_example = process_chunk-Occurs lines ne name (omega arith)

abbrev first_match : MatchInfo
first_match = record {
  filename = name;
  offset = 1;
  prefix = null_text;
  suffix = b'.' ∷ (b'\n' ∷ (b'o' ∷ []));
}

abbrev second_match : MatchInfo
second_match = record {
  filename = name;
  offset = 6;
  prefix = b'.' ∷ (b'\n' ∷ (b'o' ∷ []));
  suffix = null_text;
}

lines_matches : process_chunk lines ne name ≡ some (first_match ∷ (second_match ∷ []))
unfolding process_chunk
lines_matches = refl

process_chunk-context_example :
    (before : Text) × (after : Text) × (lines ≡ before ++ (ne ++ after))
    × (second_match ≡ record {
      filename = name;
      offset = length before;
      prefix = last_three before;
      suffix = first_three after;
    })
unfolding length
process_chunk-context_example =
    process_chunk-context lines ne name (first_match ∷ (second_match ∷ [])) second_match
      (omega arith) lines_matches (Memᴰ.tail (Memᴰ.head refl))

abbrev empty_file : Entry
empty_file = record { path = name; file_size = 0; content = some [] }

process_small_file-undefined_example :
    (process_small_file empty_file ne ≡ none) ↔ (empty_file.file_size ≡ 0)
process_small_file-undefined_example =
    process_small_file-undefined empty_file [] ne refl (omega arith)

-- A directory with one file, in a directory that has another directory.
abbrev line_file : Entry
line_file = record { path = name; file_size = 5; content = some line }

abbrev files : FileSystem ℕ
files = record {
  exists = λ path. starts_with name path;
  is_directory = λ path. leb 2 (length path);
  entry = λ path. line_file;
  entries = λ path. (empty_file, true) ∷ ((line_file, false) ∷ []);
  stream = λ path. 0;
  readsome = λ reads n. ([], reads + 1);
}

abbrev no_turns : Entry → List Turn
no_turns entry = []

-- "fd"
abbrev directory : Text
directory = b'f' ∷ (b'd' ∷ [])

main-joined_example : main files no_turns (name ∷ (directory ∷ (ne ∷ []))) ≡ (
    joined files no_turns ne ((empty_file, true) ∷ ((line_file, false) ∷ []))
    >>= (λ written. some (0, written)))
unfolding length starts_with
main-joined_example = main-joined files no_turns name directory ne [] refl refl

abbrev usage_written : Output
usage_written = record { out = []; err = usage }

main-status_example :
    ((exit_failure ≡ 0) × CanSearch files (name ∷ (name ∷ [])))
    ⊎ ((exit_failure ≡ exit_failure)
        × (usage_written.out ≡ [])
        × (usage_written.err ≢ [])
        × (¬ CanSearch files (name ∷ (name ∷ []))))
unfolding main
main-status_example =
    main-status files no_turns (name ∷ (name ∷ [])) exit_failure usage_written refl

main-occurrences_example :
    (ms : List MatchInfo) × (main files no_turns (name ∷ (name ∷ (ne ∷ [])))
      ≡ some (0, record { out = format_output ms ne; err = [] }))
    × (count b'\n' (format_output ms ne) ≡ length ms)
    × IsAbove 0 (offsets ms)
    × ((p : ℕ) → In p (offsets ms) ↔ Occurs (b'o' ∷ (b'n' ∷ (b'e' ∷ (b'.' ∷ [])))) ne p)
unfolding length starts_with count
main-occurrences_example =
    main-occurrences files no_turns name name (b'o' ∷ (b'n' ∷ (b'e' ∷ (b'.' ∷ [])))) b'\n' b'n'
      (b'e' ∷ []) [] refl refl refl refl (omega arith)
      ((λ z. absurd (omega (arith, z))), ((λ z. absurd (omega (arith, z))), tt)) refl refl
