-- ===== src/FindString/Main/Runs.antt =====
-- Runs of `main` in eset/find_string_in_files/src/main.cpp, by what it finds at the path.
use mathlib.Core.List.{append_assoc, append-nil}
use challenges.Common.{
  length, ℕ, ◌<◌, ◌≡◌, ◌≢◌, ◌⊎◌, ◌↔◌, inl, inr, refl, sym, ap, ap₂, ◌∙◌, Bool, true, false, Option,
  none, some, List, [], ◌∷◌, ◌++◌, ◌>>=◌, arith, Bool-cases, Option-cases, lt→ltb,
}
use challenges.FindString.Strings.{Text}
use challenges.FindString.{MatchInfo}
use challenges.FindString.Files.{Entry, file_size_limit}
use challenges.FindString.Files.Small.{HasNoZero, process_small_file-Occurs}
use challenges.FindString.Format.{format_output}
use challenges.FindString.Large.Turns.{Turn}
use challenges.FindString.Format.Lines.{count, newlines, count-format_output}
use challenges.FindString.Occurrences.{In, IsAbove, Occurs, HasPath, offsets}
use challenges.FindString.Main.{
  Output, FileSystem, exit_failure, process, process_path, process_entry, process_entries, silent,
  main,
}

-- What two parts of a run write, one after the other.
abbrev pub then_writes : Output → Output → Output
then_writes a b = record { out = a.out ++ b.out; err = a.err ++ b.err }

then_writes_assoc :
    (a b c : Output) → then_writes (then_writes a b) c ≡ then_writes a (then_writes b c)
then_writes_assoc a b c =
    ap₂ (λ (o e : Text). record { out = o; err = e }) (append_assoc a.out b.out c.out)
      (append_assoc a.err b.err c.err)

module _ {S : Type 0} (fs : FileSystem S) (schedule : Entry → List Turn) (target : Text) where
  -- Each file is searched by itself, and what the searches write is joined.
  abbrev pub joined : List (Entry × Bool) → Option Output
  joined [] = some silent
  joined ((entry, true) ∷ entries) = joined entries
  joined ((entry, false) ∷ entries) = do
    here ← process_path fs schedule target entry silent
    there ← joined entries
    some (then_writes here there)

  process_entry-process_path :
      (entry : Entry) (before : Output)
      → process_entry fs schedule target entry before ≡ (
          process_path fs schedule target entry silent >>= (λ here. some (then_writes before here)))
  unfolding process_entry process_path format_output
  process_entry-process_path entry before = elim (Option-cases (process fs schedule target entry)) [
    | inl failed ↦ rw failed refl
    | inr (([], written), found) ↦ rw found (
        ap some (
          ap (λ (o : Text). record { out = o; err = before.err ++ written.err })
            (ap (λ o. before.out ++ o) (sym (append-nil written.out)))))
    | inr ((c ∷ v, written), found) ↦ rw found (
        ap some (
          ap (λ (o : Text). record { out = o; err = before.err ++ written.err })
            (append_assoc before.out written.out (format_output (c ∷ v) target))))
  ]

  process_entries-joined :
      (entries : List (Entry × Bool)) (before : Output)
      → process_entries fs schedule target entries before
        ≡ (joined entries >>= (λ after. some (then_writes before after)))
  unfolding process_entries
  process_entries-joined [] before = ap some (
      ap₂ (λ (o e : Text). record { out = o; err = e }) (sym (append-nil before.out))
        (sym (append-nil before.err)))
  process_entries-joined ((entry, true) ∷ entries) before = process_entries-joined entries before
  process_entries-joined ((entry, false) ∷ entries) before =
      elim (Option-cases (process_path fs schedule target entry silent)) [
        | inl failed ↦ rw (process_entry-process_path, failed) refl
        | inr (here, found) ↦
            rw
              (
                process_entry-process_path,
                found,
                process_entries-joined entries (then_writes before here),
              )
              (elim (Option-cases (joined entries)) [
                | inl failed ↦ rw failed refl
                | inr (there, rest) ↦ rw rest (ap some (then_writes_assoc before here there))
              ])
      ]

-- For a path that exists and is a directory, `main` writes what separate searches of the files that
-- the iterator comes by write, joined in its order and without the directories, and ends with
-- status 0; where one of these searches has no result, neither has `main`.
pub main-joined :
    {S : Type 0} (fs : FileSystem S) (schedule : Entry → List Turn) (prog path target : Text)
    (more : List Text)
    → fs.exists path ≡ true
    → fs.is_directory path ≡ true
    → main fs schedule (prog ∷ (path ∷ (target ∷ more)))
      ≡ (joined fs schedule target (fs.entries path) >>= (λ written. some (0, written)))
unfolding main
main-joined fs schedule prog path target more there directory =
    rw (there, directory, process_entries-joined)
      (elim (Option-cases (joined fs schedule target (fs.entries path))) [
        | inl failed ↦ rw failed refl
        | inr (written, found) ↦ rw found refl
      ])

-- The arguments name a path that exists, and a string.
abbrev pub CanSearch : {S : Type 0} → FileSystem S → List Text → Type 0
CanSearch fs (prog ∷ (path ∷ (target ∷ more))) = fs.exists path ≡ true
CanSearch fs argv = ⊥

status_of : Option (ℕ × Output) → ℕ
status_of none = 0
status_of (some (status, written)) = status

written_of : Option (ℕ × Output) → Output
written_of none = silent
written_of (some (status, written)) = written

refused :
    (c : ℕ) (s : Text) (status : ℕ) (written : Output)
    → ◌≡◌ {A = Option (ℕ × Output)}
        (some (exit_failure, record { out = []; err = c ∷ s }))
        (some (status, written))
    → (status ≡ exit_failure) × (written.out ≡ []) × (written.err ≢ [])
unfolding status_of written_of
refused c s status written e = (
  sym (ap status_of e),
  sym (ap (λ (r : Option (ℕ × Output)). (written_of r).out) e),
  λ no_text.
      let shown : c ∷ s ≡ written.err = ap (λ (r : Option (ℕ × Output)). (written_of r).err) e in
      cc,
)

succeeded :
    (o : Option Output) (status : ℕ) (written : Output)
    → ◌>>=◌ {B = ℕ × Output} o (λ output. some (0, output)) ≡ some (status, written)
    → status ≡ 0
unfolding status_of
succeeded none status written e = absurd (cc)
succeeded (some output) status written e = sym (ap status_of e)

-- Where `main` ends, its status is 0, and then the arguments name a path that exists and a target,
-- or it is -1, and then they do not, nothing is written to std::cout, and something is written to
-- std::cerr.
pub main-status :
    {S : Type 0} (fs : FileSystem S) (schedule : Entry → List Turn) (argv : List Text) (status : ℕ)
    (written : Output)
    → main fs schedule argv ≡ some (status, written)
    → ((status ≡ 0) × CanSearch fs argv)
      ⊎ ((status ≡ exit_failure) × (written.out ≡ []) × (written.err ≢ []) × (¬ CanSearch fs argv))
unfolding main
main-status fs schedule (prog ∷ (path ∷ (target ∷ more))) status written e =
    elim (Bool-cases (fs.exists path)) [
      | inl there ↦ inl (succeeded _ status written (rw there at e), there)
      | inr missing ↦
          let (failed, no_out, some_err) = refused _ _ status written (rw missing at e) in
          inr (failed, no_out, some_err, λ there. let both = sym there ∙ missing in cc)
    ]
main-status fs schedule [] status written e =
    let (failed, no_out, some_err) = refused _ _ status written e in
    inr (failed, no_out, some_err, λ there. there)
main-status fs schedule (prog ∷ []) status written e =
    let (failed, no_out, some_err) = refused _ _ status written e in
    inr (failed, no_out, some_err, λ there. there)
main-status fs schedule (prog ∷ (path ∷ [])) status written e =
    let (failed, no_out, some_err) = refused _ _ status written e in
    inr (failed, no_out, some_err, λ there. there)

newlines-HasPath :
    (v : List MatchInfo) (path target : Text)
    → HasPath path v
    → count b'\n' path ≡ 0
    → count b'\n' target ≡ 0
    → newlines v target ≡ length v
unfolding newlines length
newlines-HasPath [] path target h no_path no_target = refl
newlines-HasPath (m ∷ v) path target (here, rest) no_path no_target = omega (
  arith,
  ap (count b'\n') here,
  no_path,
  no_target,
  newlines-HasPath v path target rest no_path no_target,
)

-- For a path to a small file that can be read and has a byte or more, and a target of a byte or
-- more that are not zero, where the path and the target have no newline, `main` ends with status 0
-- and writes to std::cout what `format_output` makes of a list of matches, one line for each of
-- them, and nothing to std::cerr; the offsets in the list increase, and they are exactly the places
-- at which the target occurs in the contents without their last byte.
pub main-occurrences :
    {S : Type 0} (fs : FileSystem S) (schedule : Entry → List Turn) (prog path s : Text) (end c : ℕ)
    (target : Text) (more : List Text)
    → fs.exists path ≡ true
    → fs.is_directory path ≡ false
    → (fs.entry path).content ≡ some (s ++ (end ∷ []))
    → (fs.entry path).file_size ≡ length (s ++ (end ∷ []))
    → (fs.entry path).file_size < file_size_limit
    → HasNoZero (c ∷ target)
    → count b'\n' (fs.entry path).path ≡ 0
    → count b'\n' (c ∷ target) ≡ 0
    → (ms : List MatchInfo) × (main fs schedule (prog ∷ (path ∷ ((c ∷ target) ∷ more)))
        ≡ some (0, record { out = format_output ms (c ∷ target); err = [] }))
      × (count b'\n' (format_output ms (c ∷ target)) ≡ length ms)
      × IsAbove 0 (offsets ms)
      × ((p : ℕ) → In p (offsets ms) ↔ Occurs s (c ∷ target) p)
unfolding main process_path process
main-occurrences fs schedule prog path s end c target more there file opened size small no_zero
      no_path no_target =
    let (ms, found, above, same_path, occurs) =
      process_small_file-Occurs (fs.entry path) s end c target opened size small no_zero in
    (
      ms,
      rw (there, file, lt→ltb (fs.entry path).file_size file_size_limit small, found) refl,
      count-format_output ms (c ∷ target)
          ∙ newlines-HasPath ms (fs.entry path).path (c ∷ target) same_path no_path no_target,
      above,
      occurs,
    )
