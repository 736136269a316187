-- ===== src/FindString/Large/Chunks.antt =====
-- Which occurrences `read_chunk` of eset/find_string_in_files/src/main.cpp writes.
use challenges.Common.{
  length, ℕ, ◌-◌, ◌^◌, ◌<◌, ◌≡◌, ◌↔◌, refl, some, List, [], ◌∷◌, ◌++◌, arith, lt→not_leb,
}
use challenges.Memory.Words.{is_negative}
use challenges.FindString.Strings.{Text}
use challenges.FindString.{MatchInfo, process_chunk}
use challenges.FindString.Files.{fill, end_zero}
use challenges.FindString.Files.Small.{HasNoZero, buffer-Occurs}
use challenges.FindString.Format.{format_output}
use challenges.FindString.Occurrences.{In, IsAbove, Occurs, HasPath, offsets}
use challenges.FindString.Large.{read_chunk}

module _ {S : Type 0} (readsome : S → ℕ → Text × S) (path : Text) where
  read_chunk-read :
      (target : Text) (stream next : S) (n : ℕ) (read t : Text) (ms : List MatchInfo)
      → n < 2 ^ 63
      → readsome stream n ≡ (read, next)
      → end_zero (fill n read) ≡ some t
      → process_chunk t target path ≡ some ms
      → read_chunk readsome target path stream n ≡ some (format_output ms target, next)
  unfolding read_chunk is_negative
  read_chunk-read target stream next n read t ms small e buffer found =
      rw (lt→not_leb (2 ^ 63) n small, e, buffer, found) refl

  -- Where the stream gives `read_chunk` all the bytes it asks for, at least one and less than 2 ^
  -- 31 - 1, and the target has a byte or more that are not zero, what it writes are formatted
  -- matches of the given path whose offsets increase and are exactly the places at which the
  -- target occurs in those bytes without the last one.
  pub read_chunk-Occurs :
      (s : Text) (end c : ℕ) (target : Text) (stream next : S) (n : ℕ)
      → readsome stream n ≡ (s ++ (end ∷ []), next)
      → n ≡ length (s ++ (end ∷ []))
      → n < 2 ^ 31 - 1
      → HasNoZero (c ∷ target)
      → (ms : List MatchInfo) × (read_chunk readsome (c ∷ target) path stream n
          ≡ some (format_output ms (c ∷ target), next))
        × IsAbove 0 (offsets ms)
        × HasPath path ms
        × ((p : ℕ) → In p (offsets ms) ↔ Occurs s (c ∷ target) p)
  read_chunk-Occurs s end c target stream next n e size small no_zero =
      let (t, ms, buffer, found, above, same_path, occurs) =
        buffer-Occurs path s end c target n size small no_zero in
      (
        ms,
        read_chunk-read (c ∷ target) stream next n (s ++ (end ∷ [])) t ms (omega (arith, small)) e
            buffer found,
        above,
        same_path,
        occurs,
      )
