-- ===== src/Logs/Merged/Read.antt =====
-- The order of the merged log, and what `tail_log` reads and returns.
use web_zapret.Base.{
  ℕ, suc, ◌≡◌, ◌⊎◌, inl, inr, refl, ap, true, false, List, [], ◌∷◌, ◌++◌, map, Bool-cases, ℤ, All,
  sort_onto, sort_onto-IsOrdered, Perm-sort_onto, arith, Consecutive, IsOrdered-Consecutive,
}
use mathlib.Core.List.{Perm}
use web_zapret.Text.{before_text, Text, codes, same}
use web_zapret.Text.Laws.{before_text_asym, before_text_irrefl, same_iff}
use web_zapret.Logs.Merged.{
  Reader, Files, log_modules, is_source, Entry, before, size_limit, read_file_lines, collected,
  collected_entries, merged_rows, merged_log, row_count, tail_log,
}
use web_zapret.Logs.Merged.Entries.{
  IsInFront, AreCollected, same-false, collected-AreCollected, before-IsInFront,
}
use web_zapret.Logs.Merged.Tail.{IsShown, IsOneLog, merged_log-IsShown, tail_of-IsOneLog}

before_asym : (a b : Entry) → before a b ≡ true → before b a ≡ false
unfolding before
before_asym a b h = ground (
  arith,
  before_text_asym a.stamp b.stamp,
  before_text_irrefl a.stamp,
  same_iff a.stamp b.stamp,
  same_iff b.stamp a.stamp,
  λ (p : a.stamp ≡ b.stamp). ap (λ t. before_text a.stamp t) p,
  λ (p : a.stamp ≡ b.stamp). ap (λ t. before_text t a.stamp) p,
)

module _ (rt : Reader) where
  -- Of the modules' files, each is read up to its limit, and each line that was read becomes one entry, with
  -- the module's place in the list, the line's place, the time at its start, or at the last line before it
  -- that has one, and the module's tag in front of the text, except for `actions`; the result has these
  -- entries and no others, in the order of the times, then of the modules, then of the lines.
  pub collected_entries-IsOrdered :
      (files : Files) (limit : Text → ℕ)
      → Consecutive IsInFront (collected_entries rt files limit)
        × (rows : List Entry) × AreCollected rt files limit 0 log_modules rows
        × Perm rows (collected_entries rt files limit)
  unfolding collected_entries
  collected_entries-IsOrdered files limit =
      let entries = collected rt files limit 0 log_modules in
      (
        IsOrdered-Consecutive before IsInFront before-IsInFront (sort_onto before [] entries)
            (sort_onto-IsOrdered before before_asym [] entries tt),
        entries,
        collected-AreCollected rt files limit 0 log_modules,
        Perm-sort_onto before [] entries,
      )

  module _ (files other : Files)
      (agree : (name : Text) → is_source name ≡ true → files name ≡ other name) where
    collected_same :
        (limit : Text → ℕ) (rank : ℕ) (names : List Text)
        → All (λ name. is_source name ≡ true) names
        → collected rt files limit rank names ≡ collected rt other limit rank names
    unfolding collected
    collected_same limit rank [] h = refl
    collected_same limit rank (name ∷ names) (safe, h) =
        rw (agree name safe, collected_same limit (suc rank) names h) refl

    modules_safe : All (λ name. is_source name ≡ true) log_modules
    unfolding is_source
    modules_safe =
        (refl, (refl, (refl, (refl, (refl, (refl, (refl, (refl, (refl, (refl, tt))))))))))

    merged_same : (n : ℕ) → merged_log rt files n ≡ merged_log rt other n
    unfolding merged_log merged_rows collected_entries
    merged_same n = rw (collected_same size_limit 0 log_modules modules_safe) refl

  -- `tail_log` reads no file but the logs whose names consist of 1 to 64 of the characters a-z, 0-9, _ and -:
  -- for every source that a request names, the reply is the same where the other files differ.
  pub tail_log_isolated :
      (files other : Files) (src : Text) (n : ℤ)
      → ((name : Text) → is_source name ≡ true → files name ≡ other name)
      → tail_log rt files src n ≡ tail_log rt other src n
  unfolding tail_log
  tail_log_isolated files other src n agree = elim (Bool-cases (is_source src)) [
    | inl safe ↦ rw (agree src safe, merged_same files other agree (row_count rt n)) refl
    | inr bad ↦ rw bad refl
  ]

  -- The reply of `tail_log` to a source that it accepts. For `all` it has lines of the merged log, and for
  -- another source lines that were read of that log: the last ones, with their ends, as many as the request
  -- asks for, or one if it asks for fewer, or 5000 if it asks for more, or all if there are fewer. It is a
  -- message if the merged log is empty or the other log does not exist.
  pub tail_log-length :
      (files : Files) (src : Text) (n : ℤ)
      → is_source src ≡ true
      → ((src ≡ codes "all")
          × IsShown
              (codes "(no log entries available across modules)" ++ 10 ∷ [])
              n
              (map (λ (e : Entry). e.text) (collected_entries rt files size_limit))
              (tail_log rt files src n))
        ⊎ (¬ (src ≡ codes "all")
            × IsOneLog src n (read_file_lines rt (files src) 262144) (tail_log rt files src n))
  unfolding tail_log
  tail_log-length files src n h = elim (Bool-cases (same src (codes "all"))) [
    | inl e ↦ inl ((same_iff src (codes "all")).0 e, rw (h, e) (merged_log-IsShown rt files n))
    | inr e ↦ inr (
      same-false src (codes "all") e,
      rw (h, e) (tail_of-IsOneLog rt src n (read_file_lines rt (files src) 262144)),
    )
  ]
